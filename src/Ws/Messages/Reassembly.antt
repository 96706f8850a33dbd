-- ===== src/Ws/Messages/Reassembly.antt =====
-- ReadMessage puts the fragments of a peer together; Close sends nothing.
use rain_net.Common.{
  ℕ, suc, ◌<◌, ◌≡◌, refl, sym, ap, ap₂, subst, ◌∙◌, inl, inr, Bool, true, false, Option, none, some,
  List, [], ◌∷◌, ◌++◌, append_assoc, append-nil, arith, nat_beq, Bool-cases, length, All, Bytes, ok,
  err,
}
use rain_net.Ws.Op
use rain_net.Ws.{connection_closed, Frame, read_frame}
use rain_net.Ws.Conn.{
  Net, Conn, write_frame, more, done, on_frame, turn, read_loop, read_message, close,
}
use rain_net.Ws.Frames.{read_frame-frame_bytes}
use rain_net.Ws.Progress.{read_loop-done, read_loop-more}
use rain_net.Ws.Messages.{
  Sent, wire, IsReadable, is_control, joined, pings, Opens, IsMessage, last, part, control, Works,
  answered, answered_onto, answered_none, Assembling, data_step, Opens-is_control, ping_step,
  pong_step, read_turn,
}

module _ {net : Net} (works : Works net) (client : Bool) (rest : Bytes) where
  -- What is left to read and to answer, from any point of a message on.
  abbrev ReadsOn : Bool → List Sent → Type 0
  ReadsOn started ss =
      (msg : Option Bytes) (pre : Bytes) (c : Conn) (fuel : ℕ)
      → All (IsReadable client) ss
      → c.closed ≡ false
      → Assembling started msg pre
      → c.input ≡ wire client ss rest
      → length c.input < fuel
      → read_loop net fuel msg c
        ≡ some (ok (pre ++ joined ss), answered works (pings ss) (record c { input = rest }))

  first_frame :
      (s : Sent) (ss : List Sent) (msg : Option Bytes) (c : Conn)
      → IsReadable client s
      → c.input ≡ wire client (s ∷ ss) rest
      → turn net msg c ≡ on_frame net s.frame msg (record c { input = wire client ss rest })
  first_frame s ss msg c r e = read_turn net msg c s.frame (wire client ss rest) (
      subst (λ bs. read_frame bs ≡ ok (s.frame, wire client ss rest)) (sym e)
        (read_frame-frame_bytes client s.key s.frame (wire client ss rest) r.sendable r.fits))

  ReadsOn-last :
      (started : Bool) (s : Sent)
      → s.frame.fin ≡ true
      → Opens started s.frame.opcode
      → ReadsOn started (s ∷ [])
  ReadsOn-last started s fin opens msg pre c fuel readable live a e h =
      let c' : Conn = record c { input = rest } in
      let (plain, no_ping) = Opens-is_control net s.frame msg pre c started opens in
      let step : turn net msg c ≡ done (ok (pre ++ s.frame.payload)) c' =
        first_frame s [] msg c readable.0 e
        ∙ data_step net s.frame msg pre c' started opens a
        ∙ (rw fin refl) in
      rw (plain, no_ping)
        (read_loop-done net msg c (ok (pre ++ s.frame.payload)) c' (length c.input) fuel step h
          ∙ ap₂ (λ b d. some (ok (pre ++ b), d)) (sym (append-nil s.frame.payload))
              (sym (answered_none works c')))

  ReadsOn-part :
      (started : Bool) (s : Sent) (ss : List Sent)
      → s.frame.fin ≡ false
      → Opens started s.frame.opcode
      → ReadsOn true ss
      → ReadsOn started (s ∷ ss)
  ReadsOn-part started s ss fin opens later msg pre c fuel readable live a e h =
      let c' : Conn = record c { input = wire client ss rest } in
      let (plain, no_ping) = Opens-is_control net s.frame msg pre c started opens in
      let step : turn net msg c ≡ more (some (pre ++ s.frame.payload)) c' =
        first_frame s ss msg c readable.0 e
        ∙ data_step net s.frame msg pre c' started opens a
        ∙ (rw fin refl) in
      rw (plain, no_ping, sym (append_assoc pre s.frame.payload (joined ss)))
        (read_loop-more net msg c (some (pre ++ s.frame.payload)) c' _ fuel step
          (λ left more.
            later (some (pre ++ s.frame.payload)) (pre ++ s.frame.payload) c' left readable.1 live
              refl refl more)
          h)

  ReadsOn-control :
      (started : Bool) (s : Sent) (ss : List Sent)
      → is_control s.frame ≡ true
      → ReadsOn started ss
      → ReadsOn started (s ∷ ss)
  ReadsOn-control started s ss ctl later msg pre c fuel readable live a e h =
      let c' : Conn = record c { input = wire client ss rest } in
      elim (Bool-cases (nat_beq s.frame.opcode Op.ping)) [
        | inl ping ↦
            let step : turn net msg c ≡ more msg (answered works (s.frame.payload ∷ []) c') =
              first_frame s ss msg c readable.0 e ∙ ping_step works s.frame msg c' ping live in
            rw (ctl, ping)
              (read_loop-more net msg c msg (answered works (s.frame.payload ∷ []) c') _ fuel step
                  (λ left enough.
                    later msg pre (answered works (s.frame.payload ∷ []) c') left readable.1 live a
                      refl enough)
                  h
                ∙ ap (λ d. some (ok (pre ++ joined ss), d))
                    (answered_onto works s.frame.payload (pings ss) c' rest))
        | inr other ↦
            let step : turn net msg c ≡ more msg c' =
              first_frame s ss msg c readable.0 e ∙ pong_step works s.frame msg c' other ctl in
            rw (ctl, other)
              (read_loop-more net msg c msg c' _ fuel step
                (λ left enough. later msg pre c' left readable.1 live a refl enough) h)
      ]

  IsMessage-ReadsOn : {started : Bool} {ss : List Sent} → IsMessage started ss → ReadsOn started ss
  IsMessage-ReadsOn (last {started} s fin opens) = ReadsOn-last started s fin opens
  IsMessage-ReadsOn (part {started} s {ss} fin opens later) =
      ReadsOn-part started s ss fin opens (IsMessage-ReadsOn later)
  IsMessage-ReadsOn (control {started} s {ss} ctl later) =
      ReadsOn-control started s ss ctl (IsMessage-ReadsOn later)

  -- Whatever fragments a peer cuts a message into, with pings and pongs between them, one ReadMessage
  -- gives the message back, answers each ping in order by a pong with its payload, and stops
  -- behind the last fragment. No bound on the whole message is needed, only the one on each frame.
  pub read_message-IsMessage :
      (ss : List Sent) (c : Conn)
      → IsMessage false ss
      → All (IsReadable client) ss
      → c.closed ≡ false
      → c.input ≡ wire client ss rest
      → read_message net c
        ≡ some (ok (joined ss), answered works (pings ss) (record c { input = rest }))
  unfolding read_message
  read_message-IsMessage ss c m readable live e =
      IsMessage-ReadsOn m none [] c (suc (length c.input)) readable live refl e (omega arith)

-- Close on an open connection marks it closed first, so the close frame that it then writes is refused:
-- nothing is sent, and every later write is refused too.
pub close_silent :
    (net : Net) (f : Frame) (c : Conn)
    → ((close net c).output ≡ c.output)
      × ((close net c).closed ≡ true)
      × (write_frame net f (close net c) ≡ (err connection_closed, close net c))
unfolding close write_frame
close_silent net f c = ground arith
