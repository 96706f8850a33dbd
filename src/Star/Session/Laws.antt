-- ===== src/Star/Session/Laws.antt =====
-- Whole conversations over a session: framing is kept over any number of messages.
use rain_net.Common.{
  ℕ, zero, suc, ◌<◌, ◌≡◌, refl, true, none, some, List, [], ◌∷◌, ◌++◌, append_assoc, append-nil,
  arith, length, All, Bytes, ok, err, eof, read_full, ◌+◌, ◌≤◌, ap, inl, inr, Result-cases,
}
use rain_net.Star.Message.{Error, read_message, io, header, Message, IsSendable}
use rain_net.Star.Message.RoundTrip.{read_message_consumes, read-write, write_message_lem}
use rain_net.Star.Session.{Session, send, receive, receive_all, send_all}

-- On a connection that takes writes, Send appends exactly the frame of a sendable message.
pub send_lem :
    (s : Session) (m : Message)
    → IsSendable m
    → s.writable ≡ true
    → send s m ≡ (record s { output = s.output ++ (header m ++ m.payload) }, none)
unfolding send
send_lem s m h w = rw (write_message_lem m h, send) (rw w)

pub receive-frame :
    (s : Session) (m : Message) (rest : Bytes)
    → IsSendable m
    → s.input ≡ (header m ++ m.payload) ++ rest
    → receive s ≡ ok (m, record s { input = rest })
unfolding receive
receive-frame s m rest h e =
    rw (e, read-write m rest (header m ++ m.payload) h (write_message_lem m h))

abbrev frames : List Message → Bytes
frames [] = []
frames (m ∷ ms) = (header m ++ m.payload) ++ frames ms

send_all-frames :
    (s : Session) (ms : List Message)
    → All IsSendable ms
    → s.writable ≡ true
    → send_all s ms ≡ (record s { output = s.output ++ frames ms }, none)
unfolding send_all
send_all-frames s [] h w = ground (arith, append-nil s.output)
send_all-frames s (m ∷ ms) h w =
    let s' : Session = record s { output = s.output ++ (header m ++ m.payload) } in
    ground (
      arith,
      send_lem s m h.0 w,
      send_all-frames s' ms h.1 w,
      append_assoc s.output (header m ++ m.payload) (frames ms),
    )

receive_end : (s : Session) → s.input ≡ [] → receive s ≡ err (io eof)
unfolding receive read_message read_full
receive_end s e = rw e

receive_all-frames :
    (fuel : ℕ) (s : Session) (ms : List Message)
    → All IsSendable ms
    → length ms < fuel
    → s.input ≡ frames ms
    → receive_all fuel s ≡ (ms, some (io eof))
unfolding receive_all
receive_all-frames zero s ms h f e = absurd (omega arith)
receive_all-frames (suc fuel) s [] h f e = rw (receive_end s e, receive_all) refl
receive_all-frames (suc fuel) s (m ∷ ms) h f e =
    rw (receive-frame s m (frames ms) h.0 e, receive_all)
      (rw (receive_all-frames fuel (record s { input = frames ms }) ms h.1 (omega arith) refl))

-- Any number of sendable messages, sent one after the other on a fresh connection that takes writes,
-- are received by the other end as the same messages in the same order, and then the end of the
-- stream.
pub receive_all-send_all :
    (fuel : ℕ) (s r : Session) (ms : List Message)
    → All IsSendable ms
    → s.writable ≡ true
    → s.output ≡ []
    → r.input ≡ (send_all s ms).0.output
    → length ms < fuel
    → ((send_all s ms).1 ≡ none) × (receive_all fuel r ≡ (ms, some (io eof)))
receive_all-send_all fuel s r ms h w fresh wire f =
    let sent = send_all-frames s ms h w in
    let bytes : r.input ≡ frames ms = ground (arith, wire, sent, fresh) in
    (ap (λ x. x.1) sent, receive_all-frames fuel r ms h f bytes)

receive_consumes :
    (s s' : Session) (m : Message) → receive s ≡ ok (m, s') → length s'.input + 12 ≤ length s.input
unfolding receive
receive_consumes s s' m h = elim (Result-cases (read_message s.input)) [
  | inl ((m', rest), e) ↦ ground (arith, read_message_consumes s.input rest m' e)
  | inr (x, e) ↦ ground arith
]

-- On every input the read loop ends with an error: fuel above the number of bytes is never used up.
pub receive_all_total :
    (fuel : ℕ) (s : Session)
    → length s.input < fuel
    → (e : Error) × ((receive_all fuel s).1 ≡ some e)
unfolding receive_all
receive_all_total zero s h = absurd (omega arith)
receive_all_total (suc fuel) s h = elim (Result-cases (receive s)) [
  | inl ((m, s'), e) ↦
      let (x, p) = receive_all_total fuel s' (omega (arith, receive_consumes s s' m e)) in
      (x, rw (e, receive_all) p)
  | inr (x, e) ↦ (x, rw (e, receive_all) refl)
]
