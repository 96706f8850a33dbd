-- ===== src/Ws/Messages.antt =====
-- Messages over ws.go: what the frames of a peer carry, and the turns of ReadMessage on each.
pub mod Reassembly
use rain_net.Common.{
  ℕ, suc, ◌+◌, ◌≤◌, ◌≡◌, refl, ap, ap₂, subst, ◌∙◌, ◌⊎◌, inl, inr, Bool, true, false, ◌||◌, Option,
  some, List, [], ◌∷◌, ◌++◌, append_assoc, append-nil, arith, nat_beq, if◌then◌else◌, length, Bytes,
  ok,
}
use rain_net.Ws.Op
use rain_net.Ws.{Frame, frame_bytes, max_message_size, read_frame}
use rain_net.Ws.Conn.{
  Net, Conn, whole, send_frame, keyed, write_frame, write_control, more, done, on_data,
  on_continuation, after_pong, on_frame, turn,
}
use rain_net.Ws.Frames.{IsSendable}

-- A frame that a peer wrote, with the key that it drew for it.
pub record Sent : Type 0 where
  pub key : Bytes
  pub frame : Frame

abbrev pub wire : Bool → List Sent → Bytes → Bytes
wire client [] rest = rest
wire client (s ∷ ss) rest = frame_bytes client s.key s.frame ++ wire client ss rest

pub record IsReadable (client : Bool) (s : Sent) : Type 0 where
  pub sendable : IsSendable client s.key s.frame
  pub fits : length s.frame.payload ≤ max_message_size

abbrev pub is_control : Frame → Bool
is_control f = nat_beq f.opcode Op.ping || nat_beq f.opcode Op.pong

-- The bytes of the data frames, and the payloads of the pings.
abbrev pub joined : List Sent → Bytes
joined [] = []
joined (s ∷ ss) = if is_control s.frame then joined ss else s.frame.payload ++ joined ss

abbrev pub pings : List Sent → List Bytes
pings [] = []
pings (s ∷ ss) = if nat_beq s.frame.opcode Op.ping then s.frame.payload ∷ pings ss else pings ss

-- A message starts with a text or a binary frame, goes on with continuation frames, ends with FIN, and
-- has pings and pongs anywhere before that end.
abbrev pub Opens : Bool → ℕ → Type 0
Opens false op = (op ≡ Op.text) ⊎ (op ≡ Op.binary)
Opens true op = op ≡ Op.continuation

pub data IsMessage : Bool → List Sent → Type 0 where
  last :
      {started : Bool} (s : Sent)
      → s.frame.fin ≡ true
      → Opens started s.frame.opcode
      → IsMessage started (s ∷ [])
  part :
      {started : Bool} (s : Sent) {ss : List Sent}
      → s.frame.fin ≡ false
      → Opens started s.frame.opcode
      → IsMessage true ss
      → IsMessage started (s ∷ ss)
  control :
      {started : Bool} (s : Sent) {ss : List Sent}
      → is_control s.frame ≡ true
      → IsMessage started ss
      → IsMessage started (s ∷ ss)

-- A connection that can be written: every write is taken, and random bytes are there for each key.
pub record Works (net : Net) : Type 0 where
  pub accepts_all : (n : ℕ) → net.accepts n ≡ true
  pub key : ℕ → Bytes
  pub random_fills : (n : ℕ) → net.random n ≡ some (key n)

module _ {net : Net} (works : Works net) where
  abbrev pub key_for : Bool → ℕ → Bytes
  key_for client n = if client then works.key n else []

  abbrev pub pongs : Bool → ℕ → List Bytes → List Bytes
  pongs client n [] = []
  pongs client n (p ∷ ps) =
      frame_bytes client (key_for client n) (whole Op.pong p) ∷ pongs client (suc n) ps

  -- The connection after a pong for each of the pings.
  abbrev pub answered : List Bytes → Conn → Conn
  answered ps c = record c {
    output = c.output ++ pongs c.client c.tries ps;
    tries = c.tries + length ps;
  }

  pub write_frame_lem :
      (f : Frame) (c : Conn)
      → c.closed ≡ false
      → write_frame net f c ≡ (
        ok tt,
        record c {
          output = c.output ++ (frame_bytes c.client (key_for c.client c.tries) f ∷ []);
          tries = suc c.tries;
        },
      )
  unfolding write_frame keyed send_frame
  write_frame_lem f c h = ground (arith, works.accepts_all c.tries, works.random_fills c.tries)

  pub answered_onto :
      (p : Bytes) (ps : List Bytes) (c : Conn) (rest : Bytes)
      → answered ps (record (answered (p ∷ []) c) { input = rest })
        ≡ answered (p ∷ ps) (record c { input = rest })
  answered_onto p ps c rest =
      let pong : Bytes = frame_bytes c.client (key_for c.client c.tries) (whole Op.pong p) in
      let first : suc c.tries ≡ c.tries + 1 = omega arith in
      subst
        (λ n.
          record c {
            input = rest;
            output = (c.output ++ (pong ∷ [])) ++ pongs c.client n ps;
            tries = n + length ps;
          }
          ≡ answered (p ∷ ps) (record c { input = rest }))
        first
        (ap₂ (λ o t. record c { input = rest; output = o; tries = t })
          (append_assoc c.output (pong ∷ []) (pongs c.client (suc c.tries) ps)) (omega arith))

  pub answered_none : (c : Conn) → answered [] c ≡ c
  answered_none c =
      ap₂ (λ o t. record c { output = o; tries = t }) (append-nil c.output) (omega arith)

-- The message assembled so far, when there is one.
abbrev pub Assembling : Bool → Option Bytes → Bytes → Type 0
Assembling false msg pre = pre ≡ []
Assembling true msg pre = msg ≡ some pre

module _ (net : Net) (f : Frame) (msg : Option Bytes) (pre : Bytes) (c : Conn) where
  pub data_step :
      (started : Bool)
      → Opens started f.opcode
      → Assembling started msg pre
      → on_frame net f msg c
        ≡ (if f.fin then done (ok (pre ++ f.payload)) c else more (some (pre ++ f.payload)) c)
  unfolding on_frame on_data on_continuation
  data_step false (inl e) a = ground arith
  data_step false (inr e) a = ground arith
  data_step true e a = ground arith

  pub Opens-is_control :
      (started : Bool)
      → Opens started f.opcode
      → (is_control f ≡ false) × (nat_beq f.opcode Op.ping ≡ false)
  Opens-is_control false (inl e) = ground arith
  Opens-is_control false (inr e) = ground arith
  Opens-is_control true e = ground arith

pub read_turn :
    (net : Net) (msg : Option Bytes) (c : Conn) (f : Frame) (tail : Bytes)
    → read_frame c.input ≡ ok (f, tail)
    → turn net msg c ≡ on_frame net f msg (record c { input = tail })
unfolding turn
read_turn net msg c f tail e = rw (e, turn) refl

-- The turns for a control frame.
module _ {net : Net} (works : Works net) (f : Frame) (msg : Option Bytes) (c : Conn) where
  on_ping :
      nat_beq f.opcode Op.ping ≡ true
      → on_frame net f msg c ≡ after_pong msg (write_frame net (whole Op.pong f.payload) c)
  unfolding on_frame write_control
  on_ping e = ground arith

  pub ping_step :
      nat_beq f.opcode Op.ping ≡ true
      → c.closed ≡ false
      → on_frame net f msg c ≡ more msg (answered works (f.payload ∷ []) c)
  unfolding after_pong
  ping_step e live =
      on_ping e
      ∙ ap (after_pong msg) (write_frame_lem works (whole Op.pong f.payload) c live)
      ∙ ap
          (λ t. more msg (record c {
            output =
                c.output
                ++ (frame_bytes c.client (key_for works c.client c.tries) (whole Op.pong f.payload)
                    ∷ []);
            tries = t;
          }))
          (omega arith)

  pub pong_step :
      nat_beq f.opcode Op.ping ≡ false → is_control f ≡ true → on_frame net f msg c ≡ more msg c
  unfolding on_frame
  pong_step e ctl = ground arith
