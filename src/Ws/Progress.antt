-- ===== src/Ws/Progress.antt =====
-- ReadMessage's loop ends, since each frame takes bytes off the stream.
use rain_net.Common.{
  ℕ, zero, suc, ◌≤◌, ◌<◌, ◌≡◌, refl, ◌⊎◌, inl, inr, Option, none, some, [], arith, if◌then◌else◌,
  length, Bytes, Result, ok, err, Result-cases,
}
use rain_net.Ws.Op
use rain_net.Ws.{connection_closed, Frame, Error, read_frame}
use rain_net.Ws.Conn.{
  Net, Conn, whole, send_frame, keyed, write_frame, write_control, Step, more, done, on_data,
  on_continuation, after_pong, on_frame, turn, read_loop, read_message,
}
use rain_net.Ws.Shrinking.{read_frame_shorter}

-- Writing leaves the other direction alone.
pub write_frame-input : (net : Net) (f : Frame) (c : Conn) → (write_frame net f c).1.input ≡ c.input
unfolding write_frame keyed send_frame
write_frame-input net f c = by_key (if c.client then net.random c.tries else some [])
  where
    by_key :
        (key : Option Bytes)
        → (if c.closed then (err connection_closed, c) else keyed net key f c).1.input ≡ c.input
    by_key none = ground arith
    by_key (some key) = ground arith

-- A step that read the frames up to `rest`.
abbrev Took : Bytes → Step → Type 0
Took rest (more msg c) = c.input ≡ rest
Took rest (done r c) = c.input ≡ rest

after_pong-Took :
    (rest : Bytes) (msg : Option Bytes) (w : Result Error (Unit {0}) × Conn)
    → w.1.input ≡ rest
    → Took rest (after_pong msg w)
unfolding after_pong
after_pong-Took rest msg (ok u, c) h = h
after_pong-Took rest msg (err e, c) h = h

on_continuation-Took :
    (f : Frame) (msg : Option Bytes) (c : Conn) → Took c.input (on_continuation f msg c)
unfolding on_continuation
on_continuation-Took f none c = refl
on_continuation-Took f (some m) c = ground arith

on_frame-Took :
    (net : Net) (f : Frame) (msg : Option Bytes) (c : Conn) → Took c.input (on_frame net f msg c)
unfolding on_frame on_data write_control
on_frame-Took net f msg c = ground (
  arith,
  on_continuation-Took f msg c,
  after_pong-Took c.input msg (write_frame net (whole Op.pong f.payload) c)
      (write_frame-input net (whole Op.pong f.payload) c),
  write_frame-input net (whole Op.close []) c,
)

abbrev Shortens : ℕ → Step → Type 0
Shortens n (more msg c) = length c.input < n
Shortens n (done r c) = length c.input ≤ n

Took-Shortens : (rest : Bytes) (n : ℕ) (s : Step) → Took rest s → length rest < n → Shortens n s
Took-Shortens rest n (more msg c) e h = rw e h
Took-Shortens rest n (done r c) e h = rw e (omega arith)

turn-Shortens :
    (net : Net) (msg : Option Bytes) (c : Conn) → Shortens (length c.input) (turn net msg c)
unfolding turn
turn-Shortens net msg c = elim (Result-cases (read_frame c.input)) [
  | inl ((f, rest), e) ↦
      rw (e, turn)
        (Took-Shortens rest (length c.input) (on_frame net f msg (record c { input = rest }))
          (on_frame-Took net f msg (record c { input = rest }))
          (read_frame_shorter c.input f rest e))
  | inr (error, e) ↦ rw (e, turn) (omega arith)
]

Step-cases :
    (s : Step)
    → ((msg : Option Bytes) × (c : Conn) × (s ≡ more msg c))
      ⊎ ((r : Result Error Bytes) × (c : Conn) × (s ≡ done r c))
Step-cases (more msg c) = inl (msg, c, refl)
Step-cases (done r c) = inr (r, c, refl)

-- What the loop gives, whatever fuel over the length of the input it has.
abbrev Ends : Net → Option Bytes → Conn → Type 0
Ends net msg c =
    (r : Result Error Bytes) × (c' : Conn) × ((fuel : ℕ)
      → length c.input < fuel
      → read_loop net fuel msg c ≡ some (r, c'))
    × (length c'.input ≤ length c.input)

-- One turn of the loop, with fuel for it.
module _ (net : Net) (msg : Option Bytes) (c : Conn) where
  pub read_loop-done :
      (r : Result Error Bytes) (c' : Conn) (n fuel : ℕ)
      → turn net msg c ≡ done r c'
      → n < fuel
      → read_loop net fuel msg c ≡ some (r, c')
  unfolding read_loop
  read_loop-done r c' n zero e h = absurd (omega arith)
  read_loop-done r c' n (suc fuel) e h = rw (e, read_loop) refl

  pub read_loop-more :
      (msg' : Option Bytes) (c' : Conn) (out : Option (Result Error Bytes × Conn)) (fuel : ℕ)
      → turn net msg c ≡ more msg' c'
      → ((left : ℕ) → length c'.input < left → read_loop net left msg' c' ≡ out)
      → length c.input < fuel
      → read_loop net fuel msg c ≡ out
  unfolding read_loop
  read_loop-more msg' c' out zero e same h = absurd (omega arith)
  read_loop-more msg' c' out (suc fuel) e same h =
      let less : length c'.input < length c.input = rw e at (turn-Shortens net msg c) in
      rw (e, read_loop) (same fuel (omega arith))

loop-Ends :
    (n : ℕ) (net : Net) (msg : Option Bytes) (c : Conn) → length c.input < n → Ends net msg c
unfolding read_loop
loop-Ends zero net msg c h = absurd (omega arith)
loop-Ends (suc n) net msg c h = elim (Step-cases (turn net msg c)) [
  | inl (msg', c', e) ↦
      let less : length c'.input < length c.input = rw e at (turn-Shortens net msg c) in
      let (r, last, same, left) = loop-Ends n net msg' c' (omega arith) in
      (
        r,
        last,
        λ fuel h. read_loop-more net msg c msg' c' (some (r, last)) fuel e same h,
        omega arith,
      )
  | inr (r, c', e) ↦
      let left : length c'.input ≤ length c.input = rw e at (turn-Shortens net msg c) in
      (r, c', λ fuel h. read_loop-done net msg c r c' (length c.input) fuel e h, left)
]

-- ReadMessage returns, on any input: any fuel over the length of the input gives the result that it
-- has, and it leaves no more bytes than there were.
pub read_message_total :
    (net : Net) (c : Conn) (fuel : ℕ)
    → length c.input < fuel
    → (r : Result Error Bytes) × (c' : Conn) × (read_message net c ≡ some (r, c'))
      × (read_loop net fuel none c ≡ some (r, c'))
      × (length c'.input ≤ length c.input)
unfolding read_message
read_message_total net c fuel enough =
    let (r, c', same, left) = loop-Ends (suc (length c.input)) net none c (omega arith) in
    (r, c', same (suc (length c.input)) (omega arith), same fuel enough, left)
