-- ===== src/Ws/Conn.antt =====
-- ws.go's Conn: `input` is every byte that the peer still delivers before its stream ends, `output` the
-- frames written. What crypto/rand and the connection do on the n-th write is the argument `net`.
use rain_net.Common.{
  ℕ, zero, suc, Bool, true, ◌||◌, Option, none, some, List, [], ◌∷◌, ◌++◌, nat_beq, if◌then◌else◌,
  length, Bytes, Result, ok, err, eof,
}
use rain_net.Ws.Op
use rain_net.Ws.{
  Frame, Error, io, connection_closed, no_random, write_failed, unexpected_continuation,
  unknown_opcode, frame_bytes, read_frame,
}

-- The n-th frame written: what rand.Read fills in, if it fills, and whether conn.Write takes the frame.
pub record Net : Type 0 where
  pub random : ℕ → Option Bytes
  pub accepts : ℕ → Bool

pub record Conn : Type 0 where
  pub client : Bool
  pub closed : Bool
  pub input : Bytes
  pub output : List Bytes
  pub tries : ℕ

unfoldable pub send_frame : Net → Bytes → Frame → Conn → Result Error (Unit {0}) × Conn
unfolding frame_bytes
send_frame net key f c =
    if net.accepts c.tries
    then (
      ok tt,
      record c { output = c.output ++ (frame_bytes c.client key f ∷ []); tries = suc c.tries },
    )
    else (err write_failed, record c { tries = suc c.tries })

unfoldable pub keyed : Net → Option Bytes → Frame → Conn → Result Error (Unit {0}) × Conn
unfolding send_frame
keyed net none f c = (err no_random, record c { tries = suc c.tries })
keyed net (some key) f c = send_frame net key f c

unfoldable pub write_frame : Net → Frame → Conn → Result Error (Unit {0}) × Conn
unfolding keyed
write_frame net f c =
    if c.closed
    then (err connection_closed, c)
    else keyed net (if c.client then net.random c.tries else some []) f c

abbrev pub whole : ℕ → Bytes → Frame
whole opcode payload = record { fin = true; opcode = opcode; payload = payload }

unfoldable pub write_message : Net → Bytes → Conn → Result Error (Unit {0}) × Conn
unfolding write_frame
write_message net payload c = write_frame net (whole Op.binary payload) c

unfoldable pub write_control : Net → ℕ → Bytes → Conn → Result Error (Unit {0}) × Conn
unfolding write_frame
write_control net opcode payload c = write_frame net (whole opcode payload) c

-- Close, up to the close of the connection below, which cannot be told from here.
unfoldable pub close : Net → Conn → Conn
unfolding write_frame
close net c =
    if c.closed then c else (write_frame net (whole Op.close []) (record c { closed = true })).1

-- What ReadMessage keeps between two frames: the message being assembled, if there is one.
pub data Step : Type 0 where
  more : Option Bytes → Conn → Step
  done : Result Error Bytes → Conn → Step

unfoldable pub on_data : Frame → Option Bytes → Conn → Step
on_data f msg c = if f.fin then done (ok f.payload) c else more (some f.payload) c

unfoldable pub on_continuation : Frame → Option Bytes → Conn → Step
on_continuation f none c = done (err unexpected_continuation) c
on_continuation f (some msg) c =
    if f.fin then done (ok (msg ++ f.payload)) c else more (some (msg ++ f.payload)) c

unfoldable pub after_pong : Option Bytes → Result Error (Unit {0}) × Conn → Step
after_pong msg (ok u, c) = more msg c
after_pong msg (err e, c) = done (err e) c

-- The switch of ReadMessage.
unfoldable pub on_frame : Net → Frame → Option Bytes → Conn → Step
unfolding on_data on_continuation after_pong write_control
on_frame net f msg c =
    if nat_beq f.opcode Op.text || nat_beq f.opcode Op.binary
    then on_data f msg c
    else if nat_beq f.opcode Op.continuation
    then on_continuation f msg c
    else if nat_beq f.opcode Op.ping
    then after_pong msg (write_control net Op.pong f.payload c)
    else if nat_beq f.opcode Op.pong
    then more msg c
    else if nat_beq f.opcode Op.close
    then done (err (io eof)) (write_control net Op.close [] c).1
    else done (err (unknown_opcode f.opcode)) c

-- One turn of ReadMessage's loop.
unfoldable pub turn : Net → Option Bytes → Conn → Step
unfolding read_frame on_frame
turn net msg c = elim (read_frame c.input) [
  | err e ↦ done (err e) c
  | ok (f, rest) ↦ on_frame net f msg (record c { input = rest })
]

-- The loop; `none` only when the fuel runs out.
unfoldable pub read_loop : Net → ℕ → Option Bytes → Conn → Option (Result Error Bytes × Conn)
unfolding turn
read_loop net zero msg c = none
read_loop net (suc fuel) msg c = elim (turn net msg c) [
  | more msg' c' ↦ read_loop net fuel msg' c'
  | done r c' ↦ some (r, c')
]

-- A frame takes two bytes at least, so the input is fuel enough.
unfoldable pub read_message : Net → Conn → Option (Result Error Bytes × Conn)
unfolding read_loop
read_message net c = read_loop net (suc (length c.input)) none c
