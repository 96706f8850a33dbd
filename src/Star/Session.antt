-- ===== src/Star/Session.antt =====
-- protocol/star/session.go, and SendControl and DecodeControl of message.go. A session stands between
-- the bytes that its connection will still deliver and those that it has written. Deadlines and the
-- mutex of Send are not modelled: a Send is one step.
pub mod Laws
use rain_net.Common.{
  suc, ℕ, Bool, List, [], ◌∷◌, ◌++◌, Option, none, some, Bytes, Result, ok, err, ◌>>=◌, nat_beq,
  if◌then◌else◌, zero,
}
use rain_net.Star.MsgType
use rain_net.Star.Message.{
  Message, Error, write_failed, empty_payload, malformed, unexpected_type, write_message,
  read_message, ctrl_stream_id,
}

pub record Session : Type 0 where
  pub input : Bytes
  pub output : Bytes
  pub writable : Bool

-- What encoding/json does to one of the control structs.
pub record Json (A : Type 0) : Type 0 where
  pub marshal : A → Bytes
  pub unmarshal : Bytes → Option A

-- Send writes nothing of a message that WriteMessage refuses or whose Write fails.
unfoldable pub send : Session → Message → Session × Option Error
send s m = elim (write_message m) [
  | ok frame ↦
      if s.writable then (record s { output = s.output ++ frame }, none) else (s, some write_failed)
  | err e ↦ (s, some e)
]

unfoldable pub receive : Session → Result Error (Message × Session)
receive s = do (m, rest) ← read_message s.input; ok (m, record s { input = rest })

abbrev pub control : {A : Type 0} → Json A → ℕ → A → Message
control json type v = record {
  type = type;
  flags = 0;
  stream_id = ctrl_stream_id;
  payload = json.marshal v;
}

unfoldable pub send_control : {A : Type 0} → Json A → Session → ℕ → A → Session × Option Error
send_control json s type v = send s (control json type v)

abbrev pub or_malformed : {A : Type 0} → Option A → Result Error A
or_malformed none = err malformed
or_malformed (some v) = ok v

-- json.Unmarshal is not called on an empty payload.
abbrev pub decode_payload : {A : Type 0} → Json A → ℕ → Bytes → Result Error A
decode_payload json type [] = err (empty_payload type)
decode_payload json type (b ∷ bs) = or_malformed (json.unmarshal (b ∷ bs))

unfoldable pub decode_control : {A : Type 0} → Json A → Message → Result Error A
decode_control json m = decode_payload json m.type m.payload

abbrev pub expect : ℕ → Message → Result Error Message
expect type m = if nat_beq m.type type then ok m else err (unexpected_type m.type)

-- The round trip without its time.
unfoldable pub ping : Session → Session × Option Error
unfolding send receive
ping s =
    let sent =
      send s
        (record { type = MsgType.ping; flags = 0; stream_id = ctrl_stream_id; payload = [] }) in
    elim sent.1 [
      | some e ↦ sent
      | none ↦ elim (receive sent.0) [
        | err e ↦ (sent.0, some e)
        | ok (m, s') ↦
            if nat_beq m.type MsgType.pong then (s', none) else (s', some (unexpected_type m.type))
      ]
    ]

-- The read loop of a session's owner: Receive until it fails. `none`: the fuel ran out.
unfoldable pub receive_all : ℕ → Session → List Message × Option Error
receive_all zero s = ([], none)
receive_all (suc fuel) s = elim (receive s) [
  | err e ↦ ([], some e)
  | ok (m, s') ↦ let later = receive_all fuel s' in (m ∷ later.0, later.1)
]

-- Consecutive calls of Send, until one fails.
unfoldable pub send_all : Session → List Message → Session × Option Error
send_all s [] = (s, none)
send_all s (m ∷ ms) =
    let sent = send s m in elim sent.1 [ none ↦ send_all sent.0 ms | some e ↦ sent ]
