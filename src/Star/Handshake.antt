-- ===== src/Star/Handshake.antt =====
-- protocol/star/handshake.go: authentication and stream registration, both sides. Each function is one
-- run over a session whose input holds what the peer will send. Timeouts are not modelled.
pub mod Agreement
use rain_net.Common.{
  ℕ, Bool, true, false, Option, none, some, [], nat_beq, if◌then◌else◌, Str, codes, ◌==◌, Result,
  ok, err, ◌>>=◌, nat_eq, str_eq,
}
use rain_net.Star.MsgType
use rain_net.Star.Message.{Message, Error, rejected, protocol_version}
use rain_net.Star.Session.{Session, Json, expect, receive, send_control, decode_control}

pub record HandshakeReq : Type 0 where
  pub version : ℕ
  pub client_name : Str
  pub key_password : Str

pub record HandshakeAck : Type 0 where
  pub accepted : Bool
  pub message : Str

pub record RegisterStreamReq : Type 0 where
  pub client_proxy_name : Str
  pub stream_id : Str

pub record RegisterStreamAck : Type 0 where
  pub accepted : Bool
  pub stream_id : Str
  pub assign_id : ℕ
  pub message : Str

-- The request for a connection and its answer.
pub record ConnOpenReq : Type 0 where
  pub stream_id : ℕ
  pub conn_id : ℕ

pub record ConnOpenAck : Type 0 where
  pub conn_id : ℕ
  pub accepted : Bool
  pub message : Str

-- response.go: a client's request for a connection, its answer, and credit of a window.
pub record ClientConnReq : Type 0 where
  pub conn_id : ℕ
  pub client_proxy_name : Str
  pub stream_id : Str

pub record ClientConnAck : Type 0 where
  pub conn_id : ℕ
  pub accepted : Bool
  pub message : Str

pub record WindowUpdate : Type 0 where
  pub conn_id : ℕ
  pub delta : ℕ

-- What a function returns, with the session as it leaves it.
abbrev pub Outcome : Type 0 → Type 0
Outcome A = Session × Result Error A

-- Receive, test the type, decode: the second half of each exchange.
unfoldable pub await : {A : Type 0} → Json A → ℕ → Session → Outcome A
await json type s = elim (receive s) [
  | err e ↦ (s, err e)
  | ok (m, s') ↦ (s', (expect type m >>= λ m'. decode_control json m'))
]

-- `if err != nil { return nil, err }` after a send, and after a step with a value.
abbrev pub proceed : {B : Type 0} → Session × Option Error → (Session → Outcome B) → Outcome B
proceed (s, none) next = next s
proceed (s, some e) next = (s, err e)

abbrev pub with_value : {A B : Type 0} → Outcome A → (Session → A → Outcome B) → Outcome B
with_value (s, ok a) next = next s a
with_value (s, err e) next = (s, err e)

-- A request with no version gets that of the protocol.
unfoldable pub versioned : HandshakeReq → HandshakeReq
versioned req = if nat_beq req.version 0 then record req { version = protocol_version } else req

-- A missing `verify` accepts nobody.
unfoldable pub verified : Option (HandshakeReq → Bool) → HandshakeReq → Bool
verified none req = false
verified (some verify) req = verify req

unfoldable pub handshake_ack_for : Bool → HandshakeAck
handshake_ack_for true = record { accepted = true; message = [] }
handshake_ack_for false = record { accepted = false; message = codes "invalid key password" }

module _ (req_json : Json HandshakeReq) (ack_json : Json HandshakeAck) where
  unfoldable pub client_handshake : Session → HandshakeReq → Outcome HandshakeAck
  client_handshake s req =
      proceed (send_control req_json s MsgType.handshake (versioned req))
        (λ s'. await ack_json MsgType.handshake_ack s')

  unfoldable pub answer_handshake : Session → Bool → HandshakeReq → Outcome HandshakeReq
  answer_handshake s accepts req =
      let ack = handshake_ack_for accepts in
      proceed (send_control ack_json s MsgType.handshake_ack ack)
        (λ s'. (s', (if ack.accepted then ok req else err (rejected ack.message))))

  unfoldable pub server_handshake_verify :
      Session → Option (HandshakeReq → Bool) → Outcome HandshakeReq
  server_handshake_verify s verify =
      with_value (await req_json MsgType.handshake s)
        (λ s' req. answer_handshake s' (verified verify req) req)

  unfoldable pub server_handshake : Session → Str → Outcome HandshakeReq
  server_handshake s key_password =
      server_handshake_verify s (some (λ req. req.key_password == key_password))

-- AssignStreamFunc over a state `T`: the number of the stream, or the text of the refusal.
abbrev pub AssignStreamFunc : Type 0 → Type 0
AssignStreamFunc T = T → RegisterStreamReq → T × Result Str ℕ

-- Without a function the stream is accepted under the number 0.
unfoldable pub assigned : {T : Type 0} → Option (AssignStreamFunc T) → AssignStreamFunc T
assigned none t req = (t, ok 0)
assigned (some assign) t req = assign t req

unfoldable pub register_ack : RegisterStreamReq → Result Str ℕ → RegisterStreamAck
register_ack req (ok id) = record {
  accepted = true;
  stream_id = req.stream_id;
  assign_id = id;
  message = [];
}
register_ack req (err why) = record {
  accepted = false;
  stream_id = req.stream_id;
  assign_id = 0;
  message = why;
}

module _ (req_json : Json RegisterStreamReq) (ack_json : Json RegisterStreamAck) where
  unfoldable pub client_register_stream : Session → RegisterStreamReq → Outcome RegisterStreamAck
  client_register_stream s req =
      proceed (send_control req_json s MsgType.register_stream req)
        (λ s'. await ack_json MsgType.register_stream_ack s')

  unfoldable pub server_register_stream :
      {T : Type 0}
      → Session
      → Message
      → Option (AssignStreamFunc T)
      → T
      → T × Outcome RegisterStreamAck
  server_register_stream s msg assign t =
      elim (expect MsgType.register_stream msg >>= λ m. decode_control req_json m) [
        | err e ↦ (t, (s, err e))
        | ok req ↦
            let given = assigned assign t req in
            let ack = register_ack req given.1 in
            (
              given.0,
              proceed (send_control ack_json s MsgType.register_stream_ack ack)
                  (λ s'. (s', (if ack.accepted then ok ack else err (rejected ack.message)))),
            )
      ]
