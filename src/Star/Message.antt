-- ===== src/Star/Message.antt =====
-- protocol/star/message.go: the wire format of one message. A writer receives the whole frame in one
-- call; a reader is the list of bytes that the stream will still deliver before it ends.
pub mod RoundTrip
use rain_net.Star.MsgType
use rain_net.Common.{
  ℕ, ◌+◌, ◌-◌, ◌^◌, ◌/◌, ◌%◌, ◌≤◌, ◌<◌, Bool, not, ◌&&◌, bit_and, [], ◌∷◌, ◌++◌, ltb, nat_beq,
  if◌then◌else◌, length, get_or, Bytes, Str, IsByte, codes, put_u32, get_u32, Result, ok, err,
  ◌>>=◌, IoError, read_full,
}

abbrev pub protocol_version : ℕ
protocol_version = 1

abbrev pub header_size : ℕ
header_size = 12

abbrev pub max_payload_size : ℕ
max_payload_size = 2 ^ 20

abbrev pub ctrl_stream_id : ℕ
ctrl_stream_id = 0

abbrev pub flag_half_close : ℕ
flag_half_close = 0x01

pub record Message : Type 0 where
  pub type : ℕ
  pub flags : ℕ
  pub stream_id : ℕ
  pub payload : Bytes

unfoldable pub is_half_close : Message → Bool
is_half_close m =
    nat_beq m.type MsgType.stream_close && not (nat_beq (bit_and m.flags flag_half_close) 0)

unfoldable pub half_close : ℕ → Message
half_close id = record {
  type = MsgType.stream_close;
  flags = flag_half_close;
  stream_id = id;
  payload = [];
}

pub data Error : Type 0 where
  io : IoError → Error
  payload_too_large : ℕ → Error
  unsupported_version : ℕ → Error
  write_failed : Error
  empty_payload : ℕ → Error
  malformed : Error
  unexpected_type : ℕ → Error
  rejected : Str → Error

-- The 12 bytes before the payload.
unfoldable pub header : Message → Bytes
header m =
    protocol_version
    ∷ m.type
    ∷ m.flags
    ∷ 0
    ∷ (put_u32 m.stream_id ++ put_u32 (length m.payload % 2 ^ 32))

-- The frame that WriteMessage hands to its writer in one call, or the error before any write.
unfoldable pub write_message : Message → Result Error Bytes
write_message m =
    if ltb max_payload_size (length m.payload)
    then err (payload_too_large (length m.payload))
    else ok (header m ++ m.payload)

-- The big-endian word at offset `i` of a header.
abbrev pub word_at : Bytes → ℕ → ℕ
word_at head i =
    get_u32 (get_or head i 0) (get_or head (i + 1) 0) (get_or head (i + 2) 0)
      (get_or head (i + 3) 0)

unfoldable pub read_payload : Bytes → ℕ → Bytes → Result Error (Message × Bytes)
read_payload head n rest = if ltb max_payload_size n then err (payload_too_large n) else do
  (payload, rest') ← read_full io n rest
  ok (
    record {
      type = get_or head 1 0;
      flags = get_or head 2 0;
      stream_id = word_at head 4;
      payload = payload;
    },
    rest',
  )

unfoldable pub read_versioned : Bytes → Bytes → Result Error (Message × Bytes)
unfolding read_payload
read_versioned head rest =
    if nat_beq (get_or head 0 0) protocol_version
    then read_payload head (word_at head 8) rest
    else err (unsupported_version (get_or head 0 0))

-- `if length > 0` needs no case: reading nothing succeeds at once with no bytes.
unfoldable pub read_message : Bytes → Result Error (Message × Bytes)
unfolding read_versioned
read_message bs = do (head, rest) ← read_full io header_size bs; read_versioned head rest

-- What the fields of a message fit into, and the limit on its payload.
pub record IsSendable (m : Message) : Type 0 where
  pub type_fits : IsByte m.type
  pub flags_fit : IsByte m.flags
  pub id_fits : m.stream_id < 2 ^ 32
  pub payload_fits : length m.payload ≤ max_payload_size

hex_digit : ℕ → ℕ
hex_digit d = if ltb d 10 then b'0' + d else b'a' + d - 10

unfoldable pub msg_type_name : ℕ → Str
unfolding hex_digit
msg_type_name t =
    if nat_beq t MsgType.handshake
    then codes "handshake"
    else if nat_beq t MsgType.handshake_ack
    then codes "handshakeAck"
    else if nat_beq t MsgType.register_stream
    then codes "registerStream"
    else if nat_beq t MsgType.register_stream_ack
    then codes "registerStreamAck"
    else if nat_beq t MsgType.conn_open
    then codes "connOpen"
    else if nat_beq t MsgType.conn_open_ack
    then codes "connOpenAck"
    else if nat_beq t MsgType.stream_data
    then codes "data"
    else if nat_beq t MsgType.stream_close
    then codes "streamClose"
    else if nat_beq t MsgType.ping
    then codes "ping"
    else if nat_beq t MsgType.pong
    then codes "pong"
    else if nat_beq t MsgType.client_conn_req
    then codes "clientConnReq"
    else if nat_beq t MsgType.client_conn_ack
    then codes "clientConnAck"
    else if nat_beq t MsgType.window_update
    then codes "windowUpdate"
    else codes "unknown(0x" ++ (hex_digit (t / 16) ∷ hex_digit (t % 16) ∷ codes ")")
