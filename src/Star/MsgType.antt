-- ===== src/Star/MsgType.antt =====
-- protocol/star/message.go: the type byte of each kind of message.
use rain_net.Common.{ℕ}

abbrev pub handshake : ℕ
handshake = 0x01

abbrev pub handshake_ack : ℕ
handshake_ack = 0x02

abbrev pub register_stream : ℕ
register_stream = 0x03

abbrev pub register_stream_ack : ℕ
register_stream_ack = 0x04

abbrev pub conn_open : ℕ
conn_open = 0x05

abbrev pub conn_open_ack : ℕ
conn_open_ack = 0x06

abbrev pub stream_data : ℕ
stream_data = 0x10

abbrev pub stream_close : ℕ
stream_close = 0x11

abbrev pub ping : ℕ
ping = 0x20

abbrev pub pong : ℕ
pong = 0x21

abbrev pub client_conn_req : ℕ
client_conn_req = 0x30

abbrev pub client_conn_ack : ℕ
client_conn_ack = 0x31

abbrev pub window_update : ℕ
window_update = 0x22
