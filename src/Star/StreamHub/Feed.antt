-- ===== src/Star/StreamHub/Feed.antt =====
-- protocol/star/adapter.go: OpenStream, Feed and SessionClosed of the hub of a session's connections.
use rain_net.Common.{
  ℕ, ◌+◌, ◌%◌, ◌^◌, Bool, true, false, Option, none, some, List, [], ◌∷◌, nat_beq, if◌then◌else◌,
  codes, nat_eq, str_eq, ok, err,
}
use rain_net.Common.Maps.{Map, lookup, insert, erase}
use rain_net.Star.MsgType
use rain_net.Star.Message.{Message, is_half_close}
use rain_net.Star.Session.{Json, decode_control}
use rain_net.Star.Handshake.{ConnOpenReq, ConnOpenAck}
use rain_net.Star.StreamHub.{
  StreamHub, StreamConn, FeedItem, bytes, half, full, Delivery, queued, dropped, stuck, deliver,
  get, forget, enter_conn, mark_closed, end_of_stream,
}

-- What Feed returns: the hub took the frame, or it is not the hub's; or its caller waits for room.
pub data Fed : Type 0 where
  consumed not_mine blocked : Fed

abbrev pub fed_by : Delivery → Fed
fed_by queued = consumed
fed_by dropped = consumed
fed_by stuck = blocked

-- deliver on the connection at a place.
unfoldable pub deliver_at : Bool → StreamHub → ℕ → StreamConn → FeedItem → StreamHub × Fed
deliver_at pick_feed h ref sc item =
    let (sc', d) = deliver pick_feed sc item in
    (record h { heap = insert ref sc' h.heap }, fed_by d)

abbrev pub close_item : Message → FeedItem
close_item msg = if is_half_close msg then half else full

-- Either close frame takes the connection off the map, and then it is delivered.
unfoldable pub feed_close : Bool → StreamHub → Message → StreamHub × Fed
feed_close pick_feed h msg = elim (get h msg.stream_id) [
  | none ↦ (h, not_mine)
  | some (ref, sc) ↦ deliver_at pick_feed (forget h msg.stream_id) ref sc (close_item msg)
]

unfoldable pub feed_data : Bool → StreamHub → Message → StreamHub × Fed
feed_data pick_feed h msg = elim (get h msg.stream_id) [
  | none ↦ (h, not_mine)
  | some (ref, sc) ↦ deliver_at pick_feed h ref sc (bytes msg.payload)
]

-- A bad answer counts as taken.
unfoldable pub feed_ack : Json ConnOpenAck → StreamHub → Message → StreamHub × Fed
feed_ack json h msg = elim (decode_control json msg) [
  | err e ↦ (h, consumed)
  | ok ack ↦ elim (lookup ack.conn_id h.acks) [
    | none ↦ (record h { acks = erase ack.conn_id h.acks }, not_mine)
    | some ref ↦
        (record h { acks = erase ack.conn_id h.acks; mail = insert ref ack h.mail }, consumed)
  ]
]

unfoldable pub feed : Json ConnOpenAck → Bool → StreamHub → Message → StreamHub × Fed
feed json pick_feed h msg =
    if nat_beq msg.type MsgType.stream_data
    then feed_data pick_feed h msg
    else if nat_beq msg.type MsgType.stream_close
    then feed_close pick_feed h msg
    else if nat_beq msg.type MsgType.conn_open_ack
    then feed_ack json h msg
    else (h, not_mine)

-- Where a call of OpenStream stands: it waits for the answer under a number, it returned the
-- connection at a place, or it failed.
pub data StreamOpening : Type 0 where
  waiting : ℕ → ℕ → StreamOpening
  opened : ℕ → StreamOpening
  failed : StreamOpening

-- OpenStream up to its `select`; `up` tells whether SendControl returns nil.
unfoldable pub open_stream : Bool → StreamHub → ℕ → StreamHub × (Option ConnOpenReq × StreamOpening)
open_stream up h stream_id =
    let conn_id = (h.conn_seq + 1) % 2 ^ 32 in
    let numbered = record h { conn_seq = conn_id; acks = insert conn_id h.allocated h.acks } in
    let h' = enter_conn numbered conn_id in
    if h.dead
    then (h, (none, failed))
    else if up
    then (
      h',
      (some (record { stream_id = stream_id; conn_id = conn_id }), waiting conn_id h.allocated),
    )
    else (forget h' conn_id, (none, failed))

-- The rest: the answer is taken from its channel, or the context is done.
unfoldable pub await_stream : StreamHub → ℕ → ℕ → Bool → StreamHub × StreamOpening
await_stream h conn_id ref expired =
    if expired then (forget h conn_id, failed) else elim (lookup ref h.mail) [
      | none ↦ (h, waiting conn_id ref)
      | some ack ↦ if ack.accepted then (h, opened ref) else (forget h conn_id, failed)
    ]

-- Every connection of the map that is taken over is closed with the end of the stream.
unfoldable pub close_all : List (ℕ × ℕ) → Map ℕ StreamConn → Map ℕ StreamConn
close_all [] heap = heap
close_all ((id, ref) ∷ items) heap = close_all items (elim (lookup ref heap) [
  | none ↦ heap
  | some sc ↦ insert ref (mark_closed end_of_stream sc) heap
])

abbrev pub session_over : ConnOpenAck
session_over = record { conn_id = 0; accepted = false; message = codes "session closed" }

-- Every call that waits is answered.
unfoldable pub answer_all : List (ℕ × ℕ) → Map ℕ ConnOpenAck → Map ℕ ConnOpenAck
answer_all [] mail = mail
answer_all ((id, ref) ∷ items) mail = answer_all items (insert ref session_over mail)

unfoldable pub session_closed : StreamHub → StreamHub
session_closed h = if h.dead then h else record h {
  dead = true;
  conns = [];
  acks = [];
  heap = close_all h.conns h.heap;
  mail = answer_all h.acks h.mail;
}
