-- ===== src/Star/StreamHub.antt =====
-- protocol/star/adapter.go: connections of one session. A StreamConn is a place in `heap`, the channel
-- of a call of OpenStream the place of its connection in `mail`. Addresses, deadlines and the removal
-- callback are left out; SendControl and Send are steps that the session either takes or refuses.
pub mod Feed
pub mod Reading
pub mod Transfer
pub mod SessionEnd
mod Tests
use rain_net.Common.{
  ℕ, zero, suc, ◌+◌, ◌*◌, ◌^◌, Bool, true, false, not, ◌&&◌, ◌||◌, Option, none, some, List, [],
  ◌∷◌, ◌++◌, ltb, if◌then◌else◌, length, take, drop, Bytes, nat_eq, str_eq,
}
use rain_net.Common.Maps.{Map, lookup, insert, erase}
use rain_net.Star.MsgType
use rain_net.Star.Message.{Message, half_close}
use rain_net.Star.Handshake.{ConnOpenAck}

abbrev pub stream_feed_cap : ℕ
stream_feed_cap = 32

abbrev pub write_chunk : ℕ
write_chunk = 64 * 2 ^ 10

-- Why a connection was closed on this side, `closedErr`.
pub data Reason : Type 0 where
  end_of_stream net_closed : Reason

-- A delivered frame: exactly one of data, half close and full close.
pub data FeedItem : Type 0 where
  bytes : Bytes → FeedItem
  half : FeedItem
  full : FeedItem

pub record StreamConn : Type 0 where
  pub conn_id : ℕ
  pub feed : List FeedItem
  pub closed : Option Reason
  pub read_eof : Bool
  pub write_half : Bool
  pub pending : Bytes

unfoldable pub new_stream_conn : ℕ → StreamConn
new_stream_conn conn_id = record {
  conn_id = conn_id;
  feed = [];
  closed = none;
  read_eof = false;
  write_half = false;
  pending = [];
}

-- Where a call of Read stands: it returned bytes, it returned an error, or it waits for a frame.
pub data ReadResult : Type 0 where
  got : Bytes → ReadResult
  ended : Reason → ReadResult
  waits : ReadResult

abbrev pub when_empty : Option Reason → ReadResult
when_empty none = waits
when_empty (some why) = ended why

-- The loop of Read over the frames that were delivered, for a buffer of `n` bytes.
unfoldable pub read_feed : ℕ → StreamConn → List FeedItem → StreamConn × ReadResult
read_feed n sc [] = (record sc { feed = [] }, when_empty sc.closed)
read_feed n sc (half ∷ items) = (record sc { feed = items; read_eof = true }, ended end_of_stream)
read_feed n sc (full ∷ items) = (record sc { feed = items; read_eof = true }, ended end_of_stream)
read_feed n sc (bytes [] ∷ items) = read_feed n sc items
read_feed n sc (bytes (b ∷ bs) ∷ items) =
    (record sc { feed = items; pending = drop n (b ∷ bs) }, got (take n (b ∷ bs)))

unfoldable pub read_pending : ℕ → StreamConn → Bytes → StreamConn × ReadResult
read_pending n sc [] = read_feed n sc sc.feed
read_pending n sc (b ∷ bs) = (record sc { pending = drop n (b ∷ bs) }, got (take n (b ∷ bs)))

unfoldable pub read : ℕ → StreamConn → StreamConn × ReadResult
read n sc = if sc.read_eof then (sc, ended end_of_stream) else read_pending n sc sc.pending

abbrev pub is_closed : StreamConn → Bool
is_closed sc = elim sc.closed [ none ↦ false | some _ ↦ true ]

abbrev pub data_frame : ℕ → Bytes → Message
data_frame conn_id payload = record {
  type = MsgType.stream_data;
  flags = 0;
  stream_id = conn_id;
  payload = payload;
}

-- The frames that Write cuts its bytes into; fuel: their number.
unfoldable pub chunks : ℕ → Bytes → List Bytes
chunks zero p = []
chunks (suc fuel) [] = []
chunks (suc fuel) (b ∷ bs) = take write_chunk (b ∷ bs) ∷ chunks fuel (drop write_chunk (b ∷ bs))

-- What Write returns: the count, or the count up to the frame that the session refused.
pub data Written : Type 0 where
  all_of : ℕ → Written
  only : ℕ → Written
  not_open : Written

-- Sends of frames until one is refused; `up` tells whether Send returns nil for a frame.
unfoldable pub send_chunks : (Message → Bool) → ℕ → ℕ → List Bytes → List Message × Written
send_chunks up conn_id off [] = ([], all_of off)
send_chunks up conn_id off (c ∷ cs) =
    let m = data_frame conn_id c in
    let (ms, w) = send_chunks up conn_id (off + length c) cs in
    if up m then (m ∷ ms, w) else ([], only off)

unfoldable pub write : (Message → Bool) → StreamConn → Bytes → List Message × Written
write up sc p =
    if is_closed sc then ([], not_open) else send_chunks up sc.conn_id 0 (chunks (length p) p)

-- CloseWrite sends one half-close frame, however often it is called.
unfoldable pub close_write : StreamConn → StreamConn × List Message
close_write sc =
    if sc.write_half
    then (sc, [])
    else (record sc { write_half = true }, half_close sc.conn_id ∷ [])

-- Only the first reason counts.
unfoldable pub mark_closed : Reason → StreamConn → StreamConn
mark_closed why sc = record sc { closed = elim sc.closed [ none ↦ some why | some w ↦ some w ] }

unfoldable pub close : StreamConn → StreamConn × List Message
close sc = (
  mark_closed net_closed sc,
  record { type = MsgType.stream_close; flags = 0; stream_id = sc.conn_id; payload = [] } ∷ [],
)

-- What the read loop does with a frame: it is queued, dropped because this side closed, or the loop
-- waits for room. When both are possible the runtime picks.
pub data Delivery : Type 0 where
  queued dropped stuck : Delivery

unfoldable pub deliver : Bool → StreamConn → FeedItem → StreamConn × Delivery
deliver pick_feed sc item =
    if ltb (length sc.feed) stream_feed_cap && (pick_feed || not (is_closed sc))
    then (record sc { feed = sc.feed ++ (item ∷ []) }, queued)
    else if is_closed sc
    then (sc, dropped)
    else (sc, stuck)

pub record StreamHub : Type 0 where
  pub conns : Map ℕ ℕ
  pub acks : Map ℕ ℕ
  pub conn_seq : ℕ
  pub dead : Bool
  pub heap : Map ℕ StreamConn
  pub mail : Map ℕ ConnOpenAck
  pub allocated : ℕ

unfoldable pub new_stream_hub : StreamHub
new_stream_hub = record {
  conns = [];
  acks = [];
  conn_seq = 0;
  dead = false;
  heap = [];
  mail = [];
  allocated = 0;
}

abbrev pub enter_conn : StreamHub → ℕ → StreamHub
enter_conn h conn_id = record h {
  conns = insert conn_id h.allocated h.conns;
  heap = insert h.allocated (new_stream_conn conn_id) h.heap;
  allocated = h.allocated + 1;
}

-- The place of the new connection, or nil when the session is over.
unfoldable pub new_conn : StreamHub → ℕ → StreamHub × Option ℕ
new_conn h conn_id = if h.dead then (h, none) else (enter_conn h conn_id, some h.allocated)

unfoldable pub get : StreamHub → ℕ → Option (ℕ × StreamConn)
get h conn_id = elim (lookup conn_id h.conns) [
  | none ↦ none
  | some ref ↦ elim (lookup ref h.heap) [ none ↦ none | some sc ↦ some (ref, sc) ]
]

unfoldable pub forget : StreamHub → ℕ → StreamHub
forget h conn_id = record h { conns = erase conn_id h.conns; acks = erase conn_id h.acks }

-- Remove takes a connection out without sending anything.
unfoldable pub remove : StreamHub → ℕ → StreamHub
remove h conn_id = elim (get h conn_id) [
  | none ↦ h
  | some (ref, sc) ↦
      let h' = forget h conn_id in
      record h' { heap = insert ref (mark_closed net_closed sc) h'.heap }
]
