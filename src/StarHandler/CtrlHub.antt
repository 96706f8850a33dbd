-- ===== src/StarHandler/CtrlHub.antt =====
-- internal/handler/star/ctrl_hub.go: the outside connections that run over the control sessions. A
-- *ConnEntry is a place in `heap`; its ack channel is a place in `mail` of the same number. What the
-- hub sends goes to `sent` with the session that it goes to. A method is one step; OpenConn is two,
-- what it does before it waits and after.
mod Conn
pub mod Invariant
pub mod History
pub mod OpenConn
pub mod Delivery
pub mod Disconnect
pub mod Snapshot
unfoldable pub use Conn.*
use rain_net.Common.{
  ℕ, ◌+◌, ◌-◌, ◌*◌, ◌%◌, ◌^◌, Bool, true, false, Option, none, some, List, [], ◌∷◌, ◌++◌, ltb,
  nat_beq, if◌then◌else◌, length, Bytes, nat_eq, str_eq,
}
use rain_net.Common.Maps.{Map, lookup, insert, erase}
use rain_net.Star.MsgType
use rain_net.Star.Message.{Message}
use rain_net.Star.Handshake.{ConnOpenReq, ConnOpenAck}
use rain_net.Star.Session.{Json}
use rain_net.Star.Window.{Window}
use rain_net.Star.Window
use rain_net.StarHandler.StreamTable.{StreamTable, StreamEntry, add_out}
use rain_net.StarHandler.StreamTable

pub record CtrlHub : Type 0 where
  pub streams : StreamTable
  pub conns : Map ℕ ℕ
  pub acks : Map ℕ ℕ
  pub conn_seq : ℕ
  pub heap : Map ℕ ConnEntry
  pub mail : Map ℕ ConnOpenAck
  pub allocated : ℕ
  pub sent : List (ℕ × Message)

unfoldable pub new_ctrl_hub : CtrlHub
new_ctrl_hub = record {
  streams = StreamTable.new_stream_table;
  conns = [];
  acks = [];
  conn_seq = 0;
  heap = [];
  mail = [];
  allocated = 0;
  sent = [];
}

-- Change the entry at a place, if there is one.
unfoldable pub update_at : ℕ → (ConnEntry → ConnEntry) → Map ℕ ConnEntry → Map ℕ ConnEntry
update_at ref f heap = elim (lookup ref heap) [ none ↦ heap | some e ↦ insert ref (f e) heap ]

-- `h.conns[connID]` as an entry.
unfoldable pub find_conn : CtrlHub → ℕ → Option (ℕ × ConnEntry)
find_conn h conn_id = elim (lookup conn_id h.conns) [
  | none ↦ none
  | some ref ↦ elim (lookup ref h.heap) [ none ↦ none | some e ↦ some (ref, e) ]
]

-- `h.connSeq++` on a uint32.
abbrev pub next_conn : CtrlHub → ℕ
next_conn h = (h.conn_seq + 1) % 2 ^ 32

unfoldable pub register_conn : CtrlHub → ℕ → StreamEntry → CtrlHub
register_conn h now entry =
    let conn_id = next_conn h in
    record h {
      conn_seq = conn_id;
      acks = insert conn_id h.allocated h.acks;
      conns = insert conn_id h.allocated h.conns;
      heap = insert h.allocated (fresh_entry conn_id now entry) h.heap;
      allocated = h.allocated + 1;
    }

unfoldable pub remove_conn : CtrlHub → ℕ → CtrlHub
remove_conn h conn_id = elim (find_conn h conn_id) [
  | none ↦ record h { conns = erase conn_id h.conns }
  | some (ref, e) ↦ record h {
    conns = erase conn_id h.conns;
    heap = insert ref (close_entry e) h.heap;
  }
]

-- The end of OpenConn on every failure: `h.removeConn(connID)` and `e.close()`.
unfoldable pub abandon : CtrlHub → ℕ → ℕ → CtrlHub
abandon h conn_id ref =
    let h' = remove_conn h conn_id in record h' { heap = update_at ref close_entry h'.heap }

abbrev pub transmit : CtrlHub → ℕ → Message → CtrlHub
transmit h session m = record h { sent = h.sent ++ ((session, m) ∷ []) }

-- Where a call of OpenConn stands: it waits for the ack of a connection, or it has returned.
pub data Opening : Type 0 where
  waiting : ℕ → ℕ → Opening
  opened : ℕ → Opening
  failed : Opening

abbrev pub conn_open : Json ConnOpenReq → StreamEntry → ℕ → Message
conn_open json entry conn_id = record {
  type = MsgType.conn_open;
  flags = 0;
  stream_id = entry.assign_id;
  payload = json.marshal (record { stream_id = entry.assign_id; conn_id = conn_id });
}

-- OpenConn up to its `select`; `up` tells whether Send to the session returns nil.
unfoldable pub open_conn : Json ConnOpenReq → Bool → CtrlHub → ℕ → StreamEntry → CtrlHub × Opening
open_conn json up h now entry =
    let conn_id = next_conn h in
    let h' = register_conn h now entry in
    if up
    then (transmit h' entry.client (conn_open json entry conn_id), waiting conn_id h.allocated)
    else (abandon h' conn_id h.allocated, failed)

-- The rest of OpenConn: the ack is taken from its channel, or the ten seconds are over.
unfoldable pub await_ack : CtrlHub → ℕ → ℕ → Bool → CtrlHub × Opening
await_ack h conn_id ref expired =
    if expired then (abandon h conn_id ref, failed) else elim (lookup ref h.mail) [
      | none ↦ (h, waiting conn_id ref)
      | some ack ↦ if ack.accepted then (h, opened ref) else (abandon h conn_id ref, failed)
    ]

unfoldable pub window_release : CtrlHub → ℕ → ℕ → CtrlHub
window_release h conn_id delta = elim (find_conn h conn_id) [
  | none ↦ h
  | some (ref, e) ↦ record h {
    heap = insert ref (record e { send_win = Window.release e.send_win delta }) h.heap;
  }
]

unfoldable pub downlink : Bool → CtrlHub → ℕ → Bytes → CtrlHub × Delivered
downlink pick_sink h conn_id payload = elim (find_conn h conn_id) [
  | none ↦ (h, unknown)
  | some (ref, e) ↦
      let (e', r) = enqueue pick_sink e payload in
      (
        record h {
          streams = add_out h.streams e.stream (length payload);
          heap = insert ref e' h.heap;
        },
        r,
      )
]

unfoldable pub deliver_conn_ack : CtrlHub → ConnOpenAck → CtrlHub
deliver_conn_ack h ack = elim (lookup ack.conn_id h.acks) [
  | none ↦ h
  | some ref ↦ record h { acks = erase ack.conn_id h.acks; mail = insert ref ack h.mail }
]

unfoldable pub client_closed : CtrlHub → ℕ → CtrlHub × Bool
client_closed h conn_id = elim (find_conn h conn_id) [
  | none ↦ (record h { conns = erase conn_id h.conns }, false)
  | some (ref, e) ↦ (
    record h { conns = erase conn_id h.conns; heap = insert ref (mark_remote_closed e) h.heap },
    true,
  )
]

unfoldable pub close_conn : CtrlHub → ℕ → Bool → CtrlHub × Bool
close_conn h conn_id notify = elim (find_conn h conn_id) [
  | none ↦ (record h { conns = erase conn_id h.conns }, false)
  | some (ref, e) ↦
      let h' = remove_conn h conn_id in
      ((if notify then transmit h' e.client (stream_close conn_id) else h'), true)
]

unfoldable pub has_conn : CtrlHub → ℕ → Bool
has_conn h conn_id = elim (lookup conn_id h.conns) [ none ↦ false | some _ ↦ true ]

-- Whether the stream of an entry is in the table and carried by the session.
abbrev pub carried_by : CtrlHub → ℕ → ConnEntry → Bool
carried_by h session e = elim (StreamTable.get h.streams e.stream_id) [
  | none ↦ false
  | some entry ↦ nat_beq entry.client session
]

-- What the loop over `h.conns` does with one connection, its closing included.
unfoldable pub close_one : ℕ → ℕ → ℕ → CtrlHub × ℕ → CtrlHub × ℕ
close_one session id ref acc = elim (lookup ref acc.0.heap) [
  | none ↦ acc
  | some e ↦ if carried_by acc.0 session e then (remove_conn acc.0 id, acc.1 + 1) else acc
]

unfoldable pub close_each : ℕ → List (ℕ × ℕ) → CtrlHub × ℕ → CtrlHub × ℕ
close_each session [] acc = acc
close_each session ((id, ref) ∷ items) acc = close_each session items (close_one session id ref acc)

unfoldable pub close_conns_by_client : CtrlHub → ℕ → CtrlHub × ℕ
close_conns_by_client h session = close_each session h.conns (h, 0)

unfoldable pub conn_count : CtrlHub → ℕ
conn_count h = length h.conns

-- ReleaseRecv: one message for each full batch, and at most one for a call.
unfoldable pub release_recv : CtrlHub → ℕ → ℕ → CtrlHub
release_recv h ref n = elim (lookup ref h.heap) [
  | none ↦ h
  | some e ↦
      let pending = e.recv_pending + n in
      if ltb pending update_batch
      then record h { heap = insert ref (record e { recv_pending = pending }) h.heap }
      else transmit
          (record h {
            heap = insert ref (record e { recv_pending = pending - update_batch }) h.heap;
          })
          e.client (window_update e.conn_id)
]
