-- ===== src/Star/CtrlClient/Dispatch.antt =====
-- ctrlclient.go: handleConnOpen and the loop of Run.
use rain_net.Common.{
  ℕ, ◌+◌, Bool, true, false, not, Option, none, some, [], nat_beq, if◌then◌else◌, Bytes, Str, codes,
  nat_eq, str_eq, Result, ok, err,
}
use rain_net.Common.Maps.{lookup, insert, erase}
use rain_net.Star.MsgType
use rain_net.Star.Message.{Message, Error, is_half_close}
use rain_net.Star.Handshake.{ConnOpenReq, ConnOpenAck, ClientConnAck, WindowUpdate}
use rain_net.Star.Session.{Session, Json, send, receive, send_control, decode_control}
use rain_net.Star.Window.{new_window, default_stream_window}
use rain_net.Star.Window
use rain_net.Star.StreamHub.{
  StreamConn, bytes, half, full, Delivery, queued, dropped, stuck, deliver,
}
use rain_net.Star.CtrlClient.{
  CtrlClient, adjust, close_conn, close_all_conns, dial_conn, remove_dial_conn, has_stream,
}
use rain_net.Star.CtrlClient.Pumps.{Pushed, pushed, waits, panics, push, item_of}

pub record Codecs : Type 0 where
  pub open_req : Json ConnOpenReq
  pub open_ack : Json ConnOpenAck
  pub conn_ack : Json ClientConnAck
  pub update : Json WindowUpdate

-- What Run uses: the codecs, the texts of refusals, LocalDialer if it is set (an error's text, or a
-- connection), and which way the runtime goes where a queue has room and its connection is closed.
pub record Run : Type 0 where
  pub json : Codecs
  pub unknown_stream : ℕ → Str
  pub dial_failed : Str → Str → Str
  pub local_dialer : Option (Str → Result Str (Unit {0}))
  pub pick : Bool

abbrev pub dial_text : Run → Str → Result Str (Unit {0}) → Result Str (Unit {0})
dial_text run name (ok u) = ok u
dial_text run name (err why) = err (run.dial_failed name why)

abbrev pub name_of : CtrlClient → ℕ → Str
name_of c stream_id = elim (lookup stream_id c.stream_ids) [ none ↦ [] | some name ↦ name ]

-- The connection of handleConnOpen, or the message of its answer.
unfoldable pub dial_inner : Run → CtrlClient → ℕ → Result Str (Unit {0})
dial_inner run c stream_id =
    if not (has_stream c stream_id)
    then err (run.unknown_stream stream_id)
    else elim run.local_dialer [
      | none ↦ err (codes "local dialer not set")
      | some dial ↦ dial_text run (name_of c stream_id) (dial (name_of c stream_id))
    ]

abbrev pub open_ack_for : ℕ → Result Str (Unit {0}) → ConnOpenAck
open_ack_for conn_id (ok u) = record { conn_id = conn_id; accepted = true; message = [] }
open_ack_for conn_id (err why) = record { conn_id = conn_id; accepted = false; message = why }

-- The dialled connection with its window and its queue, under the number of the request.
unfoldable pub enter : CtrlClient → ℕ → CtrlClient
enter c conn_id = record c {
  conns = insert conn_id c.allocated c.conns;
  conns_win = insert conn_id c.allocated c.conns_win;
  conns_q = insert conn_id c.allocated c.conns_q;
  inner =
      insert c.allocated (record { written = []; write_closed = false; closed = false }) c.inner;
  wins = insert c.allocated (new_window default_stream_window) c.wins;
  queues = insert c.allocated (record { items = []; closed = false }) c.queues;
  allocated = c.allocated + 1;
}

-- A dialled connection whose answer could not be sent is closed.
abbrev pub unanswered : CtrlClient → CtrlClient
unanswered c = record c {
  inner = insert c.allocated (record { written = []; write_closed = false; closed = true }) c.inner;
  allocated = c.allocated + 1;
}

unfoldable pub answered : CtrlClient → ℕ → Result Str (Unit {0}) → Option Error → CtrlClient
unfolding enter
answered c conn_id (ok u) none = enter c conn_id
answered c conn_id (ok u) (some e) = unanswered c
answered c conn_id (err why) e = c

unfoldable pub open_inner : Run → CtrlClient → ConnOpenReq → CtrlClient
unfolding answered
open_inner run c req =
    let dialled = dial_inner run c req.stream_id in
    let sent =
      send_control run.json.open_ack c.link MsgType.conn_open_ack
        (open_ack_for req.conn_id dialled) in
    answered (record c { link = sent.0 }) req.conn_id dialled sent.1

unfoldable pub handle_conn_open : Run → CtrlClient → Message → CtrlClient
unfolding open_inner
handle_conn_open run c msg = elim (decode_control run.json.open_req msg) [
  | err e ↦ c
  | ok req ↦ open_inner run c req
]

-- What the loop of Run does next: it goes on, it waits for room in a queue, it returns with an
-- error, or it panics.
pub data Handled : Type 0 where
  goes_on stalls crashes : Handled
  stops : Error → Handled

abbrev pub after_push : CtrlClient × Pushed → CtrlClient × Handled
after_push (c, pushed) = (c, goes_on)
after_push (c, waits) = (c, stalls)
after_push (c, panics) = (c, crashes)

abbrev pub after_deliver : CtrlClient → ℕ → StreamConn × Delivery → CtrlClient × Handled
after_deliver c ref (sc, queued) = (record c { dials = insert ref sc c.dials }, goes_on)
after_deliver c ref (sc, dropped) = (record c { dials = insert ref sc c.dials }, goes_on)
after_deliver c ref (sc, stuck) = (record c { dials = insert ref sc c.dials }, stalls)

-- An item for the queue of a connection, which is dropped when there is none.
unfoldable pub to_queue : CtrlClient → ℕ → Option Bytes → CtrlClient × Handled
to_queue c conn_id item = elim (lookup conn_id c.conns_q) [
  | none ↦ (c, goes_on)
  | some ref ↦ after_push (push c ref item)
]

unfoldable pub half_close_conn : CtrlClient → ℕ → CtrlClient × Handled
half_close_conn c conn_id = to_queue c conn_id none

unfoldable pub on_data : Run → CtrlClient → Message → CtrlClient × Handled
unfolding to_queue
on_data run c msg = elim (dial_conn c msg.stream_id) [
  | none ↦ to_queue c msg.stream_id (item_of msg.payload)
  | some (ref, sc) ↦ after_deliver c ref (deliver run.pick sc (bytes msg.payload))
]

-- A dialled connection is taken off once it got the close; `stalls` comes before that.
abbrev pub forget_dialled : ℕ → CtrlClient × Handled → CtrlClient × Handled
forget_dialled conn_id (c, goes_on) = (remove_dial_conn c conn_id, goes_on)
forget_dialled conn_id (c, stalls) = (c, stalls)
forget_dialled conn_id (c, crashes) = (c, crashes)
forget_dialled conn_id (c, stops e) = (c, stops e)

unfoldable pub on_close : Run → CtrlClient → Message → CtrlClient × Handled
unfolding half_close_conn
on_close run c msg = elim (dial_conn c msg.stream_id) [
  | none ↦
      if is_half_close msg
      then half_close_conn c msg.stream_id
      else (close_conn c msg.stream_id false, goes_on)
  | some (ref, sc) ↦
      forget_dialled msg.stream_id
        (after_deliver c ref (deliver run.pick sc (if is_half_close msg then half else full)))
]

abbrev pub after_pong : CtrlClient → Session × Option Error → CtrlClient × Handled
after_pong c (link, none) = (record c { link = link }, goes_on)
after_pong c (link, some e) = (record c { link = link }, stops e)

unfoldable pub on_ping : CtrlClient → Message → CtrlClient × Handled
on_ping c msg = after_pong c (
    send c.link
      (record { type = MsgType.pong; flags = 0; stream_id = msg.stream_id; payload = msg.payload }))

unfoldable pub on_update : Run → CtrlClient → Message → CtrlClient
on_update run c msg = elim (decode_control run.json.update msg) [
  | err e ↦ c
  | ok u ↦ record c {
    wins = adjust (lookup u.conn_id c.conns_win) (λ w. Window.release w u.delta) c.wins;
  }
]

abbrev pub deliver_ack : CtrlClient → ClientConnAck → CtrlClient
deliver_ack c ack = elim (lookup ack.conn_id c.dial_acks) [
  | none ↦ record c { dial_acks = erase ack.conn_id c.dial_acks }
  | some ref ↦ record c { dial_acks = erase ack.conn_id c.dial_acks; mail = insert ref ack c.mail }
]

unfoldable pub on_conn_ack : Run → CtrlClient → Message → CtrlClient
on_conn_ack run c msg = elim (decode_control run.json.conn_ack msg) [
  | err e ↦ c
  | ok ack ↦ deliver_ack c ack
]

-- The switch over the type of a frame.
unfoldable pub handle : Run → CtrlClient → Message → CtrlClient × Handled
unfolding on_data on_close on_ping
handle run c msg =
    if nat_beq msg.type MsgType.conn_open
    then (handle_conn_open run c msg, goes_on)
    else if nat_beq msg.type MsgType.stream_data
    then on_data run c msg
    else if nat_beq msg.type MsgType.stream_close
    then on_close run c msg
    else if nat_beq msg.type MsgType.ping
    then on_ping c msg
    else if nat_beq msg.type MsgType.window_update
    then (on_update run c msg, goes_on)
    else if nat_beq msg.type MsgType.client_conn_ack
    then (on_conn_ack run c msg, goes_on)
    else (c, goes_on)

-- Run's deferred clean-up, when it returns.
abbrev pub finish : CtrlClient × Handled → CtrlClient × Handled
finish (c, goes_on) = (c, goes_on)
finish (c, stalls) = (c, stalls)
finish (c, crashes) = (c, crashes)
finish (c, stops e) = (close_all_conns c, stops e)

-- One round of the loop of Run.
unfoldable pub serve : Run → CtrlClient → CtrlClient × Handled
unfolding handle
serve run c = elim (receive c.link) [
  | err e ↦ finish (c, stops e)
  | ok (msg, link) ↦ finish (handle run (record c { link = link }) msg)
]
