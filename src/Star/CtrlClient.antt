-- ===== src/Star/CtrlClient.antt =====
-- protocol/star/ctrlclient.go: the client's side of a control session. An inner connection, its send
-- window and its queue, which one frame opens together, are the places of one number in `inner`, `wins`
-- and `queues`; a connection that the client dialled through the tunnel is a place in `dials`, the
-- channel of its answer the place of that number in `mail`. A method is one step; the two goroutines of
-- a connection go by the steps of Pumps. Texts of errors are the argument `texts`.
pub mod Pumps
pub mod Dial
pub mod Dispatch
pub mod Invariant
pub mod Safety
pub mod Closing
pub mod Dials
pub mod Downlink
mod Tests
use rain_net.Common.{
  ℕ, Bool, true, false, Option, none, some, List, [], ◌∷◌, if◌then◌else◌, Bytes, Str, nat_eq,
  str_eq,
}
use rain_net.Common.Maps.{Map, lookup, insert, erase}
use rain_net.Star.MsgType
use rain_net.Star.Message.{Error, Message}
use rain_net.Star.Handshake.{ClientConnAck}
use rain_net.Star.Session.{Session, send}
use rain_net.Star.Window.{Window}
use rain_net.Star.Window
use rain_net.Star.StreamHub.{StreamConn, mark_closed, end_of_stream, data_frame}

-- What the dialled inner connection was given, and what was closed of it.
pub record Inner : Type 0 where
  pub written : Bytes
  pub write_closed : Bool
  pub closed : Bool

-- A channel of byte slices; `none` is the nil that asks for a half close.
pub record Queue : Type 0 where
  pub items : List (Option Bytes)
  pub closed : Bool

pub record CtrlClient : Type 0 where
  pub link : Session
  pub streams : Map Str ℕ
  pub stream_ids : Map ℕ Str
  pub pairs : Map Str (Unit {0})
  pub conns : Map ℕ ℕ
  pub conns_win : Map ℕ ℕ
  pub conns_q : Map ℕ ℕ
  pub inner : Map ℕ Inner
  pub wins : Map ℕ Window
  pub queues : Map ℕ Queue
  pub dial_conns : Map ℕ ℕ
  pub dial_acks : Map ℕ ℕ
  pub dial_seq : ℕ
  pub dials : Map ℕ StreamConn
  pub mail : Map ℕ ClientConnAck
  pub allocated : ℕ

unfoldable pub new_ctrl_client : Session → CtrlClient
new_ctrl_client link = record {
  link = link;
  streams = [];
  stream_ids = [];
  pairs = [];
  conns = [];
  conns_win = [];
  conns_q = [];
  inner = [];
  wins = [];
  queues = [];
  dial_conns = [];
  dial_acks = [];
  dial_seq = 0;
  dials = [];
  mail = [];
  allocated = 0;
}

-- A pointer, if it is not nil, and the change of what it points to.
unfoldable pub adjust : {V : Type 0} → Option ℕ → (V → V) → Map ℕ V → Map ℕ V
adjust none f m = m
adjust (some ref) f m = elim (lookup ref m) [ none ↦ m | some v ↦ insert ref (f v) m ]

unfoldable pub send_frame : CtrlClient → Message → CtrlClient
send_frame c m = record c { link = (send c.link m).0 }

unfoldable pub send_data : Session → ℕ → Bytes → Session × Option Error
send_data link stream_id payload = send link (data_frame stream_id payload)

abbrev pub close_frame : ℕ → Message
close_frame stream_id = record {
  type = MsgType.stream_close;
  flags = 0;
  stream_id = stream_id;
  payload = [];
}

unfoldable pub close_stream : Session → ℕ → Session × Option Error
close_stream link stream_id = send link (close_frame stream_id)

unfoldable pub stream_id : CtrlClient → Str → Option ℕ
stream_id c name = lookup name c.streams

unfoldable pub has_stream : CtrlClient → ℕ → Bool
has_stream c id = elim (lookup id c.stream_ids) [ none ↦ false | some _ ↦ true ]

unfoldable pub dial_conn : CtrlClient → ℕ → Option (ℕ × StreamConn)
dial_conn c conn_id = elim (lookup conn_id c.dial_conns) [
  | none ↦ none
  | some ref ↦ elim (lookup ref c.dials) [ none ↦ none | some sc ↦ some (ref, sc) ]
]

unfoldable pub remove_dial_conn : CtrlClient → ℕ → CtrlClient
remove_dial_conn c conn_id = record c { dial_conns = erase conn_id c.dial_conns }

abbrev pub close_inner : Inner → Inner
close_inner i = record i { closed = true }

abbrev pub close_queue : Queue → Queue
close_queue q = record q { closed = true }

-- The first half of closeConn, under the lock.
abbrev pub take_off : CtrlClient → ℕ → CtrlClient
take_off c conn_id = record c {
  conns = erase conn_id c.conns;
  conns_win = erase conn_id c.conns_win;
  conns_q = erase conn_id c.conns_q;
}

-- The second half, once the connection was found.
unfoldable pub shut : CtrlClient → ℕ → Option ℕ → Option ℕ → CtrlClient
shut c ref win q = record c {
  wins = adjust win Window.close c.wins;
  queues = adjust q close_queue c.queues;
  inner = adjust (some ref) close_inner c.inner;
}

unfoldable pub close_conn : CtrlClient → ℕ → Bool → CtrlClient
close_conn c conn_id notify = elim (lookup conn_id c.conns) [
  | none ↦ take_off c conn_id
  | some ref ↦
      let c' =
        shut (take_off c conn_id) ref (lookup conn_id c.conns_win) (lookup conn_id c.conns_q) in
      if notify then send_frame c' (close_frame conn_id) else c'
]

-- The loops of closeAllConns over the maps that it took.
unfoldable pub adjust_all : {V : Type 0} → (V → V) → List (ℕ × ℕ) → Map ℕ V → Map ℕ V
adjust_all f [] m = m
adjust_all f ((id, ref) ∷ items) m = adjust_all f items (adjust (some ref) f m)

unfoldable pub close_all_conns : CtrlClient → CtrlClient
close_all_conns c = record c {
  conns = [];
  inner = adjust_all close_inner c.conns c.inner;
  dial_conns = [];
  dials = adjust_all (mark_closed end_of_stream) c.dial_conns c.dials;
  conns_win = [];
  wins = adjust_all Window.close c.conns_win c.wins;
}
