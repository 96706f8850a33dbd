-- ===== src/StarHandler/CtrlHub/Conn.antt =====
-- internal/handler/star/ctrl_hub.go: ConnEntry, one outside connection over a control session. The
-- channels Done and RemoteClosed are whether they are closed; Sink is the queue of its bytes.
use rain_net.Common.{
  ℕ, ◌*◌, ◌^◌, Bool, true, false, not, ◌&&◌, ◌||◌, Option, List, [], ◌∷◌, ◌++◌, ltb, if◌then◌else◌,
  length, Bytes,
}
use rain_net.Star.MsgType
use rain_net.Star.Message.{Message}
use rain_net.Star.Window.{Window, new_window, default_stream_window}
use rain_net.Star.Window
use rain_net.StarHandler.StreamTable.{StreamEntry}

abbrev pub downlink_queue : ℕ
downlink_queue = 256

-- Credit goes back to the client in pieces of this size.
abbrev pub update_batch : ℕ
update_batch = 64 * 2 ^ 10

pub record ConnEntry : Type 0 where
  pub conn_id : ℕ
  pub stream_id : ℕ
  pub client : ℕ
  pub stream : StreamEntry
  pub opened_at : ℕ
  pub sink : List Bytes
  pub done : Bool
  pub remote_closed : Bool
  pub recv_pending : ℕ
  pub send_win : Window

unfoldable pub close_entry : ConnEntry → ConnEntry
close_entry e = record e { done = true; send_win = Window.close e.send_win }

unfoldable pub mark_remote_closed : ConnEntry → ConnEntry
mark_remote_closed e = record e { remote_closed = true }

abbrev pub fresh_entry : ℕ → ℕ → StreamEntry → ConnEntry
fresh_entry conn_id now entry = record {
  conn_id = conn_id;
  stream_id = entry.assign_id;
  client = entry.client;
  stream = entry;
  opened_at = now;
  sink = [];
  done = false;
  remote_closed = false;
  recv_pending = 0;
  send_win = new_window default_stream_window;
}

-- What Downlink returns; `blocked`: it waits for room in the queue, with the bytes counted.
pub data Delivered : Type 0 where
  delivered unknown blocked : Delivered

-- When the queue has room and `Done` is closed the runtime picks a case of the `select`.
unfoldable pub enqueue : Bool → ConnEntry → Bytes → ConnEntry × Delivered
enqueue pick_sink e payload =
    if ltb (length e.sink) downlink_queue && (pick_sink || not e.done)
    then (record e { sink = e.sink ++ (payload ∷ []) }, delivered)
    else if e.done
    then (e, unknown)
    else (e, blocked)

abbrev pub stream_close : ℕ → Message
stream_close conn_id = record {
  type = MsgType.stream_close;
  flags = 0;
  stream_id = conn_id;
  payload = [];
}

-- AcquireSend up to its return or its sleep, on the entry at `ref`.
unfoldable pub acquire_send : ℕ → ConnEntry → ℕ → Option Window.Attempt
acquire_send fuel e n = Window.acquire fuel e.send_win n

abbrev pub window_update : ℕ → Message
window_update conn_id = record {
  type = MsgType.window_update;
  flags = 0;
  stream_id = conn_id;
  payload = [];
}
