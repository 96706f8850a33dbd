-- ===== src/StarHandler/CtrlProxy/Dispatch.antt =====
-- internal/handler/star/ctrlproxy.go: handleConn, from the handshake over its loop to its clean-up.
use rain_net.Common.{
  ℕ, Bool, not, ◌||◌, none, some, [], nat_beq, if◌then◌else◌, Str, nat_eq, str_eq, ok, err, ◌>>=◌,
}
use rain_net.Common.Maps.{lookup}
use rain_net.Star.MsgType
use rain_net.Star.Message.{Message, is_half_close}
use rain_net.Star.Session.{Session, Json, send, decode_control}
use rain_net.Star.Handshake.{
  HandshakeReq, HandshakeAck, Outcome, server_handshake_verify, server_register_stream,
}
use rain_net.Star.StreamHub.{StreamHub}
use rain_net.Star.StreamHub.Feed.{Fed, feed, session_closed, consumed, not_mine, blocked}
use rain_net.StarHandler.StreamTable
use rain_net.StarHandler.CtrlHub.{
  downlink, deliver_conn_ack, client_closed, window_release, close_conns_by_client,
}
use rain_net.StarHandler.CtrlProxy.{
  Serving, Settings, Codecs, Handled, goes_on, stalls, creds, has_creds, assign_for,
  handle_client_conn_req, full_close, with_hub, after_downlink,
}

-- The handshake of handleConn, with the identity that the password of the request has.
unfoldable pub authenticate :
    Json HandshakeReq → Json HandshakeAck → Settings → Session → Outcome (HandshakeReq × Str)
authenticate req_json ack_json settings link =
    let c = creds settings in
    let (link', r) = server_handshake_verify req_json ack_json link (some (has_creds c)) in
    (link', (r >>= λ q. ok (q, elim (lookup q.key_password c) [ none ↦ [] | some name ↦ name ])))

-- What a run of handleConn brings along: the time, its session and identity, and which way the
-- runtime goes where a queue has room and its connection is closed.
pub record Run : Type 0 where
  pub json : Codecs
  pub quote : Str → Str
  pub now : ℕ
  pub session : ℕ
  pub identity : Str
  pub pick : Bool

unfoldable pub on_register : Run → Serving → Message → Serving
on_register run s msg =
    let (hub, (link, r)) =
      server_register_stream run.json.register_req run.json.register_ack s.link msg
        (some (assign_for run.quote run.now run.session run.identity)) s.hub in
    record s { hub = hub; link = link }

unfoldable pub on_open_ack : Run → Serving → Message → Serving
on_open_ack run s msg = elim (decode_control run.json.open_ack msg) [
  | err e ↦ s
  | ok ack ↦ with_hub s (deliver_conn_ack s.hub ack)
]

unfoldable pub on_ping : Serving → Message → Serving
on_ping s msg = record s {
  link =
      (send s.link (record {
        type = MsgType.pong;
        flags = 0;
        stream_id = msg.stream_id;
        payload = msg.payload;
      })).0;
}

unfoldable pub on_data : Run → Serving → Message → Serving × Handled
on_data run s msg =
    let (hub, r) = downlink run.pick s.hub msg.stream_id msg.payload in
    (with_hub s hub, after_downlink r)

unfoldable pub on_close : Serving → Message → Serving
on_close s msg = with_hub s (
    if not (is_half_close msg)
    then full_close s.hub msg.stream_id
    else (client_closed s.hub msg.stream_id).0)

unfoldable pub on_update : Run → Serving → Message → Serving
on_update run s msg = elim (decode_control run.json.update msg) [
  | err e ↦ s
  | ok u ↦ with_hub s (window_release s.hub u.conn_id u.delta)
]

-- The switch over the type of a frame; the address to dial is left to its goroutine.
unfoldable pub switch : Run → Serving → Message → Serving × Handled
switch run s msg =
    if nat_beq msg.type MsgType.register_stream
    then (on_register run s msg, goes_on)
    else if nat_beq msg.type MsgType.conn_open_ack
    then (on_open_ack run s msg, goes_on)
    else if nat_beq msg.type MsgType.ping
    then (on_ping s msg, goes_on)
    else if nat_beq msg.type MsgType.stream_data
    then on_data run s msg
    else if nat_beq msg.type MsgType.stream_close
    then (on_close s msg, goes_on)
    else if nat_beq msg.type MsgType.window_update
    then (on_update run s msg, goes_on)
    else if nat_beq msg.type MsgType.client_conn_req
    then ((handle_client_conn_req run.json run.quote s run.identity msg).0, goes_on)
    else (s, goes_on)

-- Only data and close frames are offered to the feed, and what it takes goes no further.
abbrev pub is_for_feed : Message → Bool
is_for_feed msg = nat_beq msg.type MsgType.stream_data || nat_beq msg.type MsgType.stream_close

abbrev pub after_feed : Run → Serving → Message → StreamHub × Fed → Serving × Handled
after_feed run s msg (fd, consumed) = (record s { feed = fd }, goes_on)
after_feed run s msg (fd, blocked) = (record s { feed = fd }, stalls)
after_feed run s msg (fd, not_mine) = switch run (record s { feed = fd }) msg

-- One round of the loop of handleConn.
unfoldable pub handle : Run → Serving → Message → Serving × Handled
handle run s msg =
    if is_for_feed msg
    then after_feed run s msg (feed run.json.open_ack run.pick s.feed msg)
    else switch run s msg

-- The clean-up when the session ends: connections first, then streams, then the feed.
unfoldable pub disconnect : ℕ → Serving → Serving
disconnect session s =
    let hub = (close_conns_by_client s.hub session).0 in
    record s {
      hub = record hub { streams = (StreamTable.remove_by_client hub.streams session).0 };
      feed = session_closed s.feed;
    }
