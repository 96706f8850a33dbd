-- ===== src/StarHandler/CtrlProxy.antt =====
-- internal/handler/star/ctrlproxy.go: the listener of the control channel. `Serving` is what one run of
-- handleConn works on: the settings and the hub, which all runs share, and the feed and the session
-- of this run. What the session's owner writes goes to `link`; what the hub sends to `hub.sent`.
pub mod Dispatch
pub mod Identity
pub mod Closing
pub mod Clients
mod Tests
use rain_net.Common.{
  ℕ, Bool, true, false, not, ◌&&◌, Option, none, some, List, [], ◌∷◌, ◌++◌, if◌then◌else◌, Str,
  codes, str_beq, nat_eq, str_eq, Result, ok, err,
}
use rain_net.Common.Maps.{Map, lookup, insert}
use rain_net.Star.MsgType
use rain_net.Star.Message.{Message}
use rain_net.Star.Session.{Session, Json, send_control, decode_control}
use rain_net.Star.Handshake.{
  HandshakeReq, RegisterStreamReq, RegisterStreamAck, ConnOpenAck, ClientConnReq, ClientConnAck,
  WindowUpdate,
}
use rain_net.Star.StreamHub.{StreamHub, new_conn}
use rain_net.Star.StreamHub.Feed
use rain_net.Star.StreamHub.Feed.{feed}
use rain_net.StarHandler.StreamTable
use rain_net.StarHandler.StreamTable.{get_by_name}
use rain_net.StarHandler.CtrlHub.{
  CtrlHub, Delivered, delivered, unknown, blocked, has_conn, close_conn,
}

pub record ClientProxy : Type 0 where
  pub client_proxy_name : Str
  pub stream_id : Str
  pub addr : Str
  pub transport : Str
  pub key_password : Str

pub record Settings : Type 0 where
  pub key_password : Str
  pub client_proxy : List ClientProxy

pub record Serving : Type 0 where
  pub settings : Settings
  pub hub : CtrlHub
  pub feed : StreamHub
  pub link : Session

abbrev pub is_empty : Str → Bool
is_empty [] = true
is_empty (c ∷ cs) = false

-- The loop of creds: a later entry with the same password replaces an earlier one.
unfoldable pub client_creds : List ClientProxy → Map Str Str → Map Str Str
client_creds [] creds = creds
client_creds (cp ∷ cps) creds =
    client_creds cps (
      if is_empty cp.key_password then creds else insert cp.key_password cp.client_proxy_name creds)

-- The administrator's password is entered last, with the identity "".
unfoldable pub creds : Settings → Map Str Str
creds s =
    let clients = client_creds s.client_proxy [] in
    if is_empty s.key_password then clients else insert s.key_password [] clients

abbrev pub same_stream : ClientProxy → Str → Str → Bool
same_stream cp name stream_id = str_beq cp.client_proxy_name name && str_beq cp.stream_id stream_id

unfoldable pub has_stream : Str → Str → List ClientProxy → Bool
has_stream name stream_id [] = false
has_stream name stream_id (cp ∷ cps) =
    if same_stream cp name stream_id then true else has_stream name stream_id cps

unfoldable pub add_client_proxy : Settings → ClientProxy → Settings × Bool
add_client_proxy s cp =
    if has_stream cp.client_proxy_name cp.stream_id s.client_proxy
    then (s, false)
    else (record s { client_proxy = s.client_proxy ++ (cp ∷ []) }, true)

unfoldable pub drop_stream : Str → Str → List ClientProxy → List ClientProxy
drop_stream name stream_id [] = []
drop_stream name stream_id (cp ∷ cps) =
    if same_stream cp name stream_id then cps else cp ∷ drop_stream name stream_id cps

unfoldable pub remove_client_proxy : Settings → Str → Str → Settings × Bool
remove_client_proxy s name stream_id =
    if has_stream name stream_id s.client_proxy
    then (record s { client_proxy = drop_stream name stream_id s.client_proxy }, true)
    else (s, false)

-- The address of the first entry for the stream, "" when there is none.
unfoldable pub target_of : Str → Str → List ClientProxy → Str
target_of name stream_id [] = []
target_of name stream_id (cp ∷ cps) =
    if same_stream cp name stream_id then cp.addr else target_of name stream_id cps

-- The test of the password in handleConn, on the credentials of the moment.
abbrev pub has_creds : Map Str Str → HandshakeReq → Bool
has_creds c r = elim (lookup r.key_password c) [ none ↦ false | some _ ↦ true ]

-- An identity other than the administrator's may act only under its own name.
abbrev pub not_allowed : Str → Str → Bool
not_allowed identity name = not (is_empty identity) && not (str_beq name identity)

-- `fmt.Sprintf` of a refusal; `quote` is its %q.
abbrev pub refusal : (Str → Str) → Str → Str
refusal quote name =
    codes "clientProxyName " ++ (quote name ++ codes " not allowed for this credential")

-- The function that handleConn gives to ServerRegisterStream.
unfoldable pub assign_for :
    (Str → Str) → ℕ → ℕ → Str → CtrlHub → RegisterStreamReq → CtrlHub × Result Str ℕ
assign_for quote now session identity hub r =
    let (t, given) = StreamTable.assign hub.streams now session r in
    if not_allowed identity r.client_proxy_name
    then (hub, err (refusal quote r.client_proxy_name))
    else (record hub { streams = t }, given)

pub record Codecs : Type 0 where
  pub register_req : Json RegisterStreamReq
  pub register_ack : Json RegisterStreamAck
  pub open_ack : Json ConnOpenAck
  pub conn_req : Json ClientConnReq
  pub conn_ack : Json ClientConnAck
  pub update : Json WindowUpdate

abbrev pub conn_refused : ℕ → Str → ClientConnAck
conn_refused conn_id why = record { conn_id = conn_id; accepted = false; message = why }

abbrev pub conn_accepted : ℕ → ClientConnAck
conn_accepted conn_id = record { conn_id = conn_id; accepted = true; message = [] }

-- Why handleClientConnReq refuses a request, or the address that it dials.
unfoldable pub conn_target : (Str → Str) → Serving → Str → ClientConnReq → Result Str Str
conn_target quote s identity r =
    let target = target_of r.client_proxy_name r.stream_id s.settings.client_proxy in
    if not_allowed identity r.client_proxy_name
    then err (refusal quote r.client_proxy_name)
    else elim (get_by_name s.hub.streams r.client_proxy_name r.stream_id) [
      | none ↦ err (codes "unknown stream " ++ (r.client_proxy_name ++ (b'/' ∷ r.stream_id)))
      | some _ ↦ if is_empty target then err (codes "stream has no target address") else ok target
    ]

-- The answer to the client; a failed Send is not looked at.
abbrev pub answer_conn : Codecs → Serving → ClientConnAck → Serving
answer_conn json s ack = record s {
  link = (send_control json.conn_ack s.link MsgType.client_conn_ack ack).0;
}

-- The place of the new connection with the address that the goroutine dials.
unfoldable pub accept_conn :
    Codecs → Serving → ℕ → Str → StreamHub × Option ℕ → Serving × Option (ℕ × Str)
accept_conn json s conn_id target (fd, none) =
    (answer_conn json s (conn_refused conn_id (codes "session closing")), none)
accept_conn json s conn_id target (fd, some ref) =
    (answer_conn json (record s { feed = fd }) (conn_accepted conn_id), some (ref, target))

unfoldable pub handle_client_conn_req :
    Codecs → (Str → Str) → Serving → Str → Message → Serving × Option (ℕ × Str)
handle_client_conn_req json quote s identity msg = elim (decode_control json.conn_req msg) [
  | err e ↦ (s, none)
  | ok r ↦ elim (conn_target quote s identity r) [
    | err why ↦ (answer_conn json s (conn_refused r.conn_id why), none)
    | ok target ↦ accept_conn json s r.conn_id target (new_conn s.feed r.conn_id)
  ]
]

-- The state after a frame, whether the loop waits for room, and what a goroutine was told to dial.
pub data Handled : Type 0 where
  goes_on stalls : Handled

abbrev pub with_hub : Serving → CtrlHub → Serving
with_hub s hub = record s { hub = hub }

-- A full close is for a connection, or else takes the stream of that number off the table.
unfoldable pub full_close : CtrlHub → ℕ → CtrlHub
full_close hub id =
    if has_conn hub id
    then (close_conn hub id false).0
    else record hub { streams = StreamTable.remove hub.streams id }

abbrev pub after_downlink : Delivered → Handled
after_downlink delivered = goes_on
after_downlink unknown = goes_on
after_downlink blocked = stalls
