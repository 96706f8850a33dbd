-- ===== src/StarHandler/CtrlProxy/Tests.antt =====
-- The theorems on the control listener at two clients, one of which has a stream and a connection.
use rain_net.Common.{
  ◌+◌, ◌^◌, ◌<◌, ◌≡◌, refl, subst, ◌⊎◌, true, false, none, some, [], ◌∷◌, ◌++◌, arith, Str, codes,
  str_beq, nat_eq, str_eq, ok,
}
use rain_net.Common.Maps.{erase, lookup, insert}
use rain_net.Star.Session.{Json}
use rain_net.Star.Message.{half_close}
use rain_net.Star.Handshake.{RegisterStreamReq, ClientConnReq}
use rain_net.Star.StreamHub
use rain_net.Star.StreamHub.{StreamHub, new_stream_hub}
use rain_net.StarHandler.StreamTable.{
  StreamTable, StreamEntry, get, get_by_name, assign, new_stream_table,
}
use rain_net.StarHandler.StreamTable.Invariant.{
  IsConsistent, assign_lem, new_stream_table-IsConsistent,
}
use rain_net.StarHandler.CtrlHub.{CtrlHub, ConnEntry, fresh_entry, has_conn}
use rain_net.StarHandler.CtrlProxy.{
  ClientProxy, Settings, Serving, creds, client_creds, conn_target, target_of, is_empty,
}
use rain_net.StarHandler.CtrlProxy.Dispatch.{disconnect, Run, handle}
use rain_net.StarHandler.CtrlProxy.Identity.{creds_lem, conn_target_lem, HasLogin, HasAddr, MayUse}
use rain_net.StarHandler.CtrlProxy.Closing.{
  carries, disconnect_lem, close_frame, handle-close_frame, handle-half_close,
}

abbrev home : ClientProxy
home = record {
  client_proxy_name = codes "home";
  stream_id = codes "web";
  addr = codes "10.0.0.2:80";
  transport = [];
  key_password = codes "pw";
}

abbrev settings : Settings
settings = record { key_password = codes "root"; client_proxy = home ∷ [] }

home_login : lookup (codes "pw") (creds settings) ≡ some (codes "home")
unfolding creds client_creds lookup insert str_beq
home_login = refl

creds_lem_example :
    ((codes "root" ≡ codes "pw") × (is_empty (codes "pw") ≡ false) × (codes "home" ≡ []))
    ⊎ HasLogin (codes "pw") (codes "home") (home ∷ [])
creds_lem_example = creds_lem settings (codes "pw") (codes "home") home_login

abbrev web_entry : StreamEntry
web_entry = record {
  ref = 0;
  assign_id = 1;
  client_proxy_name = codes "home";
  stream_id = codes "web";
  client = 4;
  since = 100;
}

abbrev streams : StreamTable
streams = record {
  seq = 1;
  by_id = (1, web_entry) ∷ [];
  by_stream_id = (codes "home/web", web_entry) ∷ [];
  allocated = 1;
  traffic = (0, record { in_bytes = 0; out_bytes = 0 }) ∷ [];
}

abbrev conn : ConnEntry
conn = fresh_entry 1 200 web_entry

abbrev hub : CtrlHub
hub = record {
  streams = streams;
  conns = (1, 0) ∷ [];
  acks = [];
  conn_seq = 1;
  heap = (0, conn) ∷ [];
  mail = [];
  allocated = 1;
  sent = [];
}

abbrev serving : Serving
serving = record {
  settings = settings;
  hub = hub;
  feed = new_stream_hub;
  link = record { input = []; output = []; writable = true };
}

abbrev quote : Str → Str
quote s = b'"' ∷ (s ++ (b'"' ∷ []))

abbrev other : RegisterStreamReq
other = record { client_proxy_name = codes "office"; stream_id = codes "db" }

abbrev request : ClientConnReq
request = record { conn_id = 2 ^ 31; client_proxy_name = codes "home"; stream_id = codes "web" }

dialled : conn_target quote serving (codes "home") request ≡ ok (codes "10.0.0.2:80")
unfolding conn_target get_by_name lookup str_beq target_of
dialled = refl

conn_target_lem_example :
    MayUse (codes "home") (codes "home")
    × ((e : StreamEntry) × (get_by_name streams (codes "home") (codes "web") ≡ some e))
    × HasAddr (codes "home") (codes "web") (codes "10.0.0.2:80") (home ∷ [])
    × (is_empty (codes "10.0.0.2:80") ≡ false)
conn_target_lem_example =
    conn_target_lem quote serving (codes "home") request (codes "10.0.0.2:80") dialled

abbrev no_json : {A : Type 0} → Json A
no_json = record { marshal = λ a. []; unmarshal = λ bs. none }

abbrev run : Run
run = record {
  json = record {
    register_req = no_json;
    register_ack = no_json;
    open_ack = no_json;
    conn_req = no_json;
    conn_ack = no_json;
    update = no_json;
  };
  quote = quote;
  now = 400;
  session = 9;
  identity = codes "office";
  pick = true;
}

-- Before the connection was opened.
abbrev unconnected : Serving
unconnected = record serving { hub = record hub { conns = [] } }

handle-close_frame_example : get (handle run unconnected (close_frame 1)).0.hub.streams 1 ≡ none
unfolding StreamHub.get new_stream_hub has_conn lookup
handle-close_frame_example = handle-close_frame run unconnected 1 refl refl

handle-half_close_example :
    get (handle run (handle run serving (half_close 1)).0 (close_frame 1)).0.hub.streams 1 ≡ none
unfolding StreamHub.get new_stream_hub lookup
handle-half_close_example = handle-half_close run serving 1 refl

abbrev web : RegisterStreamReq
web = record { client_proxy_name = codes "home"; stream_id = codes "web" }

web_assigned : (assign new_stream_table 100 4 web).0 ≡ streams
unfolding assign new_stream_table lookup insert erase str_beq
web_assigned = refl

small : new_stream_table.seq + 1 < 2 ^ 32
unfolding new_stream_table
small = omega arith

streams-IsConsistent : IsConsistent streams
streams-IsConsistent =
    subst IsConsistent web_assigned
      (assign_lem new_stream_table 100 4 web new_stream_table-IsConsistent small).0

-- The session carries connection 1, which leads to its stream.
carried : carries hub 4 1 ≡ true
unfolding get lookup
carried = refl

disconnect_lem_example :
    (get (disconnect 4 serving).hub.streams 1 ≡ none)
    × ((carries hub 4 1 ≡ false) ⊎ (lookup 1 (disconnect 4 serving).hub.conns ≡ none))
    × ((disconnect 4 serving).feed.dead ≡ true)
unfolding get lookup
disconnect_lem_example = disconnect_lem 4 serving 1 1 streams-IsConsistent
