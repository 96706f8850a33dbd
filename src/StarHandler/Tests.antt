-- ===== src/StarHandler/Tests.antt =====
-- Runs of the stream table and of the hub at concrete streams, and their theorems at them.
use rain_net.Star.Handshake.{ConnOpenReq, ConnOpenAck}
use rain_net.Common.{
  ℕ, ◌≤◌, ◌<◌, ◌≡◌, refl, subst, ◌⊎◌, true, false, Option, none, some, List, [], ◌∷◌, ◌++◌, arith,
  length, All, Bytes, codes, str_beq, nat_eq, str_eq, err,
}
use mathlib.Core.List.{Perm}
use rain_net.Star.Message.{Message}
use rain_net.Common.Maps.{lookup, insert, erase}
use rain_net.Star.Session.{Json}
use rain_net.Star.Handshake.{RegisterStreamReq}
use rain_net.StarHandler.StreamTable
use rain_net.StarHandler.StreamTable.{
  StreamTable, StreamEntry, new_stream_table, assign, get, remove_by_client, find_by_client_proxy,
  get_by_name, named, values,
}
use rain_net.StarHandler.StreamTable.Invariant.{IsConsistent, Refused, Registered, assign_lem}
use rain_net.StarHandler.StreamTable.Disconnect.{remove_by_client_lem, count_client}
use rain_net.StarHandler.StreamTable.Listing.{
  IsSorted, entries_of, pair, find_by_client_proxy_lem, get_by_name_ambiguous, NoSlash,
}
use rain_net.Star.MsgType
use rain_net.Star.Message.{empty_payload}
use rain_net.Star.Session.{decode_control}
use rain_net.Star.Handshake.{WindowUpdate}
use rain_net.StarHandler.CtrlHub.Delivery.{release_recv-decode_control}
use rain_net.StarHandler.CtrlHub.{
  find_conn, remove_conn, close_one, close_each, delivered, deliver_conn_ack, CtrlHub, ConnEntry,
  new_ctrl_hub, open_conn, await_ack, fresh_entry, opened, release_recv, update_batch,
  close_conns_by_client, carried_by, register_conn,
}
use rain_net.StarHandler.CtrlHub.Invariant.{IsLinked}
use rain_net.StarHandler.CtrlHub.History.{
  Reach, here, next, registers, opens, answers, disconnects, Reach-IsLinked,
}
use rain_net.StarHandler.CtrlHub.OpenConn.{await_ack_lem, gave_up_keeps_ack, GaveUp}
use rain_net.StarHandler.CtrlHub.Delivery.{with_sink, downlink_in_order, downlink_all}
use rain_net.StarHandler.CtrlHub.Disconnect.{close_conns_by_client_lem}

abbrev web : RegisterStreamReq
web = record { client_proxy_name = codes "home"; stream_id = codes "web" }

abbrev web_entry : StreamEntry
web_entry = record {
  ref = 0;
  assign_id = 1;
  client_proxy_name = codes "home";
  stream_id = codes "web";
  client = 4;
  since = 100;
}

abbrev one_stream : StreamTable
one_stream = record {
  seq = 1;
  by_id = (1, web_entry) ∷ [];
  by_stream_id = (codes "home/web", web_entry) ∷ [];
  allocated = 1;
  traffic = (0, record { in_bytes = 0; out_bytes = 0 }) ∷ [];
}

empty-IsConsistent : IsConsistent new_stream_table
unfolding new_stream_table lookup
empty-IsConsistent = record { by_id_lem = λ id e h. cc; by_key_lem = λ k e h. cc; distinct = tt }

assign_lem_example :
    IsConsistent (assign new_stream_table 100 4 web).0
    × (Refused new_stream_table web (assign new_stream_table 100 4 web)
        ⊎ Registered new_stream_table web
            (StreamTable.new_entry new_stream_table 100 4 web)
            (assign new_stream_table 100 4 web))
unfolding new_stream_table
assign_lem_example = assign_lem new_stream_table 100 4 web empty-IsConsistent (omega arith)

web_assigned : (assign new_stream_table 100 4 web).0 ≡ one_stream
unfolding assign new_stream_table lookup insert erase str_beq
web_assigned = refl

one_stream-IsConsistent : IsConsistent one_stream
one_stream-IsConsistent = subst IsConsistent web_assigned assign_lem_example.0

remove_by_client_lem_example :
    IsConsistent (remove_by_client one_stream 4).0
    × (get (remove_by_client one_stream 4).0 1 ≡ none)
    × ((remove_by_client one_stream 4).1 ≡ 1)
unfolding get lookup count_client
remove_by_client_lem_example = remove_by_client_lem one_stream 4 1 one_stream-IsConsistent

find_by_client_proxy_lem_example :
    IsSorted (find_by_client_proxy one_stream (codes "home"))
    × Perm
        (find_by_client_proxy one_stream (codes "home"))
        (entries_of (codes "home") one_stream.by_id)
    × All (λ e. e.client_proxy_name ≡ codes "home") (find_by_client_proxy one_stream (codes "home"))
find_by_client_proxy_lem_example = find_by_client_proxy_lem one_stream (codes "home")

home-NoSlash : NoSlash (codes "home")
home-NoSlash = ground arith

web_found : get_by_name one_stream (codes "home") (codes "web") ≡ some web_entry
unfolding get_by_name lookup str_beq
web_found = refl

slashed_free : get_by_name one_stream (codes "a/b") (codes "c") ≡ none
unfolding get_by_name lookup str_beq
slashed_free = refl

get_by_name_ambiguous_example :
    (get_by_name
        (assign one_stream 300 5 (pair (codes "a/b") (codes "c"))).0
        (codes "a")
        (codes "b/c")
      ≡ some (StreamTable.new_entry one_stream 300 5 (pair (codes "a/b") (codes "c"))))
    × ((assign
          (assign one_stream 300 5 (pair (codes "a/b") (codes "c"))).0
          400
          6
          (pair (codes "a") (codes "b/c"))).1
        ≡ err (StreamTable.already_registered (codes "a/b/c")))
get_by_name_ambiguous_example =
    get_by_name_ambiguous one_stream (codes "a") (codes "b") (codes "c") 300 5 400 6 slashed_free

abbrev conn_req_of : Bytes → Option ConnOpenReq
conn_req_of (s ∷ c ∷ []) = some (record { stream_id = s; conn_id = c })
conn_req_of _ = none

abbrev conn_req_json : Json ConnOpenReq
conn_req_json = record { marshal = λ q. q.stream_id ∷ q.conn_id ∷ []; unmarshal = conn_req_of }

abbrev idle_hub : CtrlHub
idle_hub = record {
  streams = one_stream;
  conns = [];
  acks = [];
  conn_seq = 0;
  heap = [];
  mail = [];
  allocated = 0;
  sent = [];
}

abbrev first_conn : ConnEntry
first_conn = fresh_entry 1 200 web_entry

abbrev one_conn : CtrlHub
one_conn = register_conn idle_hub 200 web_entry

abbrev accepted : ConnOpenAck
accepted = record { conn_id = 1; accepted = true; message = [] }

placed : lookup 0 one_conn.heap ≡ some first_conn
unfolding register_conn lookup insert erase
placed = refl

numbered : lookup 1 one_conn.conns ≡ some 0
unfolding register_conn lookup insert erase
numbered = refl

abbrev registered : CtrlHub
registered = record new_ctrl_hub { streams = (assign new_ctrl_hub.streams 100 4 web).0 }

abbrev connected : CtrlHub
connected = deliver_conn_ack (open_conn conn_req_json true registered 200 web_entry).0 accepted

-- A stream is registered, a connection to it is opened and accepted, and the session ends.
disconnected : Reach conn_req_json (close_conns_by_client connected 4).0
disconnected =
    next
      (next (next (next here (registers 100 4 web)) (opens true 200 web_entry)) (answers accepted))
      (disconnects 4)

-- The connection stood, and is gone.
stood : lookup 1 connected.conns ≡ some 0
unfolding lookup deliver_conn_ack open_conn register_conn insert new_ctrl_hub
stood = refl

gone : lookup 1 (close_conns_by_client connected 4).0.conns ≡ none
unfolding lookup close_conns_by_client close_each deliver_conn_ack open_conn register_conn insert
    new_ctrl_hub close_one get assign new_stream_table remove_conn find_conn erase
gone = refl

Reach-IsLinked_example : IsLinked (close_conns_by_client connected 4).0
Reach-IsLinked_example = Reach-IsLinked disconnected

await_ack_lem_example :
    GaveUp one_conn 0 first_conn (await_ack one_conn 1 0 true)
    × ((ack : ConnOpenAck)
        → lookup 0 one_conn.mail ≡ some ack
        → ((ack.accepted ≡ true) × (await_ack one_conn 1 0 false ≡ (one_conn, opened 0)))
          ⊎ ((ack.accepted ≡ false) × GaveUp one_conn 0 first_conn (await_ack one_conn 1 0 false)))
await_ack_lem_example = await_ack_lem one_conn 0 first_conn placed

gave_up_keeps_ack_example :
    (lookup 1 (open_conn conn_req_json false idle_hub 200 web_entry).0.acks ≡ some 0)
    × (lookup 1 (await_ack (open_conn conn_req_json true idle_hub 200 web_entry).0 1 0 true).0.acks
        ≡ some 0)
gave_up_keeps_ack_example = gave_up_keeps_ack conn_req_json idle_hub 200 web_entry

downlink_in_order_example :
    ((downlink_all false one_conn 1 (codes "ab" ∷ codes "c" ∷ [])).1 ≡ delivered ∷ delivered ∷ [])
    × (lookup 0 (downlink_all false one_conn 1 (codes "ab" ∷ codes "c" ∷ [])).0.heap
        ≡ some (with_sink first_conn (codes "ab" ∷ codes "c" ∷ [])))
downlink_in_order_example =
    downlink_in_order false one_conn 1 0 first_conn (codes "ab" ∷ codes "c" ∷ []) numbered placed
      refl (omega arith)

carried : carried_by one_conn 4 first_conn ≡ true
unfolding register_conn get lookup
carried = refl

close_conns_by_client_lem_example : lookup 1 (close_conns_by_client one_conn 4).0.conns ≡ none
close_conns_by_client_lem_example =
    close_conns_by_client_lem one_conn 4 1 0 first_conn numbered placed carried

abbrev update_of : Bytes → Option WindowUpdate
update_of (c ∷ d ∷ []) = some (record { conn_id = c; delta = d })
update_of _ = none

abbrev update_json : Json WindowUpdate
update_json = record { marshal = λ u. u.conn_id ∷ u.delta ∷ []; unmarshal = update_of }

release_recv-decode_control_example :
    (sent : List (ℕ × Message)) × ((release_recv one_conn 0 70000).sent ≡ one_conn.sent ++ sent)
    × (update_batch ≤ 70000 → 0 < length sent)
    × All (λ m. decode_control update_json m.1 ≡ err (empty_payload MsgType.window_update)) sent
release_recv-decode_control_example =
    release_recv-decode_control update_json one_conn 0 70000 first_conn placed
