-- ===== src/StarServer/Proxy/Tests.antt =====
-- Runs of the choice of a stream, and the theorem about it at one.
use rain_net.Common.{
  ℕ, ◌%◌, ◌≡◌, refl, Option, none, some, [], ◌∷◌, Str, codes, str_beq, nat_eq, str_eq,
}
use rain_net.Common.Maps.{lookup, insert}
use rain_net.StarHandler.StreamTable.{
  StreamTable, StreamEntry, new_stream_table, assign, get_by_name,
}
use rain_net.StarServer.ConnectTable.{ConnectItem, ConnectTable, new_connect_table, rules_for}
use rain_net.StarServer.Proxy.{ProxyServer, pick_entry, entry_for}
use rain_net.StarServer.Proxy.Turns.{first_available, rotated, pick_entry_lem}

abbrev rule : Str → ConnectItem
rule stream = record {
  proxy_name = codes "in";
  bridge_name = [];
  client_proxy_name = codes "home";
  stream_id = stream;
}

-- Of the two rules the second one stands for a stream.
abbrev rules : ConnectTable
rules = record { rules = (codes "in", rule (codes "ssh") ∷ (rule (codes "web") ∷ [])) ∷ [] }

abbrev streams : StreamTable
streams =
    (assign new_stream_table 5 1
      (record { client_proxy_name = codes "home"; stream_id = codes "web" })).0

abbrev proxy : ℕ → ProxyServer
proxy rr = record { proxy_name = codes "in"; rr = rr; chain_routes = []; chain_rr = 0 }

picked_id : Option StreamEntry → Option Str
picked_id none = none
picked_id (some e) = some e.stream_id

found : picked_id (pick_entry rules streams (proxy 7)).1 ≡ some (codes "web")
unfolding picked_id pick_entry rules_for lookup str_beq get_by_name assign new_stream_table insert
found = refl

nothing : (pick_entry new_connect_table streams (proxy 7)).1 ≡ none
unfolding pick_entry rules_for lookup new_connect_table
nothing = refl

pick_entry_lem_example :
    (pick_entry rules streams (proxy 7)).1
    ≡ first_available streams (rotated (8 % 2) (rule (codes "ssh") ∷ (rule (codes "web") ∷ [])))
unfolding rules_for entry_for lookup get_by_name str_beq
pick_entry_lem_example = pick_entry_lem rules streams (proxy 7)
