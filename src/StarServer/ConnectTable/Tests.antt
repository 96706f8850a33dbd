-- ===== src/StarServer/ConnectTable/Tests.antt =====
-- The table's theorems at one proxy with one rule.
use rain_net.Common.{◌≡◌, refl, [], ◌∷◌, codes, str_beq, nat_eq, str_eq}
use rain_net.Common.Maps.{lookup, insert}
use rain_net.StarServer.ConnectTable.{
  ConnectItem, ConnectTable, new_connect_table, rules_for, has_rule, add,
}
use rain_net.StarServer.ConnectTable.Laws.{IsTable, add-IsTable}

abbrev web : ConnectItem
web = record {
  proxy_name = codes "front";
  bridge_name = [];
  client_proxy_name = codes "home";
  stream_id = codes "web";
}

empty-IsTable : IsTable new_connect_table
unfolding new_connect_table rules_for lookup
empty-IsTable proxy = tt

abbrev one_rule : ConnectTable
one_rule = (add new_connect_table web).0

one_rule_there : rules_for one_rule (codes "front") ≡ web ∷ []
unfolding new_connect_table rules_for lookup add has_rule insert str_beq
one_rule_there = refl

one_rule-IsTable : IsTable one_rule
one_rule-IsTable = (add-IsTable new_connect_table web empty-IsTable).0
