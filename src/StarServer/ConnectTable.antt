-- ===== src/StarServer/ConnectTable.antt =====
-- internal/star/starserver/connecttable.go: which streams a proxy listener may connect to. Each method
-- holds the table's lock and is one step; the copies that For and All return are the lists themselves.
pub mod Laws
mod Tests
use rain_net.Common.{
  Bool, true, false, ◌&&◌, Option, none, some, List, [], ◌∷◌, ◌++◌, if◌then◌else◌, Str, str_beq,
  nat_eq, str_eq,
}
use rain_net.Common.Maps.{Map, lookup, insert}

pub record ConnectItem : Type 0 where
  pub proxy_name : Str
  pub bridge_name : Str
  pub client_proxy_name : Str
  pub stream_id : Str

pub record ConnectTable : Type 0 where
  pub rules : Map Str (List ConnectItem)

unfoldable pub new_connect_table : ConnectTable
new_connect_table = record { rules = [] }

unfoldable pub same_connect_rule : ConnectItem → ConnectItem → Bool
same_connect_rule a b =
    str_beq a.proxy_name b.proxy_name
    && str_beq a.client_proxy_name b.client_proxy_name
    && str_beq a.stream_id b.stream_id

-- The rules of a proxy, none when the map has no entry.
unfoldable pub rules_for : ConnectTable → Str → List ConnectItem
rules_for t proxy_name = elim (lookup proxy_name t.rules) [ none ↦ [] | some rules ↦ rules ]

unfoldable pub has_rule : ConnectItem → List ConnectItem → Bool
has_rule rule [] = false
has_rule rule (exist ∷ rules) = if same_connect_rule exist rule then true else has_rule rule rules

unfoldable pub add : ConnectTable → ConnectItem → ConnectTable × Bool
add t rule =
    let list = rules_for t rule.proxy_name in
    if has_rule rule list
    then (t, false)
    else (record { rules = insert rule.proxy_name (list ++ (rule ∷ [])) t.rules }, true)

-- Seed writes what Add writes, rule by rule.
unfoldable pub seed : ConnectTable → List ConnectItem → ConnectTable
seed t [] = t
seed t (rule ∷ rules) = seed (add t rule).0 rules

abbrev pub is_for : Str → Str → ConnectItem → Bool
is_for client_proxy_name stream_id item =
    str_beq item.client_proxy_name client_proxy_name && str_beq item.stream_id stream_id

-- The list without its first rule for the stream, if there is one.
unfoldable pub without : Str → Str → List ConnectItem → Option (List ConnectItem)
without client_proxy_name stream_id [] = none
without client_proxy_name stream_id (exist ∷ rules) =
    let rest = without client_proxy_name stream_id rules in
    if is_for client_proxy_name stream_id exist
    then some rules
    else elim rest [ none ↦ none | some others ↦ some (exist ∷ others) ]

unfoldable pub remove : ConnectTable → Str → Str → Str → ConnectTable × Bool
remove t proxy_name client_proxy_name stream_id =
    elim (without client_proxy_name stream_id (rules_for t proxy_name)) [
      | none ↦ (t, false)
      | some rules ↦ (record { rules = insert proxy_name rules t.rules }, true)
    ]
