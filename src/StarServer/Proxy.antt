-- ===== src/StarServer/Proxy.antt =====
-- internal/star/starserver/proxy_server.go: which stream or which outgoing chain a connection takes. The
-- counters are 32 bits wide and are read as they stand after their Add.
pub mod Turns
mod Tests
use rain_net.Common.{
  ℕ, zero, suc, ◌+◌, ◌%◌, ◌^◌, not, Option, none, some, List, [], ◌∷◌, nat_beq, if◌then◌else◌,
  length, Str,
}
use rain_net.StarHandler.StreamTable.{StreamEntry, StreamTable, get_by_name, find_by_client_proxy}
use rain_net.StarServer.ConnectTable.{ConnectItem, ConnectTable, rules_for}
use rain_net.StarServer.Runtime.{ChainRoute}

pub record ProxyServer : Type 0 where
  pub proxy_name : Str
  pub rr : ℕ
  pub chain_routes : List ChainRoute
  pub chain_rr : ℕ

-- Add(1) on a counter.
abbrev pub bump : ℕ → ℕ
bump n = (n + 1) % 2 ^ 32

abbrev pub first_of : List StreamEntry → Option StreamEntry
first_of [] = none
first_of (e ∷ es) = some e

-- The stream that a rule stands for: its own, or the first one of its client.
unfoldable pub entry_for : StreamTable → ConnectItem → Option StreamEntry
entry_for streams t =
    if not (nat_beq (length t.stream_id) 0)
    then get_by_name streams t.client_proxy_name t.stream_id
    else first_of (find_by_client_proxy streams t.client_proxy_name)

-- targets[i], which the caller keeps in range.
abbrev pub at : List ConnectItem → ℕ → Option ConnectItem
at [] i = none
at (t ∷ ts) zero = some t
at (t ∷ ts) (suc i) = at ts i

abbrev pub entry_at : StreamTable → Option ConnectItem → Option StreamEntry
entry_at streams none = none
entry_at streams (some t) = entry_for streams t

-- The loop with `left` targets to try, the first of which is the i-th from the start.
unfoldable pub try_from : StreamTable → List ConnectItem → ℕ → ℕ → ℕ → Option StreamEntry
unfolding entry_for
try_from streams targets start zero i = none
try_from streams targets start (suc left) i =
    elim (entry_at streams (at targets ((start + i) % length targets))) [
      | some e ↦ some e
      | none ↦ try_from streams targets start left (i + 1)
    ]

unfoldable pub pick_entry :
    ConnectTable → StreamTable → ProxyServer → ProxyServer × Option StreamEntry
unfolding try_from
pick_entry connects streams s =
    let targets = rules_for connects s.proxy_name in
    if nat_beq (length targets) 0
    then (s, none)
    else (record s { rr = bump s.rr }, try_from streams targets (bump s.rr) (length targets) 0)

-- pickChain: the route at the counter. Whether its client runs is asked of chainDialers.
abbrev pub route_at : List ChainRoute → ℕ → Option ChainRoute
route_at [] i = none
route_at (cr ∷ rest) zero = some cr
route_at (cr ∷ rest) (suc i) = route_at rest i

unfoldable pub pick_chain : ProxyServer → ProxyServer × Option ChainRoute
pick_chain s = if nat_beq (length s.chain_routes) 0 then (s, none) else (
  record s { chain_rr = bump s.chain_rr },
  route_at s.chain_routes (bump s.chain_rr % length s.chain_routes),
)
