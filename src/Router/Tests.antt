-- ===== src/Router/Tests.antt =====
-- The router's theorems at a rule with three streams.
use rain_net.Common.{
  ℕ, ◌≡◌, ap, ◌≢◌, ◌⊎◌, true, false, List, [], ◌∷◌, ◌++◌, arith, nat_beq, if◌then◌else◌, length,
  All, codes, nat_eq, str_eq,
}
use rain_net.Common.Maps.{lookup}
use rain_net.Router.{lookup, Router, Rule, Meta, remove, match, cursor, seed}
use rain_net.Router.Matching.{match-Chosen, Chosen}
use rain_net.Router.RoundRobin.{decide_times, in_turn, decide_times-in_turn}
use rain_net.Router.Rules.{rules-remove, Unrepeated, seed-Unrepeated}

abbrev web : Rule
web = record {
  ingress = codes "socks";
  identity = [];
  target = [];
  dialer = codes "star";
  streams = codes "a" ∷ codes "b" ∷ codes "c" ∷ [];
}

abbrev rest : Rule
rest = record { ingress = []; identity = []; target = []; dialer = codes "direct"; streams = [] }

abbrev router : Router
router = record { rules = web ∷ rest ∷ []; cursors = (0, 2) ∷ [] }

abbrev from_socks : Meta
from_socks = record { listener = codes "socks"; identity = []; target = codes "x:80" }

match-Chosen_example : Chosen router from_socks 0 (web ∷ rest ∷ []) (match router from_socks)
match-Chosen_example = match-Chosen router from_socks

decide_times-in_turn_example :
    decide_times 4 router 0 web ≡ codes "c" ∷ codes "a" ∷ codes "b" ∷ codes "c" ∷ []
unfolding in_turn lookup
decide_times-in_turn_example = decide_times-in_turn 4 router 0 web (omega arith)

router-Unrepeated : Unrepeated router.rules
router-Unrepeated = ((λ e. ground (arith, ap (λ r. r.ingress) e), tt), (tt, tt))

seed-Unrepeated_example : Unrepeated (seed router (rest ∷ web ∷ [])).rules
seed-Unrepeated_example = seed-Unrepeated router (rest ∷ web ∷ []) router-Unrepeated

rules-remove_example :
    (All (λ other. other ≢ web) router.rules × (remove router web ≡ (router, false)))
    ⊎ ((before : List Rule) × (after : List Rule) × (router.rules ≡ before ++ (web ∷ after))
        × All (λ other. other ≢ web) before
        × ((remove router web).1 ≡ true)
        × ((remove router web).0.rules ≡ before ++ after)
        × ((j : ℕ)
            → cursor (remove router web).0 j
              ≡ (if nat_beq (length before) j then 0 else cursor router j)))
rules-remove_example = rules-remove router web
