-- ===== src/Router.antt =====
-- internal/router/router.go: the rules that choose the dialer and the stream of a connection. `r.mu`
-- makes every method one step.
pub mod Matching
pub mod RoundRobin
pub mod Rules
mod Tests
use rain_net.Common.{
  ℕ, ◌+◌, ◌%◌, Bool, true, false, not, ◌&&◌, Option, none, some, List, [], ◌∷◌, ◌++◌, ltb,
  if◌then◌else◌, length, get_or, Str, str_beq, nat_eq, str_eq,
}
use rain_net.Common.Maps.{Map, lookup, insert, erase}

-- The fields of pkg/rainnet's Meta that rules look at.
pub record Meta : Type 0 where
  pub listener : Str
  pub identity : Str
  pub target : Str

pub record Rule : Type 0 where
  pub ingress : Str
  pub identity : Str
  pub target : Str
  pub dialer : Str
  pub streams : List Str

pub record Decision : Type 0 where
  pub dialer : Str
  pub stream : Str
  pub rule : Rule

-- `cursors` has the round-robin cursor of a rule under the rule's index.
pub record Router : Type 0 where
  pub rules : List Rule
  pub cursors : Map ℕ ℕ

abbrev pub new : Router
new = record { rules = []; cursors = [] }

unfoldable pub same_streams : List Str → List Str → Bool
same_streams [] [] = true
same_streams [] (t ∷ ts) = false
same_streams (s ∷ ss) [] = false
same_streams (s ∷ ss) (t ∷ ts) = str_beq s t && same_streams ss ts

unfoldable pub same_rule : Rule → Rule → Bool
same_rule a b =
    str_beq a.ingress b.ingress
    && str_beq a.identity b.identity
    && str_beq a.target b.target
    && str_beq a.dialer b.dialer
    && same_streams a.streams b.streams

unfoldable pub has_rule : Rule → List Rule → Bool
has_rule rule [] = false
has_rule rule (exist ∷ rules) = if same_rule exist rule then true else has_rule rule rules

unfoldable pub add : Router → Rule → Router × Bool
add r rule =
    if has_rule rule r.rules
    then (r, false)
    else (record r { rules = r.rules ++ (rule ∷ []) }, true)

unfoldable pub seed : Router → List Rule → Router
seed r [] = r
seed r (rule ∷ rules) = seed (add r rule).0 rules

-- The index of the first rule that is the same, and the rules without it.
unfoldable pub without : Rule → ℕ → List Rule → Option (ℕ × List Rule)
without rule i [] = none
without rule i (exist ∷ rules) =
    let rest = without rule (i + 1) rules in
    if same_rule exist rule
    then some (i, rules)
    else elim rest [ none ↦ none | some (j, others) ↦ some (j, exist ∷ others) ]

unfoldable pub remove : Router → Rule → Router × Bool
remove r rule = elim (without rule 0 r.rules) [
  | none ↦ (r, false)
  | some (i, rules) ↦ (record { rules = rules; cursors = erase i r.cursors }, true)
]

-- An empty field matches everything.
abbrev pub field_matches : Str → Str → Bool
field_matches [] have = true
field_matches (c ∷ want) have = str_beq (c ∷ want) have

unfoldable pub rule_matches : Rule → Meta → Bool
rule_matches rule m =
    field_matches rule.ingress m.listener
    && field_matches rule.identity m.identity
    && field_matches rule.target m.target

-- `r.cursors[i]`, 0 when the map has none.
abbrev pub cursor : Router → ℕ → ℕ
cursor r i = elim (lookup i r.cursors) [ none ↦ 0 | some c ↦ c ]

-- What Match does with the rule at index i that it stops at.
unfoldable pub decide : Router → ℕ → Rule → Router × Decision
decide r i rule =
    let n = length rule.streams in
    if ltb 0 n
    then (
      record r { cursors = insert i ((cursor r i + 1) % n) r.cursors },
      record {
        dialer = rule.dialer;
        stream = get_or rule.streams (cursor r i % n) [];
        rule = rule;
      },
    )
    else (r, record { dialer = rule.dialer; stream = []; rule = rule })

unfoldable pub match_from : Router → Meta → ℕ → List Rule → Router × Option Decision
match_from r m i [] = (r, none)
match_from r m i (rule ∷ rules) =
    let rest = match_from r m (i + 1) rules in
    if not (rule_matches rule m) then rest else (let (r', d) = decide r i rule in (r', some d))

unfoldable pub match : Router → Meta → Router × Option Decision
match r m = match_from r m 0 r.rules
