-- ===== src/Router/RoundRobin.antt =====
-- A rule with several streams takes them in turn.
use rain_net.Common.{
  ℕ, zero, suc, ◌+◌, ◌%◌, ◌<◌, ◌≡◌, refl, sym, ap, ap₂, ◌∙◌, List, [], ◌∷◌, arith, length, get_or,
  Str, nat_eq, str_eq, mod-mod, mod-add-mod,
}
use rain_net.Common.Maps.{lookup-insert}
use rain_net.Router.{Router, Rule, decide, cursor}

-- The streams of k matches in a row of the rule at index i.
unfoldable pub decide_times : ℕ → Router → ℕ → Rule → List Str
decide_times zero r i rule = []
decide_times (suc k) r i rule = let (r', d) = decide r i rule in d.stream ∷ decide_times k r' i rule

-- The streams of the rule from position c on, k of them, going round.
unfoldable pub in_turn : ℕ → ℕ → List Str → List Str
in_turn zero c streams = []
in_turn (suc k) c streams = get_or streams (c % length streams) [] ∷ in_turn k (c + 1) streams

decide_once :
    (r : Router) (i : ℕ) (rule : Rule)
    → 0 < length rule.streams
    → ((decide r i rule).1.stream ≡ get_or rule.streams (cursor r i % length rule.streams) [])
      × (cursor (decide r i rule).0 i ≡ (cursor r i + 1) % length rule.streams)
unfolding decide
decide_once r i rule some_stream =
    ground (arith, lookup-insert i i ((cursor r i + 1) % length rule.streams) r.cursors)

in_turn_mod :
    (k c : ℕ) (streams : List Str) → in_turn k (c % length streams) streams ≡ in_turn k c streams
unfolding in_turn
in_turn_mod zero c streams = refl
in_turn_mod (suc k) c streams =
    ap₂ (λ j rest. get_or streams j [] ∷ rest) (mod-mod c (length streams))
      (sym (in_turn_mod k (c % length streams + 1) streams)
        ∙ ap (λ j. in_turn k j streams) (mod-add-mod c (length streams) 1)
        ∙ in_turn_mod k (c + 1) streams)

-- Matches in a row of a rule that names streams choose them in turn, from its cursor on and round.
pub decide_times-in_turn :
    (k : ℕ) (r : Router) (i : ℕ) (rule : Rule)
    → 0 < length rule.streams
    → decide_times k r i rule ≡ in_turn k (cursor r i) rule.streams
unfolding decide_times in_turn
decide_times-in_turn zero r i rule h = refl
decide_times-in_turn (suc k) r i rule h =
    let (first, moved) = decide_once r i rule h in
    ap₂ ◌∷◌ first (
      decide_times-in_turn k (decide r i rule).0 i rule h
      ∙ ap (λ c. in_turn k c rule.streams) moved
      ∙ in_turn_mod k (cursor r i + 1) rule.streams)
