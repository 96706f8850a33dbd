-- ===== src/Router/Matching.antt =====
-- Match stops at the first rule that matches, in the order of declaration.
use rain_net.Common.{
  ℕ, ◌+◌, ◌%◌, ◌<◌, ◌≡◌, refl, ap, ◌⊎◌, inl, inr, true, false, Option, none, some, List, [], ◌∷◌,
  ◌++◌, arith, Bool-cases, length, get_or, All, ◌∙◌, ltb,
}
use rain_net.Router.{Router, Rule, Meta, Decision, match, match_from, decide, rule_matches, cursor}

-- No rule of the list matches.
abbrev pub NoneMatch : Meta → List Rule → Type 0
NoneMatch m rules = All (λ rule. rule_matches rule m ≡ false) rules

-- The rule at the index is the first of the rules that matches, and the decision is its.
abbrev pub FirstMatch : Router → Meta → ℕ → List Rule → Router × Option Decision → Type 0
FirstMatch r m i rules res =
    (before : List Rule) × (rule : Rule) × (after : List Rule) × (rules ≡ before ++ (rule ∷ after))
    × NoneMatch m before
    × (rule_matches rule m ≡ true)
    × (res ≡ ((decide r (i + length before) rule).0, some (decide r (i + length before) rule).1))

-- Either no rule matches, and Match changes nothing, or it does what the first one that matches says.
abbrev pub Chosen : Router → Meta → ℕ → List Rule → Router × Option Decision → Type 0
Chosen r m i rules res = (NoneMatch m rules × (res ≡ (r, none))) ⊎ FirstMatch r m i rules res

match_from-Chosen :
    (r : Router) (m : Meta) (i : ℕ) (rules : List Rule)
    → Chosen r m i rules (match_from r m i rules)
unfolding match_from
match_from-Chosen r m i [] = inl (tt, refl)
match_from-Chosen r m i (rule ∷ rules) = elim (Bool-cases (rule_matches rule m)) [
  | inl t ↦ inr (
    [],
    rule,
    rules,
    refl,
    tt,
    t,
    rw t (ap (λ j. ((decide r j rule).0, some (decide r j rule).1)) (omega arith)),
  )
  | inr t ↦ elim (match_from-Chosen r m (i + 1) rules) [
    | inl (nomatch, e) ↦ inl ((t, nomatch), rw t e)
    | inr (before, found, after, split, nomatch, hit, e) ↦ inr (
      rule ∷ before,
      found,
      after,
      ap (◌∷◌ rule) split,
      (t, nomatch),
      hit,
      rw t (e ∙ ap (λ j. ((decide r j found).0, some (decide r j found).1)) (omega arith)),
    )
  ]
]

-- Match either finds that no rule matches, and then changes nothing, or returns what the first
-- matching rule in the order of declaration decides, with the cursor of that rule's index.
pub match-Chosen : (r : Router) (m : Meta) → Chosen r m 0 r.rules (match r m)
unfolding match
match-Chosen r m = match_from-Chosen r m 0 r.rules

-- The stream of a decision is one of the rule's, or empty when the rule names none.
pub decide-streams :
    (r : Router) (i : ℕ) (rule : Rule)
    → ((length rule.streams ≡ 0) × ((decide r i rule).1.stream ≡ []))
      ⊎ ((k : ℕ) × (k < length rule.streams)
          × ((decide r i rule).1.stream ≡ get_or rule.streams k []))
unfolding decide
decide-streams r i rule = elim (Bool-cases (ltb 0 (length rule.streams))) [
  | inl t ↦ inr (cursor r i % length rule.streams, ground arith, rw t refl)
  | inr t ↦ inl (ground arith, rw t refl)
]
