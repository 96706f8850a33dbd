-- ===== src/Router/Rules.antt =====
-- Adding and removing rules.
use rain_net.Common.{
  ℕ, ◌+◌, ◌≡◌, refl, ap, ◌≢◌, ◌↔◌, ◌⊎◌, inl, inr, true, false, Option, none, some, List, [], ◌∷◌,
  ◌++◌, arith, nat_beq, if◌then◌else◌, Bool-cases, length, All, All-append, Str, str_beq_self,
  str_beq_iff, nat_eq, str_eq,
}
use rain_net.Common.Maps.{lookup-erase}
use rain_net.Router.{
  Router, Rule, add, remove, seed, has_rule, same_rule, same_streams, without, cursor,
}

same_streams-eq : (ss ts : List Str) → same_streams ss ts ≡ true → ss ≡ ts
unfolding same_streams
same_streams-eq [] [] h = refl
same_streams-eq [] (t ∷ ts) h = cc
same_streams-eq (s ∷ ss) [] h = cc
same_streams-eq (s ∷ ss) (t ∷ ts) h = ground (arith, same_streams-eq ss ts, str_beq_iff s t)

same_streams_self : (ss : List Str) → same_streams ss ss ≡ true
unfolding same_streams
same_streams_self [] = refl
same_streams_self (s ∷ ss) = ground (arith, same_streams_self ss, str_beq_self s)

same_streams_iff : (ss ts : List Str) → (same_streams ss ts ≡ true) ↔ (ss ≡ ts)
unfolding same_streams
same_streams_iff ss ts = (same_streams-eq ss ts, λ e. rw e (same_streams_self ts))

same_rule_iff : (a b : Rule) → (same_rule a b ≡ true) ↔ (a ≡ b)
unfolding same_rule
same_rule_iff a b = (
  λ h. ground (
    arith,
    str_beq_iff a.ingress b.ingress,
    str_beq_iff a.identity b.identity,
    str_beq_iff a.target b.target,
    str_beq_iff a.dialer b.dialer,
    same_streams_iff a.streams b.streams,
  ),
  λ e. rw e (
      ground (
        arith,
        str_beq_self b.ingress,
        str_beq_self b.identity,
        str_beq_self b.target,
        str_beq_self b.dialer,
        same_streams_self b.streams,
      )),
)

-- No rule of a list is the same as a later one.
abbrev pub Unrepeated : List Rule → Type 0
Unrepeated [] = Unit {0}
Unrepeated (rule ∷ rules) = All (λ other. rule ≢ other) rules × Unrepeated rules

has_rule_absent :
    (rule : Rule) (rules : List Rule)
    → has_rule rule rules ≡ false
    → All (λ other. other ≢ rule) rules
unfolding has_rule
has_rule_absent rule [] h = tt
has_rule_absent rule (exist ∷ rules) h =
    (ground (arith, same_rule_iff exist rule), has_rule_absent rule rules (ground arith))

append-Unrepeated :
    (rule : Rule) (rules : List Rule)
    → All (λ other. other ≢ rule) rules
    → Unrepeated rules
    → Unrepeated (rules ++ (rule ∷ []))
append-Unrepeated rule [] away u = (tt, tt)
append-Unrepeated rule (first ∷ rules) away u = (
  All-append (λ other. first ≢ other) rules (rule ∷ []) u.0 (away.0, tt),
  append-Unrepeated rule rules away.1 u.1,
)

-- Adding a rule that is there already is refused and changes nothing; any other is put last and no
-- cursor changes. No rule is ever there twice.
pub add_lem :
    (r : Router) (rule : Rule)
    → Unrepeated r.rules
    → Unrepeated (add r rule).0.rules
      × (((has_rule rule r.rules ≡ true) × (add r rule ≡ (r, false)))
          ⊎ (All (λ other. other ≢ rule) r.rules
              × ((add r rule).1 ≡ true)
              × ((add r rule).0.rules ≡ r.rules ++ (rule ∷ []))
              × ((add r rule).0.cursors ≡ r.cursors)))
unfolding add
add_lem r rule u = elim (Bool-cases (has_rule rule r.rules)) [
  | inl t ↦ rw t (u, inl (refl, refl))
  | inr t ↦
      let away = has_rule_absent rule r.rules t in
      rw t (append-Unrepeated rule r.rules away u, inr (away, refl, refl, refl))
]

pub seed-Unrepeated :
    (r : Router) (rules : List Rule) → Unrepeated r.rules → Unrepeated (seed r rules).rules
unfolding seed
seed-Unrepeated r [] u = u
seed-Unrepeated r (rule ∷ rules) u = seed-Unrepeated (add r rule).0 rules (add_lem r rule u).0

-- Where the first rule that is the same stands, or that none is.
abbrev Found : Rule → ℕ → List Rule → Option (ℕ × List Rule) → Type 0
Found rule i rules res =
    (All (λ other. other ≢ rule) rules × (res ≡ none))
    ⊎ ((before : List Rule) × (after : List Rule) × (rules ≡ before ++ (rule ∷ after))
        × All (λ other. other ≢ rule) before
        × (res ≡ some (i + length before, before ++ after)))

without-Found :
    (rule : Rule) (i : ℕ) (rules : List Rule) → Found rule i rules (without rule i rules)
unfolding without
without-Found rule i [] = inl (tt, refl)
without-Found rule i (first ∷ rules) = elim (Bool-cases (same_rule first rule)) [
  | inl t ↦ inr (
    [],
    rules,
    ap (λ x. x ∷ rules) ((same_rule_iff first rule).0 t),
    tt,
    rw t (ap (λ j. some (j, rules)) (omega arith)),
  )
  | inr t ↦
      let away : first ≢ rule = ground (arith, same_rule_iff first rule) in
      elim (without-Found rule (i + 1) rules) [
        | inl (none_same, e) ↦ inl ((away, none_same), rw t (rw e refl))
        | inr (before, after, split, none_same, e) ↦ inr (
          first ∷ before,
          after,
          ap (◌∷◌ first) split,
          (away, none_same),
          rw t (rw e (ap (λ j. some (j, first ∷ (before ++ after))) (omega arith))),
        )
      ]
]

-- Removing takes the first rule that is the same out and leaves the order of the others; the cursor
-- of its index is dropped and that of every other index is left where it is. If there is none,
-- nothing changes.
pub rules-remove :
    (r : Router) (rule : Rule)
    → (All (λ other. other ≢ rule) r.rules × (remove r rule ≡ (r, false)))
      ⊎ ((before : List Rule) × (after : List Rule) × (r.rules ≡ before ++ (rule ∷ after))
          × All (λ other. other ≢ rule) before
          × ((remove r rule).1 ≡ true)
          × ((remove r rule).0.rules ≡ before ++ after)
          × ((j : ℕ)
              → cursor (remove r rule).0 j ≡ (if nat_beq (length before) j then 0 else cursor r j)))
unfolding remove
rules-remove r rule = elim (without-Found rule 0 r.rules) [
  | inl (none_same, e) ↦ inl (none_same, rw (e, remove) refl)
  | inr (before, after, split, none_same, e) ↦ inr (
    before,
    after,
    split,
    none_same,
    rw (e, remove) refl,
    rw (e, remove) refl,
    λ j. rw (e, remove) (ground (arith, lookup-erase (length before) j r.cursors)),
  )
]
