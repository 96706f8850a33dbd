-- ===== src/StarServer/ConnectTable/Laws.antt =====
-- Rules stay under their proxy and are never there twice.
use rain_net.Common.{
  ◌≡◌, refl, sym, ap, subst, ◌∙◌, ◌⊎◌, inl, inr, true, false, List, [], ◌∷◌, ◌++◌, arith,
  if◌then◌else◌, Bool-cases, All, All-append, Str, str_beq, str_beq_iff, nat_eq, str_eq, ◌+◌,
  Option, none, some, Option-cases, length, str_beq_self,
}
use rain_net.Common.Maps.{insert, lookup-insert}
use rain_net.StarServer.ConnectTable.{
  remove, without, is_for, ConnectItem, ConnectTable, same_connect_rule, rules_for, has_rule, add,
}

-- Every rule of a list names the proxy, and no two of them are the same.
abbrev pub IsList : Str → List ConnectItem → Type 0
IsList proxy [] = Unit {0}
IsList proxy (rule ∷ rules) =
    (rule.proxy_name ≡ proxy)
    × All (λ other. same_connect_rule rule other ≡ false) rules
    × IsList proxy rules

abbrev pub IsTable : ConnectTable → Type 0
IsTable t = (proxy : Str) → IsList proxy (rules_for t proxy)

has_rule-false :
    (rule : ConnectItem) (rules : List ConnectItem)
    → has_rule rule rules ≡ false
    → All (λ other. same_connect_rule other rule ≡ false) rules
unfolding has_rule
has_rule-false rule [] h = tt
has_rule-false rule (exist ∷ rules) h =
    (ground (arith, h), has_rule-false rule rules (ground (arith, h)))

append-IsList :
    (proxy : Str) (rule : ConnectItem) (rules : List ConnectItem)
    → rule.proxy_name ≡ proxy
    → All (λ other. same_connect_rule other rule ≡ false) rules
    → IsList proxy rules
    → IsList proxy (rules ++ (rule ∷ []))
append-IsList proxy rule [] p away l = (p, tt, tt)
append-IsList proxy rule (first ∷ rules) p away l = (
  l.0,
  All-append (λ other. same_connect_rule first other ≡ false) rules (rule ∷ []) l.1 (away.0, tt),
  append-IsList proxy rule rules p away.1 l.2,
)

rules_for-insert :
    (t : ConnectTable) (proxy other : Str) (rules : List ConnectItem)
    → rules_for (record { rules = insert proxy rules t.rules }) other
      ≡ (if str_beq proxy other then rules else rules_for t other)
unfolding rules_for
rules_for-insert t proxy other rules = ground (arith, lookup-insert proxy other rules t.rules)

put-IsTable :
    (t : ConnectTable) (proxy : Str) (rules : List ConnectItem)
    → IsTable t
    → IsList proxy rules
    → IsTable (record { rules = insert proxy rules t.rules })
put-IsTable t proxy rules c l other = elim (Bool-cases (str_beq proxy other)) [
  | inl e ↦
      subst (IsList other)
        (sym (
          rules_for-insert t proxy other rules
          ∙ ap (λ b. if b then rules else rules_for t other) e))
        (subst (λ name. IsList name rules) ((str_beq_iff proxy other).0 e) l)
  | inr e ↦
      subst (IsList other)
        (sym (
          rules_for-insert t proxy other rules
          ∙ ap (λ b. if b then rules else rules_for t other) e))
        (c other)
]

-- Add keeps every rule under its proxy, once. It refuses a rule that is there, and changes nothing; any
-- other is then the last of its proxy's rules, and the rules of other proxies stay as they were.
pub add-IsTable :
    (t : ConnectTable) (rule : ConnectItem)
    → IsTable t
    → IsTable (add t rule).0
      × (((has_rule rule (rules_for t rule.proxy_name) ≡ true) × (add t rule ≡ (t, false)))
          ⊎ (((add t rule).1 ≡ true)
              × ((other : Str)
                  → rules_for (add t rule).0 other ≡ (
                      if str_beq rule.proxy_name other
                      then rules_for t rule.proxy_name ++ (rule ∷ [])
                      else rules_for t other))))
unfolding add
add-IsTable t rule c =
    let list = rules_for t rule.proxy_name in
    elim (Bool-cases (has_rule rule list)) [
      | inl h ↦ rw h (c, inl (refl, refl))
      | inr h ↦ rw h (
        put-IsTable t rule.proxy_name (list ++ (rule ∷ [])) c (
            append-IsList rule.proxy_name rule list refl (has_rule-false rule list h)
              (c rule.proxy_name)),
        inr (refl, λ other. rules_for-insert t rule.proxy_name other (list ++ (rule ∷ []))),
      )
    ]

-- The list has no rule for the stream.
abbrev pub Bars : Str → Str → List ConnectItem → Type 0
Bars client stream rules = All (λ item. is_for client stream item ≡ false) rules

-- Two rules of one proxy for the same stream are the same.
is_for_same :
    (client stream : Str) (a b : ConnectItem)
    → a.proxy_name ≡ b.proxy_name
    → is_for client stream a ≡ true
    → same_connect_rule a b ≡ false
    → is_for client stream b ≡ false
unfolding same_connect_rule
is_for_same client stream a b p found differ = ground (
  arith,
  p,
  found,
  differ,
  str_beq_iff a.proxy_name b.proxy_name,
  str_beq_iff a.client_proxy_name b.client_proxy_name,
  str_beq_iff a.stream_id b.stream_id,
  str_beq_iff a.client_proxy_name client,
  str_beq_iff a.stream_id stream,
  str_beq_iff b.client_proxy_name client,
  str_beq_iff b.stream_id stream,
)

rest-Bars :
    (proxy client stream : Str) (a : ConnectItem) (rules : List ConnectItem)
    → a.proxy_name ≡ proxy
    → is_for client stream a ≡ true
    → All (λ other. same_connect_rule a other ≡ false) rules
    → IsList proxy rules
    → Bars client stream rules
rest-Bars proxy client stream a [] p found differ l = tt
rest-Bars proxy client stream a (b ∷ rules) p found differ l = (
  is_for_same client stream a b (p ∙ sym l.0) found differ.0,
  rest-Bars proxy client stream a rules p found differ.1 l.2,
)

-- What `without` makes of a list.
abbrev pub Taken : Str → Str → Str → List ConnectItem → Option (List ConnectItem) → Type 0
Taken proxy client stream rules none = Bars client stream rules
Taken proxy client stream rules (some others) =
    IsList proxy others
    × Bars client stream others
    × (length rules ≡ length others + 1)
    × ((a : ConnectItem)
        → All (λ other. same_connect_rule a other ≡ false) rules
        → All (λ other. same_connect_rule a other ≡ false) others)

Taken-cons :
    (proxy client stream : Str) (first : ConnectItem) (rules : List ConnectItem)
    (res : Option (List ConnectItem))
    → IsList proxy (first ∷ rules)
    → is_for client stream first ≡ false
    → Taken proxy client stream rules res
    → Taken proxy client stream
        (first ∷ rules)
        (elim res [ none ↦ none | some others ↦ some (first ∷ others) ])
Taken-cons proxy client stream first rules none l t bars = (t, bars)
Taken-cons proxy client stream first rules (some others) l t (kept, bars, count, away) =
    ((l.0, away first l.1, kept), (t, bars), omega (arith, count), λ a all. (all.0, away a all.1))

without-Taken :
    (proxy client stream : Str) (rules : List ConnectItem)
    → IsList proxy rules
    → Taken proxy client stream rules (without client stream rules)
unfolding without
without-Taken proxy client stream [] l = tt
without-Taken proxy client stream (first ∷ rules) l =
    elim (Bool-cases (is_for client stream first)) [
      | inl t ↦ rw t (
        l.2,
        rest-Bars proxy client stream first rules l.0 t l.1 l.2,
        omega arith,
        λ a all. all.1,
      )
      | inr t ↦ rw t (
          Taken-cons proxy client stream first rules (without client stream rules) l t
            (without-Taken proxy client stream rules l.2))
    ]

-- Remove keeps every rule under its proxy, once. After it the proxy has no rule for the stream: one
-- rule was taken out, or there was none and nothing changes. Other proxies keep their rules.
pub remove-IsTable :
    (t : ConnectTable) (proxy client stream : Str)
    → IsTable t
    → IsTable (remove t proxy client stream).0
      × Bars client stream (rules_for (remove t proxy client stream).0 proxy)
      × ((other : Str)
          → str_beq proxy other ≡ false
          → rules_for (remove t proxy client stream).0 other ≡ rules_for t other)
unfolding remove
remove-IsTable t proxy client stream c =
    let list = rules_for t proxy in
    let taken = without-Taken proxy client stream list (c proxy) in
    elim (Option-cases (without client stream list)) [
      | inl e ↦
          let bars = subst (Taken proxy client stream list) e taken in
          rw (e, remove) (c, bars, λ other n. refl)
      | inr (rules, e) ↦
          let (kept, bars, count, away) = subst (Taken proxy client stream list) e taken in
          let put = rules_for-insert t proxy in
          rw (e, remove)
            (
              put-IsTable t proxy rules c kept,
              subst (Bars client stream)
                  (sym (put proxy rules ∙ ap (λ b. if b then rules else list) (str_beq_self proxy)))
                  bars,
              λ other n. put other rules ∙ ap (λ b. if b then rules else rules_for t other) n,
            )
    ]
