-- ===== src/StarServer/Proxy/Turns.antt =====
-- internal/star/starserver/proxy_server.go: the order in which pickEntry tries the rules.
use rain_net.Common.{
  mod-add-mod, ℕ, zero, suc, ◌+◌, ◌-◌, ◌%◌, ◌≤◌, ◌<◌, ◌≡◌, refl, sym, ap, ap₂, ◌∙◌, false, Option,
  none, some, List, [], ◌∷◌, ◌++◌, arith, nat_beq, if◌then◌else◌, length, take, drop, length-drop,
  nat_eq, str_eq,
}
use native.Mathlib.Nat.{mod-eq_of_lt, mod-lt, add-mod_left}
use rain_net.StarHandler.StreamTable.{StreamEntry, StreamTable}
use rain_net.StarServer.ConnectTable.{ConnectItem, ConnectTable, rules_for}
use rain_net.StarServer.Proxy.{ProxyServer, bump, entry_for, at, entry_at, try_from, pick_entry}

abbrev pub or_else : Option StreamEntry → Option StreamEntry → Option StreamEntry
or_else none later = later
or_else (some e) later = some e

-- The first of the rules that stands for a stream.
abbrev pub first_available : StreamTable → List ConnectItem → Option StreamEntry
first_available streams [] = none
first_available streams (t ∷ ts) = or_else (entry_for streams t) (first_available streams ts)

-- The list from its n-th member on, and then the members before that.
abbrev pub rotated : ℕ → List ConnectItem → List ConnectItem
rotated n ts = drop n ts ++ take n ts

drop-at :
    (n : ℕ) (ts : List ConnectItem)
    → n < length ts
    → (t : ConnectItem) × ((at ts n ≡ some t) × (drop n ts ≡ t ∷ drop (n + 1) ts))
drop-at n [] h = absurd (omega arith)
drop-at zero (t ∷ ts) h = (t, (refl, refl))
drop-at (suc n) (t ∷ ts) h =
    let (u, (found, rest)) = drop-at n ts (omega arith) in
    let on : suc n + 1 ≡ suc (n + 1) = omega arith in
    (u, (found, rest ∙ ap (λ k. u ∷ drop k (t ∷ ts)) (sym on)))

or_else_assoc : (a b c : Option StreamEntry) → or_else (or_else a b) c ≡ or_else a (or_else b c)
or_else_assoc none b c = refl
or_else_assoc (some e) b c = refl

first_available-append :
    (streams : StreamTable) (xs ys : List ConnectItem)
    → first_available streams (xs ++ ys)
      ≡ or_else (first_available streams xs) (first_available streams ys)
first_available-append streams [] ys = refl
first_available-append streams (x ∷ xs) ys =
    ap (or_else (entry_for streams x)) (first_available-append streams xs ys)
    ∙ sym (
        or_else_assoc (entry_for streams x) (first_available streams xs)
          (first_available streams ys))

module _ (streams : StreamTable) (targets : List ConnectItem) (start : ℕ) where
  try_from_step :
      (left i : ℕ)
      → try_from streams targets start (suc left) i
        ≡ or_else
            (entry_at streams (at targets ((start + i) % length targets)))
            (try_from streams targets start left (i + 1))
  unfolding try_from
  try_from_step left i = by_entry (entry_at streams (at targets ((start + i) % length targets)))
    where
      by_entry :
          (o : Option StreamEntry)
          → (elim o as (λ x. Option StreamEntry) [
            | some e ↦ some e
            | none ↦ try_from streams targets start left (i + 1)
          ])
            ≡ or_else o (try_from streams targets start left (i + 1))
      by_entry none = refl
      by_entry (some e) = refl

  try_from-zero : (i : ℕ) → try_from streams targets start zero i ≡ none
  unfolding try_from
  try_from-zero i = refl

  try_from-add :
      (a b i : ℕ)
      → try_from streams targets start (a + b) i
        ≡ or_else (try_from streams targets start a i) (try_from streams targets start b (i + a))
  try_from-add zero b i =
      let none_first : 0 + b ≡ b = omega arith in
      let same : i ≡ i + 0 = omega arith in
      ap₂ (λ n k. try_from streams targets start n k) none_first same
      ∙ ap (λ o. or_else o (try_from streams targets start b (i + 0))) (sym (try_from-zero i))
  try_from-add (suc a) b i =
      let more : suc a + b ≡ suc (a + b) = omega arith in
      let later : i + 1 + a ≡ i + suc a = omega arith in
      ap (λ n. try_from streams targets start n i) more
      ∙ try_from_step (a + b) i
      ∙ ap (or_else (entry_at streams (at targets ((start + i) % length targets))))
          (try_from-add a b (i + 1))
      ∙ sym (
          or_else_assoc (entry_at streams (at targets ((start + i) % length targets)))
            (try_from streams targets start a (i + 1))
            (try_from streams targets start b (i + 1 + a)))
      ∙ ap₂ or_else (sym (try_from_step a i)) (ap (try_from streams targets start b) later)

  -- A stretch of the loop in which the index does not wrap.
  walk :
      (left i m : ℕ)
      → ((j : ℕ) → j < left → (start + (i + j)) % length targets ≡ m + j)
      → m + left ≤ length targets
      → try_from streams targets start left i ≡ first_available streams (take left (drop m targets))
  walk zero i m index fits = try_from-zero i
  walk (suc left) i m index fits =
      let (t, (found, rest)) = drop-at m targets (omega arith) in
      let here : (start + i) % length targets ≡ m =
        ap (λ k. (start + k) % length targets) (plus_zero i)
        ∙ index 0 (omega arith)
        ∙ sym (plus_zero m) in
      let index' : (j : ℕ) → j < left → (start + (i + 1 + j)) % length targets ≡ m + 1 + j =
        λ j small.
          ap (λ k. (start + k) % length targets) (shift i j)
          ∙ index (1 + j) (omega arith)
          ∙ sym (shift m j) in
      try_from_step left i
      ∙ ap₂ or_else (ap (entry_at streams) (ap (at targets) here ∙ found))
          (walk left (i + 1) (m + 1) index' (omega arith))
      ∙ sym (ap (λ ts. first_available streams (take (suc left) ts)) rest)
    where
      plus_zero : (a : ℕ) → a ≡ a + 0
      plus_zero a = omega arith

      shift : (a j : ℕ) → a + 1 + j ≡ a + (1 + j)
      shift a j = omega arith

take_all : (xs : List ConnectItem) → take (length xs) xs ≡ xs
take_all [] = refl
take_all (x ∷ xs) = ap (λ ys. x ∷ ys) (take_all xs)

around : (k n j : ℕ) → k < n → k + (0 + (n - k) + j) ≡ n + j
around k n j small = omega arith

-- All rules are tried, from the one at the counter on and then from the first.
try_all :
    (streams : StreamTable) (targets : List ConnectItem) (start : ℕ)
    → 0 < length targets
    → try_from streams targets start (length targets) 0
      ≡ first_available streams (rotated (start % length targets) targets)
try_all streams targets start some_rule =
    let n = length targets in
    let k = start % length targets in
    let small : k < n = mod-lt start some_rule in
    let cut : n ≡ n - k + k = omega arith in
    let first_index : (j : ℕ) → j < n - k → (start + (0 + j)) % n ≡ k + j =
      λ j lt. sym (mod-add-mod start n (0 + j)) ∙ mod-eq_of_lt (omega arith) ∙ omega arith in
    let second_index : (j : ℕ) → j < k → (start + (0 + (n - k) + j)) % n ≡ 0 + j = λ j lt.
      sym (mod-add-mod start n (0 + (n - k) + j))
      ∙ ap (λ x. x % n) (around k n j small)
      ∙ add-mod_left n j
      ∙ mod-eq_of_lt (omega arith)
      ∙ omega arith in
    let front : take (n - k) (drop k targets) ≡ drop k targets =
      ap (λ l. take l (drop k targets)) (sym (length-drop k targets)) ∙ take_all (drop k targets) in
    ap (λ l. try_from streams targets start l 0) cut
    ∙ try_from-add streams targets start (n - k) k 0
    ∙ ap₂ or_else
        (walk streams targets start (n - k) 0 k first_index (omega arith)
          ∙ ap (first_available streams) front)
        (walk streams targets start k (0 + (n - k)) 0 second_index (omega arith))
    ∙ sym (first_available-append streams (drop k targets) (take k targets))

no_rule : (streams : StreamTable) (k : ℕ) → none ≡ first_available streams (rotated k [])
no_rule streams zero = refl
no_rule streams (suc k) = refl

-- The stream that a connection takes is that of the first rule which stands for a registered stream,
-- where the rules of the listener are taken from the one that the counter points at, and then from the
-- start; there is none when no rule does.
pub pick_entry_lem :
    (connects : ConnectTable) (streams : StreamTable) (s : ProxyServer)
    → (pick_entry connects streams s).1
      ≡ first_available streams (
          rotated
            (bump s.rr % length (rules_for connects s.proxy_name))
            (rules_for connects s.proxy_name))
unfolding pick_entry
pick_entry_lem connects streams s = by_rules (rules_for connects s.proxy_name)
  where
    by_rules :
        (targets : List ConnectItem)
        → (if◌then◌else◌ {A = ProxyServer × Option StreamEntry}
            (nat_beq (length targets) 0)
            (s, none)
            (
              record s { rr = bump s.rr },
              try_from streams targets (bump s.rr) (length targets) 0,
            )).1
          ≡ first_available streams (rotated (bump s.rr % length targets) targets)
    by_rules [] = no_rule streams (bump s.rr % 0)
    by_rules (t ∷ ts) =
        let filled : nat_beq (length (t ∷ ts)) 0 ≡ false = ground arith in
        rw filled (try_all streams (t ∷ ts) (bump s.rr) (omega arith))
