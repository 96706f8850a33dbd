-- ===== src/Common/Maps.antt =====
-- Go maps as association lists. A key has at most one value; the order of iteration is the list's,
-- and what the program does must not depend on it.
use rain_net.Common.Tests.{if◌then◌else◌, Bool-cases}
use rain_net.Common.Keys.{Eq, ◌==◌}
use mathlib.Core.Path.{◌≡◌, refl, sym, subst}
use mathlib.Core.Logic.{◌≢◌, inl, inr}
use mathlib.Core.Option.{Option, none, some}
use mathlib.Core.List.{List, [], ◌∷◌}
use native.Mathlib.Omega.{arith}

abbrev pub Map {ℓ κ} : Type ℓ → Type κ → Type (ℓ ⊔ κ)
Map K V = List (K × V)

module _ {ℓ κ} {K : Type ℓ} {V : Type κ} ⦃e : Eq K⦄ where
  -- m[k]
  unfoldable pub lookup : K → Map K V → Option V
  lookup k [] = none
  lookup k ((j, v) ∷ m) = if j == k then some v else lookup k m

  -- m[k] = v
  unfoldable pub insert : K → V → Map K V → Map K V
  insert at new [] = (at, new) ∷ []
  insert at new ((key, old) ∷ rest) =
      if key == at then (at, new) ∷ rest else (key, old) ∷ insert at new rest

  -- delete(m, k)
  unfoldable pub erase : K → Map K V → Map K V
  erase k [] = []
  erase k ((j, w) ∷ m) = if j == k then erase k m else (j, w) ∷ erase k m

  pub lookup-insert :
      (at key : K) (new : V) (rest : Map K V)
      → lookup key (insert at new rest) ≡ (if at == key then some new else lookup key rest)
  unfolding lookup insert
  lookup-insert at key new [] = refl
  lookup-insert at key new ((other, old) ∷ rest) = ground (
    arith,
    e.same_iff at key,
    e.same_iff other at,
    e.same_iff other key,
    lookup-insert at key new rest,
  )

  pub lookup-erase :
      (k j : K) (m : Map K V) → lookup j (erase k m) ≡ (if k == j then none else lookup j m)
  unfolding lookup erase
  lookup-erase k j [] = ground arith
  lookup-erase k j ((i, w) ∷ m) =
      ground (arith, e.same_iff k j, e.same_iff i k, e.same_iff i j, lookup-erase k j m)

  -- No entry of the list is under `k`; every key is there once.
  abbrev pub Absent : K → Map K V → Type (ℓ ⊔ κ)
  Absent k [] = Unit
  Absent k ((j, w) ∷ m) = (j ≢ k) × Absent k m

  abbrev pub Distinct : Map K V → Type (ℓ ⊔ κ)
  Distinct [] = Unit
  Distinct ((j, w) ∷ m) = Absent j m × Distinct m

  -- Every entry of the list stands in the map.
  abbrev pub Held : Map K V → List (K × V) → Type (ℓ ⊔ κ)
  Held m [] = Unit
  Held m ((k, v) ∷ items) = (lookup k m ≡ some v) × Held m items

  pub insert-Absent : (k j : K) (v : V) (m : Map K V) → k ≢ j → Absent j m → Absent j (insert k v m)
  unfolding insert
  insert-Absent k j v [] h a = (h, tt)
  insert-Absent k j v ((i, w) ∷ m) h a = elim (Bool-cases (i == k)) [
    | inl same ↦ rw (same, insert) (h, a.1)
    | inr other ↦ rw (other, insert) (a.0, insert-Absent k j v m h a.1)
  ]

  pub insert-Distinct : (k : K) (v : V) (m : Map K V) → Distinct m → Distinct (insert k v m)
  unfolding insert
  insert-Distinct k v [] d = (tt, tt)
  insert-Distinct k v ((i, w) ∷ m) d = elim (Bool-cases (i == k)) [
    | inl same ↦ rw (same, insert) (subst (λ x. Absent x m) ((e.same_iff i k).0 same) d.0, d.1)
    | inr other ↦
        rw (other, insert)
          (
            insert-Absent k i v m (λ p. cc ((e.same_iff i k).1 (sym p))) d.0,
            insert-Distinct k v m d.1,
          )
  ]

  pub erase-Absent : (k j : K) (m : Map K V) → Absent j m → Absent j (erase k m)
  unfolding erase
  erase-Absent k j [] a = tt
  erase-Absent k j ((i, w) ∷ m) a = elim (Bool-cases (i == k)) [
    | inl same ↦ rw (same, erase) (erase-Absent k j m a.1)
    | inr other ↦ rw (other, erase) (a.0, erase-Absent k j m a.1)
  ]

  pub erase-Distinct : (k : K) (m : Map K V) → Distinct m → Distinct (erase k m)
  unfolding erase
  erase-Distinct k [] d = tt
  erase-Distinct k ((i, w) ∷ m) d = elim (Bool-cases (i == k)) [
    | inl same ↦ rw (same, erase) (erase-Distinct k m d.1)
    | inr other ↦ rw (other, erase) (erase-Absent k i m d.0, erase-Distinct k m d.1)
  ]

  Held-cons :
      (k : K) (v : V) (m : Map K V) (items : List (K × V))
      → Absent k items
      → Held m items
      → Held ((k, v) ∷ m) items
  unfolding lookup
  Held-cons k v m [] a h = tt
  Held-cons k v m ((j, w) ∷ items) a h =
      (ground (arith, e.same_iff k j, a.0, h.0), Held-cons k v m items a.1 h.1)

  -- With distinct keys a map holds its own entries.
  pub Distinct-Held : (m : Map K V) → Distinct m → Held m m
  unfolding lookup
  Distinct-Held [] d = tt
  Distinct-Held ((k, v) ∷ m) d =
      (rw ((e.same_iff k k).1 refl), Held-cons k v m m d.0 (Distinct-Held m d.1))

  pub erase-Held :
      (k : K) (m : Map K V) (items : List (K × V))
      → Absent k items
      → Held m items
      → Held (erase k m) items
  erase-Held k m [] a h = tt
  erase-Held k m ((j, w) ∷ items) a h =
      (ground (arith, lookup-erase k j m, e.same_iff k j, a.0, h.0), erase-Held k m items a.1 h.1)

  pub lookup-Absent : (k : K) (m : Map K V) → Absent k m → lookup k m ≡ none
  unfolding lookup
  lookup-Absent k [] a = refl
  lookup-Absent k ((j, w) ∷ m) a = ground (arith, e.same_iff j k, a.0, lookup-Absent k m a.1)
