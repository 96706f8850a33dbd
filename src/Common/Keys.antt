-- ===== src/Common/Keys.antt =====
-- Equality tests as an interface, for numbers, strings and pairs: what `==` means in the source.
use rain_net.Common.Tests.{nat_beq, nat_beq_iff}
use Prim.Native.Nat.{ℕ}
use mathlib.Core.Path.{◌≡◌, refl}
use mathlib.Core.Logic.{◌↔◌}
use mathlib.Core.Bool.{Bool, true, false, ◌&&◌}
use mathlib.Core.List.{List, [], ◌∷◌}
use native.Mathlib.Omega.{arith}

unfoldable pub str_beq : List ℕ → List ℕ → Bool
str_beq [] [] = true
str_beq [] (y ∷ ys) = false
str_beq (x ∷ xs) [] = false
str_beq (x ∷ xs) (y ∷ ys) = nat_beq x y && str_beq xs ys

pub str_beq-eq : (s t : List ℕ) → str_beq s t ≡ true → s ≡ t
unfolding str_beq
str_beq-eq [] [] h = refl
str_beq-eq [] (y ∷ ys) h = cc
str_beq-eq (x ∷ xs) [] h = cc
str_beq-eq (x ∷ xs) (y ∷ ys) h = ground (arith, str_beq-eq xs ys)

pub str_beq_self : (s : List ℕ) → str_beq s s ≡ true
unfolding str_beq
str_beq_self [] = refl
str_beq_self (x ∷ xs) = ground (arith, str_beq_self xs)

pub str_beq_iff : (s t : List ℕ) → (str_beq s t ≡ true) ↔ (s ≡ t)
str_beq_iff s t = (str_beq-eq s t, λ e. rw e (str_beq_self t))

pub record Eq {ℓ} (K : Type ℓ) : Type ℓ where
  pub same : K → K → Bool
  pub same_iff : (x y : K) → (same x y ≡ true) ↔ (x ≡ y)

instance abbrev pub str_eq : Eq (List ℕ)
str_eq = record { same = str_beq; same_iff = str_beq_iff }

instance abbrev pub nat_eq : Eq ℕ
nat_eq = record { same = nat_beq; same_iff = nat_beq_iff }

infix 50 ◌==◌
abbrev pub ◌==◌ {ℓ} : {K : Type ℓ} ⦃test : Eq K⦄ → K → K → Bool
◌==◌ ⦃test⦄ x y = test.same x y
