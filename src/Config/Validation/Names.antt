-- ===== src/Config/Validation/Names.antt =====
-- config/schema.go: keys of one map for names of several kinds, which a prefix tells apart.
use rain_net.Common.{
  ◌≡◌, refl, ap, ap₂, ◌∙◌, Bool, true, false, not, ◌&&◌, List, [], ◌∷◌, ◌++◌, map, arith, Str,
  codes, str_beq, str_beq_iff,
}
use rain_net.Config.{has}
use rain_net.Config.Validation.{distinct}

-- The keys that a loop enters one after the other, on top of those that it finds.
unfoldable pub fresh : List Str → List Str → Bool
fresh names [] = true
fresh names (key ∷ keys) = not (has key names) && fresh (key ∷ names) keys

unfoldable pub pushed : List Str → List Str → List Str
pushed [] names = names
pushed (key ∷ keys) names = pushed keys (key ∷ names)

pub fresh-append :
    (names xs ys : List Str)
    → fresh names (xs ++ ys) ≡ (fresh names xs && fresh (pushed xs names) ys)
unfolding fresh pushed
fresh-append names [] ys = refl
fresh-append names (x ∷ xs) ys = ground (arith, fresh-append (x ∷ names) xs ys)

pub pushed-append : (names xs ys : List Str) → pushed (xs ++ ys) names ≡ pushed ys (pushed xs names)
unfolding pushed
pushed-append names [] ys = refl
pushed-append names (x ∷ xs) ys = pushed-append (x ∷ names) xs ys

pub map-append :
    {A : Type 0} (f : A → Str) (xs ys : List A) → map f (xs ++ ys) ≡ map f xs ++ map f ys
map-append f [] ys = refl
map-append f (x ∷ xs) ys = ap (λ zs. f x ∷ zs) (map-append f xs ys)

pub has_flip : (x y : Str) → str_beq x y ≡ str_beq y x
has_flip x y = ground (arith, str_beq_iff x y, str_beq_iff y x)

unfoldable pub apart : List Str → List Str → Bool
apart names [] = true
apart names (key ∷ keys) = not (has key names) && apart names keys

pub apart-cons :
    (key : Str) (names keys : List Str)
    → apart (key ∷ names) keys ≡ (not (has key keys) && apart names keys)
unfolding apart has
apart-cons key names [] = refl
apart-cons key names (k ∷ keys) = ground (arith, apart-cons key names keys, has_flip key k)

pub fresh_lem : (names keys : List Str) → fresh names keys ≡ (apart names keys && distinct keys)
unfolding apart has fresh
fresh_lem names [] = refl
fresh_lem names (key ∷ keys) =
    ground (arith, fresh_lem (key ∷ names) keys, apart-cons key names keys)

-- Keys with different prefixes are different, and keys with the same prefix are as different as the names.
module _ (p q : Str) (differ : (x y : Str) → str_beq (p ++ x) (q ++ y) ≡ false) where
  abbrev pub Misses : List Str → Type 0
  Misses names = (y : Str) → has (q ++ y) names ≡ false

  pub pushed-Misses :
      (xs names : List Str) → Misses names → Misses (pushed (map (λ x. p ++ x) xs) names)
  unfolding pushed has
  pushed-Misses [] names m = m
  pushed-Misses (x ∷ xs) names m = pushed-Misses xs ((p ++ x) ∷ names) (λ y. rw (differ x y) (m y))

  pub Misses-apart :
      (names ys : List Str) → Misses names → apart names (map (λ y. q ++ y) ys) ≡ true
  unfolding apart
  Misses-apart names [] m = refl
  Misses-apart names (y ∷ ys) m = rw (m y) (Misses-apart names ys m)

module _ (p : Str) (same : (x y : Str) → str_beq (p ++ x) (p ++ y) ≡ str_beq x y) where
  pub has_prefixed : (x : Str) (ys : List Str) → has (p ++ x) (map (λ y. p ++ y) ys) ≡ has x ys
  unfolding has
  has_prefixed x [] = refl
  has_prefixed x (y ∷ ys) = rw (same y x, has_prefixed x ys) refl

  pub distinct_prefixed : (xs : List Str) → distinct (map (λ x. p ++ x) xs) ≡ distinct xs
  distinct_prefixed [] = refl
  distinct_prefixed (x ∷ xs) = rw (has_prefixed x xs, distinct_prefixed xs) refl

pub has-nil : (key : Str) → has key [] ≡ false
unfolding has
has-nil key = refl

pub map-map :
    {A : Type 0} (p : Str) (f : A → Str) (xs : List A)
    → map (λ x. p ++ f x) xs ≡ map (λ y. p ++ y) (map f xs)
map-map p f [] = refl
map-map p f (x ∷ xs) = ap (λ ys. (p ++ f x) ∷ ys) (map-map p f xs)

pub apart-nil : (keys : List Str) → apart [] keys ≡ true
unfolding apart has
apart-nil [] = refl
apart-nil (key ∷ keys) = apart-nil keys

pub same_ingress :
    (x y : Str) → str_beq (codes "ingress:" ++ x) (codes "ingress:" ++ y) ≡ str_beq x y
unfolding str_beq
same_ingress x y = refl

pub same_handler :
    (x y : Str) → str_beq (codes "handler:" ++ x) (codes "handler:" ++ y) ≡ str_beq x y
unfolding str_beq
same_handler x y = refl

pub same_dialer : (x y : Str) → str_beq (codes "dialer:" ++ x) (codes "dialer:" ++ y) ≡ str_beq x y
unfolding str_beq
same_dialer x y = refl

pub ingress_handler : (x y : Str) → str_beq (codes "ingress:" ++ x) (codes "handler:" ++ y) ≡ false
unfolding str_beq
ingress_handler x y = refl

pub ingress_dialer : (x y : Str) → str_beq (codes "ingress:" ++ x) (codes "dialer:" ++ y) ≡ false
unfolding str_beq
ingress_dialer x y = refl

pub handler_dialer : (x y : Str) → str_beq (codes "handler:" ++ x) (codes "dialer:" ++ y) ≡ false
unfolding str_beq
handler_dialer x y = refl

pub fresh_prefixed :
    (p : Str)
    → ((x y : Str) → str_beq (p ++ x) (p ++ y) ≡ str_beq x y)
    → (names xs : List Str) → apart names (map (λ x. p ++ x) xs) ≡ true
    → fresh names (map (λ x. p ++ x) xs) ≡ distinct xs
fresh_prefixed p same names xs e =
    fresh_lem names (map (λ x. p ++ x) xs) ∙ ap₂ (λ a b. a && b) e (distinct_prefixed p same xs)
