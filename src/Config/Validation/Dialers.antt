-- ===== src/Config/Validation/Dialers.antt =====
-- config/schema.go: what the loop over the dialers tests, and the keys that it enters.
use rain_net.Common.{
  ◌≡◌, refl, sym, subst, inl, inr, Bool, true, false, not, ◌&&◌, ◌||◌, Option, none, some, List, [],
  ◌∷◌, ◌++◌, map, arith, if◌then◌else◌, Bool-cases, Str, codes, str_beq, str_beq_iff, nat_eq,
  str_eq, Result, ok, err,
}
use rain_net.Config.{
  DialerSpec, Error, dialer_twice, dialer_role, dialer_incomplete, is_empty, has, check_dialer,
  check_dialers, role_of, check_star,
}
use rain_net.Config.Validation.{every, dialer_fits}
use rain_net.Config.Validation.Names.{fresh, pushed}

-- A loop that fails unless the test holds, and that then has entered the keys.
abbrev pub Enters : Result Error (List Str) → Bool → List Str → Type 0
Enters (ok names) test expected = (test ≡ true) × (names ≡ expected)
Enters (err e) test expected = test ≡ false

pub not_both :
    (type : Str) → str_beq type (codes "direct") ≡ true → str_beq type (codes "star") ≡ false
unfolding str_beq
not_both type e =
    subst (λ t. str_beq t (codes "star") ≡ false) (sym ((str_beq_iff type (codes "direct")).0 e))
      refl

-- Whether a dialer passes its tests.
abbrev pub Passes : Option Error → Bool → Type 0
Passes none test = test ≡ true
Passes (some e) test = test ≡ false

abbrev pub star_fits : DialerSpec → Bool
star_fits d =
    (is_empty d.role || str_beq d.role (codes "inbound") || str_beq d.role (codes "outbound"))
    && not (is_empty d.addr)
    && not (is_empty d.identity)
    && not (is_empty d.key_password)

-- The default role is one of the two.
pub role_lem :
    (d : DialerSpec)
    → (not (str_beq (role_of d) (codes "inbound")) && not (str_beq (role_of d) (codes "outbound")))
      ≡ not
          (is_empty d.role || str_beq d.role (codes "inbound") || str_beq d.role (codes "outbound"))
role_lem d = elim (Bool-cases (is_empty d.role)) [
  | inl e ↦ rw e (default_role (codes "inbound") refl)
  | inr e ↦ rw e (de_morgan (str_beq d.role (codes "inbound")) (str_beq d.role (codes "outbound")))
]
  where
    default_role :
        (role : Str)
        → role ≡ codes "inbound"
        → (not (str_beq role (codes "inbound")) && not (str_beq role (codes "outbound"))) ≡ false
    default_role role e = ground (arith, str_beq_iff role (codes "inbound"))

    de_morgan : (a b : Bool) → (not a && not b) ≡ not (a || b)
    de_morgan true b = refl
    de_morgan false b = refl

pub check_star-Passes : (d : DialerSpec) → Passes (check_star d) (star_fits d)
unfolding check_star
check_star-Passes d = rw (role_lem d) (
    filled
      (is_empty d.role || str_beq d.role (codes "inbound") || str_beq d.role (codes "outbound"))
      (is_empty d.addr) (is_empty d.identity) (is_empty d.key_password))
  where
    filled :
        (known no_addr no_identity no_key : Bool)
        → Passes
            (if not known
              then some (dialer_role d.name)
              else if no_addr || no_identity || no_key
              then some (dialer_incomplete d.name)
              else none)
            (known && not no_addr && not no_identity && not no_key)
    filled false a b c = refl
    filled true true b c = refl
    filled true false true c = refl
    filled true false false true = refl
    filled true false false false = refl

pub check_dialer-Passes : (d : DialerSpec) → Passes (check_dialer d) (dialer_fits d)
unfolding check_dialer
check_dialer-Passes d = elim (Bool-cases (str_beq d.type (codes "direct"))) [
  | inl e ↦ rw (e, not_both d.type e) refl
  | inr e ↦ elim (Bool-cases (str_beq d.type (codes "star"))) [
    | inl f ↦ rw (e, f) (check_star-Passes d)
    | inr f ↦ rw (e, f) refl
  ]
]

pub check_dialers-Enters :
    (names : List Str) (ds : List DialerSpec)
    → Enters
        (check_dialers names ds)
        (every dialer_fits ds && fresh names (map (λ d. codes "dialer:" ++ d.name) ds))
        (pushed (map (λ d. codes "dialer:" ++ d.name) ds) names)
unfolding check_dialers fresh pushed
check_dialers-Enters names [] = (refl, refl)
check_dialers-Enters names (d ∷ ds) =
    passed (check_dialer d) (dialer_fits d) (check_dialer-Passes d)
      (has (codes "dialer:" ++ d.name) names)
      (check_dialers ((codes "dialer:" ++ d.name) ∷ names) ds) (every dialer_fits ds)
      (fresh ((codes "dialer:" ++ d.name) ∷ names) (map (λ d. codes "dialer:" ++ d.name) ds))
      (pushed (map (λ d. codes "dialer:" ++ d.name) (d ∷ ds)) names)
      (check_dialers-Enters ((codes "dialer:" ++ d.name) ∷ names) ds)
  where
    passed :
        (o : Option Error) (fits : Bool)
        → Passes o fits
        → (taken : Bool) (r : Result Error (List Str)) (others later : Bool) (keys : List Str)
        → Enters r (others && later) keys
        → Enters
            (elim o as (λ x. Result Error (List Str)) [
              | some e ↦ err e
              | none ↦ if taken then err (dialer_twice d.name) else r
            ])
            ((fits && others) && (not taken && later))
            keys
    passed (some e) fits p taken r others later keys h = rw p refl
    passed none fits p true r others later keys h = ground arith
    passed none fits p false r others later keys h = rw p h
