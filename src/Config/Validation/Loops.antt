-- ===== src/Config/Validation/Loops.antt =====
-- config/schema.go: what each loop of validate tests, and the keys that it enters.
use rain_net.Common.{
  ◌≡◌, refl, sym, ap, ap₂, subst, ◌∙◌, inl, inr, Bool, true, false, not, ◌&&◌, ◌||◌, Option, none,
  some, List, [], ◌∷◌, ◌++◌, map, arith, if◌then◌else◌, Bool-cases, Str, codes, str_beq, nat_eq,
  str_eq, Result, ok, err, ◌>>=◌,
}
use rain_net.Common.Maps.{Map, lookup, insert, lookup-insert}
use rain_net.Config.{
  IngressSpec, ServiceSpec, HandlerSpec, DialerSpec, RouteSpec, Error, ingress_incomplete,
  ingress_twice, service_unnamed, undefined_dialer, is_empty, has, check_ingress, check_services,
  check_handlers, dialer_by_name, check_routes,
}
use rain_net.Config.Validation.{every, ingress_names, ingress_fits, service_fits}
use rain_net.Config.Validation.Names.{fresh, pushed, fresh-append, pushed-append, map-append}
use rain_net.Config.Validation.Dialers.{Enters, Passes}

pub check_handlers-Enters :
    (names : List Str) (hs : List HandlerSpec)
    → Enters
        (check_handlers names hs)
        (fresh names (map (λ h. codes "handler:" ++ h.name) hs))
        (pushed (map (λ h. codes "handler:" ++ h.name) hs) names)
unfolding check_handlers fresh pushed
check_handlers-Enters names [] = (refl, refl)
check_handlers-Enters names (h ∷ hs) = elim (Bool-cases (has (codes "handler:" ++ h.name) names)) [
  | inl e ↦ rw e refl
  | inr e ↦ rw e (check_handlers-Enters ((codes "handler:" ++ h.name) ∷ names) hs)
]

pub check_ingress-Enters :
    (svc : Str) (names : List Str) (is : List IngressSpec)
    → Enters
        (check_ingress svc names is)
        (every ingress_fits is && fresh names (map (λ i. codes "ingress:" ++ i.name) is))
        (pushed (map (λ i. codes "ingress:" ++ i.name) is) names)
unfolding check_ingress fresh pushed
check_ingress-Enters svc names [] = (refl, refl)
check_ingress-Enters svc names (i ∷ is) =
    passed (is_empty i.name) (is_empty i.addr) (has (codes "ingress:" ++ i.name) names)
      (check_ingress svc ((codes "ingress:" ++ i.name) ∷ names) is) (every ingress_fits is)
      (fresh ((codes "ingress:" ++ i.name) ∷ names) (map (λ i. codes "ingress:" ++ i.name) is))
      (pushed (map (λ i. codes "ingress:" ++ i.name) (i ∷ is)) names)
      (check_ingress-Enters svc ((codes "ingress:" ++ i.name) ∷ names) is)
  where
    passed :
        (no_name no_addr taken : Bool) (r : Result Error (List Str)) (others later : Bool)
        (keys : List Str)
        → Enters r (others && later) keys
        → Enters
            (if no_name || no_addr
              then err (ingress_incomplete svc)
              else if taken
              then err (ingress_twice i.name)
              else r)
            (((not no_name && not no_addr) && others) && (not taken && later))
            keys
    passed true no_addr taken r others later keys h = refl
    passed false true taken r others later keys h = refl
    passed false false true r others later keys h = ground arith
    passed false false false r others later keys h = h

unfoldable pub ingress_keys : List ServiceSpec → List Str
ingress_keys [] = []
ingress_keys (svc ∷ rest) = map (λ i. codes "ingress:" ++ i.name) svc.ingress ++ ingress_keys rest

pub check_services-Enters :
    (names : List Str) (svcs : List ServiceSpec)
    → Enters
        (check_services names svcs)
        (every service_fits svcs && fresh names (ingress_keys svcs))
        (pushed (ingress_keys svcs) names)
unfolding check_services fresh pushed ingress_keys
check_services-Enters names [] = (refl, refl)
check_services-Enters names (svc ∷ svcs) =
    rw
      (
        fresh-append names (map (λ i. codes "ingress:" ++ i.name) svc.ingress) (ingress_keys svcs),
        pushed-append names (map (λ i. codes "ingress:" ++ i.name) svc.ingress) (ingress_keys svcs),
      )
      (passed (is_empty svc.name) (check_ingress svc.name names svc.ingress)
        (every ingress_fits svc.ingress)
        (fresh names (map (λ i. codes "ingress:" ++ i.name) svc.ingress))
        (pushed (map (λ i. codes "ingress:" ++ i.name) svc.ingress) names)
        (check_ingress-Enters svc.name names svc.ingress)
        (check_services-Enters (pushed (map (λ i. codes "ingress:" ++ i.name) svc.ingress) names)
          svcs))
  where
    passed :
        (no_name : Bool) (r : Result Error (List Str)) (fits new : Bool) (keys : List Str)
        → Enters r (fits && new) keys
        → Enters
            (check_services keys svcs)
            (every service_fits svcs && fresh keys (ingress_keys svcs))
            (pushed (ingress_keys svcs) keys)
        → Enters
            (if no_name then err service_unnamed else (r >>= λ names'. check_services names' svcs))
            (((not no_name && fits) && every service_fits svcs)
              && (new && fresh keys (ingress_keys svcs)))
            (pushed (ingress_keys svcs) keys)
    passed true r fits new keys h later = refl
    passed false (err e) fits new keys h later = ground arith
    passed false (ok names') false new keys (h, same) later = ground arith
    passed false (ok names') true false keys (h, same) later = ground arith
    passed false (ok names') true true keys (h, same) later =
        subst
          (λ ns.
            Enters (check_services ns svcs)
              (every service_fits svcs && fresh keys (ingress_keys svcs))
              (pushed (ingress_keys svcs) keys))
          (sym same) later

pub ingress_keys_lem :
    (svcs : List ServiceSpec)
    → ingress_keys svcs ≡ map (λ x. codes "ingress:" ++ x) (ingress_names svcs)
unfolding ingress_keys
ingress_keys_lem [] = refl
ingress_keys_lem (svc ∷ svcs) =
    ap₂ (λ xs ys. xs ++ ys) (prefix_names svc.ingress) (ingress_keys_lem svcs)
    ∙ sym (
        map-append (λ x. codes "ingress:" ++ x) (map (λ i. i.name) svc.ingress)
          (ingress_names svcs))
  where
    prefix_names :
        (is : List IngressSpec)
        → map (λ i. codes "ingress:" ++ i.name) is
          ≡ map (λ x. codes "ingress:" ++ x) (map (λ i. i.name) is)
    prefix_names [] = refl
    prefix_names (i ∷ is) = ap (λ xs. (codes "ingress:" ++ i.name) ∷ xs) (prefix_names is)

unfoldable pub is_some : {A : Type 0} → Option A → Bool
is_some none = false
is_some (some a) = true

pub dialer_by_name_lem :
    (k : Str) (ds : List DialerSpec) (m : Map Str DialerSpec)
    → is_some (lookup k (dialer_by_name ds m))
      ≡ (has k (map (λ d. d.name) ds) || is_some (lookup k m))
unfolding is_some dialer_by_name has
dialer_by_name_lem k [] m = refl
dialer_by_name_lem k (d ∷ ds) m =
    dialer_by_name_lem k ds (insert d.name d m)
    ∙ ap (λ o. has k (map (λ x. x.name) ds) || is_some o) (lookup-insert d.name k d m)
    ∙ first (str_beq d.name k) (has k (map (λ x. x.name) ds)) (lookup k m)
  where
    first :
        (b c : Bool) (o : Option DialerSpec)
        → (c || is_some (if b then some d else o)) ≡ (b || c || is_some o)
    first true true o = refl
    first true false o = refl
    first false c o = refl

pub check_routes-Passes :
    (dialers : Map Str DialerSpec) (rts : List RouteSpec)
    → Passes (check_routes dialers rts) (every (λ rt. is_some (lookup rt.to dialers)) rts)
unfolding check_routes is_some
check_routes-Passes dialers [] = refl
check_routes-Passes dialers (rt ∷ rts) =
    passed (lookup rt.to dialers) (check_routes dialers rts)
      (every (λ rt. is_some (lookup rt.to dialers)) rts) (check_routes-Passes dialers rts)
  where
    passed :
        (o : Option DialerSpec) (r : Option Error) (b : Bool)
        → Passes r b
        → Passes
            (elim o as (λ x. Option Error) [ none ↦ some (undefined_dialer rt.to) | some d ↦ r ])
            (is_some o && b)
    passed none r b h = refl
    passed (some d) r b h = h
