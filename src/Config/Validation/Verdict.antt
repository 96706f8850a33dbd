-- ===== src/Config/Validation/Verdict.antt =====
-- config/schema.go: the verdict of validate and of Load.
use rain_net.Common.{
  ◌≡◌, refl, sym, ap, ap₂, subst, ◌∙◌, Bool, true, false, ◌&&◌, ◌||◌, Option, none, some, List, [],
  ◌∷◌, ◌++◌, map, Str, codes, nat_eq, str_eq, Result, ok, err, ◌>>=◌,
}
use rain_net.Common.Maps.{lookup}
use rain_net.Config.{
  DialerSpec, RouteSpec, Root, Error, has, check_services, check_handlers, check_dialers,
  dialer_by_name, check_routes, failing, validate,
}
use rain_net.Config.Validation.{
  distinct, every, ingress_names, service_fits, dialer_fits, is_ok, well_formed,
}
use rain_net.Config.Validation.Names.{
  fresh, pushed, apart-nil, same_ingress, same_handler, same_dialer, ingress_handler,
  ingress_dialer, handler_dialer, fresh_prefixed, map-map, has-nil, pushed-Misses, Misses-apart,
}
use rain_net.Config.Validation.Dialers.{Enters, Passes, check_dialers-Enters}
use rain_net.Config.Validation.Loops.{
  check_handlers-Enters, check_services-Enters, ingress_keys_lem, is_some, dialer_by_name_lem,
  check_routes-Passes,
}

pub known_dialer :
    (k : Str) (ds : List DialerSpec)
    → is_some (lookup k (dialer_by_name ds [])) ≡ has k (map (λ d. d.name) ds)
unfolding is_some lookup
known_dialer k ds = dialer_by_name_lem k ds [] ∙ or_false (has k (map (λ d. d.name) ds))
  where
    or_false : (b : Bool) → (b || false) ≡ b
    or_false true = refl
    or_false false = refl

regroup : (a b c d e f : Bool) → ((a && b) && (c && ((d && e) && f))) ≡ (a && b && c && d && e && f)
regroup true true true true e f = refl
regroup true true true false e f = refl
regroup true true false d e f = refl
regroup true false c d e f = refl
regroup false b c d e f = refl

chain :
    (r : Result Error (List Str)) (test : Bool) (keys : List Str)
    (next : List Str → Result Error (Unit {0}))
    → Enters r test keys
    → is_ok (r >>= next) ≡ (test && is_ok (next keys))
chain (err e) test keys next h = rw h refl
chain (ok names) test keys next (h, same) = rw (h, same) refl

failing_lem : (r : Option Error) (test : Bool) → Passes r test → is_ok (failing r) ≡ test
failing_lem none test h = sym h
failing_lem (some e) test h = sym h

module _ (r : Root) where
  abbrev after_services : List Str
  after_services = pushed (map (λ x. codes "ingress:" ++ x) (ingress_names r.services)) []

  abbrev after_handlers : List Str
  after_handlers =
      pushed (map (λ x. codes "handler:" ++ x) (map (λ h. h.name) r.handlers)) after_services

  services_lem :
      Enters
        (check_services [] r.services)
        (every service_fits r.services && distinct (ingress_names r.services))
        after_services
  services_lem =
      subst
        (λ t.
          Enters (check_services [] r.services) (every service_fits r.services && t) after_services)
        (fresh_prefixed (codes "ingress:") same_ingress [] (ingress_names r.services)
          (apart-nil (map (λ x. codes "ingress:" ++ x) (ingress_names r.services))))
        (subst
          (λ keys.
            Enters (check_services [] r.services) (every service_fits r.services && fresh [] keys)
              (pushed keys []))
          (ingress_keys_lem r.services) (check_services-Enters [] r.services))

  handlers_lem :
      Enters
        (check_handlers after_services r.handlers)
        (distinct (map (λ h. h.name) r.handlers))
        after_handlers
  handlers_lem =
      subst (λ t. Enters (check_handlers after_services r.handlers) t after_handlers)
        (fresh_prefixed (codes "handler:") same_handler after_services
          (map (λ h. h.name) r.handlers)
          (Misses-apart (codes "ingress:") (codes "handler:") ingress_handler after_services
            (map (λ h. h.name) r.handlers)
            (pushed-Misses (codes "ingress:") (codes "handler:") ingress_handler
              (ingress_names r.services) [] (λ y. has-nil (codes "handler:" ++ y)))))
        (subst
          (λ keys.
            Enters (check_handlers after_services r.handlers) (fresh after_services keys)
              (pushed keys after_services))
          (map-map (codes "handler:") (λ h. h.name) r.handlers)
          (check_handlers-Enters after_services r.handlers))

  dialers_lem :
      Enters
        (check_dialers after_handlers r.dialers)
        (every dialer_fits r.dialers && distinct (map (λ d. d.name) r.dialers))
        (pushed (map (λ x. codes "dialer:" ++ x) (map (λ d. d.name) r.dialers)) after_handlers)
  dialers_lem =
      subst
        (λ t.
          Enters (check_dialers after_handlers r.dialers) (every dialer_fits r.dialers && t)
            (pushed (map (λ x. codes "dialer:" ++ x) (map (λ d. d.name) r.dialers)) after_handlers))
        (fresh_prefixed (codes "dialer:") same_dialer after_handlers (map (λ d. d.name) r.dialers) (
          Misses-apart (codes "handler:") (codes "dialer:") handler_dialer after_handlers
            (map (λ d. d.name) r.dialers)
            (pushed-Misses (codes "handler:") (codes "dialer:") handler_dialer
              (map (λ h. h.name) r.handlers) after_services
              (pushed-Misses (codes "ingress:") (codes "dialer:") ingress_dialer
                (ingress_names r.services) [] (λ y. has-nil (codes "dialer:" ++ y))))))
        (subst
          (λ keys.
            Enters (check_dialers after_handlers r.dialers)
              (every dialer_fits r.dialers && fresh after_handlers keys)
              (pushed keys after_handlers))
          (map-map (codes "dialer:") (λ d. d.name) r.dialers)
          (check_dialers-Enters after_handlers r.dialers))

  routes_lem :
      is_ok (failing (check_routes (dialer_by_name r.dialers []) r.routes))
      ≡ every (λ rt. has rt.to (map (λ d. d.name) r.dialers)) r.routes
  routes_lem =
      failing_lem (check_routes (dialer_by_name r.dialers []) r.routes)
        (every (λ rt. is_some (lookup rt.to (dialer_by_name r.dialers []))) r.routes)
        (check_routes-Passes (dialer_by_name r.dialers []) r.routes)
      ∙ defined r.routes
    where
      defined :
          (rts : List RouteSpec)
          → every (λ rt. is_some (lookup rt.to (dialer_by_name r.dialers []))) rts
            ≡ every (λ rt. has rt.to (map (λ d. d.name) r.dialers)) rts
      defined [] = refl
      defined (rt ∷ rts) = ap₂ (λ a b. a && b) (known_dialer rt.to r.dialers) (defined rts)

-- validate accepts a configuration exactly when every service has a name and every access point a name
-- and an address, the names of the access points of all services are distinct, so are those of the
-- handlers and those of the dialers, every dialer is direct, or star with an address, an identity, a
-- password and a role that is empty, inbound or outbound, and every route goes to a dialer of the list.
pub validate-well_formed : (r : Root) → is_ok (validate r) ≡ well_formed r
unfolding validate
validate-well_formed r =
    chain (check_services [] r.services)
      (every service_fits r.services && distinct (ingress_names r.services)) (after_services r)
      (λ names.
        check_handlers names r.handlers >>= λ ns. check_dialers ns r.dialers >>= λ all_names. last)
      (services_lem r)
    ∙ ap (λ t. (every service_fits r.services && distinct (ingress_names r.services)) && t)
        (chain (check_handlers (after_services r) r.handlers)
            (distinct (map (λ h. h.name) r.handlers)) (after_handlers r)
            (λ ns. check_dialers ns r.dialers >>= λ all_names. last) (handlers_lem r)
          ∙ ap (λ t. distinct (map (λ h. h.name) r.handlers) && t)
              (chain (check_dialers (after_handlers r) r.dialers)
                  (every dialer_fits r.dialers && distinct (map (λ d. d.name) r.dialers))
                  (pushed (map (λ x. codes "dialer:" ++ x) (map (λ d. d.name) r.dialers))
                    (after_handlers r))
                  (λ all_names. last) (dialers_lem r)
                ∙ ap
                    (λ t.
                      (every dialer_fits r.dialers && distinct (map (λ d. d.name) r.dialers)) && t)
                    (routes_lem r)))
    ∙ regroup (every service_fits r.services) (distinct (ingress_names r.services))
        (distinct (map (λ h. h.name) r.handlers)) (every dialer_fits r.dialers)
        (distinct (map (λ d. d.name) r.dialers))
        (every (λ rt. has rt.to (map (λ d. d.name) r.dialers)) r.routes)
  where
    last : Result Error (Unit {0})
    last = failing (check_routes (dialer_by_name r.dialers []) r.routes)
