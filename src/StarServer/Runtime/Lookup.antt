-- ===== src/StarServer/Runtime/Lookup.antt =====
-- internal/star/starserver/register.go: what a valid configuration becomes.
use rain_net.Common.{
  ◌≡◌, refl, sym, ap, ap₂, subst, ◌∙◌, Bool, true, ◌&&◌, some, List, [], ◌∷◌, ◌++◌, map, arith, All,
  Str, codes, nat_eq, str_eq, ok,
}
use rain_net.Common.Maps.{Map, lookup, insert}
use rain_net.Config.{
  IngressSpec, ServiceSpec, HandlerSpec, DialerSpec, RouteSpec, Root, has, validate, dialer_by_name,
}
use rain_net.Config.Validation.{
  distinct, every, ingress_names, is_ok, well_formed, service_fits, dialer_fits,
}
use rain_net.Config.Validation.Verdict.{validate-well_formed, known_dialer}
use rain_net.Config.Validation.Loops.{is_some}
use rain_net.StarServer.Runtime.{
  RuntimeConfig, ListenerList, listener_of, add_ingress, add_ingresses, add_services, add_handlers,
  add_routes, build_runtime_config, bindings,
}
use rain_net.StarServer.Runtime.Routes.{Expands, add_routes-Ruled}
use rain_net.StarServer.Runtime.Described.{Describes, listener_of-Describes}
use rain_net.StarServer.Runtime.Entering.{
  ingresses, ingresses_lem, entered, entered-append, entered_own,
}

-- The listeners that a step enters; it adds no rule.
pub record Enters (before after : RuntimeConfig) (is : List IngressSpec) : Type 0 where
  pub map_lem : after.listener_map ≡ entered is before.listener_map
  pub same_routes : after.routes ≡ before.routes
  pub same_chains : after.chain_routes ≡ before.chain_routes

add_ingresses-Enters :
    (cfg : RuntimeConfig) (is : List IngressSpec) → Enters cfg (add_ingresses cfg is) is
unfolding add_ingresses
add_ingresses-Enters cfg [] = record { map_lem = refl; same_routes = refl; same_chains = refl }
add_ingresses-Enters cfg (i ∷ is) =
    let later = add_ingresses-Enters (add_ingress cfg i) is in
    record {
      map_lem = later.map_lem;
      same_routes = later.same_routes;
      same_chains = later.same_chains;
    }

add_services-Enters :
    (cfg : RuntimeConfig) (svcs : List ServiceSpec)
    → Enters cfg (add_services cfg svcs) (ingresses svcs)
unfolding add_services
add_services-Enters cfg [] = record { map_lem = refl; same_routes = refl; same_chains = refl }
add_services-Enters cfg (svc ∷ rest) =
    let next : RuntimeConfig = record (add_ingresses cfg svc.ingress) {
      service =
          (add_ingresses cfg svc.ingress).service
          ++ (record { name = svc.name; type = codes "star"; listeners = bindings svc.ingress }
              ∷ []);
    } in
    let first = add_ingresses-Enters cfg svc.ingress in
    let later = add_services-Enters next rest in
    record {
      map_lem =
          later.map_lem
          ∙ ap (entered (ingresses rest)) first.map_lem
          ∙ sym (entered-append svc.ingress (ingresses rest) cfg.listener_map);
      same_routes = later.same_routes ∙ first.same_routes;
      same_chains = later.same_chains ∙ first.same_chains;
    }

add_handlers-Enters :
    (cfg : RuntimeConfig) (hs : List HandlerSpec) → Enters cfg (add_handlers cfg hs) []
unfolding add_handlers
add_handlers-Enters cfg [] = record { map_lem = refl; same_routes = refl; same_chains = refl }
add_handlers-Enters cfg (h ∷ hs) =
    let later =
      add_handlers-Enters
        (record cfg {
          handler_map = insert h.name h cfg.handler_map;
          handler_list = cfg.handler_list ++ (h ∷ []);
        })
        hs in
    record {
      map_lem = later.map_lem;
      same_routes = later.same_routes;
      same_chains = later.same_chains;
    }

all_known :
    (ds : List DialerSpec) (rts : List RouteSpec)
    → every (λ rt. is_some (lookup rt.to (dialer_by_name ds []))) rts
      ≡ every (λ rt. has rt.to (map (λ d. d.name) ds)) rts
all_known ds [] = refl
all_known ds (rt ∷ rts) = ap₂ (λ a b. a && b) (known_dialer rt.to ds) (all_known ds rts)

second_and_last :
    (a b c d e f : Bool) → (a && b && c && d && e && f) ≡ true → (b ≡ true) × (f ≡ true)
second_and_last a b c d e f h = ground arith

-- The listener that an access point describes stands under its name.
abbrev pub Found : Map Str ListenerList → IngressSpec → Type 0
Found m ing = (l : ListenerList) × (lookup ing.name m ≡ some l) × Describes ing l

all-Found :
    (m : Map Str ListenerList) (is : List IngressSpec)
    → All (λ ing. lookup ing.name m ≡ some (listener_of ing)) is
    → All (Found m) is
all-Found m [] h = tt
all-Found m (ing ∷ is) h = ((listener_of ing, h.0, listener_of-Describes ing), all-Found m is h.1)

-- A valid configuration keeps its listeners apart and loses no route.
pub record IsKept (r : Root) (cfg : RuntimeConfig) : Type 0 where
  pub listeners_found : All (Found cfg.listener_map) (ingresses r.services)
  pub rules_kept : Expands r.dialers r.routes cfg.routes cfg.chain_routes

-- When a configuration passes its validation, each access point of a service finds under its name a
-- listener with its name, address and settings, its transport (tcp if it names none), the type that
-- belongs to its handler and, for a star handler, the logins of all streams of all its credentials. The
-- rules are, in the order of the routes, one for each stream of a route (or one with an empty stream),
-- with the route's access point and the identity of the dialer it names: chain rules when that is an
-- outbound star dialer, connect rules otherwise; and there are no other rules.
pub build_runtime_config-IsKept :
    (r : Root) → validate r ≡ ok tt → IsKept r (build_runtime_config r)
unfolding build_runtime_config
build_runtime_config-IsKept r valid =
    let fits : well_formed r ≡ true = sym (validate-well_formed r) ∙ ap is_ok valid in
    let (apart_names, known) =
      second_and_last (every service_fits r.services) (distinct (ingress_names r.services))
        (distinct (map (λ h. h.name) r.handlers)) (every dialer_fits r.dialers)
        (distinct (map (λ d. d.name) r.dialers))
        (every (λ rt. has rt.to (map (λ d. d.name) r.dialers)) r.routes) fits in
    let names : distinct (map (λ i. i.name) (ingresses r.services)) ≡ true =
      sym (ap distinct (ingresses_lem r.services)) ∙ apart_names in
    let routes : every (λ rt. is_some (lookup rt.to (dialer_by_name r.dialers []))) r.routes
        ≡ true =
      all_known r.dialers r.routes ∙ known in
    let dialers = dialer_by_name r.dialers [] in
    let empty : RuntimeConfig = record {
      service = [];
      listener_list = [];
      handler_list = [];
      listener_map = [];
      handler_map = [];
      routes = [];
      chain_routes = [];
      dialer_specs = dialers;
    } in
    let handled = add_handlers empty r.handlers in
    let served = add_services handled r.services in
    let first = add_handlers-Enters empty r.handlers in
    let second = add_services-Enters handled r.services in
    let ruled = add_routes-Ruled r.dialers served r.routes routes in
    let last = add_routes dialers served r.routes in
    let listeners : last.listener_map ≡ entered (ingresses r.services) [] =
      ruled.adds.same_map ∙ second.map_lem ∙ ap (entered (ingresses r.services)) first.map_lem in
    let connects : last.routes ≡ ruled.connects =
      ruled.adds.routes_lem
      ∙ ap (λ xs. xs ++ ruled.connects) (second.same_routes ∙ first.same_routes) in
    let chains : last.chain_routes ≡ ruled.chains =
      ruled.adds.chains_lem
      ∙ ap (λ xs. xs ++ ruled.chains) (second.same_chains ∙ first.same_chains) in
    record {
      listeners_found =
          subst (λ lm. All (Found lm) (ingresses r.services)) (sym listeners)
            (all-Found (entered (ingresses r.services) []) (ingresses r.services)
              (entered_own (ingresses r.services) [] names));
      rules_kept =
          subst (λ xs. Expands r.dialers r.routes xs last.chain_routes) (sym connects)
            (subst (Expands r.dialers r.routes ruled.connects) (sym chains) ruled.expands);
    }
