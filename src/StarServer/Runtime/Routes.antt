-- ===== src/StarServer/Runtime/Routes.antt =====
-- internal/star/starserver/register.go: the rules that the routes of a configuration become.
use rain_net.Common.{
  ◌≡◌, refl, sym, ap, subst, ◌∙◌, ◌≢◌, ◌⊎◌, inl, inr, true, false, Option, none, some, List, [],
  ◌∷◌, ◌++◌, map, append_assoc, append-nil, arith, nat_beq, if◌then◌else◌, Bool-cases, length, Str,
  codes, str_beq, str_beq_iff, nat_eq, str_eq,
}
use mathlib.Core.List.{Mem, mem-cons_self, mem-cons_of_mem}
use rain_net.Common.Maps.{Map, lookup, insert, lookup-insert}
use rain_net.Config.{DialerSpec, RouteSpec, dialer_by_name}
use rain_net.Config.Validation.{every}
use rain_net.Config.Validation.Loops.{is_some}
use rain_net.StarServer.ConnectTable.{ConnectItem}
use rain_net.StarServer.Runtime.{
  RuntimeConfig, ChainRoute, chain_for, connect_for, or_empty, is_outbound, add_route, add_routes,
}

-- The streams of a route; a route that names none has the empty one.
abbrev pub wanted : RouteSpec → List Str
wanted rt = if nat_beq (length rt.streams) 0 then [] ∷ [] else rt.streams

abbrev pub connect_rule : RouteSpec → DialerSpec → Str → ConnectItem
connect_rule rt d stream = record {
  proxy_name = rt.ingress;
  bridge_name = [];
  client_proxy_name = d.identity;
  stream_id = stream;
}

abbrev pub chain_rule : RouteSpec → DialerSpec → Str → ChainRoute
chain_rule rt d stream = record {
  proxy_name = rt.ingress;
  dialer = d.name;
  identity = d.identity;
  stream_id = stream;
}

-- The rules of the routes, in order: one for each stream, with the access point of the route and the
-- identity of the dialer that it goes to; a chain route when that is an outgoing star dialer.
pub data Expands (dialers : List DialerSpec)
    : List RouteSpec → List ConnectItem → List ChainRoute → Type 0 where
  no_more : Expands dialers [] [] []
  inward :
      {rts : List RouteSpec} {connects : List ConnectItem} {chains : List ChainRoute}
      (rt : RouteSpec) (d : DialerSpec)
      → Mem d dialers
      → d.name ≡ rt.to
      → (d.type ≢ codes "star") ⊎ (d.role ≢ codes "outbound")
      → Expands dialers rts connects chains
      → Expands dialers (rt ∷ rts) (map (connect_rule rt d) (wanted rt) ++ connects) chains
  outward :
      {rts : List RouteSpec} {connects : List ConnectItem} {chains : List ChainRoute}
      (rt : RouteSpec) (d : DialerSpec)
      → Mem d dialers
      → d.name ≡ rt.to
      → d.type ≡ codes "star"
      → d.role ≡ codes "outbound"
      → Expands dialers rts connects chains
      → Expands dialers (rt ∷ rts) connects (map (chain_rule rt d) (wanted rt) ++ chains)

named_dialer :
    (k : Str) (d : DialerSpec) (ds : List DialerSpec) (m : Map Str DialerSpec)
    → lookup k (dialer_by_name ds m) ≡ some d
    → (Mem d ds × (d.name ≡ k)) ⊎ (lookup k m ≡ some d)
unfolding dialer_by_name
named_dialer k d [] m h = inr h
named_dialer k d (x ∷ xs) m h = elim (named_dialer k d xs (insert x.name x m) h) [
  | inl (there, e) ↦ inl (mem-cons_of_mem x there, e)
  | inr now ↦ elim (Bool-cases (str_beq x.name k)) [
    | inl t ↦
        let same : x ≡ d = ground (arith, t, now, lookup-insert x.name k x m) in
        inl (
          subst (λ y. Mem y (x ∷ xs)) same mem-cons_self,
          sym (ap (λ y. y.name) same) ∙ (str_beq_iff x.name k).0 t,
        )
    | inr t ↦ inr (ground (arith, t, now, lookup-insert x.name k x m))
  ]
]

wanted_lem : (rt : RouteSpec) → or_empty rt.streams ≡ wanted rt
wanted_lem rt = by_streams rt.streams
  where
    by_streams : (xs : List Str) → or_empty xs ≡ (if nat_beq (length xs) 0 then [] ∷ [] else xs)
    by_streams [] = refl
    by_streams (x ∷ xs) = ground arith

connect_for-map :
    (rt : RouteSpec) (d : DialerSpec) (xs : List Str)
    → connect_for rt d xs ≡ map (connect_rule rt d) xs
unfolding connect_for
connect_for-map rt d [] = refl
connect_for-map rt d (x ∷ xs) = ap (λ cs. connect_rule rt d x ∷ cs) (connect_for-map rt d xs)

chain_for-map :
    (rt : RouteSpec) (d : DialerSpec) (xs : List Str) → chain_for rt d xs ≡ map (chain_rule rt d) xs
unfolding chain_for
chain_for-map rt d [] = refl
chain_for-map rt d (x ∷ xs) = ap (λ cs. chain_rule rt d x ∷ cs) (chain_for-map rt d xs)

-- What a step adds to the rules; the map of the listeners stays.
pub record Adds (before after : RuntimeConfig) (connects : List ConnectItem)
    (chains : List ChainRoute) : Type 0 where
  pub same_map : after.listener_map ≡ before.listener_map
  pub routes_lem : after.routes ≡ before.routes ++ connects
  pub chains_lem : after.chain_routes ≡ before.chain_routes ++ chains

add_route-inward :
    (cfg : RuntimeConfig) (d : DialerSpec) (rt : RouteSpec)
    → is_outbound d ≡ false
    → Adds cfg (add_route cfg (some d) rt) (map (connect_rule rt d) (wanted rt)) []
unfolding add_route
add_route-inward cfg d rt inbound =
    let rules =
      connect_for-map rt d (or_empty rt.streams) ∙ ap (map (connect_rule rt d)) (wanted_lem rt) in
    rw inbound (record {
      same_map = refl;
      routes_lem = ap (λ cs. cfg.routes ++ cs) rules;
      chains_lem = sym (append-nil cfg.chain_routes);
    })

add_route-outward :
    (cfg : RuntimeConfig) (d : DialerSpec) (rt : RouteSpec)
    → is_outbound d ≡ true
    → Adds cfg (add_route cfg (some d) rt) [] (map (chain_rule rt d) (wanted rt))
unfolding add_route
add_route-outward cfg d rt outbound =
    let rules =
      chain_for-map rt d (or_empty rt.streams) ∙ ap (map (chain_rule rt d)) (wanted_lem rt) in
    rw outbound (record {
      same_map = refl;
      routes_lem = sym (append-nil cfg.routes);
      chains_lem = ap (λ cs. cfg.chain_routes ++ cs) rules;
    })

-- A step and what follows it.
Adds-trans :
    (a b c : RuntimeConfig) (xs ys : List ConnectItem) (us vs : List ChainRoute)
    → Adds a b xs us
    → Adds b c ys vs
    → Adds a c (xs ++ ys) (us ++ vs)
Adds-trans a b c xs ys us vs first later = record {
  same_map = later.same_map ∙ first.same_map;
  routes_lem =
      later.routes_lem ∙ ap (λ rs. rs ++ ys) first.routes_lem ∙ append_assoc a.routes xs ys;
  chains_lem =
      later.chains_lem ∙ ap (λ rs. rs ++ vs) first.chains_lem ∙ append_assoc a.chain_routes us vs;
}

-- The routes to dialers of a list add the rules that they expand to.
pub record Ruled (ds : List DialerSpec) (rts : List RouteSpec) (before after : RuntimeConfig)
    : Type 0 where
  pub connects : List ConnectItem
  pub chains : List ChainRoute
  pub expands : Expands ds rts connects chains
  pub adds : Adds before after connects chains

outbound-parts :
    (d : DialerSpec) → is_outbound d ≡ true → (d.type ≡ codes "star") × (d.role ≡ codes "outbound")
outbound-parts d h =
    ground (arith, h, str_beq_iff d.type (codes "star"), str_beq_iff d.role (codes "outbound"))

inbound-parts :
    (d : DialerSpec) → is_outbound d ≡ false → (d.type ≢ codes "star") ⊎ (d.role ≢ codes "outbound")
inbound-parts d h = elim (Bool-cases (str_beq d.type (codes "star"))) [
  | inr e ↦ inl (λ same. ground (arith, e, (str_beq_iff d.type (codes "star")).1 same))
  | inl e ↦ inr (λ same. ground (arith, h, e, (str_beq_iff d.role (codes "outbound")).1 same))
]

found_dialer :
    (k : Str) (d : DialerSpec) (ds : List DialerSpec)
    → lookup k (dialer_by_name ds []) ≡ some d
    → Mem d ds × (d.name ≡ k)
unfolding lookup
found_dialer k d ds h = elim (named_dialer k d ds [] h) [
  | inl there ↦ there
  | inr now ↦ absurd (cc)
]

add_route-Ruled :
    (ds : List DialerSpec) (cfg last : RuntimeConfig) (rt : RouteSpec) (rts : List RouteSpec)
    (o : Option DialerSpec)
    → lookup rt.to (dialer_by_name ds []) ≡ o
    → is_some o ≡ true
    → Ruled ds rts (add_route cfg o rt) last
    → Ruled ds (rt ∷ rts) cfg last
unfolding is_some
add_route-Ruled ds cfg last rt rts none e h later = ground arith
add_route-Ruled ds cfg last rt rts (some d) e h later =
    let (there, same) = found_dialer rt.to d ds e in
    elim (Bool-cases (is_outbound d)) [
      | inl out ↦
          let (star, outbound) = outbound-parts d out in
          record {
            connects = later.connects;
            chains = map (chain_rule rt d) (wanted rt) ++ later.chains;
            expands = outward rt d there same star outbound later.expands;
            adds =
                Adds-trans cfg (add_route cfg (some d) rt) last [] later.connects
                  (map (chain_rule rt d) (wanted rt)) later.chains (add_route-outward cfg d rt out)
                  later.adds;
          }
      | inr not_out ↦ record {
        connects = map (connect_rule rt d) (wanted rt) ++ later.connects;
        chains = later.chains;
        expands = inward rt d there same (inbound-parts d not_out) later.expands;
        adds =
            Adds-trans cfg (add_route cfg (some d) rt) last (map (connect_rule rt d) (wanted rt))
              later.connects [] later.chains (add_route-inward cfg d rt not_out) later.adds;
      }
    ]

pub add_routes-Ruled :
    (ds : List DialerSpec) (cfg : RuntimeConfig) (rts : List RouteSpec)
    → every (λ rt. is_some (lookup rt.to (dialer_by_name ds []))) rts ≡ true
    → Ruled ds rts cfg (add_routes (dialer_by_name ds []) cfg rts)
unfolding add_routes
add_routes-Ruled ds cfg [] h = record {
  connects = [];
  chains = [];
  expands = no_more;
  adds = record {
    same_map = refl;
    routes_lem = sym (append-nil cfg.routes);
    chains_lem = sym (append-nil cfg.chain_routes);
  };
}
add_routes-Ruled ds cfg (rt ∷ rts) h =
    let dialers = dialer_by_name ds [] in
    let found : is_some (lookup rt.to dialers) ≡ true = ground arith in
    let others : every (λ r. is_some (lookup r.to dialers)) rts ≡ true = ground arith in
    let next = add_route cfg (lookup rt.to dialers) rt in
    add_route-Ruled ds cfg (add_routes dialers next rts) rt rts (lookup rt.to dialers) refl found
      (add_routes-Ruled ds next rts others)
