-- ===== src/StarServer/Runtime/Tests.antt =====
-- Runs of the start of the server, and the theorems about it at these.
use rain_net.Common.{◌≡◌, refl, List, [], ◌∷◌, map, Str, codes, str_beq, nat_eq, str_eq, ok}
use rain_net.Common.Maps.{lookup, insert}
use rain_net.Config.{
  IngressExtra, IngressSpec, DialerSpec, RouteSpec, Root, validate, has, check_services,
  check_ingress, check_handlers, check_dialers, check_routes, dialer_by_name,
}
use rain_net.StarServer.Runtime.{build_runtime_config}
use rain_net.StarServer.Runtime.Lookup.{IsKept, build_runtime_config-IsKept}

abbrev plain : IngressExtra
plain = record {
  admin_password = [];
  key_password = [];
  credentials =
      record {
        name = codes "home";
        key_password = codes "k";
        streams = codes "web" ∷ (codes "ssh" ∷ []);
      }
      ∷ [];
  target = [];
  in_codec = [];
  cert_file = [];
  key_file = [];
  dns_zones = [];
  dns_upstreams = [];
}

abbrev ingress : Str → Str → Str → IngressSpec
ingress name addr handler = record {
  name = name;
  transport = [];
  addr = addr;
  handler = handler;
  settings = plain;
}

abbrev dialer : Str → Str → DialerSpec
dialer name role = record {
  name = name;
  type = codes "star";
  role = role;
  transport = [];
  addr = codes ":7000";
  identity = codes "home";
  key_password = codes "k";
  locals = [];
}

abbrev route : Str → List Str → RouteSpec
route to streams = record {
  ingress = codes "in";
  identity = [];
  target = [];
  to = to;
  streams = streams;
}

abbrev root : List RouteSpec → Root
root routes = record {
  services =
      record {
        name = codes "main";
        ingress =
            ingress (codes "ctrl") (codes ":7000") (codes "star")
            ∷ (ingress (codes "in") (codes ":80") [] ∷ []);
        dialers = [];
      }
      ∷ [];
  handlers = record { name = codes "in"; plugins = codes "socks5" ∷ [] } ∷ [];
  dialers = dialer (codes "in") [] ∷ (dialer (codes "far") (codes "outbound") ∷ []);
  routes = routes;
}

abbrev two_routes : Root
two_routes =
    root (route (codes "in") [] ∷ (route (codes "far") (codes "a" ∷ (codes "b" ∷ [])) ∷ []))

two_routes-valid : validate two_routes ≡ ok tt
unfolding validate check_services check_ingress has str_beq check_handlers check_dialers
    check_routes lookup dialer_by_name insert
two_routes-valid = refl

far_routes :
    map (λ c. c.stream_id) (build_runtime_config two_routes).chain_routes
    ≡ codes "a" ∷ (codes "b" ∷ [])
unfolding build_runtime_config lookup dialer_by_name insert str_beq
far_routes = refl

types :
    map (λ l. l.type) (build_runtime_config two_routes).listener_list
    ≡ codes "ctrlproxy" ∷ (codes "proxy" ∷ [])
unfolding build_runtime_config lookup dialer_by_name insert str_beq
types = refl

build_runtime_config-IsKept_example : IsKept two_routes (build_runtime_config two_routes)
build_runtime_config-IsKept_example = build_runtime_config-IsKept two_routes two_routes-valid
