-- ===== src/Config/Tests.antt =====
-- Runs of the validation of a configuration, and the theorems about it at these.
use rain_net.Common.{
  ◌≡◌, refl, none, some, List, [], ◌∷◌, Str, codes, str_beq, nat_eq, str_eq, ok, err,
}
use rain_net.Common.Maps.{lookup, insert}
use rain_net.Config.{
  IngressExtra, IngressSpec, DialerSpec, RouteSpec, Root, undefined_dialer, legacy_keys_found,
  validate, load, has, legacy, check_services, check_ingress, check_handlers, check_dialers,
  check_routes, dialer_by_name,
}
use rain_net.Config.Validation.{is_ok, well_formed}
use rain_net.Config.Validation.Verdict.{validate-well_formed}

abbrev plain : IngressExtra
plain = record {
  admin_password = [];
  key_password = [];
  credentials =
      record {
        name = codes "home";
        key_password = codes "k";
        streams = codes "web" ∷ (codes "ssh" ∷ []);
      }
      ∷ [];
  target = [];
  in_codec = [];
  cert_file = [];
  key_file = [];
  dns_zones = [];
  dns_upstreams = [];
}

abbrev ingress : Str → Str → Str → IngressSpec
ingress name addr handler = record {
  name = name;
  transport = [];
  addr = addr;
  handler = handler;
  settings = plain;
}

abbrev dialer : Str → Str → DialerSpec
dialer name role = record {
  name = name;
  type = codes "star";
  role = role;
  transport = [];
  addr = codes ":7000";
  identity = codes "home";
  key_password = codes "k";
  locals = [];
}

abbrev route : Str → List Str → RouteSpec
route to streams = record {
  ingress = codes "in";
  identity = [];
  target = [];
  to = to;
  streams = streams;
}

abbrev root : List RouteSpec → Root
root routes = record {
  services =
      record {
        name = codes "main";
        ingress =
            ingress (codes "ctrl") (codes ":7000") (codes "star")
            ∷ (ingress (codes "in") (codes ":80") [] ∷ []);
        dialers = [];
      }
      ∷ [];
  handlers = record { name = codes "in"; plugins = codes "socks5" ∷ [] } ∷ [];
  dialers = dialer (codes "in") [] ∷ (dialer (codes "far") (codes "outbound") ∷ []);
  routes = routes;
}

good : validate (root (route (codes "in") [] ∷ [])) ≡ ok tt
unfolding validate check_services check_ingress has str_beq check_handlers check_dialers
    check_routes lookup dialer_by_name insert
good = refl

-- A name may be an access point, a handler and a dialer at once, but a route names a dialer.
lost : validate (root (route (codes "main") [] ∷ [])) ≡ err (undefined_dialer (codes "main"))
unfolding validate check_services check_ingress has str_beq check_handlers check_dialers
    check_routes lookup dialer_by_name insert
lost = refl

old :
    load
      (λ text. some (codes "service" ∷ (codes "listenerList" ∷ (codes "dailerList" ∷ []))))
      (λ text. none)
      []
    ≡ err (legacy_keys_found (codes "dailerList" ∷ (codes "listenerList" ∷ [])))
unfolding load legacy has str_beq
old = refl

validate-well_formed_example :
    is_ok (validate (root (route (codes "main") [] ∷ [])))
    ≡ well_formed (root (route (codes "main") [] ∷ []))
validate-well_formed_example = validate-well_formed (root (route (codes "main") [] ∷ []))
