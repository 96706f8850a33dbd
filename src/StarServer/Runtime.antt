-- ===== src/StarServer/Runtime.antt =====
-- internal/star/starserver/register.go, buildRuntimeConfig: the settings of the running parts, from a
-- configuration. A pointer into ListenerList is the listener itself, since nothing changes one later.
pub mod Routes
pub mod Described
pub mod Entering
pub mod Lookup
mod Tests
use rain_net.Common.{
  Bool, ◌&&◌, Option, none, some, List, [], ◌∷◌, ◌++◌, if◌then◌else◌, Str, codes, str_beq, nat_eq,
  str_eq,
}
use rain_net.Common.Maps.{Map, lookup, insert}
use rain_net.Config.{
  Credential, IngressSpec, ServiceSpec, HandlerSpec, DialerSpec, RouteSpec, Root, is_empty,
  dialer_by_name,
}
use rain_net.StarServer.ConnectTable.{ConnectItem}

-- A stream that the holder of a credential may register.
pub record ClientProxy : Type 0 where
  pub client_proxy_name : Str
  pub stream_id : Str
  pub key_password : Str

-- The settings that come from a configuration; the others keep their zero.
pub record Settings : Type 0 where
  pub proxy_name : Str
  pub admin_password : Str
  pub key_password : Str
  pub cert_file : Str
  pub key_file : Str
  pub target : Str
  pub in_codec : Str
  pub client_proxy : List ClientProxy
  pub dns_zones : Map Str (Map Str Str)
  pub dns_upstreams : List Str

pub record ListenerList : Type 0 where
  pub name : Str
  pub type : Str
  pub transport : Str
  pub addr : Str
  pub settings : Settings

pub record Listeners : Type 0 where
  pub listener_name : Str
  pub handler_name : Str

pub record Service : Type 0 where
  pub name : Str
  pub type : Str
  pub listeners : List Listeners

pub record ChainRoute : Type 0 where
  pub proxy_name : Str
  pub dialer : Str
  pub identity : Str
  pub stream_id : Str

pub record RuntimeConfig : Type 0 where
  pub service : List Service
  pub listener_list : List ListenerList
  pub handler_list : List HandlerSpec
  pub listener_map : Map Str ListenerList
  pub handler_map : Map Str HandlerSpec
  pub routes : List ConnectItem
  pub chain_routes : List ChainRoute
  pub dialer_specs : Map Str DialerSpec

abbrev pub transport_of : IngressSpec → Str
transport_of ing = if is_empty ing.transport then codes "tcp" else ing.transport

abbrev pub base_settings : IngressSpec → Settings
base_settings ing = record {
  proxy_name = [];
  admin_password = ing.settings.admin_password;
  key_password = ing.settings.key_password;
  cert_file = ing.settings.cert_file;
  key_file = ing.settings.key_file;
  target = ing.settings.target;
  in_codec = ing.settings.in_codec;
  client_proxy = [];
  dns_zones = ing.settings.dns_zones;
  dns_upstreams = ing.settings.dns_upstreams;
}

unfoldable pub streams_of : Credential → List Str → List ClientProxy
streams_of cred [] = []
streams_of cred (stream ∷ rest) =
    record { client_proxy_name = cred.name; stream_id = stream; key_password = cred.key_password }
    ∷ streams_of cred rest

unfoldable pub client_proxies : List Credential → List ClientProxy
unfolding streams_of
client_proxies [] = []
client_proxies (cred ∷ rest) = streams_of cred cred.streams ++ client_proxies rest

-- What the name of the handler makes of a listener.
unfoldable pub typed : IngressSpec → Str × Settings
unfolding client_proxies
typed ing =
    let base = base_settings ing in
    if str_beq ing.handler (codes "star")
    then (codes "ctrlproxy", record base { client_proxy = client_proxies ing.settings.credentials })
    else if str_beq ing.handler (codes "admin")
    then (codes "admin", base)
    else if str_beq ing.handler (codes "dns")
    then (codes "dns", base)
    else if is_empty ing.handler
    then (codes "proxy", record base { proxy_name = ing.name })
    else (codes "tcp", base)

unfoldable pub listener_of : IngressSpec → ListenerList
unfolding typed
listener_of ing = record {
  name = ing.name;
  type = (typed ing).0;
  transport = transport_of ing;
  addr = ing.addr;
  settings = (typed ing).1;
}

unfoldable pub add_ingress : RuntimeConfig → IngressSpec → RuntimeConfig
unfolding listener_of
add_ingress cfg ing = record cfg {
  listener_list = cfg.listener_list ++ (listener_of ing ∷ []);
  listener_map = insert ing.name (listener_of ing) cfg.listener_map;
}

unfoldable pub add_ingresses : RuntimeConfig → List IngressSpec → RuntimeConfig
unfolding add_ingress
add_ingresses cfg [] = cfg
add_ingresses cfg (ing ∷ rest) = add_ingresses (add_ingress cfg ing) rest

unfoldable pub bindings : List IngressSpec → List Listeners
bindings [] = []
bindings (ing ∷ rest) =
    record { listener_name = ing.name; handler_name = ing.handler } ∷ bindings rest

unfoldable pub add_services : RuntimeConfig → List ServiceSpec → RuntimeConfig
unfolding add_ingresses bindings
add_services cfg [] = cfg
add_services cfg (svc ∷ rest) =
    let entered = add_ingresses cfg svc.ingress in
    add_services
      (record entered {
        service =
            entered.service
            ++ (record { name = svc.name; type = codes "star"; listeners = bindings svc.ingress }
                ∷ []);
      })
      rest

unfoldable pub add_handlers : RuntimeConfig → List HandlerSpec → RuntimeConfig
add_handlers cfg [] = cfg
add_handlers cfg (h ∷ rest) =
    add_handlers
      (record cfg {
        handler_map = insert h.name h cfg.handler_map;
        handler_list = cfg.handler_list ++ (h ∷ []);
      })
      rest

unfoldable pub chain_for : RouteSpec → DialerSpec → List Str → List ChainRoute
chain_for rt d [] = []
chain_for rt d (stream ∷ rest) =
    record { proxy_name = rt.ingress; dialer = d.name; identity = d.identity; stream_id = stream }
    ∷ chain_for rt d rest

unfoldable pub connect_for : RouteSpec → DialerSpec → List Str → List ConnectItem
connect_for rt d [] = []
connect_for rt d (stream ∷ rest) =
    record {
      proxy_name = rt.ingress;
      bridge_name = [];
      client_proxy_name = d.identity;
      stream_id = stream;
    }
    ∷ connect_for rt d rest

-- No stream is one rule with an empty stream.
abbrev pub or_empty : List Str → List Str
or_empty [] = [] ∷ []
or_empty (stream ∷ rest) = stream ∷ rest

abbrev pub is_outbound : DialerSpec → Bool
is_outbound d = str_beq d.type (codes "star") && str_beq d.role (codes "outbound")

unfoldable pub add_route : RuntimeConfig → Option DialerSpec → RouteSpec → RuntimeConfig
unfolding chain_for connect_for
add_route cfg none rt = cfg
add_route cfg (some d) rt =
    if is_outbound d
    then record cfg { chain_routes = cfg.chain_routes ++ chain_for rt d (or_empty rt.streams) }
    else record cfg { routes = cfg.routes ++ connect_for rt d (or_empty rt.streams) }

unfoldable pub add_routes : Map Str DialerSpec → RuntimeConfig → List RouteSpec → RuntimeConfig
unfolding add_route
add_routes dialers cfg [] = cfg
add_routes dialers cfg (rt ∷ rest) =
    add_routes dialers (add_route cfg (lookup rt.to dialers) rt) rest

unfoldable pub build_runtime_config : Root → RuntimeConfig
unfolding add_routes add_services add_handlers
build_runtime_config root =
    let dialers = dialer_by_name root.dialers [] in
    let empty : RuntimeConfig = record {
      service = [];
      listener_list = [];
      handler_list = [];
      listener_map = [];
      handler_map = [];
      routes = [];
      chain_routes = [];
      dialer_specs = dialers;
    } in
    add_routes dialers (add_services (add_handlers empty root.handlers) root.services) root.routes
