-- ===== src/Config.antt =====
-- config/schema.go: the configuration file as the program reads it, and its validation. What yaml makes
-- of a text is a parameter.
pub mod Validation
mod Tests
use rain_net.Common.{
  Bool, false, not, ◌&&◌, ◌||◌, Option, none, some, List, [], ◌∷◌, ◌++◌, nat_beq, if◌then◌else◌,
  length, Bytes, Str, codes, str_beq, nat_eq, str_eq, Result, ok, err, ◌>>=◌,
}
use rain_net.Common.Maps.{Map, lookup, insert}

pub record Credential : Type 0 where
  pub name : Str
  pub key_password : Str
  pub streams : List Str

pub record IngressExtra : Type 0 where
  pub admin_password : Str
  pub key_password : Str
  pub credentials : List Credential
  pub target : Str
  pub in_codec : Str
  pub cert_file : Str
  pub key_file : Str
  pub dns_zones : Map Str (Map Str Str)
  pub dns_upstreams : List Str

pub record IngressSpec : Type 0 where
  pub name : Str
  pub transport : Str
  pub addr : Str
  pub handler : Str
  pub settings : IngressExtra

pub record ServiceSpec : Type 0 where
  pub name : Str
  pub ingress : List IngressSpec
  pub dialers : List Str

pub record HandlerSpec : Type 0 where
  pub name : Str
  pub plugins : List Str

pub record LocalSpec : Type 0 where
  pub stream : Str
  pub addr : Str

pub record DialerSpec : Type 0 where
  pub name : Str
  pub type : Str
  pub role : Str
  pub transport : Str
  pub addr : Str
  pub identity : Str
  pub key_password : Str
  pub locals : List LocalSpec

pub record RouteSpec : Type 0 where
  pub ingress : Str
  pub identity : Str
  pub target : Str
  pub to : Str
  pub streams : List Str

pub record Root : Type 0 where
  pub services : List ServiceSpec
  pub handlers : List HandlerSpec
  pub dialers : List DialerSpec
  pub routes : List RouteSpec

pub data Error : Type 0 where
  not_yaml : Error
  legacy_keys_found : List Str → Error
  not_a_root : Error
  service_unnamed : Error
  ingress_incomplete : Str → Error
  ingress_twice : Str → Error
  handler_twice : Str → Error
  dialer_type : Str → Error
  dialer_role : Str → Error
  dialer_incomplete : Str → Error
  dialer_twice : Str → Error
  undefined_dialer : Str → Error

abbrev pub is_empty : Str → Bool
is_empty s = nat_beq (length s) 0

-- The keys of a map to true.
unfoldable pub has : Str → List Str → Bool
has key [] = false
has key (x ∷ xs) = str_beq x key || has key xs

unfoldable pub check_ingress : Str → List Str → List IngressSpec → Result Error (List Str)
check_ingress svc names [] = ok names
check_ingress svc names (ing ∷ rest) =
    let key : Str = codes "ingress:" ++ ing.name in
    if is_empty ing.name || is_empty ing.addr
    then err (ingress_incomplete svc)
    else if has key names
    then err (ingress_twice ing.name)
    else check_ingress svc (key ∷ names) rest

unfoldable pub check_services : List Str → List ServiceSpec → Result Error (List Str)
check_services names [] = ok names
check_services names (svc ∷ rest) =
    if is_empty svc.name
    then err service_unnamed
    else (check_ingress svc.name names svc.ingress >>= λ names'. check_services names' rest)

unfoldable pub check_handlers : List Str → List HandlerSpec → Result Error (List Str)
check_handlers names [] = ok names
check_handlers names (h ∷ rest) =
    let key : Str = codes "handler:" ++ h.name in
    if has key names then err (handler_twice h.name) else check_handlers (key ∷ names) rest

-- The role of a copy of the dialer, which is inbound by default.
abbrev pub role_of : DialerSpec → Str
role_of d = if is_empty d.role then codes "inbound" else d.role

unfoldable pub check_star : DialerSpec → Option Error
check_star d =
    if not (str_beq (role_of d) (codes "inbound")) && not (str_beq (role_of d) (codes "outbound"))
    then some (dialer_role d.name)
    else if is_empty d.addr || is_empty d.identity || is_empty d.key_password
    then some (dialer_incomplete d.name)
    else none

unfoldable pub check_dialer : DialerSpec → Option Error
unfolding check_star
check_dialer d =
    if not (str_beq d.type (codes "direct")) && not (str_beq d.type (codes "star"))
    then some (dialer_type d.name)
    else if str_beq d.type (codes "star")
    then check_star d
    else none

unfoldable pub check_dialers : List Str → List DialerSpec → Result Error (List Str)
unfolding check_dialer
check_dialers names [] = ok names
check_dialers names (d ∷ rest) =
    let key : Str = codes "dialer:" ++ d.name in
    elim (check_dialer d) [
      | some e ↦ err e
      | none ↦ if has key names then err (dialer_twice d.name) else check_dialers (key ∷ names) rest
    ]

unfoldable pub dialer_by_name : List DialerSpec → Map Str DialerSpec → Map Str DialerSpec
dialer_by_name [] m = m
dialer_by_name (d ∷ rest) m = dialer_by_name rest (insert d.name d m)

unfoldable pub check_routes : Map Str DialerSpec → List RouteSpec → Option Error
check_routes dialers [] = none
check_routes dialers (rt ∷ rest) = elim (lookup rt.to dialers) [
  | none ↦ some (undefined_dialer rt.to)
  | some d ↦ check_routes dialers rest
]

abbrev pub failing : Option Error → Result Error (Unit {0})
failing none = ok tt
failing (some e) = err e

unfoldable pub validate : Root → Result Error (Unit {0})
validate r = do
  ingress_names ← check_services [] r.services
  handler_names ← check_handlers ingress_names r.handlers
  all_names ← check_dialers handler_names r.dialers
  failing (check_routes (dialer_by_name r.dialers []) r.routes)

-- The keys of legacyKeys, in the order into which the messages about them are sorted.
abbrev pub legacy_keys : List Str
legacy_keys =
    codes "bridgerList" ∷ (codes "dailerList" ∷ (codes "handlerList" ∷ (codes "listenerList" ∷ [])))

-- The old keys of a file, each of which gives a line of the message.
unfoldable pub legacy : List Str → List Str → List Str
legacy [] probe = []
legacy (key ∷ keys) probe =
    let found = legacy keys probe in if has key probe then key ∷ found else found

module _ (probe : Bytes → Option (List Str)) (unmarshal : Bytes → Option Root) where
  unfoldable pub parsed : Option Root → Result Error Root
  parsed none = err not_a_root
  parsed (some root) = validate root >>= λ _. ok root

  unfoldable pub without_legacy : List Str → Bytes → Result Error Root
  unfolding parsed
  without_legacy [] text = parsed (unmarshal text)
  without_legacy (key ∷ keys) text = err (legacy_keys_found (key ∷ keys))

  unfoldable pub load : Bytes → Result Error Root
  unfolding without_legacy
  load text = elim (probe text) [
    | none ↦ err not_yaml
    | some keys ↦ without_legacy (legacy legacy_keys keys) text
  ]
