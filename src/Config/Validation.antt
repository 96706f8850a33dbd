-- ===== src/Config/Validation.antt =====
-- config/schema.go: what a valid configuration is, said without the order in which it is checked.
pub mod Names
pub mod Dialers
pub mod Loops
pub mod Verdict
use rain_net.Common.{
  Bool, true, false, not, ◌&&◌, ◌||◌, List, [], ◌∷◌, ◌++◌, map, Str, codes, str_beq, Result, ok,
  err,
}
use rain_net.Config.{IngressSpec, ServiceSpec, DialerSpec, Root, Error, is_empty, has}

abbrev pub distinct : List Str → Bool
distinct [] = true
distinct (x ∷ xs) = not (has x xs) && distinct xs

abbrev pub every : {A : Type 0} → (A → Bool) → List A → Bool
every p [] = true
every p (x ∷ xs) = p x && every p xs

-- All of its access points have a name and an address, and so on.
abbrev pub ingress_names : List ServiceSpec → List Str
ingress_names [] = []
ingress_names (svc ∷ rest) = map (λ i. i.name) svc.ingress ++ ingress_names rest

abbrev pub ingress_fits : IngressSpec → Bool
ingress_fits i = not (is_empty i.name) && not (is_empty i.addr)

abbrev pub service_fits : ServiceSpec → Bool
service_fits svc = not (is_empty svc.name) && every ingress_fits svc.ingress

abbrev pub dialer_fits : DialerSpec → Bool
dialer_fits d =
    str_beq d.type (codes "direct")
    || (str_beq d.type (codes "star")
        && (is_empty d.role
            || str_beq d.role (codes "inbound")
            || str_beq d.role (codes "outbound"))
        && not (is_empty d.addr)
        && not (is_empty d.identity)
        && not (is_empty d.key_password))

abbrev pub is_ok : {A : Type 0} → Result Error A → Bool
is_ok (ok a) = true
is_ok (err e) = false

-- What the configuration is to be, apart from the order in which it is checked.
abbrev pub well_formed : Root → Bool
well_formed r =
    every service_fits r.services
    && distinct (ingress_names r.services)
    && distinct (map (λ h. h.name) r.handlers)
    && every dialer_fits r.dialers
    && distinct (map (λ d. d.name) r.dialers)
    && every (λ rt. has rt.to (map (λ d. d.name) r.dialers)) r.routes
