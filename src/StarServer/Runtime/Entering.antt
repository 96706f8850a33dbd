-- ===== src/StarServer/Runtime/Entering.antt =====
-- internal/star/starserver/register.go: listeners in a map, under distinct names.
use rain_net.Common.{
  ◌≡◌, refl, sym, ap, ◌∙◌, true, false, some, List, [], ◌∷◌, ◌++◌, map, arith, if◌then◌else◌, All,
  Str, str_beq, str_beq_self, nat_eq, str_eq,
}
use rain_net.Common.Maps.{Map, lookup, insert, lookup-insert}
use rain_net.Config.{IngressSpec, ServiceSpec, has}
use rain_net.Config.Validation.{distinct, ingress_names}
use rain_net.Config.Validation.Names.{map-append}
use rain_net.StarServer.Runtime.{ListenerList, listener_of}

-- The access points of all services, in order.
abbrev pub ingresses : List ServiceSpec → List IngressSpec
ingresses [] = []
ingresses (svc ∷ rest) = svc.ingress ++ ingresses rest

pub ingresses_lem :
    (svcs : List ServiceSpec) → ingress_names svcs ≡ map (λ i. i.name) (ingresses svcs)
ingresses_lem [] = refl
ingresses_lem (svc ∷ rest) =
    ap (λ xs. map (λ i. i.name) svc.ingress ++ xs) (ingresses_lem rest)
    ∙ sym (map-append (λ i. i.name) svc.ingress (ingresses rest))

abbrev pub entered : List IngressSpec → Map Str ListenerList → Map Str ListenerList
entered [] m = m
entered (ing ∷ rest) m = entered rest (insert ing.name (listener_of ing) m)

pub entered-append :
    (xs ys : List IngressSpec) (m : Map Str ListenerList)
    → entered (xs ++ ys) m ≡ entered ys (entered xs m)
entered-append [] ys m = refl
entered-append (x ∷ xs) ys m = entered-append xs ys (insert x.name (listener_of x) m)

pub entered_other :
    (k : Str) (is : List IngressSpec) (m : Map Str ListenerList)
    → has k (map (λ i. i.name) is) ≡ false
    → lookup k (entered is m) ≡ lookup k m
unfolding has
entered_other k [] m h = refl
entered_other k (i ∷ is) m h =
    let later : has k (map (λ j. j.name) is) ≡ false = ground arith in
    let other : str_beq i.name k ≡ false = ground arith in
    entered_other k is (insert i.name (listener_of i) m) later
    ∙ lookup-insert i.name k (listener_of i) m
    ∙ ap (λ b. if b then some (listener_of i) else lookup k m) other

pub entered_own :
    (is : List IngressSpec) (m : Map Str ListenerList)
    → distinct (map (λ i. i.name) is) ≡ true
    → All (λ ing. lookup ing.name (entered is m) ≡ some (listener_of ing)) is
entered_own [] m h = tt
entered_own (i ∷ is) m h =
    let alone : has i.name (map (λ j. j.name) is) ≡ false = ground arith in
    let later : distinct (map (λ j. j.name) is) ≡ true = ground arith in
    (
      entered_other i.name is (insert i.name (listener_of i) m) alone
          ∙ lookup-insert i.name i.name (listener_of i) m
          ∙ ap (λ b. if b then some (listener_of i) else lookup i.name m) (str_beq_self i.name),
      entered_own is (insert i.name (listener_of i) m) later,
    )
