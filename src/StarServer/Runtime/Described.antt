-- ===== src/StarServer/Runtime/Described.antt =====
-- internal/star/starserver/register.go: what a listener is to be, by the access point of the schema.
use rain_net.Common.{
  ◌≡◌, refl, ap, ap₂, ◌≢◌, ◌⊎◌, inl, inr, true, false, List, [], ◌∷◌, ◌++◌, map, arith, Bool-cases,
  Str, codes, str_beq, str_beq_iff,
}
use rain_net.Config.{Credential, IngressExtra, IngressSpec, is_empty}
use rain_net.StarServer.Runtime.{
  ClientProxy, ListenerList, Settings, streams_of, client_proxies, typed, listener_of,
  base_settings,
}

-- Each stream of each credential, with the name and the password of the credential.
abbrev pub logins : List Credential → List ClientProxy
logins [] = []
logins (cred ∷ creds) =
    map
      (λ stream. record {
        client_proxy_name = cred.name;
        stream_id = stream;
        key_password = cred.key_password;
      })
      cred.streams
    ++ logins creds

-- The kind of a listener by the name of its handler, with the settings that only this kind has.
abbrev pub HasKind : IngressSpec → Str × Settings → Type 0
HasKind ing (type, settings) =
    ((ing.handler ≡ codes "star")
      × (type ≡ codes "ctrlproxy")
      × (settings.client_proxy ≡ logins ing.settings.credentials))
    ⊎ ((ing.handler ≡ codes "admin") × (type ≡ codes "admin"))
    ⊎ ((ing.handler ≡ codes "dns") × (type ≡ codes "dns"))
    ⊎ ((ing.handler ≡ []) × (type ≡ codes "proxy") × (settings.proxy_name ≡ ing.name))
    ⊎ ((ing.handler ≢ codes "star")
        × (ing.handler ≢ codes "admin")
        × (ing.handler ≢ codes "dns")
        × (ing.handler ≢ [])
        × (type ≡ codes "tcp"))

-- The settings that every kind takes over.
pub record TakesOver (given : IngressExtra) (settings : Settings) : Type 0 where
  pub same_admin_password : settings.admin_password ≡ given.admin_password
  pub same_key_password : settings.key_password ≡ given.key_password
  pub same_cert_file : settings.cert_file ≡ given.cert_file
  pub same_key_file : settings.key_file ≡ given.key_file
  pub same_target : settings.target ≡ given.target
  pub same_in_codec : settings.in_codec ≡ given.in_codec
  pub same_dns_zones : settings.dns_zones ≡ given.dns_zones
  pub same_dns_upstreams : settings.dns_upstreams ≡ given.dns_upstreams

-- A listener as its access point describes it.
pub record Describes (ing : IngressSpec) (l : ListenerList) : Type 0 where
  pub same_name : l.name ≡ ing.name
  pub same_addr : l.addr ≡ ing.addr
  pub transport_lem :
      ((ing.transport ≡ []) × (l.transport ≡ codes "tcp"))
      ⊎ ((ing.transport ≢ []) × (l.transport ≡ ing.transport))
  pub kind : HasKind ing (l.type, l.settings)
  pub taken_over : TakesOver ing.settings l.settings

streams_of-map :
    (cred : Credential) (xs : List Str)
    → streams_of cred xs
      ≡ map
          (λ stream. record {
            client_proxy_name = cred.name;
            stream_id = stream;
            key_password = cred.key_password;
          })
          xs
unfolding streams_of
streams_of-map cred [] = refl
streams_of-map cred (x ∷ xs) =
    ap
      (λ cps.
        (record { client_proxy_name = cred.name; stream_id = x; key_password = cred.key_password })
        ∷ cps)
      (streams_of-map cred xs)

client_proxies-logins : (creds : List Credential) → client_proxies creds ≡ logins creds
unfolding client_proxies
client_proxies-logins [] = refl
client_proxies-logins (cred ∷ creds) =
    ap₂ (λ xs ys. xs ++ ys) (streams_of-map cred cred.streams) (client_proxies-logins creds)

-- What typed may make of the settings.
with_special :
    (ing : IngressSpec) (name : Str) (cps : List ClientProxy)
    → TakesOver ing.settings (record (base_settings ing) { proxy_name = name; client_proxy = cps })
with_special ing name cps = record {
  same_admin_password = refl;
  same_key_password = refl;
  same_cert_file = refl;
  same_key_file = refl;
  same_target = refl;
  same_in_codec = refl;
  same_dns_zones = refl;
  same_dns_upstreams = refl;
}

differs : (a b : Str) → str_beq a b ≡ false → a ≢ b
differs a b e same = ground (arith, e, same, str_beq_iff a b)

empty_or : (s : Str) → ((s ≡ []) × (is_empty s ≡ true)) ⊎ ((s ≢ []) × (is_empty s ≡ false))
empty_or [] = inl (refl, refl)
empty_or (c ∷ cs) = inr (λ e. cc, ground arith)

typed_lem : (ing : IngressSpec) → HasKind ing (typed ing) × TakesOver ing.settings (typed ing).1
unfolding typed
typed_lem ing = elim (Bool-cases (str_beq ing.handler (codes "star"))) [
  | inl e ↦ rw e (
    inl (
      (str_beq_iff ing.handler (codes "star")).0 e,
      refl,
      client_proxies-logins ing.settings.credentials,
    ),
    with_special ing [] (client_proxies ing.settings.credentials),
  )
  | inr e ↦ elim (Bool-cases (str_beq ing.handler (codes "admin"))) [
    | inl f ↦
        rw (e, f)
          (inr (inl ((str_beq_iff ing.handler (codes "admin")).0 f, refl)), with_special ing [] [])
    | inr f ↦ elim (Bool-cases (str_beq ing.handler (codes "dns"))) [
      | inl g ↦
          rw (e, f, g)
            (
              inr (inr (inl ((str_beq_iff ing.handler (codes "dns")).0 g, refl))),
              with_special ing [] [],
            )
      | inr g ↦ elim (empty_or ing.handler) [
        | inl (none_given, h) ↦
            rw (e, f, g, h)
              (inr (inr (inr (inl (none_given, refl, refl)))), with_special ing ing.name [])
        | inr (given, h) ↦
            rw (e, f, g, h)
              (
                inr (
                    inr (
                      inr (
                        inr (
                          differs ing.handler (codes "star") e,
                          differs ing.handler (codes "admin") f,
                          differs ing.handler (codes "dns") g,
                          given,
                          refl,
                        )))),
                with_special ing [] [],
              )
      ]
    ]
  ]
]

pub listener_of-Describes : (ing : IngressSpec) → Describes ing (listener_of ing)
unfolding listener_of
listener_of-Describes ing = record {
  same_name = refl;
  same_addr = refl;
  transport_lem = elim (empty_or ing.transport) [
    | inl (none_given, h) ↦ inl (none_given, rw h refl)
    | inr (given, h) ↦ inr (given, rw h refl)
  ];
  kind = (typed_lem ing).0;
  taken_over = (typed_lem ing).1;
}
