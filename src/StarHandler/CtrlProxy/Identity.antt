-- ===== src/StarHandler/CtrlProxy/Identity.antt =====
-- A client acts only under the identity of its password.
use rain_net.Common.{
  ℕ, ◌≡◌, refl, sym, ap, subst, ◌∙◌, ◌≢◌, ◌⊎◌, inl, inr, false, some, List, [], ◌∷◌, arith,
  Bool-cases, Option-cases, Str, str_beq, str_beq_iff, nat_eq, str_eq, ok, err,
}
use rain_net.Common.Maps.{Map, lookup, lookup-insert}
use rain_net.Star.Handshake.{RegisterStreamReq, ClientConnReq}
use rain_net.StarHandler.StreamTable
use rain_net.StarHandler.StreamTable.{get_by_name}
use rain_net.StarHandler.CtrlHub.{CtrlHub}
use rain_net.StarHandler.CtrlProxy.{
  ClientProxy, Settings, Serving, creds, client_creds, is_empty, not_allowed, assign_for,
  conn_target, refusal, target_of,
}

-- An entry of the list has the name and, as its own, the password, which is not empty.
abbrev pub HasLogin : Str → Str → List ClientProxy → Type 0
HasLogin password name [] = ⊥
HasLogin password name (cp ∷ cps) =
    ((is_empty cp.key_password ≡ false)
      × (cp.key_password ≡ password)
      × (cp.client_proxy_name ≡ name))
    ⊎ HasLogin password name cps

client_creds_lem :
    (cps : List ClientProxy) (c : Map Str Str) (password name : Str)
    → lookup password (client_creds cps c) ≡ some name
    → HasLogin password name cps ⊎ (lookup password c ≡ some name)
unfolding client_creds
client_creds_lem [] c password name h = inr h
client_creds_lem (cp ∷ cps) c password name h = elim (client_creds_lem cps _ password name h) [
  | inl later ↦ inl (inr later)
  | inr now ↦ elim (Bool-cases (is_empty cp.key_password)) [
    | inl e ↦ inr (ground (arith, e, now))
    | inr e ↦ elim (Bool-cases (str_beq cp.key_password password)) [
      | inl t ↦ inl (
          inl (
            e,
            (str_beq_iff cp.key_password password).0 t,
            ground
                (arith, e, t, now, lookup-insert cp.key_password password cp.client_proxy_name c),
          ))
      | inr t ↦
          inr (
            ground
              (arith, e, t, now, lookup-insert cp.key_password password cp.client_proxy_name c))
    ]
  ]
]

own_login :
    (s : Settings) (password name : Str)
    → lookup password (client_creds s.client_proxy []) ≡ some name
    → ((s.key_password ≡ password) × (is_empty password ≡ false) × (name ≡ []))
      ⊎ HasLogin password name s.client_proxy
unfolding lookup
own_login s password name h = elim (client_creds_lem s.client_proxy [] password name h) [
  | inl login ↦ inr login
  | inr none_there ↦ absurd (cc)
]

-- A password is accepted only as the administrator's, with the empty identity, or as that of a
-- client entry, with the name of this entry as the identity.
pub creds_lem :
    (s : Settings) (password name : Str)
    → lookup password (creds s) ≡ some name
    → ((s.key_password ≡ password) × (is_empty password ≡ false) × (name ≡ []))
      ⊎ HasLogin password name s.client_proxy
unfolding creds
creds_lem s password name h =
    let clients = client_creds s.client_proxy [] in
    let put = lookup-insert s.key_password password [] clients in
    elim (Bool-cases (is_empty s.key_password)) [
      | inl e ↦ own_login s password name (ground (arith, e, h))
      | inr e ↦ elim (Bool-cases (str_beq s.key_password password)) [
        | inl t ↦
            let same = (str_beq_iff s.key_password password).0 t in
            inl (same, sym (ap is_empty same) ∙ e, ground (arith, e, t, h, put))
        | inr t ↦ own_login s password name (ground (arith, e, t, h, put))
      ]
    ]

-- The identity is the administrator's or the name that a request is about.
abbrev pub MayUse : Str → Str → Type 0
MayUse identity name = (identity ≡ []) ⊎ (name ≡ identity)

not_allowed-MayUse :
    (identity name : Str) → not_allowed identity name ≡ false → MayUse identity name
not_allowed-MayUse [] name h = inl refl
not_allowed-MayUse (c ∷ cs) name h = inr (ground (arith, h, str_beq_iff name (c ∷ cs)))

-- A registration for a name that the identity may not use is refused and leaves the hub as it was;
-- any other is what Assign of the stream table makes of it, for this session.
pub assign_for_lem :
    (quote : Str → Str) (now session : ℕ) (identity : Str) (hub : CtrlHub) (r : RegisterStreamReq)
    → (assign_for quote now session identity hub r ≡ (hub, err (refusal quote r.client_proxy_name)))
      ⊎ (MayUse identity r.client_proxy_name
          × (assign_for quote now session identity hub r ≡ (
            record hub { streams = (StreamTable.assign hub.streams now session r).0 },
            (StreamTable.assign hub.streams now session r).1,
          )))
unfolding assign_for
assign_for_lem quote now session identity hub r =
    elim (Bool-cases (not_allowed identity r.client_proxy_name)) [
      | inl t ↦ inl (rw t refl)
      | inr t ↦ inr (not_allowed-MayUse identity r.client_proxy_name t, rw t refl)
    ]

-- The first entry of the list with the two names has the address.
abbrev pub HasAddr : Str → Str → Str → List ClientProxy → Type 0
HasAddr name stream target [] = ⊥
HasAddr name stream target (cp ∷ cps) =
    ((cp.client_proxy_name ≡ name) × (cp.stream_id ≡ stream) × (cp.addr ≡ target))
    ⊎ (((cp.client_proxy_name ≢ name) ⊎ (cp.stream_id ≢ stream)) × HasAddr name stream target cps)

different : (a b : Str) → str_beq a b ≡ false → a ≢ b
different a b e same = ground (arith, e, same, str_beq_iff a b)

target_of-HasAddr :
    (name stream target : Str) (cps : List ClientProxy)
    → target_of name stream cps ≡ target
    → is_empty target ≡ false
    → HasAddr name stream target cps
unfolding target_of
target_of-HasAddr name stream target [] h v =
    absurd (ground (arith, subst (λ a. is_empty a ≡ false) (sym h) v))
target_of-HasAddr name stream target (cp ∷ cps) h v =
    elim (Bool-cases (str_beq cp.client_proxy_name name)) [
      | inr e ↦
          let later : target_of name stream cps ≡ target = ground (arith, e, h) in
          inr (
            inl (different cp.client_proxy_name name e),
            target_of-HasAddr name stream target cps later v,
          )
      | inl e ↦ elim (Bool-cases (str_beq cp.stream_id stream)) [
        | inr f ↦
            let later : target_of name stream cps ≡ target = ground (arith, e, f, h) in
            inr (
              inr (different cp.stream_id stream f),
              target_of-HasAddr name stream target cps later v,
            )
        | inl f ↦ inl (
          (str_beq_iff cp.client_proxy_name name).0 e,
          (str_beq_iff cp.stream_id stream).0 f,
          ground (arith, e, f, h),
        )
      ]
    ]

-- A connection that a client asks for is dialled only when its identity may use the name, the stream
-- is registered, and the first entry of the settings with just the two names that the client gave has
-- an address, which is the one dialled.
pub conn_target_lem :
    (quote : Str → Str) (s : Serving) (identity : Str) (r : ClientConnReq) (target : Str)
    → conn_target quote s identity r ≡ ok target
    → MayUse identity r.client_proxy_name
      × ((e : StreamTable.StreamEntry) × (get_by_name s.hub.streams r.client_proxy_name r.stream_id
            ≡ some e))
      × HasAddr r.client_proxy_name r.stream_id target s.settings.client_proxy
      × (is_empty target ≡ false)
unfolding conn_target
conn_target_lem quote s identity r target h =
    let there = target_of r.client_proxy_name r.stream_id s.settings.client_proxy in
    elim (Bool-cases (not_allowed identity r.client_proxy_name)) [
      | inl t ↦ absurd (ground (arith, h, t))
      | inr t ↦ elim (Option-cases (get_by_name s.hub.streams r.client_proxy_name r.stream_id)) [
        | inl p ↦ absurd (ground (arith, h, t, p))
        | inr (e, p) ↦ elim (Bool-cases (is_empty there)) [
          | inl v ↦ absurd (ground (arith, h, t, p, v))
          | inr v ↦
              let same : there ≡ target = ground (arith, h, t, p, v) in
              (
                not_allowed-MayUse identity r.client_proxy_name t,
                (e, p),
                target_of-HasAddr r.client_proxy_name r.stream_id target s.settings.client_proxy
                    same (sym (ap is_empty same) ∙ v),
                sym (ap is_empty same) ∙ v,
              )
        ]
      ]
    ]
