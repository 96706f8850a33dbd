-- ===== src/StarHandler/CtrlHub/Disconnect.antt =====
-- What is left of the connections of a client whose session ended.
use rain_net.Common.{
  ℕ, ◌≡◌, inl, inr, true, none, some, List, [], ◌∷◌, arith, nat_beq, Bool-cases, Option-cases,
  nat_eq, str_eq,
}
use rain_net.Common.Maps.{lookup, lookup-insert, lookup-erase}
use rain_net.StarHandler.CtrlHub.{
  CtrlHub, ConnEntry, close_conns_by_client, close_each, close_one, carried_by, remove_conn,
  close_entry,
}
use rain_net.StarHandler.CtrlHub.Invariant.{find_conn-cases}
use rain_net.StarHandler.CtrlHub.History.{remove_conn_gone}

-- An entry whose stream is in the table and carried by the session lies at the place.
abbrev pub Carried : CtrlHub → ℕ → ℕ → Type 0
Carried h session ref =
    (e : ConnEntry) × (lookup ref h.heap ≡ some e) × (carried_by h session e ≡ true)

remove_conn-Carried :
    (h : CtrlHub) (session id ref : ℕ)
    → Carried h session ref
    → Carried (remove_conn h id) session ref
unfolding remove_conn close_entry
remove_conn-Carried h session id ref (e, p, c) = elim (find_conn-cases h id) [
  | inl f ↦ (e, rw (f, remove_conn) p, rw (f, remove_conn) c)
  | inr (r, d, f, q, at) ↦ elim (Bool-cases (nat_beq r ref)) [
    | inl t ↦ (
      close_entry d,
      rw (f, remove_conn) (ground (arith, lookup-insert r ref (close_entry d) h.heap)),
      rw (f, remove_conn) (ground (arith, c, p, at)),
    )
    | inr t ↦ (
      e,
      rw (f, remove_conn) (ground (arith, lookup-insert r ref (close_entry d) h.heap)),
      rw (f, remove_conn) c,
    )
  ]
]

remove_conn_absent :
    (h : CtrlHub) (id j : ℕ) → lookup j h.conns ≡ none → lookup j (remove_conn h id).conns ≡ none
unfolding remove_conn
remove_conn_absent h id j p = elim (find_conn-cases h id) [
  | inl f ↦ rw (f, remove_conn) (ground (arith, lookup-erase id j h.conns))
  | inr (r, d, f, q, at) ↦ rw (f, remove_conn) (ground (arith, lookup-erase id j h.conns))
]

-- One round of the loop keeps what is gone gone, keeps what is carried, and takes out its own.
close_one_lem :
    (session id ref : ℕ) (acc : CtrlHub × ℕ)
    → ((j : ℕ)
        → lookup j acc.0.conns ≡ none
        → lookup j (close_one session id ref acc).0.conns ≡ none)
      × ((r : ℕ) → Carried acc.0 session r → Carried (close_one session id ref acc).0 session r)
      × (Carried acc.0 session ref → lookup id (close_one session id ref acc).0.conns ≡ none)
unfolding close_one
close_one_lem session id ref acc = elim (Option-cases (lookup ref acc.0.heap)) [
  | inl p ↦ rw (p, close_one) (λ j q. q, λ r c. c, λ (e, q, c). cc)
  | inr (e, p) ↦
      rw (p, close_one)
        (elim (Bool-cases (carried_by acc.0 session e)) [
          | inl t ↦ rw t (
            λ j q. remove_conn_absent acc.0 id j q,
            λ r c. remove_conn-Carried acc.0 session id r c,
            λ c. remove_conn_gone acc.0 id,
          )
          | inr t ↦ rw t (λ j q. q, λ r c. c, λ (d, q, c). ground (arith, q, p, c, t))
        ])
]

close_each_absent :
    (session : ℕ) (items : List (ℕ × ℕ)) (acc : CtrlHub × ℕ) (j : ℕ)
    → lookup j acc.0.conns ≡ none
    → lookup j (close_each session items acc).0.conns ≡ none
unfolding close_each
close_each_absent session [] acc j p = p
close_each_absent session ((id, ref) ∷ items) acc j p =
    close_each_absent session items _ j ((close_one_lem session id ref acc).0 j p)

close_each_closes :
    (session : ℕ) (items : List (ℕ × ℕ)) (acc : CtrlHub × ℕ) (j r : ℕ)
    → lookup j items ≡ some r
    → Carried acc.0 session r
    → lookup j (close_each session items acc).0.conns ≡ none
unfolding close_each lookup
close_each_closes session [] acc j r p c = cc
close_each_closes session ((id, ref) ∷ items) acc j r p c =
    let (absent, kept, own) = close_one_lem session id ref acc in
    elim (Bool-cases (nat_beq id j)) [
      | inl t ↦ close_each_absent session items _ j (ground (arith, own, c, p, t))
      | inr t ↦ close_each_closes session items _ j r (ground (arith, p, t)) (kept r c)
    ]

-- When the session of a client ends, no connection is left whose stream is still in the table and
-- carried by that session.
pub close_conns_by_client_lem :
    (h : CtrlHub) (session id ref : ℕ) (e : ConnEntry)
    → lookup id h.conns ≡ some ref
    → lookup ref h.heap ≡ some e
    → carried_by h session e ≡ true
    → lookup id (close_conns_by_client h session).0.conns ≡ none
unfolding close_conns_by_client
close_conns_by_client_lem h session id ref e p q c =
    close_each_closes session h.conns (h, 0) id ref p (e, q, c)
