-- ===== src/StarHandler/StreamTable/Disconnect.antt =====
-- RemoveByClient: what a session that ends leaves of the table.
use rain_net.Common.{
  ℕ, ◌+◌, ◌≡◌, refl, subst, ◌∙◌, inl, inr, Option, none, some, List, [], ◌∷◌, arith, nat_beq,
  if◌then◌else◌, nat_beq_iff, Bool-cases, Option-cases, nat_eq, str_eq,
}
use rain_net.Common.Maps.{
  Map, lookup, lookup-erase, Absent, Distinct, Held, Distinct-Held, erase-Held,
}
use rain_net.StarHandler.StreamTable.{
  StreamEntry, StreamTable, get, remove_each, remove_by_client, drop_entry,
}
use rain_net.StarHandler.StreamTable.Invariant.{IsConsistent, drop_entry-IsConsistent}

abbrev Items : Type 0
Items = List (ℕ × StreamEntry)

-- An entry of another session.
abbrev pub others : ℕ → Option StreamEntry → Option StreamEntry
others client none = none
others client (some e) = if nat_beq e.client client then none else some e

-- How many of the entries are of the session.
unfoldable pub count_client : ℕ → Map ℕ StreamEntry → ℕ
count_client client [] = 0
count_client client ((id, e) ∷ m) =
    (if nat_beq e.client client then 1 else 0) + count_client client m

remove_each-IsConsistent :
    (client n : ℕ) (items : Items) (t : StreamTable)
    → IsConsistent t
    → Distinct items
    → Held t.by_id items
    → IsConsistent (remove_each client items (t, n)).0
unfolding remove_each
remove_each-IsConsistent client n [] t c d h = c
remove_each-IsConsistent client n ((id, e) ∷ items) t c d h =
    elim (Bool-cases (nat_beq e.client client)) [
      | inr other ↦ rw (other, remove_each) (remove_each-IsConsistent client n items t c d.1 h.1)
      | inl own ↦
          rw (own, remove_each)
            (remove_each-IsConsistent client (n + 1) items (drop_entry t id e)
              (drop_entry-IsConsistent t id e c h.0) d.1 (erase-Held id t.by_id items d.0 h.1))
    ]

-- A number that the loop does not come to keeps its entry.
remove_each-Absent :
    (client n j : ℕ) (items : Items) (t : StreamTable)
    → Absent j items
    → lookup j (remove_each client items (t, n)).0.by_id ≡ lookup j t.by_id
unfolding remove_each
remove_each-Absent client n j [] t a = refl
remove_each-Absent client n j ((id, e) ∷ items) t a = elim (Bool-cases (nat_beq e.client client)) [
  | inr other ↦ rw (other, remove_each) (remove_each-Absent client n j items t a.1)
  | inl own ↦
      rw (own, remove_each)
        (remove_each-Absent client (n + 1) j items (drop_entry t id e) a.1
          ∙ ground (arith, lookup-erase id j t.by_id, a.0))
]

remove_each-Held :
    (client n j : ℕ) (items : Items) (t : StreamTable) (x : StreamEntry)
    → Distinct items
    → Held t.by_id items
    → lookup j items ≡ some x
    → lookup j (remove_each client items (t, n)).0.by_id ≡ others client (some x)
unfolding remove_each lookup
remove_each-Held client n j [] t x d h l = cc
remove_each-Held client n j ((id, e) ∷ items) t x d h l = elim (Bool-cases (nat_beq id j)) [
  | inl here ↦
      let a : Absent j items = subst (λ k. Absent k items) ((nat_beq_iff id j).0 here) d.0 in
      ground (
        arith,
        remove_each-Absent client n j items t a,
        remove_each-Absent client (n + 1) j items (drop_entry t id e) a,
        lookup-erase id j t.by_id,
      )
  | inr there ↦
      let l' : lookup j items ≡ some x = rw (there, lookup) at l in
      let h' = erase-Held id t.by_id items d.0 h.1 in
      ground (
        arith,
        remove_each-Held client n j items t x d.1 h.1 l',
        remove_each-Held client (n + 1) j items (drop_entry t id e) x d.1 h' l',
      )
]

remove_each-count :
    (client n : ℕ) (items : Items) (t : StreamTable)
    → (remove_each client items (t, n)).1 ≡ n + count_client client items
unfolding remove_each count_client
remove_each-count client n [] t = omega arith
remove_each-count client n ((id, e) ∷ items) t = ground (
  arith,
  remove_each-count client n items t,
  remove_each-count client (n + 1) items (drop_entry t id e),
)

remove_each_missing :
    (client n j : ℕ) (items : Items) (t : StreamTable)
    → lookup j t.by_id ≡ none
    → lookup j (remove_each client items (t, n)).0.by_id ≡ none
unfolding remove_each
remove_each_missing client n j [] t h = h
remove_each_missing client n j ((id, e) ∷ items) t h = ground (
  arith,
  remove_each_missing client n j items t h,
  remove_each_missing client (n + 1) j items (drop_entry t id e),
  lookup-erase id j t.by_id,
)

-- When a session ends the table stays consistent, exactly the streams of that session are gone, and
-- the result is how many they were.
pub remove_by_client_lem :
    (t : StreamTable) (client j : ℕ)
    → IsConsistent t
    → IsConsistent (remove_by_client t client).0
      × (get (remove_by_client t client).0 j ≡ others client (get t j))
      × ((remove_by_client t client).1 ≡ count_client client t.by_id)
unfolding remove_by_client get
remove_by_client_lem t client j c =
    let h = Distinct-Held t.by_id c.distinct in
    (
      remove_each-IsConsistent client 0 t.by_id t c c.distinct h,
      (elim (Option-cases (lookup j t.by_id)) [
        | inl e ↦ rw e (remove_each_missing client 0 j t.by_id t e)
        | inr (x, e) ↦ rw e (remove_each-Held client 0 j t.by_id t x c.distinct h e)
      ]),
      remove_each-count client 0 t.by_id t ∙ omega arith,
    )
