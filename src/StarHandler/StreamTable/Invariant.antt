-- ===== src/StarHandler/StreamTable/Invariant.antt =====
-- The two maps of a stream table always hold the same entries.
use rain_net.Common.{
  ℕ, ◌+◌, ◌≤◌, ◌<◌, ◌≡◌, none, some, arith, Str, str_beq_iff, ◌^◌, refl, ap, ◌≢◌, ◌⊎◌, inl, inr,
  nat_beq, if◌then◌else◌, Option-cases, str_beq_self, Result, ok, err, nat_eq, str_eq,
}
use rain_net.Common.Maps.{
  Distinct, erase-Distinct, insert-Distinct, lookup, lookup-insert, lookup-erase,
}
use rain_net.Star.Handshake.{RegisterStreamReq}
use rain_net.StarHandler.StreamTable.{
  stream_key, next_id, new_entry, already_registered, get_by_name, remove, get, assign, StreamEntry,
  StreamTable, entry_key, new_stream_table, enter, drop_entry,
}

-- An entry is under its own number and its own key, and numbers are given out in order from 1.
pub record IsConsistent (t : StreamTable) : Type 0 where
  pub by_id_lem :
      (id : ℕ) (e : StreamEntry)
      → lookup id t.by_id ≡ some e
      → (e.assign_id ≡ id)
        × (0 < id)
        × (id ≤ t.seq)
        × (lookup (entry_key e) t.by_stream_id ≡ some e)
  pub by_key_lem :
      (k : Str) (e : StreamEntry)
      → lookup k t.by_stream_id ≡ some e
      → (entry_key e ≡ k) × (lookup e.assign_id t.by_id ≡ some e)
  pub distinct : Distinct t.by_id

pub new_stream_table-IsConsistent : IsConsistent new_stream_table
unfolding new_stream_table lookup
new_stream_table-IsConsistent = record {
  by_id_lem = λ id e h. cc;
  by_key_lem = λ k e h. cc;
  distinct = tt;
}

enter-IsConsistent :
    (t : StreamTable) (e : StreamEntry)
    → IsConsistent t
    → e.assign_id ≡ t.seq + 1
    → lookup (entry_key e) t.by_stream_id ≡ none
    → IsConsistent (enter t e)
enter-IsConsistent t e c next free = record {
  by_id_lem = λ id x h. ground (
    arith,
    lookup-insert e.assign_id id e t.by_id,
    lookup-insert (entry_key e) (entry_key x) e t.by_stream_id,
    str_beq_iff (entry_key e) (entry_key x),
    c.by_id_lem id x,
  );
  by_key_lem = λ k x h. ground (
    arith,
    lookup-insert (entry_key e) k e t.by_stream_id,
    lookup-insert e.assign_id x.assign_id e t.by_id,
    str_beq_iff (entry_key e) k,
    c.by_key_lem k x,
    c.by_id_lem x.assign_id x,
  );
  distinct = insert-Distinct e.assign_id e t.by_id c.distinct;
}

pub drop_entry-IsConsistent :
    (t : StreamTable) (id : ℕ) (e : StreamEntry)
    → IsConsistent t
    → (lookup id t.by_id ≡ some e)
    → IsConsistent (drop_entry t id e)
drop_entry-IsConsistent t id e c h = record {
  by_id_lem = λ j x p. ground (
    arith,
    lookup-erase id j t.by_id,
    lookup-erase (entry_key e) (entry_key x) t.by_stream_id,
    str_beq_iff (entry_key e) (entry_key x),
    c.by_id_lem j x,
    c.by_id_lem id e h,
  );
  by_key_lem = λ k x p. ground (
    arith,
    lookup-erase (entry_key e) k t.by_stream_id,
    lookup-erase id x.assign_id t.by_id,
    str_beq_iff (entry_key e) k,
    c.by_key_lem k x,
    c.by_id_lem id e h,
  );
  distinct = erase-Distinct id t.by_id c.distinct;
}

free_number : (t : StreamTable) → IsConsistent t → lookup (t.seq + 1) t.by_id ≡ none
free_number t c = elim (Option-cases (lookup (t.seq + 1) t.by_id)) [
  | inl e ↦ e
  | inr (x, e) ↦ absurd (omega (arith, c.by_id_lem (t.seq + 1) x e))
]

-- What Assign promises when the pair is taken, and when it is free.
abbrev pub Refused : StreamTable → RegisterStreamReq → StreamTable × Result Str ℕ → Type 0
Refused t req r =
    (r.1 ≡ err (already_registered (stream_key req.client_proxy_name req.stream_id)))
    × (r.0 ≡ t)
    × ((e : StreamEntry) × (get_by_name t req.client_proxy_name req.stream_id ≡ some e))

abbrev pub Registered :
    StreamTable → RegisterStreamReq → StreamEntry → StreamTable × Result Str ℕ → Type 0
Registered t req e r =
    (r.1 ≡ ok (t.seq + 1))
    × (get t (t.seq + 1) ≡ none)
    × (get r.0 (t.seq + 1) ≡ some e)
    × (get_by_name r.0 req.client_proxy_name req.stream_id ≡ some e)
    × ((id : ℕ) → id ≢ t.seq + 1 → get r.0 id ≡ get t id)

enter-Registered :
    (t : StreamTable) (now client : ℕ) (req : RegisterStreamReq)
    → IsConsistent t
    → t.seq + 1 < 2 ^ 32
    → Registered t req
        (new_entry t now client req)
        (enter t (new_entry t now client req), ok (next_id t.seq))
unfolding get get_by_name
enter-Registered t now client req c small =
    let e = new_entry t now client req in
    let next : next_id t.seq ≡ t.seq + 1 = omega arith in
    (
      ap ok next,
      free_number t c,
      ground (arith, lookup-insert (next_id t.seq) (t.seq + 1) e t.by_id),
      ground (
        arith,
        lookup-insert (entry_key e) (entry_key e) e t.by_stream_id,
        str_beq_self (entry_key e),
      ),
      λ id ne. ground (arith, lookup-insert (next_id t.seq) id e t.by_id),
    )

-- While the 32-bit counter has not come to its end, Assign keeps the table consistent. It refuses a
-- pair that is there, and changes nothing; any other pair gets the next number, and is found under
-- its number and under its name, while every other lookup by number is as before.
pub assign_lem :
    (t : StreamTable) (now client : ℕ) (req : RegisterStreamReq)
    → IsConsistent t
    → t.seq + 1 < 2 ^ 32
    → IsConsistent (assign t now client req).0
      × (Refused t req (assign t now client req)
          ⊎ Registered t req (new_entry t now client req) (assign t now client req))
unfolding assign
assign_lem t now client req c small =
    elim (Option-cases (lookup (stream_key req.client_proxy_name req.stream_id) t.by_stream_id)) [
      | inl free ↦
          rw (free, assign)
            (
              enter-IsConsistent t (new_entry t now client req) c (omega arith) free,
              inr (enter-Registered t now client req c small),
            )
      | inr (e, taken) ↦ rw (taken, assign) (c, inl (refl, refl, (e, unfold get_by_name in taken)))
    ]

pub remove-IsConsistent : (t : StreamTable) (id : ℕ) → IsConsistent t → IsConsistent (remove t id)
unfolding remove
remove-IsConsistent t id c = elim (Option-cases (lookup id t.by_id)) [
  | inl e ↦ rw (e, remove) c
  | inr (x, e) ↦ rw (e, remove) (drop_entry-IsConsistent t id x c e)
]

pub get-remove :
    (t : StreamTable) (id j : ℕ) → get (remove t id) j ≡ (if nat_beq id j then none else get t j)
unfolding get remove
get-remove t id j = ground (arith, lookup-erase id j t.by_id, lookup-erase id j t.by_id)

-- Remove keeps the table consistent and forgets exactly the stream of that number.
pub remove_lem :
    (t : StreamTable) (id j : ℕ)
    → IsConsistent t
    → IsConsistent (remove t id) × (get (remove t id) j ≡ (if nat_beq id j then none else get t j))
remove_lem t id j c = (remove-IsConsistent t id c, get-remove t id j)
