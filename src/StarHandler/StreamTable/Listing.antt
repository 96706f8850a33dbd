-- ===== src/StarHandler/StreamTable/Listing.antt =====
-- FindByClientProxy and GetByName: what the lookups by name return.
use rain_net.Common.{
  ℕ, ◌≤◌, ◌≡◌, refl, sym, ap, subst, ◌∙◌, ◌≢◌, inl, inr, none, some, List, [], ◌∷◌, ◌++◌,
  append_assoc, arith, ltb, if◌then◌else◌, Bool-cases, All, Str, str_beq, str_beq_self, str_beq_iff,
  nat_eq, str_eq, err,
}
use rain_net.Common.Maps.{Map, lookup, lookup-insert}
use rain_net.Star.Handshake.{RegisterStreamReq}
use mathlib.Core.List.{Perm}
use mathlib.Core.List.Perm
use rain_net.StarHandler.StreamTable.{
  StreamEntry, StreamTable, stream_key, get_by_name, find_by_client_proxy, named, values,
  insert_entry, sort_entries, assign, new_entry, enter, entry_key, already_registered,
}
use rain_net.StarHandler.StreamTable.Invariant.{IsConsistent}

-- In the order of their numbers.
abbrev pub IsSorted : List StreamEntry → Type 0
IsSorted [] = Unit {0}
IsSorted (e ∷ es) = All (λ x. e.assign_id ≤ x.assign_id) es × IsSorted es

insert_entry-All :
    (P : StreamEntry → Type 0) (e : StreamEntry) (es : List StreamEntry)
    → P e
    → All P es
    → All P (insert_entry e es)
unfolding insert_entry
insert_entry-All P e [] p h = (p, tt)
insert_entry-All P e (x ∷ xs) p h = elim (Bool-cases (ltb e.assign_id x.assign_id)) [
  | inl before ↦ rw (before, insert_entry) (p, h)
  | inr after ↦ rw (after, insert_entry) (h.0, insert_entry-All P e xs p h.1)
]

All-weaken :
    (n m : ℕ) (es : List StreamEntry)
    → n ≤ m
    → All (λ x. m ≤ x.assign_id) es
    → All (λ x. n ≤ x.assign_id) es
All-weaken n m [] h a = tt
All-weaken n m (e ∷ es) h a = (omega (arith, a.0), All-weaken n m es h a.1)

insert_entry-IsSorted :
    (e : StreamEntry) (es : List StreamEntry) → IsSorted es → IsSorted (insert_entry e es)
unfolding insert_entry
insert_entry-IsSorted e [] s = (tt, tt)
insert_entry-IsSorted e (x ∷ xs) s = elim (Bool-cases (ltb e.assign_id x.assign_id)) [
  | inl before ↦
      let le : e.assign_id ≤ x.assign_id = ground arith in
      rw (before, insert_entry) ((le, All-weaken e.assign_id x.assign_id xs le s.0), s)
  | inr after ↦
      rw (after, insert_entry)
        (
          insert_entry-All (λ y. x.assign_id ≤ y.assign_id) e xs (ground arith) s.0,
          insert_entry-IsSorted e xs s.1,
        )
]

sort_entries-IsSorted : (es : List StreamEntry) → IsSorted (sort_entries es)
unfolding sort_entries
sort_entries-IsSorted [] = tt
sort_entries-IsSorted (e ∷ es) =
    insert_entry-IsSorted e (sort_entries es) (sort_entries-IsSorted es)

insert_entry-perm : (e : StreamEntry) (es : List StreamEntry) → Perm (insert_entry e es) (e ∷ es)
unfolding insert_entry
insert_entry-perm e [] = Perm.refl (e ∷ [])
insert_entry-perm e (x ∷ xs) = elim (Bool-cases (ltb e.assign_id x.assign_id)) [
  | inl before ↦ rw (before, insert_entry) (Perm.refl (e ∷ x ∷ xs))
  | inr after ↦
      rw (after, insert_entry)
        (Perm.trans (Perm.cons x (insert_entry-perm e xs)) (Perm.swap e x xs))
]

sort_entries-perm : (es : List StreamEntry) → Perm (sort_entries es) es
unfolding sort_entries
sort_entries-perm [] = Perm.refl []
sort_entries-perm (e ∷ es) =
    Perm.trans (insert_entry-perm e (sort_entries es)) (Perm.cons e (sort_entries-perm es))

-- The values of the map whose client proxy has the name.
abbrev pub entries_of : Str → Map ℕ StreamEntry → List StreamEntry
entries_of name [] = []
entries_of name ((id, e) ∷ m) =
    if str_beq e.client_proxy_name name then e ∷ entries_of name m else entries_of name m

named-entries_of : (name : Str) (m : Map ℕ StreamEntry) → named name (values m) ≡ entries_of name m
unfolding named
named-entries_of name [] = refl
named-entries_of name ((id, e) ∷ m) =
    ap (λ es. if str_beq e.client_proxy_name name then e ∷ es else es) (named-entries_of name m)

entries_of-All :
    (name : Str) (m : Map ℕ StreamEntry) → All (λ e. e.client_proxy_name ≡ name) (entries_of name m)
entries_of-All name [] = tt
entries_of-All name ((id, e) ∷ m) =
    ground (arith, str_beq_iff e.client_proxy_name name, entries_of-All name m)

sort_entries-All :
    (P : StreamEntry → Type 0) (es : List StreamEntry) → All P es → All P (sort_entries es)
unfolding sort_entries
sort_entries-All P [] h = tt
sort_entries-All P (e ∷ es) h =
    insert_entry-All P e (sort_entries es) h.0 (sort_entries-All P es h.1)

-- FindByClientProxy lists, in the order of their numbers, the values of the map by number whose client
-- proxy has the name: all of them, as often as the map has them, and no others.
pub find_by_client_proxy_lem :
    (t : StreamTable) (name : Str)
    → IsSorted (find_by_client_proxy t name)
      × Perm (find_by_client_proxy t name) (entries_of name t.by_id)
      × All (λ e. e.client_proxy_name ≡ name) (find_by_client_proxy t name)
unfolding find_by_client_proxy
find_by_client_proxy_lem t name =
    let es = named name (values t.by_id) in
    let same : es ≡ entries_of name t.by_id = named-entries_of name t.by_id in
    (
      sort_entries-IsSorted es,
      subst (λ xs. Perm (sort_entries es) xs) same (sort_entries-perm es),
      sort_entries-All (λ e. e.client_proxy_name ≡ name) es
          (subst (All (λ e. e.client_proxy_name ≡ name)) (sym same) (entries_of-All name t.by_id)),
    )

abbrev pub NoSlash : Str → Type 0
NoSlash = All (λ c. c ≢ b'/')

stream_key-injective :
    (n m s u : Str) → NoSlash n → NoSlash m → stream_key n s ≡ stream_key m u → (n ≡ m) × (s ≡ u)
stream_key-injective [] [] s u hn hm h = (refl, cc)
stream_key-injective [] (y ∷ ys) s u hn hm h = absurd (hm.0 (cc))
stream_key-injective (x ∷ xs) [] s u hn hm h = absurd (hn.0 (cc))
stream_key-injective (x ∷ xs) (y ∷ ys) s u hn hm h =
    let rest = stream_key-injective xs ys s u hn.1 hm.1 (cc) in (cc rest.0, rest.1)

-- As long as no client proxy's name has a slash, GetByName of a consistent table finds an entry with
-- just the two names that it was asked for.
pub get_by_name_sound :
    (t : StreamTable) (name stream : Str) (e : StreamEntry)
    → IsConsistent t
    → NoSlash name
    → NoSlash e.client_proxy_name
    → get_by_name t name stream ≡ some e
    → (e.client_proxy_name ≡ name) × (e.stream_id ≡ stream)
unfolding get_by_name
get_by_name_sound t name stream e c hn he h =
    stream_key-injective e.client_proxy_name name e.stream_id stream he hn
      (c.by_key_lem (stream_key name stream) e h).0

stream_key_shift : (n p s : Str) → stream_key (n ++ (b'/' ∷ p)) s ≡ stream_key n (p ++ (b'/' ∷ s))
stream_key_shift n p s = append_assoc n (b'/' ∷ p) (b'/' ∷ s)

abbrev pub pair : Str → Str → RegisterStreamReq
pair name stream = record { client_proxy_name = name; stream_id = stream }

-- With a slash in a name two different pairs are one to the table. When a client registers the stream "s"
-- of "n/p", which was free, GetByName of "n" and "p/s" finds that stream, and whoever then registers
-- "p/s" of "n" is refused as if it were registered.
pub get_by_name_ambiguous :
    (t : StreamTable) (n p s : Str) (now client later other : ℕ)
    → get_by_name t (n ++ (b'/' ∷ p)) s ≡ none
    → (get_by_name (assign t now client (pair (n ++ (b'/' ∷ p)) s)).0 n (p ++ (b'/' ∷ s))
        ≡ some (new_entry t now client (pair (n ++ (b'/' ∷ p)) s)))
      × ((assign
            (assign t now client (pair (n ++ (b'/' ∷ p)) s)).0
            later
            other
            (pair n (p ++ (b'/' ∷ s)))).1
          ≡ err (already_registered (stream_key n (p ++ (b'/' ∷ s)))))
unfolding get_by_name assign
get_by_name_ambiguous t n p s now client later other free =
    let e = new_entry t now client (pair (n ++ (b'/' ∷ p)) s) in
    let same = stream_key_shift n p s in
    let found : lookup (stream_key n (p ++ (b'/' ∷ s))) (enter t e).by_stream_id ≡ some e =
      ap (λ k. lookup k (enter t e).by_stream_id) (sym same)
      ∙ lookup-insert (entry_key e) (entry_key e) e t.by_stream_id
      ∙ ap (λ b. if b then some e else lookup (entry_key e) t.by_stream_id)
          (str_beq_self (entry_key e)) in
    rw (free, assign) (found, rw (found, assign) refl)
