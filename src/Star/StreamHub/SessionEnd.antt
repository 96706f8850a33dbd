-- ===== src/Star/StreamHub/SessionEnd.antt =====
-- When the session ends nobody goes on waiting for its connections.
use rain_net.Common.{
  ℕ, ◌≡◌, refl, sym, subst, ◌∙◌, ◌≢◌, inl, inr, Bool, true, false, Option, none, some, List, [],
  ◌∷◌, arith, nat_beq, nat_beq_iff, Bool-cases, Option-cases, All, nat_eq, str_eq,
}
use rain_net.Common.Maps.{Map, lookup, insert, lookup-insert}
use rain_net.Star.Handshake.{ConnOpenAck}
use rain_net.Star.StreamHub.{
  StreamConn, StreamHub, ReadResult, got, ended, waits, read, mark_closed, end_of_stream, Reason,
  get, new_conn, is_closed,
}
use rain_net.Star.StreamHub.Feed.{
  close_all, session_closed, open_stream, failed, await_stream, answer_all, session_over,
}
use rain_net.Star.StreamHub.Reading.{text, read_law, ReadLaw}

-- The connection at a place differs from `sc` at most in that it may have been closed.
abbrev pub Kept : StreamConn → Map ℕ StreamConn → ℕ → Type 0
Kept sc heap ref = (why : Option Reason) × (lookup ref heap ≡ some (record sc { closed = why }))

abbrev pub Shut : StreamConn → Map ℕ StreamConn → ℕ → Type 0
Shut sc heap ref = (why : Reason) × (lookup ref heap ≡ some (record sc { closed = some why }))

abbrev close_one : ℕ → Map ℕ StreamConn → Map ℕ StreamConn
close_one ref heap = elim (lookup ref heap) [
  | none ↦ heap
  | some sc ↦ insert ref (mark_closed end_of_stream sc) heap
]

mark_closed_lem :
    (sc : StreamConn)
    → (why : Reason) × (mark_closed end_of_stream sc ≡ record sc { closed = some why })
unfolding mark_closed
mark_closed_lem sc = elim (Option-cases sc.closed) [
  | inl e ↦ (end_of_stream, rw e refl)
  | inr (w, e) ↦ (w, rw e refl)
]

close_one-others :
    (heap : Map ℕ StreamConn) (r ref : ℕ)
    → nat_beq r ref ≡ false
    → lookup ref (close_one r heap) ≡ lookup ref heap
close_one-others heap r ref t = elim (Option-cases (lookup r heap)) [
  | inl q ↦ rw (q, close_one) refl
  | inr (d, q) ↦
      rw (q, close_one) (ground (arith, t, lookup-insert r ref (mark_closed end_of_stream d) heap))
]

close_one-own :
    (sc : StreamConn) (heap : Map ℕ StreamConn) (ref : ℕ)
    → Kept sc heap ref
    → Shut sc (close_one ref heap) ref
close_one-own sc heap ref (why, p) =
    let d = record sc { closed = why } in
    let (w, e) = mark_closed_lem d in
    (
      w,
      rw (p, close_one)
          (ground (arith, lookup-insert ref ref (mark_closed end_of_stream d) heap, e)),
    )

Shut-Kept :
    (sc : StreamConn) (heap : Map ℕ StreamConn) (ref : ℕ) → Shut sc heap ref → Kept sc heap ref
Shut-Kept sc heap ref (why, p) = (some why, p)

close_one-Kept :
    (sc : StreamConn) (heap : Map ℕ StreamConn) (r ref : ℕ)
    → Kept sc heap ref
    → Kept sc (close_one r heap) ref
close_one-Kept sc heap r ref k = elim (Bool-cases (nat_beq r ref)) [
  | inl t ↦
      subst (λ x. Kept sc (close_one x heap) ref) (sym ((nat_beq_iff r ref).0 t))
        (Shut-Kept sc (close_one ref heap) ref (close_one-own sc heap ref k))
  | inr t ↦ (k.0, close_one-others heap r ref t ∙ k.1)
]

close_one-Shut :
    (sc : StreamConn) (heap : Map ℕ StreamConn) (r ref : ℕ)
    → Shut sc heap ref
    → Shut sc (close_one r heap) ref
close_one-Shut sc heap r ref k = elim (Bool-cases (nat_beq r ref)) [
  | inl t ↦
      subst (λ x. Shut sc (close_one x heap) ref) (sym ((nat_beq_iff r ref).0 t))
        (close_one-own sc heap ref (Shut-Kept sc heap ref k))
  | inr t ↦ (k.0, close_one-others heap r ref t ∙ k.1)
]

close_all-Shut :
    (sc : StreamConn) (items : List (ℕ × ℕ)) (heap : Map ℕ StreamConn) (ref : ℕ)
    → Shut sc heap ref
    → Shut sc (close_all items heap) ref
unfolding close_all
close_all-Shut sc [] heap ref k = k
close_all-Shut sc ((id, r) ∷ items) heap ref k =
    close_all-Shut sc items (close_one r heap) ref (close_one-Shut sc heap r ref k)

close_all-own :
    (sc : StreamConn) (items : List (ℕ × ℕ)) (heap : Map ℕ StreamConn) (id ref : ℕ)
    → lookup id items ≡ some ref
    → Kept sc heap ref
    → Shut sc (close_all items heap) ref
unfolding close_all lookup
close_all-own sc [] heap id ref p k = absurd (cc)
close_all-own sc ((j, r) ∷ items) heap id ref p k = elim (Bool-cases (nat_beq j id)) [
  | inl t ↦
      let same : r ≡ ref = ground (arith, p, t) in
      close_all-Shut sc items (close_one r heap) ref
        (subst (λ x. Shut sc (close_one x heap) ref) (sym same) (close_one-own sc heap ref k))
  | inr t ↦
      close_all-own sc items (close_one r heap) id ref (ground (arith, p, t))
        (close_one-Kept sc heap r ref k)
]

-- What any number of Reads return, one after the other.
abbrev pub read_all : List ℕ → StreamConn → List ReadResult
read_all [] sc = []
read_all (n ∷ ns) sc = (read n sc).1 ∷ read_all ns (read n sc).0

one_read :
    (n : ℕ) (sc : StreamConn) (why : Reason)
    → sc.closed ≡ some why
    → (r : StreamConn × ReadResult) → ReadLaw n sc r
    → (r.1 ≢ waits) × (r.0.closed ≡ some why)
one_read n sc why p (sc', got bs) law = (λ e. cc, law.3 ∙ p)
one_read n sc why p (sc', ended w) law = (λ e. cc, law.3 ∙ p)
one_read n sc why p (sc', waits) law = absurd (ground (arith, p, law.2))

read_all_return :
    (ns : List ℕ) (sc : StreamConn) (why : Reason)
    → sc.closed ≡ some why
    → All (λ r. r ≢ waits) (read_all ns sc)
read_all_return [] sc why p = tt
read_all_return (n ∷ ns) sc why p =
    let (returns, still) = one_read n sc why p (read n sc) (read_law n sc) in
    (returns, read_all_return ns (read n sc).0 why still)

answer_all-answered :
    (items : List (ℕ × ℕ)) (mail : Map ℕ ConnOpenAck) (ref : ℕ)
    → lookup ref mail ≡ some session_over
    → lookup ref (answer_all items mail) ≡ some session_over
unfolding answer_all
answer_all-answered [] mail ref p = p
answer_all-answered ((id, r) ∷ items) mail ref p =
    answer_all-answered items (insert r session_over mail) ref
      (ground (arith, p, lookup-insert r ref session_over mail))

answer_all-own :
    (items : List (ℕ × ℕ)) (mail : Map ℕ ConnOpenAck) (id ref : ℕ)
    → lookup id items ≡ some ref
    → lookup ref (answer_all items mail) ≡ some session_over
unfolding answer_all lookup
answer_all-own [] mail id ref p = absurd (cc)
answer_all-own ((j, r) ∷ items) mail id ref p = elim (Bool-cases (nat_beq j id)) [
  | inl t ↦
      let same : r ≡ ref = ground (arith, p, t) in
      answer_all-answered items (insert r session_over mail) ref
        (ground (arith, same, lookup-insert r ref session_over mail, nat_beq_iff r ref))
  | inr t ↦ answer_all-own items (insert r session_over mail) id ref (ground (arith, p, t))
]

-- The connection `sc` at a place, after the end: closed, with what was delivered to it, and no Read waits.
abbrev pub IsReleased : StreamConn → StreamHub → ℕ → Type 0
IsReleased sc h ref =
    (sc' : StreamConn) × (lookup ref h.heap ≡ some sc')
    × (is_closed sc' ≡ true)
    × (text sc' ≡ text sc)
    × ((ns : List ℕ) → All (λ r. r ≢ waits) (read_all ns sc'))

-- A number of the hub, after the end of its session.
abbrev pub Released : Option (ℕ × StreamConn) → StreamHub → Type 0
Released none h = Unit {0}
Released (some (ref, sc)) h = IsReleased sc h ref

-- A caller that waits with its channel at the place.
abbrev pub Answered : Option ℕ → StreamHub → ℕ → Type 0
Answered none h id = Unit {0}
Answered (some ref) h id = (await_stream h id ref false).1 ≡ failed

released : (h : StreamHub) (id : ℕ) → h.dead ≡ false → Released (get h id) (session_closed h)
unfolding get session_closed
released h id alive = by_place (lookup id h.conns) refl
  where
    by_heap :
        (ref : ℕ)
        → lookup id h.conns ≡ some ref
        → (o : Option StreamConn) → lookup ref h.heap ≡ o
        → Released
            (elim o as (λ x. Option (ℕ × StreamConn)) [ none ↦ none | some sc ↦ some (ref, sc) ])
            (session_closed h)
    by_heap ref at none place = tt
    by_heap ref at (some sc) place =
        let (why, shut) = close_all-own sc h.conns h.heap id ref at (sc.closed, place) in
        let sc' : StreamConn = record sc { closed = some why } in
        (sc', rw alive shut, refl, refl, λ ns. read_all_return ns sc' why refl)

    by_place :
        (o : Option ℕ)
        → lookup id h.conns ≡ o
        → Released
            (elim o as (λ x. Option (ℕ × StreamConn)) [
              | none ↦ none
              | some ref ↦ elim (lookup ref h.heap) as (λ x. Option (ℕ × StreamConn)) [
                | none ↦ none
                | some sc ↦ some (ref, sc)
              ]
            ])
            (session_closed h)
    by_place none at = tt
    by_place (some ref) at = by_heap ref at (lookup ref h.heap) refl

refused_wait :
    (h : StreamHub) (id ref : ℕ)
    → lookup ref h.mail ≡ some session_over
    → (await_stream h id ref false).1 ≡ failed
unfolding await_stream
refused_wait h id ref p = rw (p, await_stream) refl

answered :
    (h : StreamHub) (id : ℕ) → h.dead ≡ false → Answered (lookup id h.acks) (session_closed h) id
unfolding session_closed
answered h id alive = by_channel (lookup id h.acks) refl
  where
    by_channel : (o : Option ℕ) → lookup id h.acks ≡ o → Answered o (session_closed h) id
    by_channel none at = tt
    by_channel (some ref) at =
        refused_wait (session_closed h) id ref (rw alive (answer_all-own h.acks h.mail id ref at))

-- When the session ends each connection of the hub is closed, keeps what was delivered to it, and no Read
-- of it, the first or a later one, waits any more; each caller that waits for an answer is answered that
-- it failed; both maps are empty, and no new stream is opened or taken in.
pub session_closed_lem :
    (h : StreamHub) (id waiting_id : ℕ)
    → h.dead ≡ false
    → Released (get h id) (session_closed h)
      × Answered (lookup waiting_id h.acks) (session_closed h) waiting_id
      × ((session_closed h).conns ≡ [])
      × ((session_closed h).acks ≡ [])
      × ((up : Bool) (stream_id : ℕ) → (open_stream up (session_closed h) stream_id).1.1 ≡ failed)
      × ((conn_id : ℕ) → (new_conn (session_closed h) conn_id).1 ≡ none)
unfolding session_closed open_stream new_conn
session_closed_lem h id waiting_id alive = (
  released h id alive,
  answered h waiting_id alive,
  rw alive refl,
  rw alive refl,
  λ up stream_id. rw alive refl,
  λ conn_id. rw alive refl,
)
