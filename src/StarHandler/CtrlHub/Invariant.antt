-- ===== src/StarHandler/CtrlHub/Invariant.antt =====
-- Every connection number of the hub leads to its own open entry.
use rain_net.Star.Handshake.{ConnOpenAck}
use rain_net.Common.{
  ℕ, ◌<◌, ◌≡◌, false, Option, none, some, arith, nat_eq, str_eq, ◌+◌, ◌-◌, refl, subst, ◌⊎◌, inl,
  inr, Bool, ltb, Bool-cases, Option-cases, Bytes,
}
use rain_net.Common.Maps.{lookup, insert, erase, lookup-insert, lookup-erase}
use rain_net.Star.Window.{new_window, release}
use rain_net.StarHandler.CtrlHub.{
  fresh_entry, next_conn, StreamEntry, mark_remote_closed, update_batch, close_entry, downlink,
  window_release, release_recv, deliver_conn_ack, remove_conn, find_conn, enqueue, register_conn,
  client_closed, close_conn, CtrlHub, ConnEntry, new_ctrl_hub,
}

-- An entry under the number `id` that can still be used.
abbrev pub IsOpen : ℕ → Option ConnEntry → Type 0
IsOpen id none = ⊥
IsOpen id (some e) = (e.conn_id ≡ id) × (e.done ≡ false) × (e.send_win.closed ≡ false)

-- A place in memory that has been given out.
abbrev pub IsPlace : ℕ → ℕ → Option ConnEntry → Type 0
IsPlace allocated ref none = Unit {0}
IsPlace allocated ref (some e) = ref < allocated

pub record IsLinked (h : CtrlHub) : Type 0 where
  pub open_lem : (id ref : ℕ) → lookup id h.conns ≡ some ref → IsOpen id (lookup ref h.heap)
  pub place_lem : (ref : ℕ) → IsPlace h.allocated ref (lookup ref h.heap)

pub new_ctrl_hub-IsLinked : IsLinked new_ctrl_hub
unfolding new_ctrl_hub lookup
new_ctrl_hub-IsLinked = record { open_lem = λ id ref h. cc; place_lem = λ ref. tt }

module _ (h : CtrlHub) (l : IsLinked h) where
  -- The entry at a place is replaced by one that is as open as it was.
  put-IsLinked :
      (ref : ℕ) (e e' : ConnEntry)
      → lookup ref h.heap ≡ some e
      → e'.conn_id ≡ e.conn_id
      → e'.done ≡ e.done
      → e'.send_win.closed ≡ e.send_win.closed
      → IsLinked (record h { heap = insert ref e' h.heap })
  put-IsLinked ref e e' at same_id same_done same_win = record {
    open_lem = λ id r p. ground (arith, lookup-insert ref r e' h.heap, l.open_lem id r p);
    place_lem = λ r. ground (arith, lookup-insert ref r e' h.heap, l.place_lem r, l.place_lem ref);
  }

  -- A number is taken off the map, and its entry may be closed.
  take_out-IsLinked :
      (id ref : ℕ) (e e' : ConnEntry)
      → lookup ref h.heap ≡ some e
      → e.conn_id ≡ id
      → IsLinked (record h { conns = erase id h.conns; heap = insert ref e' h.heap })
  take_out-IsLinked id ref e e' at same_id = record {
    open_lem = λ j r p.
        ground (arith, lookup-erase id j h.conns, lookup-insert ref r e' h.heap, l.open_lem j r);
    place_lem = λ r. ground (arith, lookup-insert ref r e' h.heap, l.place_lem r, l.place_lem ref);
  }

  -- An entry that no number leads to may be changed in any way.
  pub put_unlinked-IsLinked :
      (ref : ℕ) (e e' : ConnEntry)
      → lookup ref h.heap ≡ some e
      → lookup e.conn_id h.conns ≡ none
      → IsLinked (record h { heap = insert ref e' h.heap })
  put_unlinked-IsLinked ref e e' at gone = record {
    open_lem = λ j r p. ground (arith, lookup-insert ref r e' h.heap, l.open_lem j r p);
    place_lem = λ r. ground (arith, lookup-insert ref r e' h.heap, l.place_lem r, l.place_lem ref);
  }

  erase-IsLinked : (id : ℕ) → IsLinked (record h { conns = erase id h.conns })
  erase-IsLinked id = record {
    open_lem = λ j r p. l.open_lem j r (ground (arith, lookup-erase id j h.conns));
    place_lem = l.place_lem;
  }

  free_place : lookup h.allocated h.heap ≡ none
  free_place = ground (arith, l.place_lem h.allocated)

  pub register_conn-IsLinked :
      (now : ℕ) (entry : StreamEntry) → IsLinked (register_conn h now entry)
  unfolding register_conn new_window
  register_conn-IsLinked now entry = record {
    open_lem = λ j r p. ground (
      arith,
      free_place,
      lookup-insert (next_conn h) j h.allocated h.conns,
      lookup-insert h.allocated r (fresh_entry (next_conn h) now entry) h.heap,
      l.open_lem j r,
    );
    place_lem = λ r. ground (
      arith,
      lookup-insert h.allocated r (fresh_entry (next_conn h) now entry) h.heap,
      l.place_lem r,
    );
  }

-- What `h.conns[connID]` found.
pub find_conn-cases :
    (h : CtrlHub) (id : ℕ)
    → (find_conn h id ≡ none)
      ⊎ ((ref : ℕ) × (e : ConnEntry) × (find_conn h id ≡ some (ref, e))
          × (lookup id h.conns ≡ some ref)
          × (lookup ref h.heap ≡ some e))
unfolding find_conn
find_conn-cases h id = elim (Option-cases (lookup id h.conns)) [
  | inl p ↦ inl (rw (p, find_conn) refl)
  | inr (ref, p) ↦ elim (Option-cases (lookup ref h.heap)) [
    | inl q ↦ inl (ground arith)
    | inr (e, q) ↦ inr (ref, e, ground arith, p, q)
  ]
]

module _ (h : CtrlHub) (l : IsLinked h) where
  pub found-IsOpen :
      (id ref : ℕ) (e : ConnEntry)
      → lookup id h.conns ≡ some ref
      → lookup ref h.heap ≡ some e
      → IsOpen id (some e)
  found-IsOpen id ref e p q = subst (IsOpen id) q (l.open_lem id ref p)

  pub remove_conn-IsLinked : (id : ℕ) → IsLinked (remove_conn h id)
  unfolding remove_conn
  remove_conn-IsLinked id = elim (find_conn-cases h id) [
    | inl e ↦ rw (e, remove_conn) (erase-IsLinked h l id)
    | inr (ref, e, f, p, q) ↦
        rw (f, remove_conn)
          (take_out-IsLinked h l id ref e (close_entry e) q (found-IsOpen id ref e p q).0)
  ]

  pub client_closed-IsLinked : (id : ℕ) → IsLinked (client_closed h id).0
  unfolding client_closed
  client_closed-IsLinked id = elim (find_conn-cases h id) [
    | inl e ↦ rw (e, client_closed) (erase-IsLinked h l id)
    | inr (ref, e, f, p, q) ↦
        rw (f, client_closed)
          (take_out-IsLinked h l id ref e (mark_remote_closed e) q (found-IsOpen id ref e p q).0)
  ]

  pub window_release-IsLinked : (id delta : ℕ) → IsLinked (window_release h id delta)
  unfolding window_release release
  window_release-IsLinked id delta = elim (find_conn-cases h id) [
    | inl e ↦ rw (e, window_release) l
    | inr (ref, e, f, p, q) ↦ rw (f, window_release) (put-IsLinked h l ref e _ q refl refl refl)
  ]

  pub deliver_conn_ack-IsLinked : (ack : ConnOpenAck) → IsLinked (deliver_conn_ack h ack)
  unfolding deliver_conn_ack
  deliver_conn_ack-IsLinked ack = elim (Option-cases (lookup ack.conn_id h.acks)) [
    | inl e ↦ rw (e, deliver_conn_ack) l
    | inr (ref, e) ↦
        rw (e, deliver_conn_ack) (record { open_lem = l.open_lem; place_lem = l.place_lem })
  ]

enqueue_keeps :
    (pick : Bool) (e : ConnEntry) (payload : Bytes)
    → ((enqueue pick e payload).0.conn_id ≡ e.conn_id)
      × ((enqueue pick e payload).0.done ≡ e.done)
      × ((enqueue pick e payload).0.send_win.closed ≡ e.send_win.closed)
unfolding enqueue
enqueue_keeps pick e payload = ground arith

module _ (h : CtrlHub) (l : IsLinked h) where
  pub downlink-IsLinked :
      (pick : Bool) (id : ℕ) (payload : Bytes) → IsLinked (downlink pick h id payload).0
  unfolding downlink
  downlink-IsLinked pick id payload = elim (find_conn-cases h id) [
    | inl e ↦ rw (e, downlink) l
    | inr (ref, e, f, p, q) ↦
        let k = enqueue_keeps pick e payload in
        let s = put-IsLinked h l ref e (enqueue pick e payload).0 q k.0 k.1 k.2 in
        rw (f, downlink) (record { open_lem = s.open_lem; place_lem = s.place_lem })
  ]

  pub close_conn-IsLinked : (id : ℕ) (notify : Bool) → IsLinked (close_conn h id notify).0
  unfolding close_conn
  close_conn-IsLinked id notify = elim (find_conn-cases h id) [
    | inl e ↦ rw (e, close_conn) (erase-IsLinked h l id)
    | inr (ref, e, f, p, q) ↦
        let s = remove_conn-IsLinked h l id in
        rw (f, close_conn)
          (elim (Bool-cases notify) [
            | inl t ↦ rw t (record { open_lem = s.open_lem; place_lem = s.place_lem })
            | inr t ↦ rw t s
          ])
  ]

  pub release_recv-IsLinked : (ref n : ℕ) → IsLinked (release_recv h ref n)
  unfolding release_recv
  release_recv-IsLinked ref n = elim (Option-cases (lookup ref h.heap)) [
    | inl e ↦ rw (e, release_recv) l
    | inr (e, q) ↦
        let keep =
          λ (k : ℕ). put-IsLinked h l ref e (record e { recv_pending = k }) q refl refl refl in
        elim (Bool-cases (ltb (e.recv_pending + n) update_batch)) [
          | inl small ↦ rw (q, release_recv) (rw small (keep (e.recv_pending + n)))
          | inr full ↦
              let s = keep (e.recv_pending + n - update_batch) in
              rw (q, release_recv)
                (rw full (record { open_lem = s.open_lem; place_lem = s.place_lem }))
        ]
  ]
