-- ===== src/StarHandler/CtrlHub/OpenConn.antt =====
-- OpenConn: what a caller gets when the client accepts, refuses or does not answer.
use rain_net.Star.Handshake.{ConnOpenReq, ConnOpenAck}
use rain_net.Common.{
  ℕ, ◌≡◌, refl, ◌≢◌, ◌⊎◌, inl, inr, Bool, true, false, none, some, arith, Bool-cases, Str, nat_eq,
  str_eq,
}
use rain_net.Common.Maps.{lookup, insert, lookup-insert, lookup-erase}
use rain_net.Star.Session.{Json}
use rain_net.Star.Window.{close}
use rain_net.StarHandler.CtrlHub.{
  CtrlHub, ConnEntry, StreamEntry, Opening, opened, failed, waiting, remove_conn, abandon,
  open_conn, await_ack, find_conn, has_conn, close_entry, register_conn, next_conn,
  deliver_conn_ack, fresh_entry,
}
use rain_net.StarHandler.CtrlHub.Invariant.{find_conn-cases}
use rain_net.StarHandler.CtrlHub.History.{remove_conn_gone, update_at_found, remove_conn_keeps}

abbrev answer : ℕ → Bool → Str → ConnOpenAck
answer conn_id accepted message = record {
  conn_id = conn_id;
  accepted = accepted;
  message = message;
}

-- The hub after the request of OpenConn was sent and the answer to it arrived.
abbrev pub answered : Json ConnOpenReq → CtrlHub → ℕ → StreamEntry → Bool → Str → CtrlHub
answered json h now entry accepted message =
    deliver_conn_ack (open_conn json true h now entry).0 (answer (next_conn h) accepted message)

pub answered_mail :
    (json : Json ConnOpenReq) (h : CtrlHub) (now : ℕ) (entry : StreamEntry) (accepted : Bool)
    (message : Str)
    → (lookup h.allocated (answered json h now entry accepted message).mail
        ≡ some (answer (next_conn h) accepted message))
      × (lookup (next_conn h) (answered json h now entry accepted message).acks ≡ none)
      × ((answered json h now entry accepted message).conns ≡ (register_conn h now entry).conns)
      × ((answered json h now entry accepted message).heap ≡ (register_conn h now entry).heap)
unfolding open_conn deliver_conn_ack register_conn
answered_mail json h now entry accepted message = ground (
  arith,
  lookup-insert (next_conn h) (next_conn h) h.allocated h.acks,
  lookup-erase (next_conn h) (next_conn h) (insert (next_conn h) h.allocated h.acks),
  lookup-insert h.allocated h.allocated (answer (next_conn h) accepted message) h.mail,
)

registered :
    (h : CtrlHub) (now : ℕ) (entry : StreamEntry)
    → find_conn (register_conn h now entry) (next_conn h)
      ≡ some (h.allocated, fresh_entry (next_conn h) now entry)
unfolding find_conn register_conn
registered h now entry = ground (
  arith,
  lookup-insert (next_conn h) (next_conn h) h.allocated h.conns,
  lookup-insert h.allocated h.allocated (fresh_entry (next_conn h) now entry) h.heap,
)

remove_conn_others :
    (h : CtrlHub) (id j : ℕ) → j ≢ id → lookup j (remove_conn h id).conns ≡ lookup j h.conns
unfolding remove_conn
remove_conn_others h id j other = elim (find_conn-cases h id) [
  | inl f ↦ rw (f, remove_conn) (ground (arith, lookup-erase id j h.conns))
  | inr (r, d, f, q, at) ↦ rw (f, remove_conn) (ground (arith, lookup-erase id j h.conns))
]

-- Abandoning takes the number off the map, closes the entry, and leaves other numbers alone.
abandon_lem :
    (h : CtrlHub) (ref : ℕ) (e : ConnEntry)
    → lookup ref h.heap ≡ some e
    → (lookup e.conn_id (abandon h e.conn_id ref).conns ≡ none)
      × ((j : ℕ) → j ≢ e.conn_id → lookup j (abandon h e.conn_id ref).conns ≡ lookup j h.conns)
      × ((e' : ConnEntry) × (lookup ref (abandon h e.conn_id ref).heap ≡ some e')
          × (e'.done ≡ true)
          × (e'.send_win.closed ≡ true))
unfolding abandon remove_conn close_entry close
abandon_lem h ref e p =
    let (e', at, same) = remove_conn_keeps h e.conn_id ref e p in
    (
      remove_conn_gone h e.conn_id,
      λ j other. remove_conn_others h e.conn_id j other,
      (
        close_entry e',
        rw (update_at_found ref close_entry (remove_conn h e.conn_id).heap e' at)
            (ground (arith, lookup-insert ref ref (close_entry e') (remove_conn h e.conn_id).heap)),
        refl,
        refl,
      ),
    )

-- What a call of OpenConn that fails leaves: no connection of its number, its entry closed, and
-- every other number as it was.
abbrev pub GaveUp : CtrlHub → ℕ → ConnEntry → CtrlHub × Opening → Type 0
GaveUp h ref e r =
    (r.1 ≡ failed)
    × (has_conn r.0 e.conn_id ≡ false)
    × ((j : ℕ) → j ≢ e.conn_id → lookup j r.0.conns ≡ lookup j h.conns)
    × ((e' : ConnEntry) × (lookup ref r.0.heap ≡ some e')
        × (e'.done ≡ true)
        × (e'.send_win.closed ≡ true))

abandon-GaveUp :
    (h : CtrlHub) (ref : ℕ) (e : ConnEntry)
    → lookup ref h.heap ≡ some e
    → GaveUp h ref e (abandon h e.conn_id ref, failed)
unfolding has_conn
abandon-GaveUp h ref e p =
    let (gone, others, shut) = abandon_lem h ref e p in
    (refl, rw (gone, has_conn) refl, others, shut)

-- A caller that waits for the answer with its entry e gives up when the ten seconds are over or the
-- answer is a refusal; it is given e, and the hub unchanged, when the answer accepts.
pub await_ack_lem :
    (h : CtrlHub) (ref : ℕ) (e : ConnEntry)
    → lookup ref h.heap ≡ some e
    → GaveUp h ref e (await_ack h e.conn_id ref true)
      × ((ack : ConnOpenAck)
          → lookup ref h.mail ≡ some ack
          → ((ack.accepted ≡ true) × (await_ack h e.conn_id ref false ≡ (h, opened ref)))
            ⊎ ((ack.accepted ≡ false) × GaveUp h ref e (await_ack h e.conn_id ref false)))
unfolding await_ack
await_ack_lem h ref e p = (
  abandon-GaveUp h ref e p,
  λ ack q. elim (Bool-cases ack.accepted) [
    | inl t ↦ inl (t, rw (q, await_ack) (rw t refl))
    | inr t ↦ inr (t, rw (q, await_ack) (rw t (abandon-GaveUp h ref e p)))
  ],
)

-- A request that is sent and accepted by the client gives the caller the entry that was made for
-- it, which is the one its number leads to, and its channel is out of the map of acks.
pub open-await :
    (json : Json ConnOpenReq) (h : CtrlHub) (now : ℕ) (entry : StreamEntry) (message : Str)
    → ((open_conn json true h now entry).1 ≡ waiting (next_conn h) h.allocated)
      × ((await_ack (answered json h now entry true message) (next_conn h) h.allocated false).1
          ≡ opened h.allocated)
      × (find_conn (answered json h now entry true message) (next_conn h)
          ≡ some (h.allocated, fresh_entry (next_conn h) now entry))
      × (lookup (next_conn h) (answered json h now entry true message).acks ≡ none)
unfolding open_conn await_ack find_conn
open-await json h now entry message =
    let (mail, acks, conns, heap) = answered_mail json h now entry true message in
    (refl, rw (mail, await_ack) refl, rw (conns, heap) (registered h now entry), acks)

abandon-acks : (h : CtrlHub) (id ref : ℕ) → (abandon h id ref).acks ≡ h.acks
unfolding abandon remove_conn
abandon-acks h id ref = elim (find_conn-cases h id) [
  | inl f ↦ rw (f, remove_conn) refl
  | inr (r, d, f, q, at) ↦ rw (f, remove_conn) refl
]

-- When the ten seconds are over, or the request cannot be sent, the channel of the call stays in
-- the map of acks under its number.
pub gave_up_keeps_ack :
    (json : Json ConnOpenReq) (h : CtrlHub) (now : ℕ) (entry : StreamEntry)
    → (lookup (next_conn h) (open_conn json false h now entry).0.acks ≡ some h.allocated)
      × (lookup
            (next_conn h)
            (await_ack (open_conn json true h now entry).0 (next_conn h) h.allocated true).0.acks
          ≡ some h.allocated)
unfolding open_conn await_ack register_conn
gave_up_keeps_ack json h now entry =
    let put = lookup-insert (next_conn h) (next_conn h) h.allocated h.acks in
    (
      rw (abandon-acks (register_conn h now entry) (next_conn h) h.allocated) (ground (arith, put)),
      rw (abandon-acks (open_conn json true h now entry).0 (next_conn h) h.allocated)
          (ground (arith, put)),
    )
