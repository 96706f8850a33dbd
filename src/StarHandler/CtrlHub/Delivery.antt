-- ===== src/StarHandler/CtrlHub/Delivery.antt =====
-- What the hub does with the bytes of a connection, and with a connection that was closed.
use rain_net.Common.{
  ℕ, ◌<◌, ◌≡◌, Bool, false, some, List, [], ◌∷◌, ◌++◌, arith, length, Bytes, nat_eq, str_eq, ◌+◌,
  ◌-◌, ◌*◌, ◌≤◌, refl, sym, ap, ap₂, ◌∙◌, inl, inr, none, append_assoc, append-nil, ltb, Bool-cases,
  length-append, All, err,
}
use rain_net.Common.Maps.{lookup-erase, lookup, lookup-insert}
use rain_net.StarHandler.CtrlHub.Invariant.{find_conn-cases}
use rain_net.StarHandler.CtrlHub.History.{remove_conn_gone}
use rain_net.Star.MsgType
use rain_net.Star.Message.{Message, empty_payload}
use rain_net.Star.Session.{Json, decode_control}
use rain_net.Star.Handshake.{WindowUpdate}
use rain_net.StarHandler.CtrlHub.{
  window_update, update_batch, unknown, client_closed, release_recv, close_conn, has_conn, CtrlHub,
  ConnEntry, Delivered, delivered, downlink, enqueue, find_conn, downlink_queue,
}

-- The payloads of one connection, in the order in which the control session read them.
unfoldable pub downlink_all : Bool → CtrlHub → ℕ → List Bytes → CtrlHub × List Delivered
downlink_all pick h id [] = (h, [])
downlink_all pick h id (p ∷ ps) =
    let (h', r) = downlink pick h id p in let (k, rs) = downlink_all pick h' id ps in (k, r ∷ rs)

-- The number leads to an entry that is not closed.
abbrev Live : CtrlHub → ℕ → ℕ → ConnEntry → Type 0
Live h id ref e = (lookup id h.conns ≡ some ref) × (lookup ref h.heap ≡ some e) × (e.done ≡ false)

abbrev pub with_sink : ConnEntry → List Bytes → ConnEntry
with_sink e sink = record e { sink = sink }

downlink_once :
    (pick : Bool) (h : CtrlHub) (id ref : ℕ) (e : ConnEntry) (p : Bytes)
    → Live h id ref e
    → length e.sink < downlink_queue
    → Live (downlink pick h id p).0 id ref (with_sink e (e.sink ++ (p ∷ [])))
      × ((downlink pick h id p).1 ≡ delivered)
unfolding downlink enqueue find_conn
downlink_once pick h id ref e p l room =
    ground (arith, l, lookup-insert ref ref (with_sink e (e.sink ++ (p ∷ []))) h.heap)

abbrev pub all_delivered : List Bytes → List Delivered
all_delivered [] = []
all_delivered (_ ∷ ps) = delivered ∷ all_delivered ps

-- As long as the queue of an open connection has room for them, payloads are all delivered and
-- stand in the queue in the order in which they came, behind what was there.
pub downlink_in_order :
    (pick : Bool) (h : CtrlHub) (id ref : ℕ) (e : ConnEntry) (ps : List Bytes)
    → lookup id h.conns ≡ some ref
    → lookup ref h.heap ≡ some e
    → e.done ≡ false
    → length e.sink + length ps ≤ downlink_queue
    → ((downlink_all pick h id ps).1 ≡ all_delivered ps)
      × (lookup ref (downlink_all pick h id ps).0.heap ≡ some (with_sink e (e.sink ++ ps)))
unfolding downlink_all
downlink_in_order pick h id ref e [] at place alive room = (refl, ground (arith, append-nil e.sink))
downlink_in_order pick h id ref e (p ∷ ps) at place alive room =
    let (l, got) = downlink_once pick h id ref e p (at, place, alive) (omega (arith, room)) in
    let e' = with_sink e (e.sink ++ (p ∷ [])) in
    let (rs, stands) =
      downlink_in_order pick (downlink pick h id p).0 id ref e' ps l.0 l.1 l.2
        (omega (arith, room, length-append e.sink (p ∷ []))) in
    (
      ap₂ (λ a b. a ∷ b) got rs,
      stands ∙ ap (λ s. some (with_sink e s)) (append_assoc e.sink (p ∷ []) ps),
    )

-- A number that leads to no connection.
abbrev pub Gone : CtrlHub → ℕ → Type 0
Gone h id =
    (has_conn h id ≡ false)
    × ((pick : Bool) (p : Bytes) → downlink pick h id p ≡ (h, unknown))
    × ((notify : Bool)
        → ((close_conn h id notify).1 ≡ false) × ((close_conn h id notify).0.sent ≡ h.sent))
    × ((client_closed h id).1 ≡ false)

absent-Gone : (h : CtrlHub) (id : ℕ) → lookup id h.conns ≡ none → Gone h id
unfolding has_conn downlink close_conn client_closed find_conn
absent-Gone h id p = (
  rw (p, has_conn) refl,
  λ pick b. rw (p, downlink, find_conn) refl,
  λ notify. (rw (p, close_conn, find_conn) refl, rw (p, close_conn, find_conn) refl),
  rw (p, client_closed, find_conn) refl,
)

client_closed-absent : (h : CtrlHub) (id : ℕ) → lookup id (client_closed h id).0.conns ≡ none
unfolding client_closed
client_closed-absent h id = elim (find_conn-cases h id) [
  | inl f ↦ rw (f, client_closed) (ground (arith, lookup-erase id id h.conns))
  | inr (r, d, f, q, at) ↦ rw (f, client_closed) (ground (arith, lookup-erase id id h.conns))
]

close_conn-absent :
    (h : CtrlHub) (id : ℕ) (notify : Bool) → lookup id (close_conn h id notify).0.conns ≡ none
unfolding close_conn
close_conn-absent h id notify = elim (find_conn-cases h id) [
  | inl f ↦ rw (f, close_conn) (ground (arith, lookup-erase id id h.conns))
  | inr (r, d, f, q, at) ↦
      rw (f, close_conn)
        (elim (Bool-cases notify) [
          | inl t ↦ rw t (remove_conn_gone h id)
          | inr t ↦ rw t (remove_conn_gone h id)
        ])
]

-- Once either side has closed a connection its number leads to none: data for it is dropped, and
-- closing it again says that there is none and sends nothing.
pub closed_once :
    (h : CtrlHub) (id : ℕ)
    → Gone (client_closed h id).0 id × ((notify : Bool) → Gone (close_conn h id notify).0 id)
closed_once h id = (
  absent-Gone (client_closed h id).0 id (client_closed-absent h id),
  λ notify. absent-Gone (close_conn h id notify).0 id (close_conn-absent h id notify),
)

-- Bytes read from a connection are either pending or were given back in batches, one message for a
-- batch; with reads of at most a batch less than one batch is ever pending.
pub release_recv_lem :
    (h : CtrlHub) (ref n : ℕ) (e : ConnEntry)
    → lookup ref h.heap ≡ some e
    → (e' : ConnEntry) × (sent : List (ℕ × Message)) × (lookup ref (release_recv h ref n).heap
        ≡ some e')
      × ((release_recv h ref n).sent ≡ h.sent ++ sent)
      × (e'.recv_pending + update_batch * length sent ≡ e.recv_pending + n)
      × All (λ m. m ≡ (e.client, window_update e.conn_id)) sent
      × (e.recv_pending < update_batch → n ≤ update_batch → e'.recv_pending < update_batch)
unfolding release_recv
release_recv_lem h ref n e p = elim (Bool-cases (ltb (e.recv_pending + n) update_batch)) [
  | inl small ↦ (
    record e { recv_pending = e.recv_pending + n },
    [],
    rw (p, release_recv)
        (rw small (
          ground (
            arith,
            lookup-insert ref ref (record e { recv_pending = e.recv_pending + n }) h.heap,
          ))),
    rw (p, release_recv) (rw small (sym (append-nil h.sent))),
    omega arith,
    tt,
    λ a b. ground arith,
  )
  | inr full ↦ (
    record e { recv_pending = e.recv_pending + n - update_batch },
    (e.client, window_update e.conn_id) ∷ [],
    rw (p, release_recv)
        (rw full (
          ground (
            arith,
            lookup-insert ref ref (record e { recv_pending = e.recv_pending + n - update_batch })
                h.heap,
          ))),
    rw (p, release_recv) (rw full refl),
    ground arith,
    (refl, tt),
    λ a b. ground arith,
  )
]

-- The credit that ReleaseRecv sends never reaches the client's window: its messages have no payload,
-- and DecodeControl, by which the client reads a WindowUpdate, refuses each of them.
pub release_recv-decode_control :
    (json : Json WindowUpdate) (h : CtrlHub) (ref n : ℕ) (e : ConnEntry)
    → lookup ref h.heap ≡ some e
    → (sent : List (ℕ × Message)) × ((release_recv h ref n).sent ≡ h.sent ++ sent)
      × (update_batch ≤ e.recv_pending + n → 0 < length sent)
      × All (λ m. decode_control json m.1 ≡ err (empty_payload MsgType.window_update)) sent
unfolding release_recv decode_control
release_recv-decode_control json h ref n e p =
    elim (Bool-cases (ltb (e.recv_pending + n) update_batch)) [
      | inl small ↦ (
        [],
        rw (p, release_recv) (rw small (sym (append-nil h.sent))),
        λ full. ground (arith, small, full),
        tt,
      )
      | inr full ↦ (
        (e.client, window_update e.conn_id) ∷ [],
        rw (p, release_recv) (rw full refl),
        λ _. omega arith,
        (refl, tt),
      )
    ]
