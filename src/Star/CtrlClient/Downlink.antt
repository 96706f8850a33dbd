-- ===== src/Star/CtrlClient/Downlink.antt =====
-- ctrlclient.go: the queue and the write pump of a connection, against the byte stream that they implement.
use rain_net.Common.{
  ℕ, ◌≡◌, refl, sym, ap, ◌∙◌, inl, inr, Bool, true, false, Option, none, some, List, [], ◌∷◌, ◌++◌,
  append_assoc, append-nil, arith, ltb, if◌then◌else◌, nat_beq_iff, Bool-cases, Option-cases,
  length, Bytes, nat_eq, str_eq,
}
use rain_net.Common.Maps.{Map, lookup, insert, lookup-insert}
use rain_net.Star.MsgType
use rain_net.Star.Session.{Session, Json, send_control}
use rain_net.Star.Handshake.{WindowUpdate}
use rain_net.Star.CtrlClient.{CtrlClient, Inner, Queue, adjust}
use rain_net.Star.CtrlClient.Pumps.{
  push, Pushed, pushed, queue_cap, item_of, pump, pump_queue, pump_item, write_inner, goes_on, idle,
  returned, is_shut, credit, add_written, close_write,
}

-- The bytes of a queue's items.
abbrev pub queued_bytes : List (Option Bytes) → Bytes
queued_bytes [] = []
queued_bytes (none ∷ items) = queued_bytes items
queued_bytes (some p ∷ items) = p ++ queued_bytes items

abbrev pub written_of : Option Inner → Bytes
written_of none = []
written_of (some i) = i.written

abbrev pub queue_of : Option Queue → Bytes
queue_of none = []
queue_of (some q) = queued_bytes q.items

-- The stream of a connection: what the inner side has, and what it is still to get.
abbrev pub stream : CtrlClient → ℕ → Bytes
stream c ref = written_of (lookup ref c.inner) ++ queue_of (lookup ref c.queues)

queued_bytes-append :
    (items : List (Option Bytes)) (p : Bytes)
    → queued_bytes (items ++ (item_of p ∷ [])) ≡ queued_bytes items ++ p
queued_bytes-append [] [] = refl
queued_bytes-append [] (b ∷ bs) = append-nil (b ∷ bs)
queued_bytes-append (none ∷ items) p = queued_bytes-append items p
queued_bytes-append (some x ∷ items) p =
    ap (λ t. x ++ t) (queued_bytes-append items p) ∙ sym (append_assoc x (queued_bytes items) p)

lookup_put : {V : Type 0} (ref : ℕ) (v : V) (m : Map ℕ V) → lookup ref (insert ref v m) ≡ some v
lookup_put ref v m = rw (lookup-insert ref ref v m, (nat_beq_iff ref ref).1 refl) refl

put_grows :
    (c : CtrlClient) (ref : ℕ) (p : Bytes) (q : Queue) (closed : Bool)
    → lookup ref c.queues ≡ some q
    → stream
        (record c {
          queues =
              insert ref (record { items = q.items ++ (item_of p ∷ []); closed = closed }) c.queues;
        })
        ref
      ≡ stream c ref ++ p
put_grows c ref p q closed f =
    let q' : Queue = record { items = q.items ++ (item_of p ∷ []); closed = closed } in
    rw (f, lookup_put ref q' c.queues, queued_bytes-append q.items p)
      (sym (append_assoc (written_of (lookup ref c.inner)) (queued_bytes q.items) p))

push_room :
    (c : CtrlClient) (ref : ℕ) (item : Option Bytes) (q : Queue)
    → lookup ref c.queues ≡ some q
    → q.closed ≡ false
    → ltb (length q.items) queue_cap ≡ true
    → push c ref item ≡ (
      record c {
        queues = insert ref (record { items = q.items ++ (item ∷ []); closed = false }) c.queues;
      },
      pushed,
    )
unfolding push
push_room c ref item q f t u = rw (f, t, u, push) refl

push_grows :
    (c : CtrlClient) (ref : ℕ) (p : Bytes)
    → (push c ref (item_of p)).1 ≡ pushed
    → stream (push c ref (item_of p)).0 ref ≡ stream c ref ++ p
unfolding push
push_grows c ref p = elim (Option-cases (lookup ref c.queues)) [
  | inl f ↦ rw (f, push) (λ h. absurd (ground arith))
  | inr (q, f) ↦ elim (Bool-cases q.closed) [
    | inl t ↦ rw (f, t, push) (λ h. absurd (ground arith))
    | inr t ↦ elim (Bool-cases (ltb (length q.items) queue_cap)) [
      | inl u ↦ λ h.
          ap (λ (r : CtrlClient × Pushed). stream r.0 ref) (push_room c ref (item_of p) q f t u)
          ∙ put_grows c ref p q false f
      | inr u ↦ rw (f, t, u, push) (λ h. absurd (ground arith))
    ]
  ]
]

-- What the pump writes goes from the front of the queue to the end of what is written.
written_grows :
    (c : CtrlClient) (link : Session) (ref : ℕ) (p : Bytes)
    → is_shut c ref ≡ false
    → stream (record c { inner = adjust (some ref) (add_written p) c.inner; link = link }) ref
      ≡ written_of (lookup ref c.inner) ++ (p ++ queue_of (lookup ref c.queues))
unfolding is_shut adjust
written_grows c link ref p alive = elim (Option-cases (lookup ref c.inner)) [
  | inl f ↦ absurd (ground arith)
  | inr (i, f) ↦
      ap (λ o. written_of o ++ queue_of (lookup ref c.queues)) (added i f)
      ∙ append_assoc i.written p (queue_of (lookup ref c.queues))
      ∙ ap (λ o. written_of o ++ (p ++ queue_of (lookup ref c.queues))) (sym f)
]
  where
    added :
        (i : Inner)
        → lookup ref c.inner ≡ some i
        → lookup ref (adjust (some ref) (add_written p) c.inner) ≡ some (add_written p i)
    added i f = rw (f, adjust) (lookup_put ref (add_written p i) c.inner)

close_write-written :
    (ref : ℕ) (m : Map ℕ Inner)
    → written_of (lookup ref (adjust (some ref) close_write m)) ≡ written_of (lookup ref m)
unfolding adjust
close_write-written ref m = elim (Option-cases (lookup ref m)) [
  | inl f ↦ rw (f, adjust) (rw f refl)
  | inr (i, f) ↦ rw (f, adjust) (rw (lookup_put ref (close_write i) m) refl)
]

item_keeps :
    (json : Json WindowUpdate) (c : CtrlClient) (conn_id ref : ℕ) (item : Option Bytes)
    → (pump_item json none c conn_id ref item).1 ≡ goes_on
    → stream (pump_item json none c conn_id ref item).0 ref
      ≡ written_of (lookup ref c.inner)
        ++ (queued_bytes (item ∷ []) ++ queue_of (lookup ref c.queues))
unfolding pump_item write_inner
item_keeps json c conn_id ref none =
    λ h. ap (λ w. w ++ queue_of (lookup ref c.queues)) (close_write-written ref c.inner)
item_keeps json c conn_id ref (some p) = elim (Bool-cases (is_shut c ref)) [
  | inl t ↦ rw (t, write_inner) (λ h. absurd (ground arith))
  | inr t ↦
      rw (t, write_inner, append-nil p)
        (λ h.
          written_grows c (send_control json c.link MsgType.window_update (credit conn_id p)).0 ref
            p t)
]

not_idle : (b : Bool) → (if b then returned else idle) ≡ goes_on → ⊥
not_idle true h = ground arith
not_idle false h = ground arith

queued_bytes-cons :
    (item : Option Bytes) (items : List (Option Bytes))
    → queued_bytes (item ∷ items) ≡ queued_bytes (item ∷ []) ++ queued_bytes items
queued_bytes-cons none items = refl
queued_bytes-cons (some p) items = rw (append-nil p) refl

pump_keeps :
    (json : Json WindowUpdate) (c : CtrlClient) (conn_id ref : ℕ)
    → (pump json none c conn_id ref).1 ≡ goes_on
    → stream (pump json none c conn_id ref).0 ref ≡ stream c ref
unfolding pump pump_queue
pump_keeps json c conn_id ref = elim (Option-cases (lookup ref c.queues)) [
  | inl f ↦ rw (f, pump) (λ h. absurd (ground arith))
  | inr (q, f) ↦ rw (f, pump) (round q f q.items)
]
  where
    round :
        (q : Queue)
        → lookup ref c.queues ≡ some q
        → (items : List (Option Bytes)) → (pump_queue json none c conn_id ref q items).1 ≡ goes_on
        → stream (pump_queue json none c conn_id ref q items).0 ref
          ≡ written_of (lookup ref c.inner) ++ queued_bytes items
    round q f [] h = absurd (not_idle q.closed h)
    round q f (item ∷ items) h =
        item_keeps json (record c { queues = insert ref (record q { items = items }) c.queues })
          conn_id ref item h
        ∙ ap (λ o. written_of (lookup ref c.inner) ++ (queued_bytes (item ∷ []) ++ queue_of o))
            (lookup_put ref (record q { items = items }) c.queues)
        ∙ ap (λ t. written_of (lookup ref c.inner) ++ t) (sym (queued_bytes-cons item items))

-- The queue of a connection and its write pump at work: payloads that the read loop gets into the queue, and
-- rounds of the pump in which no write fails, in any order. `bytes` is what went in.
module _ (json : Json WindowUpdate) (conn_id ref : ℕ) where
  pub data Works (start : CtrlClient) : Bytes → CtrlClient → Type 0 where
    at_rest : Works start [] start
    puts :
        {bytes : Bytes} {c : CtrlClient} (p : Bytes)
        → Works start bytes c
        → (push c ref (item_of p)).1 ≡ pushed
        → Works start (bytes ++ p) (push c ref (item_of p)).0
    rounds :
        {bytes : Bytes} {c : CtrlClient}
        → Works start bytes c
        → (pump json none c conn_id ref).1 ≡ goes_on
        → Works start bytes (pump json none c conn_id ref).0

  -- However pushes and rounds of the pump are interleaved, what the inner connection was given, and then what
  -- is queued, is the stream so far with the payloads that went in behind it: no byte is lost, doubled or
  -- out of order.
  pub Works-stream :
      (start c : CtrlClient) (bytes : Bytes)
      → Works start bytes c
      → stream c ref ≡ stream start ref ++ bytes
  Works-stream start c bytes at_rest = sym (append-nil (stream start ref))
  Works-stream start c bytes (puts {bytes = sofar} {c = before} p w e) =
      push_grows before ref p e
      ∙ ap (λ t. t ++ p) (Works-stream start before sofar w)
      ∙ append_assoc (stream start ref) sofar p
  Works-stream start c bytes (rounds {c = before} w e) =
      pump_keeps json before conn_id ref e ∙ Works-stream start before bytes w
