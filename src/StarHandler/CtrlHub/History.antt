-- ===== src/StarHandler/CtrlHub/History.antt =====
-- Any history of calls on the hub of the control channel.
use rain_net.Star.Handshake.{ConnOpenReq, ConnOpenAck, RegisterStreamReq}
use rain_net.StarHandler.StreamTable
use rain_net.Common.{
  ℕ, ◌≡◌, refl, inl, inr, Bool, none, some, List, [], ◌∷◌, arith, nat_beq, Bool-cases, Option-cases,
  Bytes, nat_eq, str_eq,
}
use rain_net.Common.Maps.{insert, Map, lookup, lookup-insert, lookup-erase}
use rain_net.StarHandler.CtrlHub.{
  close_one, close_conn, client_closed, release_recv, window_release, downlink, deliver_conn_ack,
  next_conn, fresh_entry, new_ctrl_hub, carried_by, StreamEntry, close_conns_by_client,
  register_conn, close_each, await_ack, Json, open_conn, CtrlHub, ConnEntry, remove_conn,
  close_entry, abandon, update_at,
}
use rain_net.StarHandler.CtrlHub.Invariant.{
  close_conn-IsLinked, client_closed-IsLinked, release_recv-IsLinked, window_release-IsLinked,
  downlink-IsLinked, register_conn-IsLinked, new_ctrl_hub-IsLinked, deliver_conn_ack-IsLinked,
  IsLinked, remove_conn-IsLinked, put_unlinked-IsLinked, find_conn-cases,
}

-- The entry at a place keeps its number when a connection is removed.
pub remove_conn_keeps :
    (h : CtrlHub) (id ref : ℕ) (e : ConnEntry)
    → lookup ref h.heap ≡ some e
    → (e' : ConnEntry) × (lookup ref (remove_conn h id).heap ≡ some e') × (e'.conn_id ≡ e.conn_id)
unfolding remove_conn close_entry
remove_conn_keeps h id ref e p = elim (find_conn-cases h id) [
  | inl f ↦ (e, rw (f, remove_conn) p, refl)
  | inr (r, d, f, q, at) ↦ elim (Bool-cases (nat_beq r ref)) [
    | inl t ↦ (
      close_entry d,
      rw (f, remove_conn) (ground (arith, lookup-insert r ref (close_entry d) h.heap)),
      ground arith,
    )
    | inr t ↦
        (e, rw (f, remove_conn) (ground (arith, lookup-insert r ref (close_entry d) h.heap)), refl)
  ]
]

pub remove_conn_gone : (h : CtrlHub) (id : ℕ) → lookup id (remove_conn h id).conns ≡ none
unfolding remove_conn
remove_conn_gone h id = elim (find_conn-cases h id) [
  | inl f ↦ rw (f, remove_conn) (ground (arith, lookup-erase id id h.conns))
  | inr (r, d, f, q, at) ↦ rw (f, remove_conn) (ground (arith, lookup-erase id id h.conns))
]

registered_place :
    (h : CtrlHub) (now : ℕ) (entry : StreamEntry)
    → lookup h.allocated (register_conn h now entry).heap
      ≡ some (fresh_entry (next_conn h) now entry)
unfolding register_conn
registered_place h now entry =
    ground
      (arith, lookup-insert h.allocated h.allocated (fresh_entry (next_conn h) now entry) h.heap)

pub update_at_found :
    (ref : ℕ) (f : ConnEntry → ConnEntry) (heap : Map ℕ ConnEntry) (e : ConnEntry)
    → lookup ref heap ≡ some e
    → update_at ref f heap ≡ insert ref (f e) heap
unfolding update_at
update_at_found ref f heap e p = rw (p, update_at) refl

pub abandon-IsLinked :
    (h : CtrlHub) (ref : ℕ) (e : ConnEntry)
    → lookup ref h.heap ≡ some e
    → IsLinked h
    → IsLinked (abandon h e.conn_id ref)
unfolding abandon
abandon-IsLinked h ref e p l =
    let (e', at, same) = remove_conn_keeps h e.conn_id ref e p in
    let gone : lookup e'.conn_id (remove_conn h e.conn_id).conns ≡ none =
      rw same (remove_conn_gone h e.conn_id) in
    rw (update_at_found ref close_entry (remove_conn h e.conn_id).heap e' at, abandon)
      (put_unlinked-IsLinked (remove_conn h e.conn_id) (remove_conn-IsLinked h l e.conn_id) ref e'
        (close_entry e') at gone)

open_conn-IsLinked :
    (json : Json ConnOpenReq) (up : Bool) (h : CtrlHub) (now : ℕ) (entry : StreamEntry)
    → IsLinked h
    → IsLinked (open_conn json up h now entry).0
unfolding open_conn
open_conn-IsLinked json up h now entry l =
    let r = register_conn-IsLinked h l now entry in
    elim (Bool-cases up) [
      | inl t ↦ rw t (record { open_lem = r.open_lem; place_lem = r.place_lem })
      | inr t ↦ rw t (
          abandon-IsLinked (register_conn h now entry) h.allocated _ (registered_place h now entry)
            r)
    ]

await_ack-IsLinked :
    (h : CtrlHub) (ref : ℕ) (e : ConnEntry) (expired : Bool)
    → lookup ref h.heap ≡ some e
    → IsLinked h
    → IsLinked (await_ack h e.conn_id ref expired).0
unfolding await_ack
await_ack-IsLinked h ref e expired p l =
    let over = abandon-IsLinked h ref e p l in
    elim (Bool-cases expired) [
      | inl t ↦ rw t over
      | inr t ↦ rw t (elim (Option-cases (lookup ref h.mail)) [
        | inl q ↦ rw q l
        | inr (ack, q) ↦
            rw q (elim (Bool-cases ack.accepted) [ inl s ↦ rw s l | inr s ↦ rw s over ])
      ])
    ]

close_one-IsLinked :
    (session id ref : ℕ) (acc : CtrlHub × ℕ)
    → IsLinked acc.0
    → IsLinked (close_one session id ref acc).0
unfolding close_one
close_one-IsLinked session id ref acc l = elim (Option-cases (lookup ref acc.0.heap)) [
  | inl p ↦ rw (p, close_one) l
  | inr (e, p) ↦
      rw (p, close_one)
        (elim (Bool-cases (carried_by acc.0 session e)) [
          | inl t ↦ rw t (remove_conn-IsLinked acc.0 l id)
          | inr t ↦ rw t l
        ])
]

close_each-IsLinked :
    (session : ℕ) (items : List (ℕ × ℕ)) (acc : CtrlHub × ℕ)
    → IsLinked acc.0
    → IsLinked (close_each session items acc).0
unfolding close_each
close_each-IsLinked session [] acc l = l
close_each-IsLinked session ((id, ref) ∷ items) acc l =
    close_each-IsLinked session items _ (close_one-IsLinked session id ref acc l)

-- One critical section of the hub, in the order in which its lock is taken. The caller of OpenConn
-- waits with the entry that it made, at `ref`; ReleaseRecv is a method of an entry.
-- The streams of the table come and go by Assign, Remove and RemoveByClient, which the control listener
-- calls on the hub's table.
pub data Step (json : Json ConnOpenReq) (h : CtrlHub) : CtrlHub → Type 0 where
  registers :
      (now client : ℕ) (req : RegisterStreamReq)
      → Step json h (record h { streams = (StreamTable.assign h.streams now client req).0 })
  unregisters : (id : ℕ) → Step json h (record h { streams = StreamTable.remove h.streams id })
  forgets :
      (client : ℕ)
      → Step json h (record h { streams = (StreamTable.remove_by_client h.streams client).0 })
  opens :
      (up : Bool) (now : ℕ) (entry : StreamEntry) → Step json h (open_conn json up h now entry).0
  awaits :
      (ref : ℕ) (e : ConnEntry) (expired : Bool)
      → lookup ref h.heap ≡ some e
      → Step json h (await_ack h e.conn_id ref expired).0
  answers : (ack : ConnOpenAck) → Step json h (deliver_conn_ack h ack)
  delivers :
      (pick_sink : Bool) (id : ℕ) (payload : Bytes)
      → Step json h (downlink pick_sink h id payload).0
  credits : (id delta : ℕ) → Step json h (window_release h id delta)
  returns : (ref n : ℕ) → Step json h (release_recv h ref n)
  half_closes : (id : ℕ) → Step json h (client_closed h id).0
  closes : (id : ℕ) (notify : Bool) → Step json h (close_conn h id notify).0
  disconnects : (session : ℕ) → Step json h (close_conns_by_client h session).0

pub data Reach (json : Json ConnOpenReq) : CtrlHub → Type 0 where
  here : Reach json new_ctrl_hub
  next : {h k : CtrlHub} → Reach json h → Step json h k → Reach json k

Step-IsLinked : {json : Json ConnOpenReq} {h k : CtrlHub} → Step json h k → IsLinked h → IsLinked k
unfolding close_conns_by_client
Step-IsLinked (registers now client req) l = record {
  open_lem = l.open_lem;
  place_lem = l.place_lem;
}
Step-IsLinked (unregisters id) l = record { open_lem = l.open_lem; place_lem = l.place_lem }
Step-IsLinked (forgets client) l = record { open_lem = l.open_lem; place_lem = l.place_lem }
Step-IsLinked {json} {h} (opens up now entry) l = open_conn-IsLinked json up h now entry l
Step-IsLinked {h = h} (awaits ref e expired p) l = await_ack-IsLinked h ref e expired p l
Step-IsLinked {h = h} (answers ack) l = deliver_conn_ack-IsLinked h l ack
Step-IsLinked {h = h} (delivers pick id payload) l = downlink-IsLinked h l pick id payload
Step-IsLinked {h = h} (credits id delta) l = window_release-IsLinked h l id delta
Step-IsLinked {h = h} (returns ref n) l = release_recv-IsLinked h l ref n
Step-IsLinked {h = h} (half_closes id) l = client_closed-IsLinked h l id
Step-IsLinked {h = h} (closes id notify) l = close_conn-IsLinked h l id notify
Step-IsLinked {h = h} (disconnects session) l = close_each-IsLinked session h.conns (h, 0) l

-- After any history of calls on a new hub and on its table of streams every number in the hub's map
-- leads to an entry that carries that number, is not closed and has an open window, and entries lie only
-- at places given out.
pub Reach-IsLinked : {json : Json ConnOpenReq} {h : CtrlHub} → Reach json h → IsLinked h
Reach-IsLinked here = new_ctrl_hub-IsLinked
Reach-IsLinked (next r s) = Step-IsLinked s (Reach-IsLinked r)
