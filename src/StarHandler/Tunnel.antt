-- ===== src/StarHandler/Tunnel.antt =====
-- Both ends of a tunnel: OpenConn of ctrl_hub.go on the server, handleConnOpen of ctrlclient.go on the
-- client that it asks.
mod Tests
use rain_net.Common.{
  ℕ, ◌≡◌, refl, sym, ap, subst, ◌∙◌, ◌⊎◌, inl, inr, true, false, Option, none, some, [], ◌++◌,
  arith, nat_beq_iff, Str, nat_eq, str_eq, Result, ok, err, Result-cases,
}
use rain_net.Common.Maps.{Map, lookup, insert, lookup-insert}
use rain_net.Star.MsgType
use rain_net.Star.Session.{Session, control, decode_control}
use rain_net.Star.Window.{new_window, default_stream_window}
use rain_net.Star.Handshake.{ConnOpenReq, ConnOpenAck}
use rain_net.Star.Handshake.Agreement.{Carries, control_frame, send_control_lem, decode_control_lem}
use rain_net.Star.CtrlClient.{CtrlClient}
use rain_net.Star.CtrlClient.Dispatch.{
  Run, dial_inner, open_ack_for, open_inner, handle_conn_open, answered, enter,
}
use rain_net.StarHandler.StreamTable.{StreamEntry}
use rain_net.Star.Message.{Error}
use rain_net.StarHandler.CtrlHub.{
  find_conn, CtrlHub, opened, failed, open_conn, await_ack, deliver_conn_ack, next_conn, conn_open,
  has_conn, register_conn, fresh_entry,
}
use rain_net.StarHandler.CtrlHub.OpenConn
use rain_net.StarHandler.CtrlHub.OpenConn.{GaveUp, answered_mail, await_ack_lem, open-await}

lookup-insert_self :
    {V : Type 0} (ref : ℕ) (v : V) (m : Map ℕ V) → lookup ref (insert ref v m) ≡ some v
lookup-insert_self ref v m = rw (lookup-insert ref ref v m, (nat_beq_iff ref ref).1 refl) refl

registered_entry :
    (h : CtrlHub) (now : ℕ) (entry : StreamEntry)
    → lookup h.allocated (register_conn h now entry).heap
      ≡ some (fresh_entry (next_conn h) now entry)
unfolding register_conn
registered_entry h now entry =
    lookup-insert_self h.allocated (fresh_entry (next_conn h) now entry) h.heap

answered-link :
    (c : CtrlClient) (id : ℕ) (v : Result Str (Unit {0})) → (answered c id v none).link ≡ c.link
unfolding answered enter
answered-link c id (ok u) = refl
answered-link c id (err why) = refl

module _ (run : Run) (c : CtrlClient) (h : CtrlHub) (now : ℕ) (entry : StreamEntry) where
  -- The request of the hub, the client's answer to it, and both sides after it.
  abbrev pub request : ConnOpenReq
  request = record { stream_id = entry.assign_id; conn_id = next_conn h }

  abbrev pub verdict : Result Str (Unit {0})
  verdict = dial_inner run c entry.assign_id

  abbrev pub answer : ConnOpenAck
  answer = open_ack_for (next_conn h) verdict

  abbrev pub client_after : CtrlClient
  client_after = handle_conn_open run c (conn_open run.json.open_req entry (next_conn h))

  abbrev pub hub_after : CtrlHub
  hub_after = deliver_conn_ack (open_conn run.json.open_req true h now entry).0 answer

  request_decoded :
      Carries run.json.open_req request
      → decode_control run.json.open_req (conn_open run.json.open_req entry (next_conn h))
        ≡ ok request
  unfolding decode_control
  request_decoded reads =
      decode_control_lem run.json.open_req MsgType.conn_open request reads (omega arith)

  -- The session after the answer was written to it.
  abbrev pub answered_link : Session
  answered_link = record c.link {
    output = c.link.output ++ control_frame run.json.open_ack MsgType.conn_open_ack answer;
  }

  client_step :
      Carries run.json.open_req request
      → Carries run.json.open_ack answer
      → c.link.writable ≡ true
      → client_after ≡ answered (record c { link = answered_link }) (next_conn h) verdict none
  unfolding handle_conn_open open_inner
  client_step reads texts up =
      rw (request_decoded reads, handle_conn_open)
        (ap
          (λ (sent : Session × Option Error).
            answered (record c { link = sent.0 }) (next_conn h) verdict sent.1)
          (send_control_lem run.json.open_ack MsgType.conn_open_ack answer texts (omega arith)
            c.link up))

  -- What both sides have when the client could dial: OpenConn returns the entry it made, and the client has
  -- the connection under the same number with a fresh window and an empty queue.
  abbrev pub BothOpen : Type 0
  BothOpen =
      ((await_ack hub_after (next_conn h) h.allocated false).1 ≡ opened h.allocated)
      × (find_conn hub_after (next_conn h)
          ≡ some (h.allocated, fresh_entry (next_conn h) now entry))
      × (lookup (next_conn h) client_after.conns ≡ some c.allocated)
      × (lookup c.allocated client_after.wins ≡ some (new_window default_stream_window))
      × (lookup c.allocated client_after.queues ≡ some (record { items = []; closed = false }))

  -- And when it could not: OpenConn fails and takes its number off, the client has changed nothing.
  abbrev pub NeitherOpen : Type 0
  NeitherOpen =
      ((await_ack hub_after (next_conn h) h.allocated false).1 ≡ failed)
      × (has_conn (await_ack hub_after (next_conn h) h.allocated false).0 (next_conn h) ≡ false)
      × (client_after ≡ record c { link = answered_link })

  hub_given : ConnOpenAck → CtrlHub
  hub_given ack = deliver_conn_ack (open_conn run.json.open_req true h now entry).0 ack

  both_open :
      (u : Unit {0})
      → verdict ≡ ok u
      → client_after ≡ answered (record c { link = answered_link }) (next_conn h) verdict none
      → BothOpen
  unfolding answered enter hub_given
  both_open u e step =
      let id : ℕ = next_conn h in
      let base : CtrlClient = record c { link = answered_link } in
      let (asked, returned, found, acks) = open-await run.json.open_req h now entry [] in
      let (got, stands) =
        subst
          (λ ack.
            ((await_ack (hub_given ack) id h.allocated false).1 ≡ opened h.allocated)
            × (find_conn (hub_given ack) id ≡ some (h.allocated, fresh_entry id now entry)))
          (sym (ap (open_ack_for id) e)) (returned, found) in
      let entered : client_after ≡ enter base id = step ∙ ap (λ v. answered base id v none) e in
      (
        got,
        stands,
        ap (λ d. lookup id d.conns) entered ∙ lookup-insert_self id c.allocated c.conns,
        ap (λ d. lookup c.allocated d.wins) entered
            ∙ lookup-insert_self c.allocated (new_window default_stream_window) c.wins,
        ap (λ d. lookup c.allocated d.queues) entered
            ∙ lookup-insert_self c.allocated (record { items = []; closed = false }) c.queues,
      )

  neither_open :
      (why : Str)
      → verdict ≡ err why
      → client_after ≡ answered (record c { link = answered_link }) (next_conn h) verdict none
      → NeitherOpen
  unfolding answered hub_given
  neither_open why e step =
      let id : ℕ = next_conn h in
      let base : CtrlClient = record c { link = answered_link } in
      let (mail, acks, conns, heap) = answered_mail run.json.open_req h now entry false why in
      let refused : ConnOpenAck = open_ack_for id (err why) in
      let placed : lookup h.allocated (hub_given refused).heap ≡ some (fresh_entry id now entry) =
        ap (lookup h.allocated) heap ∙ registered_entry h now entry in
      let (over, answers) =
        await_ack_lem (hub_given refused) h.allocated (fresh_entry id now entry) placed in
      let (failing, gone) = given_up refused refl (answers refused mail) in
      let (f, g) =
        subst
          (λ ack.
            ((await_ack (hub_given ack) id h.allocated false).1 ≡ failed)
            × (has_conn (await_ack (hub_given ack) id h.allocated false).0 id ≡ false))
          (sym (ap (open_ack_for id) e)) (failing, gone) in
      (f, g, step ∙ ap (λ v. answered base id v none) e)
    where
      given_up :
          (ack : ConnOpenAck)
          → ack.accepted ≡ false
          → ((ack.accepted ≡ true)
              × (await_ack (hub_given ack) (next_conn h) h.allocated false
                  ≡ (hub_given ack, opened h.allocated)))
            ⊎ ((ack.accepted ≡ false)
                × GaveUp
                    (hub_given ack)
                    h.allocated
                    (fresh_entry (next_conn h) now entry)
                    (await_ack (hub_given ack) (next_conn h) h.allocated false))
          → ((await_ack (hub_given ack) (next_conn h) h.allocated false).1 ≡ failed)
            × (has_conn (await_ack (hub_given ack) (next_conn h) h.allocated false).0 (next_conn h)
                ≡ false)
      given_up ack no_ack (inl (t, same)) = absurd (ground arith)
      given_up ack no_ack (inr (f, gone)) = (gone.0, gone.1)

  by_verdict :
      client_after ≡ answered (record c { link = answered_link }) (next_conn h) verdict none
      → ((verdict ≡ ok tt) × BothOpen) ⊎ ((why : Str) × (verdict ≡ err why) × NeitherOpen)
  by_verdict step = elim (Result-cases verdict) [
    | inl (u, e) ↦ inl (e, both_open u e step)
    | inr (why, e) ↦ inr (why, e, neither_open why e step)
  ]

  -- OpenConn of the hub, whose request reaches the client and whose answer comes back: the client dials,
  -- and if it could both sides have the connection under one number, and if not neither has; the client
  -- writes one frame, which carries the answer that the hub takes.
  pub open_over_tunnel :
      Carries run.json.open_req request
      → Carries run.json.open_ack answer
      → c.link.writable ≡ true
      → (client_after.link ≡ answered_link)
        × (decode_control run.json.open_ack (control run.json.open_ack MsgType.conn_open_ack answer)
            ≡ ok answer)
        × (((verdict ≡ ok tt) × BothOpen) ⊎ ((why : Str) × (verdict ≡ err why) × NeitherOpen))
  open_over_tunnel reads texts up =
      let step = client_step reads texts up in
      (
        ap (λ d. d.link) step
            ∙ answered-link (record c { link = answered_link }) (next_conn h) verdict,
        decode_control_lem run.json.open_ack MsgType.conn_open_ack answer texts (omega arith),
        by_verdict step,
      )
