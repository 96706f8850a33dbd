-- ===== src/Star/CtrlClient/Safety.antt =====
-- ctrlclient.go: the read loop never sends to a closed queue, while nothing runs in between.
use rain_net.Common.{
  ℕ, ◌≡◌, sym, ◌∙◌, ◌≢◌, inl, inr, false, Option, none, some, arith, ltb, if◌then◌else◌, Bool-cases,
  Option-cases, length, Bytes, nat_eq, str_eq,
}
use rain_net.Common.Maps.{lookup}
use rain_net.Star.MsgType
use rain_net.Star.Message.{Message, is_half_close}
use rain_net.Star.Session.{Session, send}
use rain_net.Star.StreamHub.{
  bytes, StreamConn, Delivery, queued, dropped, stuck, deliver, FeedItem, half, full,
}
use rain_net.Star.CtrlClient.{Error, CtrlClient, Queue, dial_conn}
use rain_net.Star.CtrlClient.Pumps.{push, item_of, queue_cap}
use rain_net.Star.CtrlClient.Dispatch.{
  Run, handle, to_queue, half_close_conn, on_data, on_close, on_ping, after_push, after_deliver,
  forget_dialled, after_pong, Handled, goes_on, stalls, crashes, stops,
}
use rain_net.Star.CtrlClient.Invariant.{IsMatched, Open}

push_safe :
    (c : CtrlClient) (ref : ℕ) (item : Option Bytes)
    → Open (λ (q : Queue). q.closed) (lookup ref c.queues)
    → (after_push (push c ref item)).1 ≢ crashes
unfolding push
push_safe c ref item o = elim (Option-cases (lookup ref c.queues)) [
  | inl e ↦ absurd (rw e at o)
  | inr (q, e) ↦
      let live : q.closed ≡ false = rw e at o in
      elim (Bool-cases (ltb (length q.items) queue_cap)) [
        | inl t ↦ rw (e, live, t, push) (λ p. ground arith)
        | inr u ↦ rw (e, live, u, push) (λ p. ground arith)
      ]
]

to_queue_safe :
    (c : CtrlClient) (id : ℕ) (item : Option Bytes) → IsMatched c → (to_queue c id item).1 ≢ crashes
unfolding to_queue
to_queue_safe c id item h = elim (Option-cases (lookup id c.conns_q)) [
  | inl e ↦ rw (e, to_queue) (λ p. ground arith)
  | inr (ref, e) ↦
      rw (e, to_queue) (push_safe c ref item ((h.live id ref (sym (h.q_same id) ∙ e)).queue_open))
]

after_deliver_safe :
    (c : CtrlClient) (ref : ℕ) (r : StreamConn × Delivery) → (after_deliver c ref r).1 ≢ crashes
after_deliver_safe c ref (sc, queued) p = ground arith
after_deliver_safe c ref (sc, dropped) p = ground arith
after_deliver_safe c ref (sc, stuck) p = ground arith

forget_dialled_safe :
    (id : ℕ) (r : CtrlClient × Handled) → r.1 ≢ crashes → (forget_dialled id r).1 ≢ crashes
forget_dialled_safe id (c, goes_on) h p = ground arith
forget_dialled_safe id (c, stalls) h p = ground arith
forget_dialled_safe id (c, crashes) h p = h p
forget_dialled_safe id (c, stops e) h p = ground arith

on_data_safe :
    (run : Run) (c : CtrlClient) (msg : Message) → IsMatched c → (on_data run c msg).1 ≢ crashes
unfolding on_data
on_data_safe run c msg h = elim (Option-cases (dial_conn c msg.stream_id)) [
  | inl e ↦ rw (e, on_data) (to_queue_safe c msg.stream_id (item_of msg.payload) h)
  | inr ((ref, sc), e) ↦
      rw (e, on_data) (after_deliver_safe c ref (deliver run.pick sc (bytes msg.payload)))
]

on_close_safe :
    (run : Run) (c : CtrlClient) (msg : Message) → IsMatched c → (on_close run c msg).1 ≢ crashes
unfolding on_close half_close_conn
on_close_safe run c msg h = elim (Option-cases (dial_conn c msg.stream_id)) [
  | inl e ↦ elim (Bool-cases (is_half_close msg)) [
    | inl t ↦ rw (e, t, on_close) (to_queue_safe c msg.stream_id none h)
    | inr f ↦ rw (e, f, on_close) (λ p. ground arith)
  ]
  | inr ((ref, sc), e) ↦
      let item : FeedItem = if is_half_close msg then half else full in
      rw (e, on_close)
        (forget_dialled_safe msg.stream_id (after_deliver c ref (deliver run.pick sc item))
          (after_deliver_safe c ref (deliver run.pick sc item)))
]

after_pong_safe : (c : CtrlClient) (r : Session × Option Error) → (after_pong c r).1 ≢ crashes
after_pong_safe c (link, none) p = ground arith
after_pong_safe c (link, some e) p = ground arith

-- When the maps of a client are in step, no frame makes its read loop send to a closed queue.
pub handle_safe :
    (run : Run) (c : CtrlClient) (msg : Message) → IsMatched c → (handle run c msg).1 ≢ crashes
unfolding handle on_ping
handle_safe run c msg h = ground (
  arith,
  on_data_safe run c msg h,
  on_close_safe run c msg h,
  after_pong_safe c (send c.link (record msg { type = MsgType.pong; flags = 0 })),
)
