-- ===== src/Star/CtrlClient/Invariant/Frames.antt =====
-- ctrlclient.go: frames of the read loop keep a client's maps in step.
use rain_net.Common.{
  ℕ, refl, inl, inr, false, Option, none, some, arith, nat_beq, if◌then◌else◌, Bool-cases,
  Option-cases, Bytes, Str, nat_eq, str_eq, Result, ok, err, Result-cases,
}
use rain_net.Common.Maps.{lookup}
use rain_net.Star.Message.{Message, Error, is_half_close}
use rain_net.Star.MsgType
use rain_net.Star.Session.{send_control, Session, decode_control, send}
use rain_net.Star.Window.{Window}
use rain_net.Star.Window
use rain_net.Star.StreamHub.{
  half, full, StreamConn, deliver, Delivery, queued, dropped, stuck, FeedItem,
}
use rain_net.Star.CtrlClient.{CtrlClient, adjust, dial_conn, remove_dial_conn}
use rain_net.Star.CtrlClient.Pumps.{push, Pushed, pushed, waits, panics, item_of}
use rain_net.Star.CtrlClient.Dispatch.{
  goes_on, stalls, stops, Run, handle, handle_conn_open, open_inner, answered, unanswered, to_queue,
  half_close_conn, on_data, on_close, on_ping, on_update, on_conn_ack, deliver_ack, after_push,
  after_deliver, forget_dialled, after_pong, Handled, crashes, dial_inner, open_ack_for,
}
use rain_net.Star.CtrlClient.Invariant.{
  IsMatched, insert-Open, adjust-Open, IsMatched-kept, enter-IsMatched, close_conn-IsMatched,
}
use rain_net.Star.CtrlClient.Invariant.Steps.{elsewhere, push-IsMatched}
use rain_net.Star.CtrlClient.Invariant.Uplink.{linked}

answered-IsMatched :
    (c : CtrlClient) (id : ℕ) (r : Result Str (Unit {0})) (e : Option Error)
    → IsMatched c
    → IsMatched (answered c id r e)
unfolding answered
answered-IsMatched c id (ok u) none h = enter-IsMatched c id h
answered-IsMatched c id (ok u) (some e) h =
    IsMatched-kept c (unanswered c) refl refl refl (omega arith)
      (λ ref lt o. record {
        inner_open =
            insert-Open (λ i. i.closed) c.allocated ref _ c.inner (λ same. absurd (omega arith))
              o.inner_open;
        window_open = o.window_open;
        queue_open = o.queue_open;
      })
      h
answered-IsMatched c id (err why) e h = h

handle_conn_open-IsMatched :
    (run : Run) (c : CtrlClient) (msg : Message)
    → IsMatched c
    → IsMatched (handle_conn_open run c msg)
unfolding handle_conn_open open_inner
handle_conn_open-IsMatched run c msg h =
    elim (Result-cases (decode_control run.json.open_req msg)) [
      | inl (req, e) ↦
          let dialled : Result Str (Unit {0}) = dial_inner run c req.stream_id in
          let sent : Session × Option Error =
            send_control run.json.open_ack c.link MsgType.conn_open_ack
              (open_ack_for req.conn_id dialled) in
          rw (e, handle_conn_open)
            (answered-IsMatched (record c { link = sent.0 }) req.conn_id dialled sent.1
              (linked c sent.0 h))
      | inr (why, e) ↦ rw (e, handle_conn_open) h
    ]

after_push-IsMatched : (r : CtrlClient × Pushed) → IsMatched r.0 → IsMatched (after_push r).0
after_push-IsMatched (c, pushed) h = h
after_push-IsMatched (c, waits) h = h
after_push-IsMatched (c, panics) h = h

to_queue-IsMatched :
    (c : CtrlClient) (id : ℕ) (item : Option Bytes) → IsMatched c → IsMatched (to_queue c id item).0
unfolding to_queue
to_queue-IsMatched c id item h = elim (Option-cases (lookup id c.conns_q)) [
  | inl e ↦ rw (e, to_queue) h
  | inr (ref, e) ↦
      rw (e, to_queue) (after_push-IsMatched (push c ref item) (push-IsMatched c ref item h))
]

after_deliver-IsMatched :
    (c : CtrlClient) (ref : ℕ) (r : StreamConn × Delivery)
    → IsMatched c
    → IsMatched (after_deliver c ref r).0
after_deliver-IsMatched c ref (sc, queued) h = elsewhere c _ refl refl refl refl refl refl refl h
after_deliver-IsMatched c ref (sc, dropped) h = elsewhere c _ refl refl refl refl refl refl refl h
after_deliver-IsMatched c ref (sc, stuck) h = elsewhere c _ refl refl refl refl refl refl refl h

forget_dialled-IsMatched :
    (id : ℕ) (r : CtrlClient × Handled) → IsMatched r.0 → IsMatched (forget_dialled id r).0
unfolding remove_dial_conn
forget_dialled-IsMatched id (c, goes_on) h = elsewhere c _ refl refl refl refl refl refl refl h
forget_dialled-IsMatched id (c, stalls) h = h
forget_dialled-IsMatched id (c, crashes) h = h
forget_dialled-IsMatched id (c, stops e) h = h

on_data-IsMatched :
    (run : Run) (c : CtrlClient) (msg : Message) → IsMatched c → IsMatched (on_data run c msg).0
unfolding on_data
on_data-IsMatched run c msg h = elim (Option-cases (dial_conn c msg.stream_id)) [
  | inl e ↦ rw (e, on_data) (to_queue-IsMatched c msg.stream_id (item_of msg.payload) h)
  | inr ((ref, sc), e) ↦ rw (e, on_data) (after_deliver-IsMatched c ref _ h)
]

on_close-IsMatched :
    (run : Run) (c : CtrlClient) (msg : Message) → IsMatched c → IsMatched (on_close run c msg).0
unfolding on_close half_close_conn
on_close-IsMatched run c msg h = elim (Option-cases (dial_conn c msg.stream_id)) [
  | inl e ↦ elim (Bool-cases (is_half_close msg)) [
    | inl t ↦ rw (e, t, on_close) (to_queue-IsMatched c msg.stream_id none h)
    | inr f ↦ rw (e, f, on_close) (close_conn-IsMatched c msg.stream_id false h)
  ]
  | inr ((ref, sc), e) ↦
      let item : FeedItem = if is_half_close msg then half else full in
      rw (e, on_close)
        (forget_dialled-IsMatched msg.stream_id (after_deliver c ref (deliver run.pick sc item))
          (after_deliver-IsMatched c ref (deliver run.pick sc item) h))
]

after_pong-IsMatched :
    (c : CtrlClient) (r : Session × Option Error) → IsMatched c → IsMatched (after_pong c r).0
after_pong-IsMatched c (link, none) h = linked c link h
after_pong-IsMatched c (link, some e) h = linked c link h

on_ping-IsMatched : (c : CtrlClient) (msg : Message) → IsMatched c → IsMatched (on_ping c msg).0
unfolding on_ping
on_ping-IsMatched c msg h =
    after_pong-IsMatched c (send c.link (record msg { type = MsgType.pong; flags = 0 })) h

on_update-IsMatched :
    (run : Run) (c : CtrlClient) (msg : Message) → IsMatched c → IsMatched (on_update run c msg)
unfolding on_update Window.release
on_update-IsMatched run c msg h = elim (Result-cases (decode_control run.json.update msg)) [
  | inl (u, e) ↦ rw (e, on_update) (credited u.conn_id u.delta)
  | inr (why, e) ↦ rw (e, on_update) h
]
  where
    credited :
        (id n : ℕ)
        → IsMatched
            (record c { wins = adjust (lookup id c.conns_win) (λ w. Window.release w n) c.wins })
    credited id n =
        IsMatched-kept c _ refl refl refl (omega arith)
          (λ at lt o. record {
            inner_open = o.inner_open;
            window_open =
                adjust-Open (λ w. w.closed) (lookup id c.conns_win) (λ w. Window.release w n) at
                  c.wins (λ w same was. was) o.window_open;
            queue_open = o.queue_open;
          })
          h

on_conn_ack-IsMatched :
    (run : Run) (c : CtrlClient) (msg : Message) → IsMatched c → IsMatched (on_conn_ack run c msg)
unfolding on_conn_ack
on_conn_ack-IsMatched run c msg h = elim (Result-cases (decode_control run.json.conn_ack msg)) [
  | inl (ack, e) ↦
      rw (e, on_conn_ack)
        (elim (Option-cases (lookup ack.conn_id c.dial_acks)) [
          | inl f ↦ rw (f, deliver_ack) (elsewhere c _ refl refl refl refl refl refl refl h)
          | inr (ref, f) ↦ rw (f, deliver_ack) (elsewhere c _ refl refl refl refl refl refl refl h)
        ])
  | inr (why, e) ↦ rw (e, on_conn_ack) h
]

pub handle-IsMatched :
    (run : Run) (c : CtrlClient) (msg : Message) → IsMatched c → IsMatched (handle run c msg).0
unfolding handle
handle-IsMatched run c msg h = elim (Bool-cases (nat_beq msg.type MsgType.conn_open)) [
  | inl t ↦ rw (t, handle) (handle_conn_open-IsMatched run c msg h)
  | inr t1 ↦ elim (Bool-cases (nat_beq msg.type MsgType.stream_data)) [
    | inl t ↦ rw (t1, t, handle) (on_data-IsMatched run c msg h)
    | inr t2 ↦ elim (Bool-cases (nat_beq msg.type MsgType.stream_close)) [
      | inl t ↦ rw (t1, t2, t, handle) (on_close-IsMatched run c msg h)
      | inr t3 ↦ elim (Bool-cases (nat_beq msg.type MsgType.ping)) [
        | inl t ↦ rw (t1, t2, t3, t, handle) (on_ping-IsMatched c msg h)
        | inr t4 ↦ elim (Bool-cases (nat_beq msg.type MsgType.window_update)) [
          | inl t ↦ rw (t1, t2, t3, t4, t, handle) (on_update-IsMatched run c msg h)
          | inr t5 ↦ elim (Bool-cases (nat_beq msg.type MsgType.client_conn_ack)) [
            | inl t ↦ rw (t1, t2, t3, t4, t5, t, handle) (on_conn_ack-IsMatched run c msg h)
            | inr t6 ↦ rw (t1, t2, t3, t4, t5, t6, handle) h
          ]
        ]
      ]
    ]
  ]
]
