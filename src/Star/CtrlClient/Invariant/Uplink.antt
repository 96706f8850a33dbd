-- ===== src/Star/CtrlClient/Invariant/Uplink.antt =====
-- ctrlclient.go: the uplink and dialled connections keep a client's maps in step.
use rain_net.Common.{
  ℕ, ◌+◌, ◌≡◌, refl, inl, inr, Bool, true, false, Option, none, some, [], ◌∷◌, arith, leb,
  Bool-cases, Option-cases, Bytes, Str, nat_eq, str_eq,
}
use rain_net.Common.Maps.{lookup, insert}
use rain_net.Star.Message.{Error, half_close}
use rain_net.Star.MsgType
use rain_net.Star.Session.{send_control, Session, Json}
use rain_net.Star.Handshake.{ClientConnReq}
use rain_net.Star.Window.{Window, Attempt, acquired, refused, blocked, acquire}
use rain_net.Star.CtrlClient.{CtrlClient, send_data}
use rain_net.Star.CtrlClient.Pumps.{
  uplink_take, taken_by, attempt, uplink_send, after_read, after_send, Ending, none_yet,
  end_of_file, failure, Taken,
}
use rain_net.Star.CtrlClient.Dial.{
  dial_intranet, await_dial, requested, cleanup, numbered, dial_id, pair_key,
}
use rain_net.Star.CtrlClient.Invariant.{
  IsMatched, insert-Open, IsMatched-kept, close_conn-IsMatched, send_frame-IsMatched,
}
use rain_net.Star.CtrlClient.Invariant.Steps.{elsewhere, Opens, acquire-Opens}

-- The windows after a call of Acquire.
in_window :
    (c : CtrlClient) (ref : ℕ) (w : Window)
    → w.closed ≡ false
    → IsMatched c
    → IsMatched (record c { wins = insert ref w c.wins })
in_window c ref w open_w = IsMatched-kept c _ refl refl refl (omega arith) (λ at lt o. record {
  inner_open = o.inner_open;
  window_open = insert-Open (λ v. v.closed) ref at w c.wins (λ same. open_w) o.window_open;
  queue_open = o.queue_open;
})

taken_by-IsMatched :
    (c : CtrlClient) (ref : ℕ) (a : Attempt)
    → Opens (some a)
    → IsMatched c
    → IsMatched (taken_by c ref a).0
taken_by-IsMatched c ref (acquired w) o h = in_window c ref w o h
taken_by-IsMatched c ref refused o h = h
taken_by-IsMatched c ref (blocked w n) o h = in_window c ref w o h

-- What a call leaves, if it returned.
abbrev pub Leaves : Option (CtrlClient × Taken) → Type 0
Leaves none = Unit {0}
Leaves (some (c, t)) = IsMatched c

attempt-Leaves :
    (c : CtrlClient) (ref : ℕ) (a : Option Attempt)
    → Opens a
    → IsMatched c
    → Leaves (attempt c ref a)
unfolding attempt
attempt-Leaves c ref none o h = tt
attempt-Leaves c ref (some a) o h = taken_by-IsMatched c ref a o h

pub uplink_take-Leaves :
    (fuel : ℕ) (c : CtrlClient) (win : Option ℕ) (n : ℕ)
    → IsMatched c
    → Leaves (uplink_take fuel c win n)
unfolding uplink_take
uplink_take-Leaves fuel c none n h = h
uplink_take-Leaves fuel c (some ref) n h = elim (Option-cases (lookup ref c.wins)) [
  | inl e ↦ rw (e, uplink_take) h
  | inr (w, e) ↦
      rw (e, uplink_take) (attempt-Leaves c ref (acquire fuel w n) (acquire-Opens fuel w n) h)
]

pub linked : (c : CtrlClient) (link : Session) → IsMatched c → IsMatched (record c { link = link })
linked c link h = elsewhere c (record c { link = link }) refl refl refl refl refl refl refl h

after_read-IsMatched :
    (c : CtrlClient) (id : ℕ) (e : Ending) → IsMatched c → IsMatched (after_read c id e).0
unfolding after_read
after_read-IsMatched c id none_yet h = h
after_read-IsMatched c id end_of_file h = send_frame-IsMatched c (half_close id) h
after_read-IsMatched c id failure h = close_conn-IsMatched c id true h

after_send-IsMatched :
    (c : CtrlClient) (r : Option Error) (id : ℕ) (e : Ending)
    → IsMatched c
    → IsMatched (after_send (c, r) id e).0
unfolding after_send
after_send-IsMatched c none id e h = after_read-IsMatched c id e h
after_send-IsMatched c (some why) id e h = close_conn-IsMatched c id true h

pub uplink_send-IsMatched :
    (c : CtrlClient) (id : ℕ) (bs : Bytes) (e : Ending)
    → IsMatched c
    → IsMatched (uplink_send c id bs e).0
unfolding uplink_send
uplink_send-IsMatched c id [] e h = after_read-IsMatched c id e h
uplink_send-IsMatched c id (b ∷ bs) e h =
    let sent : Session × Option Error = send_data c.link id (b ∷ bs) in
    after_send-IsMatched (record c { link = sent.0 }) sent.1 id e (linked c sent.0 h)

requested-IsMatched :
    (c : CtrlClient) (id ref : ℕ) (s : Session × Option Error)
    → IsMatched c
    → IsMatched (requested c id ref s).0
unfolding requested cleanup
requested-IsMatched c id ref (link, none) h = linked c link h
requested-IsMatched c id ref (link, some e) h = elsewhere c _ refl refl refl refl refl refl refl h

numbered-IsMatched : (c : CtrlClient) → IsMatched c → IsMatched (numbered c)
numbered-IsMatched c h =
    IsMatched-kept c (numbered c) refl refl refl (omega arith)
      (λ ref lt o. record {
        inner_open = o.inner_open;
        window_open = o.window_open;
        queue_open = o.queue_open;
      })
      h

pub dial_intranet-IsMatched :
    (json : Json ClientConnReq) (c : CtrlClient) (name stream : Str)
    → IsMatched c
    → IsMatched (dial_intranet json c name stream).0
unfolding dial_intranet
dial_intranet-IsMatched json c name stream h =
    elim (Option-cases (lookup (pair_key name stream) c.pairs)) [
      | inl e ↦ rw (e, dial_intranet) h
      | inr (u, e) ↦ elim (Bool-cases (leb 0x7fffffff c.dial_seq)) [
        | inl t ↦ rw (e, t, dial_intranet) h
        | inr f ↦
            let id : ℕ = dial_id (c.dial_seq + 1) in
            let req : ClientConnReq = record {
              conn_id = id;
              client_proxy_name = name;
              stream_id = stream;
            } in
            rw (e, f, dial_intranet)
              (requested-IsMatched (numbered c) id c.allocated
                (send_control json c.link MsgType.client_conn_req req) (numbered-IsMatched c h))
      ]
    ]

cleanup-IsMatched : (c : CtrlClient) (id : ℕ) → IsMatched c → IsMatched (cleanup c id)
unfolding cleanup
cleanup-IsMatched c id h = elsewhere c _ refl refl refl refl refl refl refl h

pub await_dial-IsMatched :
    (c : CtrlClient) (id ref : ℕ) (expired : Bool)
    → IsMatched c
    → IsMatched (await_dial c id ref expired).0
unfolding await_dial
await_dial-IsMatched c id ref true h = cleanup-IsMatched c id h
await_dial-IsMatched c id ref false h = elim (Option-cases (lookup ref c.mail)) [
  | inl e ↦ rw (e, await_dial) h
  | inr (ack, e) ↦ elim (Bool-cases ack.accepted) [
    | inl t ↦ rw (e, t, await_dial) h
    | inr f ↦ rw (e, f, await_dial) (cleanup-IsMatched c id h)
  ]
]
