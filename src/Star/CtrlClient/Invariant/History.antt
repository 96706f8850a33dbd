-- ===== src/Star/CtrlClient/Invariant/History.antt =====
-- ctrlclient.go: what holds of a client after any history of its read loop, its pumps and its calls.
use rain_net.Common.{
  ℕ, ◌≡◌, refl, subst, Bool, Option, some, arith, Bytes, Str, nat_eq, str_eq, inl, inr, List, [],
  ◌∷◌, Bool-cases, Result, ok, err, ◌>>=◌,
}
use rain_net.Common.Maps.{lookup}
use rain_net.Star.CtrlClient.Invariant.Steps.{elsewhere}
use rain_net.Star.CtrlClient.Dial.{
  DialError, enter_stream, registered, register_all, shaken, dial_ctrl,
}
use rain_net.Star.Handshake.{
  Outcome, HandshakeReq, HandshakeAck, RegisterStreamReq, RegisterStreamAck, client_handshake,
  client_register_stream,
}
use rain_net.Star.Message.{Message}
use rain_net.Star.Session.{Session, Json}
use rain_net.Star.Handshake.{WindowUpdate, ClientConnReq}
use rain_net.Star.CtrlClient.{CtrlClient, close_conn, new_ctrl_client}
use rain_net.Star.CtrlClient.Pumps.{push, pump, uplink_take, uplink_send, Ending, Taken}
use rain_net.Star.CtrlClient.Dial.{dial_intranet, await_dial}
use rain_net.Star.CtrlClient.Dispatch.{Run, handle}
use rain_net.Star.CtrlClient.Invariant.{IsMatched, close_conn-IsMatched}
use rain_net.Star.CtrlClient.Invariant.Steps.{push-IsMatched, pump-IsMatched}
use rain_net.Star.CtrlClient.Invariant.Frames.{handle-IsMatched}
use rain_net.Star.CtrlClient.Invariant.Uplink.{
  linked, Leaves, uplink_take-Leaves, uplink_send-IsMatched, dial_intranet-IsMatched,
  await_dial-IsMatched,
}

-- One step of a client before its session ends. The maps are read apart from what is done with them:
-- a queue or a window may be one that was looked up earlier.
pub data Step (c : CtrlClient) : CtrlClient → Type 0 where
  handled : (run : Run) (msg : Message) → Step c (handle run c msg).0
  received : (link : Session) → Step c (record c { link = link })
  enqueued : (ref : ℕ) (item : Option Bytes) → Step c (push c ref item).0
  pumped :
      (json : Json WindowUpdate) (fails : Option ℕ) (id ref : ℕ)
      → Step c (pump json fails c id ref).0
  took :
      (fuel : ℕ) (win : Option ℕ) (n : ℕ) (c' : CtrlClient) (t : Taken)
      → uplink_take fuel c win n ≡ some (c', t)
      → Step c c'
  sent : (id : ℕ) (bs : Bytes) (e : Ending) → Step c (uplink_send c id bs e).0
  closed : (id : ℕ) (notify : Bool) → Step c (close_conn c id notify)
  dialled :
      (json : Json ClientConnReq) (name stream : Str) → Step c (dial_intranet json c name stream).0
  awaited : (id ref : ℕ) (expired : Bool) → Step c (await_dial c id ref expired).0

pub data Reach (start : CtrlClient) : CtrlClient → Type 0 where
  here : Reach start start
  then_step : {c c' : CtrlClient} → Reach start c → Step c c' → Reach start c'

Step-IsMatched : {c c' : CtrlClient} → Step c c' → IsMatched c → IsMatched c'
Step-IsMatched {c} (handled run msg) h = handle-IsMatched run c msg h
Step-IsMatched {c} (received link) h = linked c link h
Step-IsMatched {c} (enqueued ref item) h = push-IsMatched c ref item h
Step-IsMatched {c} (pumped json fails id ref) h = pump-IsMatched json fails c id ref h
Step-IsMatched {c} (took fuel win n c' t e) h = subst Leaves e (uplink_take-Leaves fuel c win n h)
Step-IsMatched {c} (sent id bs e) h = uplink_send-IsMatched c id bs e h
Step-IsMatched {c} (closed id notify) h = close_conn-IsMatched c id notify h
Step-IsMatched {c} (dialled json name stream) h = dial_intranet-IsMatched json c name stream h
Step-IsMatched {c} (awaited id ref expired) h = await_dial-IsMatched c id ref expired h

pub new-IsMatched : (link : Session) → IsMatched (new_ctrl_client link)
unfolding new_ctrl_client lookup
new-IsMatched link = record {
  win_same = λ id. refl;
  q_same = λ id. refl;
  owner = λ i j ref e f. absurd (ground arith);
  bounded = λ id ref e. absurd (ground arith);
  live = λ id ref e. absurd (ground arith);
}

-- A client that DialCtrl returns, if it returns one.
abbrev Fresh : Result DialError CtrlClient → Type 0
Fresh (ok c) = IsMatched c
Fresh (err e) = Unit {0}

registered-Fresh :
    (c : CtrlClient) (st : RegisterStreamReq) (o : Outcome RegisterStreamAck)
    → IsMatched c
    → Fresh (registered c st o)
unfolding registered enter_stream
registered-Fresh c st (link, err e) h = tt
registered-Fresh c st (link, ok ack) h = elim (Bool-cases ack.accepted) [
  | inl t ↦ rw t (elsewhere c _ refl refl refl refl refl refl refl h)
  | inr t ↦ rw t tt
]

Fresh-bind :
    (r : Result DialError CtrlClient) (k : CtrlClient → Result DialError CtrlClient)
    → Fresh r
    → ((c : CtrlClient) → IsMatched c → Fresh (k c))
    → Fresh (r >>= k)
Fresh-bind (ok c) k h next = next c h
Fresh-bind (err e) k h next = tt

shaken-Fresh : (o : Outcome HandshakeAck) → Fresh (shaken o)
unfolding shaken
shaken-Fresh (link, err e) = tt
shaken-Fresh (link, ok ack) = elim (Bool-cases ack.accepted) [
  | inl t ↦ rw t (new-IsMatched link)
  | inr t ↦ rw t tt
]

module _ (hs_req : Json HandshakeReq) (hs_ack : Json HandshakeAck) (st_req : Json RegisterStreamReq)
    (st_ack : Json RegisterStreamAck) where
  register_all-Fresh :
      (sts : List RegisterStreamReq) (c : CtrlClient)
      → IsMatched c
      → Fresh (register_all st_req st_ack c sts)
  unfolding register_all
  register_all-Fresh [] c h = h
  register_all-Fresh (st ∷ sts) c h =
      Fresh-bind (registered c st (client_register_stream st_req st_ack c.link st))
        (λ c'. register_all st_req st_ack c' sts)
        (registered-Fresh c st (client_register_stream st_req st_ack c.link st) h)
        (register_all-Fresh sts)

  dial_ctrl-Fresh :
      (link : Session) (req : HandshakeReq) (sts : List RegisterStreamReq)
      → Fresh (dial_ctrl hs_req hs_ack st_req st_ack link req sts)
  unfolding dial_ctrl
  dial_ctrl-Fresh link req sts =
      Fresh-bind (shaken (client_handshake hs_req hs_ack link req))
        (λ c. register_all st_req st_ack c sts)
        (shaken-Fresh (client_handshake hs_req hs_ack link req)) (register_all-Fresh sts)

  -- From a client that DialCtrl returned until its session ends, whatever frames come and whatever its pumps and
  -- callers do: the three maps have the same numbers with the same places, no two numbers share
  -- a place, and every connection, window and queue that they hold is open.
  pub Reach-IsMatched :
      (link : Session) (req : HandshakeReq) (sts : List RegisterStreamReq) (start c : CtrlClient)
      → dial_ctrl hs_req hs_ack st_req st_ack link req sts ≡ ok start
      → Reach start c
      → IsMatched c
  Reach-IsMatched link req sts start c e r = history r
    where
      history : {d : CtrlClient} → Reach start d → IsMatched d
      history here = subst Fresh e (dial_ctrl-Fresh link req sts)
      history (then_step r s) = Step-IsMatched s (history r)
