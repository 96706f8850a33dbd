-- ===== src/Star/CtrlClient/Dial.antt =====
-- ctrlclient.go: DialCtrl over a connection that stands, and DialIntranet.
use rain_net.Common.{
  ℕ, ◌+◌, bit_or, Bool, Option, none, some, List, [], ◌∷◌, ◌++◌, leb, if◌then◌else◌, Str, nat_eq,
  str_eq, Result, ok, err, ◌>>=◌,
}
use rain_net.Common.Maps.{lookup, insert, erase}
use rain_net.Star.MsgType
use rain_net.Star.Message.{Error}
use rain_net.Star.Handshake.{
  HandshakeReq, HandshakeAck, RegisterStreamReq, RegisterStreamAck, ClientConnReq, Outcome,
  client_handshake, client_register_stream,
}
use rain_net.Star.Session.{Session, Json, send_control}
use rain_net.Star.StreamHub.{new_stream_conn}
use rain_net.Star.CtrlClient.{CtrlClient, new_ctrl_client}

-- Why DialCtrl gives up; the connection is closed in each case.
pub data DialError : Type 0 where
  handshake_failed : Error → DialError
  handshake_rejected : Str → DialError
  register_failed : Str → Error → DialError
  register_rejected : Str → Str → DialError

-- The key of a pair of names, joined by a zero byte.
abbrev pub pair_key : Str → Str → Str
pair_key name stream_id = name ++ (0 ∷ stream_id)

unfoldable pub enter_stream : CtrlClient → RegisterStreamReq → ℕ → CtrlClient
enter_stream c st id = record c {
  streams = insert st.stream_id id c.streams;
  stream_ids = insert id st.stream_id c.stream_ids;
  pairs = insert (pair_key st.client_proxy_name st.stream_id) tt c.pairs;
}

unfoldable pub registered :
    CtrlClient → RegisterStreamReq → Outcome RegisterStreamAck → Result DialError CtrlClient
unfolding enter_stream
registered c st (link, err e) = err (register_failed st.stream_id e)
registered c st (link, ok ack) =
    if ack.accepted
    then ok (enter_stream (record c { link = link }) st ack.assign_id)
    else err (register_rejected st.stream_id ack.message)

module _ (req_json : Json RegisterStreamReq) (ack_json : Json RegisterStreamAck) where
  unfoldable pub register_all : CtrlClient → List RegisterStreamReq → Result DialError CtrlClient
  unfolding registered
  register_all c [] = ok c
  register_all c (st ∷ sts) = do
    c' ← registered c st (client_register_stream req_json ack_json c.link st)
    register_all c' sts

unfoldable pub shaken : Outcome HandshakeAck → Result DialError CtrlClient
shaken (link, err e) = err (handshake_failed e)
shaken (link, ok ack) =
    if ack.accepted then ok (new_ctrl_client link) else err (handshake_rejected ack.message)

unfoldable pub dial_ctrl :
    Json HandshakeReq
    → Json HandshakeAck
    → Json RegisterStreamReq
    → Json RegisterStreamAck
    → Session
    → HandshakeReq
    → List RegisterStreamReq
    → Result DialError CtrlClient
unfolding shaken register_all
dial_ctrl hs_req hs_ack st_req st_ack link req streams = do
  c ← shaken (client_handshake hs_req hs_ack link req)
  register_all st_req st_ack c streams

-- Where a call of DialIntranet stands: it waits for the answer under a number, it returned the
-- connection at a place, or it failed.
pub data Dialing : Type 0 where
  waiting : ℕ → ℕ → Dialing
  dialled : ℕ → Dialing
  not_registered exhausted send_failed timed_out : Dialing
  rejected : Str → Dialing

-- connID := uint32(0x80000000) | c.dialSeq
abbrev pub dial_id : ℕ → ℕ
dial_id seq = bit_or 0x80000000 seq

abbrev pub numbered : CtrlClient → CtrlClient
numbered c = record c {
  dial_seq = c.dial_seq + 1;
  dial_conns = insert (dial_id (c.dial_seq + 1)) c.allocated c.dial_conns;
  dial_acks = insert (dial_id (c.dial_seq + 1)) c.allocated c.dial_acks;
  dials = insert c.allocated (new_stream_conn (dial_id (c.dial_seq + 1))) c.dials;
  allocated = c.allocated + 1;
}

unfoldable pub cleanup : CtrlClient → ℕ → CtrlClient
cleanup c conn_id = record c {
  dial_conns = erase conn_id c.dial_conns;
  dial_acks = erase conn_id c.dial_acks;
}

unfoldable pub requested : CtrlClient → ℕ → ℕ → Session × Option Error → CtrlClient × Dialing
unfolding cleanup
requested c conn_id ref (link, none) = (record c { link = link }, waiting conn_id ref)
requested c conn_id ref (link, some e) = (cleanup (record c { link = link }) conn_id, send_failed)

-- DialIntranet up to its `select`.
unfoldable pub dial_intranet : Json ClientConnReq → CtrlClient → Str → Str → CtrlClient × Dialing
unfolding requested
dial_intranet json c name stream_id = elim (lookup (pair_key name stream_id) c.pairs) [
  | none ↦ (c, not_registered)
  | some _ ↦
      let conn_id = dial_id (c.dial_seq + 1) in
      if leb 0x7fffffff c.dial_seq
      then (c, exhausted)
      else requested (numbered c) conn_id c.allocated (
          send_control json c.link MsgType.client_conn_req
            (record { conn_id = conn_id; client_proxy_name = name; stream_id = stream_id }))
]

-- The rest: the answer is taken from its channel, or the context is done.
unfoldable pub await_dial : CtrlClient → ℕ → ℕ → Bool → CtrlClient × Dialing
unfolding cleanup
await_dial c conn_id ref expired =
    if expired then (cleanup c conn_id, timed_out) else elim (lookup ref c.mail) [
      | none ↦ (c, waiting conn_id ref)
      | some ack ↦
          if ack.accepted then (c, dialled ref) else (cleanup c conn_id, rejected ack.message)
    ]
