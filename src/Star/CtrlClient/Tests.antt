-- ===== src/Star/CtrlClient/Tests.antt =====
-- Runs of a client over one connection, and the theorems about clients at these.
use rain_net.Star.CtrlClient.Dials.{dial_intranet_lem}
use rain_net.Common.{
  ℕ, ◌+◌, ◌^◌, ◌<◌, ◌≡◌, refl, true, none, some, [], ◌∷◌, ◌++◌, arith, codes, str_beq, nat_eq,
  str_eq, Result, ok, err, read_full,
}
use rain_net.Common.Maps.{lookup, insert}
use rain_net.Star.MsgType
use rain_net.Star.Message.{header, read_message, write_message, Message}
use rain_net.Star.Session.{receive, send_control, Session, Json, send, control, decode_control}
use rain_net.Star.Handshake.{
  client_register_stream, await, client_handshake, HandshakeReq, HandshakeAck, RegisterStreamReq,
  RegisterStreamAck, WindowUpdate, ConnOpenReq, ClientConnReq, ClientConnAck,
}
use rain_net.Star.Handshake.Agreement.{Carries, control_frame}
use rain_net.Star.CtrlClient.{CtrlClient, new_ctrl_client, close_conn, close_frame}
use rain_net.Star.CtrlClient.Pumps.{
  pump_queue, pump_item, write_inner, is_shut, push, pushed, panics, item_of, pump, goes_on,
}
use rain_net.Star.CtrlClient.Dial.{
  timed_out, await_dial, waiting, dial_intranet, DialError, dial_ctrl, pair_key,
}
use rain_net.Star.CtrlClient.Dispatch.{Run, handle, enter}
use rain_net.Star.CtrlClient.Invariant.{IsMatched, enter-IsMatched}
use rain_net.Star.CtrlClient.Invariant.History.{
  Reach, here, then_step, handled, new-IsMatched, Reach-IsMatched,
}
use rain_net.Star.CtrlClient.Closing.{IsGone, push-close_conn, close_conn-IsGone}
use rain_net.Star.CtrlClient.Dials
use rain_net.Star.CtrlClient.Downlink.{stream, Works, at_rest, puts, rounds, Works-stream}

-- A codec that is right at one value.
abbrev json_for : {A : Type 0} → A → Json A
json_for v = record { marshal = λ x. 0 ∷ []; unmarshal = λ bs. some v }

abbrev json_for-Carries : {A : Type 0} (v : A) → Carries (json_for v) v
json_for-Carries v = record { reads_back = refl; some_text = omega arith; fits = omega arith }

abbrev ask : ConnOpenReq
ask = record { stream_id = 3; conn_id = 9 }

abbrev accepted : ClientConnAck
accepted = record { conn_id = 0x80000001; accepted = true; message = [] }

abbrev run : Run
run = record {
  json = record {
    open_req = json_for ask;
    open_ack = json_for (record { conn_id = 9; accepted = true; message = [] });
    conn_ack = json_for accepted;
    update = json_for (record { conn_id = 9; delta = 5 });
  };
  unknown_stream = λ n. codes "unknown stream";
  dial_failed = λ name why. why;
  local_dialer = some (λ name. ok tt);
  pick = true;
}

abbrev welcome : HandshakeAck
welcome = record { accepted = true; message = [] }

abbrev given : RegisterStreamAck
given = record { accepted = true; stream_id = codes "web"; assign_id = 3; message = [] }

abbrev web : RegisterStreamReq
web = record { client_proxy_name = codes "home"; stream_id = codes "web" }

abbrev hello : HandshakeReq
hello = record { version = 1; client_name = codes "home"; key_password = codes "pw" }

-- The server accepts the client and its stream.
abbrev server_side : Session
server_side = record {
  input =
      control_frame (json_for welcome) MsgType.handshake_ack welcome
      ++ control_frame (json_for given) MsgType.register_stream_ack given;
  output = [];
  writable = true;
}

abbrev started : Result DialError CtrlClient
started =
    dial_ctrl (json_for hello) (json_for welcome) (json_for web) (json_for given) server_side hello
      (web ∷ [])

abbrev client_of : Result DialError CtrlClient → CtrlClient
client_of (ok c) = c
client_of (err e) = new_ctrl_client server_side

abbrev start : CtrlClient
start = client_of started

registers : start.streams ≡ (codes "web", 3) ∷ []
unfolding dial_ctrl new_ctrl_client insert client_handshake send_control send write_message await
    receive read_message read_full header decode_control client_register_stream
registers = refl

abbrev ask_frame : Message
ask_frame = control run.json.open_req MsgType.conn_open ask

abbrev opened : CtrlClient
opened = (handle run start ask_frame).0

abbrev history : Reach start (handle run opened (close_frame 9)).0
history = then_step (then_step here (handled run ask_frame)) (handled run (close_frame 9))

started_well : started ≡ ok start
unfolding dial_ctrl client_handshake send_control send write_message await receive read_message
    read_full header decode_control client_register_stream new_ctrl_client
started_well = refl

Reach-IsMatched_example : IsMatched (handle run opened (close_frame 9)).0
Reach-IsMatched_example =
    Reach-IsMatched (json_for hello) (json_for welcome) (json_for web) (json_for given) server_side
      hello (web ∷ []) start (handle run opened (close_frame 9)).0 started_well history

-- A client with connection 9 at place 0.
abbrev link : Session
link = record { input = []; output = []; writable = true }

abbrev connected : CtrlClient
connected = enter (new_ctrl_client link) 9

connected-IsMatched : IsMatched connected
connected-IsMatched = enter-IsMatched (new_ctrl_client link) 9 (new-IsMatched link)

at_zero : lookup 9 connected.conns ≡ some 0
unfolding enter new_ctrl_client lookup insert
at_zero = refl

queue_at_zero : lookup 9 connected.conns_q ≡ some 0
unfolding enter new_ctrl_client lookup insert
queue_at_zero = refl

push-close_conn_example : (push (close_conn connected 9 true) 0 (some (codes "hi"))).1 ≡ panics
push-close_conn_example =
    push-close_conn connected 9 0 true (some (codes "hi")) connected-IsMatched queue_at_zero

close_conn-IsGone_example : IsGone connected (close_conn connected 9 true) 9 0 true
close_conn-IsGone_example = close_conn-IsGone connected 9 0 true connected-IsMatched at_zero

-- One payload goes into the queue and is written.
abbrev json : Json WindowUpdate
json = json_for (record { conn_id = 9; delta = 2 })

abbrev filled : CtrlClient
filled = (push connected 0 (item_of (codes "hi"))).0

goes_in : (push connected 0 (item_of (codes "hi"))).1 ≡ pushed
unfolding push enter new_ctrl_client lookup insert
goes_in = refl

is_written : (pump json none filled 9 0).1 ≡ goes_on
unfolding push pump pump_queue pump_item write_inner is_shut enter new_ctrl_client lookup insert
is_written = refl

abbrev at_work : Works json 9 0 connected (codes "hi") (pump json none filled 9 0).0
at_work = rounds (puts (codes "hi") at_rest goes_in) is_written

Works-stream_example : stream (pump json none filled 9 0).0 0 ≡ stream connected 0 ++ codes "hi"
Works-stream_example =
    Works-stream json 9 0 connected (pump json none filled 9 0).0 (codes "hi") at_work

-- A client with one registered pair dials through the tunnel.
abbrev home : CtrlClient
home = record (new_ctrl_client link) { pairs = (pair_key (codes "home") (codes "web"), tt) ∷ [] }

abbrev request : ClientConnReq
request = record { conn_id = 0x80000001; client_proxy_name = codes "home"; stream_id = codes "web" }

is_pair : lookup (pair_key (codes "home") (codes "web")) home.pairs ≡ some tt
unfolding lookup str_beq
is_pair = refl

seq_left : home.dial_seq < 0x7fffffff
unfolding new_ctrl_client
seq_left = omega arith

dial_intranet_lem_example :
    (dial_intranet (json_for request) home (codes "home") (codes "web") ≡ (
      Dials.asked run (json_for request) home (codes "home") (codes "web") is_pair seq_left,
      waiting 0x80000001 0,
    ))
    × (◌≡◌ {A = ℕ} 0x80000001 (2 ^ 31 + 1))
    × (0x80000001 < 2 ^ 32)
    × Dials.Ends run (json_for request) home (codes "home") (codes "web") is_pair seq_left accepted
    × ((await_dial
          (Dials.asked run (json_for request) home (codes "home") (codes "web") is_pair seq_left)
          0x80000001
          0
          true).1
        ≡ timed_out)
    × Dials.Forgotten run
        (json_for request)
        home
        (codes "home")
        (codes "web")
        is_pair
        seq_left
        (await_dial
          (Dials.asked run (json_for request) home (codes "home") (codes "web") is_pair seq_left)
          0x80000001
          0
          true).0
unfolding new_ctrl_client
dial_intranet_lem_example =
    dial_intranet_lem run (json_for request) home (codes "home") (codes "web") is_pair seq_left
      accepted refl (json_for-Carries request) refl (json_for-Carries accepted)
