-- ===== src/StarHandler/Tunnel/Tests.antt =====
-- The theorem about both ends of a tunnel at a client that knows the stream, and at one that does not.
use rain_net.Common.{
  ◌≡◌, refl, ◌⊎◌, true, false, some, [], ◌∷◌, arith, Str, codes, ok, err, nat_eq, str_eq,
}
use rain_net.Star.MsgType
use rain_net.Star.Session.{Session, Json, control, decode_control}
use rain_net.Star.Handshake.Agreement.{Carries}
use rain_net.Common.Maps.{lookup}
use rain_net.Star.CtrlClient.{has_stream, CtrlClient, new_ctrl_client}
use rain_net.Star.CtrlClient.Dispatch.{Run, dial_inner}
use rain_net.StarHandler.StreamTable.{StreamEntry}
use rain_net.StarHandler.CtrlHub.{new_ctrl_hub}
use rain_net.StarHandler.Tunnel
use rain_net.StarHandler.Tunnel.{open_over_tunnel}

-- A codec that is right at one value.
abbrev json_for : {A : Type 0} → A → Json A
json_for v = record { marshal = λ x. 0 ∷ []; unmarshal = λ bs. some v }

abbrev json_for-Carries : {A : Type 0} (v : A) → Carries (json_for v) v
json_for-Carries v = record { reads_back = refl; some_text = omega arith; fits = omega arith }

abbrev run : Run
run = record {
  json = record {
    open_req = json_for (record { stream_id = 3; conn_id = 1 });
    open_ack = json_for (record { conn_id = 1; accepted = true; message = [] });
    conn_ack = json_for (record { conn_id = 0; accepted = false; message = [] });
    update = json_for (record { conn_id = 0; delta = 0 });
  };
  unknown_stream = λ n. codes "unknown stream";
  dial_failed = λ name why. why;
  local_dialer = some (λ name. ok tt);
  pick = true;
}

abbrev link : Session
link = record { input = []; output = []; writable = true }

abbrev client : CtrlClient
client = record (new_ctrl_client link) { stream_ids = (3, codes "web") ∷ [] }

abbrev web_entry : StreamEntry
web_entry = record {
  ref = 0;
  assign_id = 3;
  client_proxy_name = codes "home";
  stream_id = codes "web";
  client = 4;
  since = 100;
}

request-Carries : Carries run.json.open_req (Tunnel.request run client new_ctrl_hub 0 web_entry)
unfolding new_ctrl_hub
request-Carries = json_for-Carries (record { stream_id = 3; conn_id = 1 })

answer-Carries : Carries run.json.open_ack (Tunnel.answer run client new_ctrl_hub 0 web_entry)
unfolding new_ctrl_hub new_ctrl_client dial_inner has_stream lookup
answer-Carries = json_for-Carries (record { conn_id = 1; accepted = true; message = [] })

open_over_tunnel_example :
    ((Tunnel.client_after run client new_ctrl_hub 0 web_entry).link
      ≡ Tunnel.answered_link run client new_ctrl_hub 0 web_entry)
    × (decode_control run.json.open_ack (
          control run.json.open_ack MsgType.conn_open_ack
            (Tunnel.answer run client new_ctrl_hub 0 web_entry))
        ≡ ok (Tunnel.answer run client new_ctrl_hub 0 web_entry))
    × (((Tunnel.verdict run client new_ctrl_hub 0 web_entry ≡ ok tt)
          × Tunnel.BothOpen run client new_ctrl_hub 0 web_entry)
        ⊎ ((why : Str) × (Tunnel.verdict run client new_ctrl_hub 0 web_entry ≡ err why)
            × Tunnel.NeitherOpen run client new_ctrl_hub 0 web_entry))
unfolding new_ctrl_client
open_over_tunnel_example =
    open_over_tunnel run client new_ctrl_hub 0 web_entry request-Carries answer-Carries refl
