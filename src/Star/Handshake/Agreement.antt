-- ===== src/Star/Handshake/Agreement.antt =====
-- The two sides of an exchange agree on its outcome.
use rain_net.Common.{
  ℕ, ◌≤◌, ◌<◌, ◌≡◌, refl, ap, ◌∙◌, Bool, true, false, Option, none, some, [], ◌∷◌, ◌++◌, arith,
  if◌then◌else◌, length, Bytes, Result, ok, err,
}
use rain_net.Star.MsgType
use rain_net.Star.Message.{Error, IsSendable, header, max_payload_size, rejected}
use rain_net.Star.Session.{
  Session, Json, control, send_control, decode_control, decode_payload, receive,
}
use rain_net.Star.Session.Laws.{send_lem, receive-frame}
use rain_net.Star.Handshake.{
  HandshakeReq, HandshakeAck, await, answer_handshake, versioned, verified, handshake_ack_for,
  client_handshake, server_handshake_verify,
}

-- What is assumed of encoding/json at one value: it is read back from its text, which is not empty,
-- and the text is no longer than a message may be.
pub record Carries {A : Type 0} (json : Json A) (v : A) : Type 0 where
  pub reads_back : json.unmarshal (json.marshal v) ≡ some v
  pub some_text : 0 < length (json.marshal v)
  pub fits : length (json.marshal v) ≤ max_payload_size

-- The frame of a control message.
abbrev pub control_frame : {A : Type 0} → Json A → ℕ → A → Bytes
control_frame json type v = header (control json type v) ++ (control json type v).payload

module _ {A : Type 0} (json : Json A) (type : ℕ) (v : A) (c : Carries json v) (t : type < 256) where
  control-IsSendable : IsSendable (control json type v)
  control-IsSendable = record {
    type_fits = t;
    flags_fit = omega arith;
    id_fits = omega arith;
    payload_fits = c.fits;
  }

  pub send_control_lem :
      (s : Session)
      → s.writable ≡ true
      → send_control json s type v
        ≡ (record s { output = s.output ++ control_frame json type v }, none)
  unfolding send_control
  send_control_lem s w = send_lem s (control json type v) control-IsSendable w

  decode_nonempty :
      (p : Bytes) → json.unmarshal p ≡ some v → 0 < length p → decode_payload json type p ≡ ok v
  decode_nonempty [] e h = absurd (omega arith)
  decode_nonempty (b ∷ bs) e h = rw e

  pub decode_control_lem : decode_control json (control json type v) ≡ ok v
  unfolding decode_control
  decode_control_lem = decode_nonempty (json.marshal v) c.reads_back c.some_text

  -- The waiting side gets the value that was sent.
  pub await-control_frame :
      (s : Session) (rest : Bytes)
      → s.input ≡ control_frame json type v ++ rest
      → await json type s ≡ (record s { input = rest }, ok v)
  unfolding await
  await-control_frame s rest e =
      rw (receive-frame s (control json type v) rest control-IsSendable e, await)
        (ground (arith, decode_control_lem))

await-output :
    {A : Type 0} (json : Json A) (type : ℕ) (s : Session) → (await json type s).0.output ≡ s.output
unfolding await receive
await-output json type s = ground arith

module _ (req_json : Json HandshakeReq) (ack_json : Json HandshakeAck) where
  -- What the server answers a request with.
  abbrev pub handshake_answer : Option (HandshakeReq → Bool) → HandshakeReq → HandshakeAck
  handshake_answer verify req = handshake_ack_for (verified verify req)

  client_handshake_lem :
      (c : Session) (req : HandshakeReq) (ack : HandshakeAck) (rest : Bytes)
      → c.writable ≡ true
      → Carries req_json (versioned req)
      → Carries ack_json ack
      → c.input ≡ control_frame ack_json MsgType.handshake_ack ack ++ rest
      → client_handshake req_json ack_json c req ≡ (
        record c {
          input = rest;
          output = c.output ++ control_frame req_json MsgType.handshake (versioned req);
        },
        ok ack,
      )
  unfolding client_handshake
  client_handshake_lem c req ack rest w cr ca e =
      rw
        (
          send_control_lem req_json MsgType.handshake (versioned req) cr (omega arith) c w,
          client_handshake,
        )
        (await-control_frame ack_json MsgType.handshake_ack ack ca (omega arith) _ rest e)

  client_handshake-output :
      (c : Session) (req : HandshakeReq)
      → c.writable ≡ true
      → Carries req_json (versioned req)
      → (client_handshake req_json ack_json c req).0.output
        ≡ c.output ++ control_frame req_json MsgType.handshake (versioned req)
  unfolding client_handshake
  client_handshake-output c req w cr =
      rw
        (
          send_control_lem req_json MsgType.handshake (versioned req) cr (omega arith) c w,
          client_handshake,
        )
        (await-output ack_json MsgType.handshake_ack _)

  answer_lem :
      (accepts : Bool) (req : HandshakeReq)
      → ◌≡◌ {A = Result Error HandshakeReq}
          (if (handshake_ack_for accepts).accepted
            then ok req
            else err (rejected (handshake_ack_for accepts).message))
          (if accepts then ok req else err (rejected (handshake_ack_for accepts).message))
  unfolding handshake_ack_for
  answer_lem true req = refl
  answer_lem false req = refl

  answer_handshake_lem :
      (s : Session) (accepts : Bool) (req : HandshakeReq)
      → s.writable ≡ true
      → Carries ack_json (handshake_ack_for accepts)
      → answer_handshake req_json ack_json s accepts req ≡ (
        record s {
          output =
              s.output ++ control_frame ack_json MsgType.handshake_ack (handshake_ack_for accepts);
        },
        (if accepts then ok req else err (rejected (handshake_ack_for accepts).message)),
      )
  unfolding answer_handshake
  answer_handshake_lem s accepts req w ca =
      rw
        (
          send_control_lem ack_json MsgType.handshake_ack (handshake_ack_for accepts) ca
              (omega arith) s w,
          answer_handshake,
        )
        (ap
          (λ r. (
            record s {
              output =
                  s.output
                  ++ control_frame ack_json MsgType.handshake_ack (handshake_ack_for accepts);
            },
            r,
          ))
          (answer_lem accepts req))

  server_handshake_lem :
      (s : Session) (verify : Option (HandshakeReq → Bool)) (req : HandshakeReq) (rest : Bytes)
      → s.writable ≡ true
      → Carries req_json req
      → Carries ack_json (handshake_answer verify req)
      → s.input ≡ control_frame req_json MsgType.handshake req ++ rest
      → server_handshake_verify req_json ack_json s verify ≡ (
        record s {
          input = rest;
          output =
              s.output
              ++ control_frame ack_json MsgType.handshake_ack (handshake_answer verify req);
        },
        (if verified verify req
            then ok req
            else err (rejected (handshake_answer verify req).message)),
      )
  unfolding server_handshake_verify
  server_handshake_lem s verify req rest w cr ca e =
      rw
        (
          await-control_frame req_json MsgType.handshake req cr (omega arith) s rest e,
          server_handshake_verify,
        )
        (answer_handshake_lem (record s { input = rest }) (verified verify req) req w ca)

  -- On connections that take writes and whose texts JSON carries, a handshake succeeds on both sides
  -- or fails on both: the client gets the server's answer, which accepts exactly what `verify` does,
  -- and the server returns the request or the refusal. Neither reads past the other's frame.
  pub handshake_agrees :
      (c s : Session) (req : HandshakeReq) (verify : Option (HandshakeReq → Bool))
      (to_server to_client : Bytes)
      → c.writable ≡ true
      → s.writable ≡ true
      → Carries req_json (versioned req)
      → Carries ack_json (handshake_answer verify (versioned req))
      → c.output ≡ []
      → s.output ≡ []
      → s.input ≡ (client_handshake req_json ack_json c req).0.output ++ to_server
      → c.input ≡ (server_handshake_verify req_json ack_json s verify).0.output ++ to_client
      → ((client_handshake req_json ack_json c req).1
          ≡ ok (handshake_answer verify (versioned req)))
        × ((server_handshake_verify req_json ack_json s verify).1 ≡ (
            if verified verify (versioned req)
            then ok (versioned req)
            else err (rejected (handshake_answer verify (versioned req)).message)))
        × ((client_handshake req_json ack_json c req).0.input ≡ to_client)
        × ((server_handshake_verify req_json ack_json s verify).0.input ≡ to_server)
  handshake_agrees c s req verify to_server to_client wc ws cr ca fc fs es ec =
      let sent = client_handshake-output c req wc cr in
      let got : s.input ≡ control_frame req_json MsgType.handshake (versioned req) ++ to_server =
        es
        ∙ ap (λ o. o ++ to_server)
            (sent ∙ ap (λ o. o ++ control_frame req_json MsgType.handshake (versioned req)) fc) in
      let server = server_handshake_lem s verify (versioned req) to_server ws cr ca got in
      let answered : c.input
          ≡ control_frame ack_json MsgType.handshake_ack (handshake_answer verify (versioned req))
            ++ to_client =
        ec
        ∙ ap (λ o. o ++ to_client)
            (ap (λ r. r.0.output) server
              ∙ ap
                  (λ o.
                    o
                    ++ control_frame ack_json MsgType.handshake_ack
                        (handshake_answer verify (versioned req)))
                  fs) in
      let client =
        client_handshake_lem c req (handshake_answer verify (versioned req)) to_client wc cr ca
          answered in
      (
        ap (λ r. r.1) client,
        ap (λ r. r.1) server,
        ap (λ r. r.0.input) client,
        ap (λ r. r.0.input) server,
      )
