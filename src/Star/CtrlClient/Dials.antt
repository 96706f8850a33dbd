-- ===== src/Star/CtrlClient/Dials.antt =====
-- ctrlclient.go: DialIntranet, from its request to the answer that Run passes on.
use rain_net.Common.{
  ℕ, ◌+◌, ◌^◌, ◌<◌, ◌≡◌, refl, sym, ap, subst, ◌∙◌, ◌⊎◌, inl, inr, true, false, none, some, ◌++◌,
  arith, leb, nat_beq_iff, Bool-cases, Str, nat_eq, str_eq,
}
use rain_net.Common.Bits.{bit_or-high}
use rain_net.Common.Maps.{lookup, insert, erase, lookup-insert, lookup-erase}
use rain_net.Star.MsgType
use rain_net.Star.Session.{Json, control}
use rain_net.Star.Handshake.{ClientConnReq, ClientConnAck}
use rain_net.Star.Handshake.Agreement.{Carries, control_frame, send_control_lem, decode_control_lem}
use rain_net.Star.StreamHub.{new_stream_conn}
use rain_net.Star.CtrlClient.{CtrlClient, dial_conn}
use rain_net.Star.CtrlClient.Dial.{
  waiting, dialled, rejected, timed_out, dial_intranet, await_dial, requested, cleanup, numbered,
  dial_id, pair_key,
}
use rain_net.Star.CtrlClient.Dispatch.{Run, handle, on_conn_ack, deliver_ack}

-- The high bit is set, and nothing else is changed.
dial_id_lem : (seq : ℕ) → seq < 2 ^ 31 → dial_id seq ≡ 2 ^ 31 + seq
dial_id_lem seq h = bit_or-high 31 seq h

module _ (run : Run) (json : Json ClientConnReq) (c : CtrlClient) (name stream : Str)
    (pair : lookup (pair_key name stream) c.pairs ≡ some tt) (left : c.dial_seq < 0x7fffffff) where
  abbrev pub number : ℕ
  number = dial_id (c.dial_seq + 1)

  abbrev pub request : ClientConnReq
  request = record { conn_id = number; client_proxy_name = name; stream_id = stream }

  abbrev pub asked : CtrlClient
  asked = record (numbered c) {
    link = record c.link {
      output = c.link.output ++ control_frame json MsgType.client_conn_req request;
    };
  }

  dial_asked :
      c.link.writable ≡ true
      → Carries json request
      → dial_intranet json c name stream ≡ (asked, waiting number c.allocated)
  unfolding dial_intranet
  dial_asked up texts =
      let room : leb 0x7fffffff c.dial_seq ≡ false = ground arith in
      rw (pair, room, dial_intranet)
        (ap (requested (numbered c) number c.allocated)
            (send_control_lem json MsgType.client_conn_req request texts (omega arith) c.link up)
          ∙ refl)

  -- The client when Run has passed the answer on.
  abbrev pub answered : ClientConnAck → CtrlClient
  answered ack = (handle run asked (control run.json.conn_ack MsgType.client_conn_ack ack)).0

  abbrev delivered : ClientConnAck → CtrlClient
  delivered ack = record asked {
    dial_acks = erase ack.conn_id asked.dial_acks;
    mail = insert c.allocated ack c.mail;
  }

  asked_ack :
      (ack : ClientConnAck)
      → ack.conn_id ≡ number
      → lookup ack.conn_id asked.dial_acks ≡ some c.allocated
  asked_ack ack same = ground (
    arith,
    lookup-insert number ack.conn_id c.allocated c.dial_acks,
    nat_beq_iff number ack.conn_id,
  )

  answered-delivered :
      (ack : ClientConnAck)
      → ack.conn_id ≡ number
      → Carries run.json.conn_ack ack
      → answered ack ≡ delivered ack
  unfolding handle on_conn_ack
  answered-delivered ack same texts =
      rw
        (
          decode_control_lem run.json.conn_ack MsgType.client_conn_ack ack texts (omega arith),
          on_conn_ack,
        )
        (rw (asked_ack ack same, deliver_ack) refl)

  delivered_mail : (ack : ClientConnAck) → lookup c.allocated (delivered ack).mail ≡ some ack
  delivered_mail ack =
      ground (
        arith,
        lookup-insert c.allocated c.allocated ack c.mail,
        nat_beq_iff c.allocated c.allocated,
      )

  delivered-dial_conn :
      (ack : ClientConnAck)
      → dial_conn (delivered ack) number ≡ some (c.allocated, new_stream_conn number)
  unfolding dial_conn
  delivered-dial_conn ack = ground (
    arith,
    lookup-insert number number c.allocated c.dial_conns,
    lookup-insert c.allocated c.allocated (new_stream_conn number) c.dials,
    nat_beq_iff number number,
    nat_beq_iff c.allocated c.allocated,
  )

  -- What a caller that is not let in leaves: no connection and no channel under its number.
  abbrev pub Forgotten : CtrlClient → Type 0
  Forgotten d = (lookup number d.dial_conns ≡ none) × (lookup number d.dial_acks ≡ none)

  cleanup-Forgotten : (d : CtrlClient) → Forgotten (cleanup d number)
  unfolding cleanup
  cleanup-Forgotten d = ground (
    arith,
    lookup-erase number number d.dial_conns,
    lookup-erase number number d.dial_acks,
    nat_beq_iff number number,
  )

  let_in :
      (ack : ClientConnAck) (d : CtrlClient)
      → lookup c.allocated d.mail ≡ some ack
      → ack.accepted ≡ true
      → await_dial d number c.allocated false ≡ (d, dialled c.allocated)
  unfolding await_dial
  let_in ack d at accepted = rw (at, accepted, await_dial) refl

  turned_away :
      (ack : ClientConnAck) (d : CtrlClient)
      → lookup c.allocated d.mail ≡ some ack
      → ack.accepted ≡ false
      → await_dial d number c.allocated false ≡ (cleanup d number, rejected ack.message)
  unfolding await_dial
  turned_away ack d at refused = rw (at, refused, await_dial) refl

  -- How a call ends for its answer: the connection that stands under the number, or the message and nothing left.
  abbrev pub Ends : ClientConnAck → Type 0
  Ends ack =
      ((ack.accepted ≡ true)
        × (await_dial (answered ack) number c.allocated false ≡ (answered ack, dialled c.allocated))
        × (dial_conn (answered ack) number ≡ some (c.allocated, new_stream_conn number)))
      ⊎ ((ack.accepted ≡ false)
          × ((await_dial (answered ack) number c.allocated false).1 ≡ rejected ack.message)
          × Forgotten (await_dial (answered ack) number c.allocated false).0)

  ends : (ack : ClientConnAck) → ack.conn_id ≡ number → Carries run.json.conn_ack ack → Ends ack
  ends ack same carried =
      let e = answered-delivered ack same carried in
      let mail = ap (λ d. lookup c.allocated d.mail) e ∙ delivered_mail ack in
      elim (Bool-cases ack.accepted) [
        | inl accepted ↦ inl (
          accepted,
          let_in ack (answered ack) mail accepted,
          ap (λ d. dial_conn d number) e ∙ delivered-dial_conn ack,
        )
        | inr refused ↦
            let out = turned_away ack (answered ack) mail refused in
            inr (
              refused,
              ap (λ r. r.1) out,
              subst (λ r. Forgotten r.0) (sym out) (cleanup-Forgotten (answered ack)),
            )
      ]

  -- DialIntranet of a registered pair, while numbers are left, on a session that takes its request: the
  -- request goes out under the next number counted from 2 ^ 31 on, which fits 32 bits. When the answer
  -- to that number comes in, an accepted call returns the connection that stands under it, and a refused
  -- one the message; a refused call, and one that runs out of time, leave nothing under it.
  pub dial_intranet_lem :
      (ack : ClientConnAck)
      → c.link.writable ≡ true
      → Carries json request
      → ack.conn_id ≡ number
      → Carries run.json.conn_ack ack
      → (dial_intranet json c name stream ≡ (asked, waiting number c.allocated))
        × (number ≡ 2 ^ 31 + (c.dial_seq + 1))
        × (number < 2 ^ 32)
        × Ends ack
        × ((await_dial asked number c.allocated true).1 ≡ timed_out)
        × Forgotten (await_dial asked number c.allocated true).0
  unfolding await_dial
  dial_intranet_lem ack up texts same carried = (
    dial_asked up texts,
    dial_id_lem (c.dial_seq + 1) (omega arith),
    omega (arith, dial_id_lem (c.dial_seq + 1) (omega arith)),
    ends ack same carried,
    refl,
    cleanup-Forgotten asked,
  )
