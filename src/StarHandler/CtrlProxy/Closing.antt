-- ===== src/StarHandler/CtrlProxy/Closing.antt =====
-- What close frames and the end of a session do to connections and streams.
use rain_net.Common.{
  ℕ, ◌≡◌, refl, sym, ap, subst, ◌∙◌, ◌⊎◌, inl, inr, Bool, true, false, Option, none, some, List, [],
  ◌∷◌, arith, nat_beq, Bool-cases, Option-cases, nat_eq, str_eq,
}
use rain_net.Common.Maps.{lookup}
use rain_net.Star.MsgType
use rain_net.Star.Message.{Message, is_half_close, half_close}
use rain_net.Star.StreamHub
use rain_net.Star.StreamHub.{StreamHub}
use rain_net.Star.StreamHub.Feed.{feed, feed_close, session_closed, not_mine}
use rain_net.StarHandler.StreamTable.{get, remove_by_client}
use rain_net.StarHandler.StreamTable.Invariant.{IsConsistent, get-remove}
use rain_net.StarHandler.StreamTable.Disconnect.{remove_by_client_lem, others}
use rain_net.StarHandler.CtrlHub.Invariant.{find_conn-cases}
use rain_net.StarHandler.CtrlHub.Delivery.{closed_once}
use rain_net.StarHandler.CtrlHub.Disconnect.{close_conns_by_client_lem}
use rain_net.StarHandler.CtrlHub.{
  remove_conn, close_each, close_one, CtrlHub, ConnEntry, has_conn, client_closed,
  close_conns_by_client, carried_by,
}
use rain_net.StarHandler.CtrlProxy.{Serving, full_close, with_hub}
use rain_net.StarHandler.CtrlProxy.Dispatch.{after_feed, Run, handle, switch, on_close, disconnect}

abbrev pub close_frame : ℕ → Message
close_frame id = record { type = MsgType.stream_close; flags = 0; stream_id = id; payload = [] }

feed_close-none :
    (pick : Bool) (h : StreamHub) (m : Message)
    → StreamHub.get h m.stream_id ≡ none
    → feed_close pick h m ≡ (h, not_mine)
unfolding feed_close
feed_close-none pick h m p = rw (p, feed_close) refl

full_close-none :
    (hub : CtrlHub) (id : ℕ) → has_conn hub id ≡ false → get (full_close hub id).streams id ≡ none
unfolding full_close
full_close-none hub id p = rw (p, full_close) (ground (arith, get-remove hub.streams id id))

-- A full close of a number under which neither the feed nor the hub has a connection takes the
-- stream of that number off the table, whichever client registered it.
pub handle-close_frame :
    (run : Run) (s : Serving) (id : ℕ)
    → StreamHub.get s.feed id ≡ none
    → has_conn s.hub id ≡ false
    → get (handle run s (close_frame id)).0.hub.streams id ≡ none
unfolding handle feed switch on_close is_half_close
handle-close_frame run s id no_feed no_conn =
    ap (λ r. get (after_feed run s (close_frame id) r).0.hub.streams id)
      (feed_close-none run.pick s.feed (close_frame id) no_feed)
    ∙ full_close-none s.hub id no_conn

half_closed :
    (run : Run) (s : Serving) (id : ℕ)
    → StreamHub.get s.feed id ≡ none
    → (handle run s (half_close id)).0 ≡ with_hub s (client_closed s.hub id).0
unfolding handle feed switch on_close is_half_close half_close
half_closed run s id no_feed =
    ap (λ r. (after_feed run s (half_close id) r).0)
      (feed_close-none run.pick s.feed (half_close id) no_feed)

-- A connection that the client half-closes and then closes takes the stream that happens to have the
-- connection's number off the table, since its half close has already taken it off the hub.
pub handle-half_close :
    (run : Run) (s : Serving) (id : ℕ)
    → StreamHub.get s.feed id ≡ none
    → get (handle run (handle run s (half_close id)).0 (close_frame id)).0.hub.streams id ≡ none
handle-half_close run s id no_feed =
    subst (λ t. get (handle run t (close_frame id)).0.hub.streams id ≡ none)
      (sym (half_closed run s id no_feed))
      (handle-close_frame run (with_hub s (client_closed s.hub id).0) id no_feed
        (closed_once s.hub id).0.0)

remove_conn-streams : (h : CtrlHub) (id : ℕ) → (remove_conn h id).streams ≡ h.streams
unfolding remove_conn
remove_conn-streams h id = elim (find_conn-cases h id) [
  | inl f ↦ rw (f, remove_conn) refl
  | inr (r, d, f, q, at) ↦ rw (f, remove_conn) refl
]

close_each-streams :
    (session : ℕ) (items : List (ℕ × ℕ)) (acc : CtrlHub × ℕ)
    → (close_each session items acc).0.streams ≡ acc.0.streams
unfolding close_each close_one
close_each-streams session [] acc = refl
close_each-streams session ((id, ref) ∷ items) acc =
    close_each-streams session items (close_one session id ref acc)
    ∙ elim (Option-cases (lookup ref acc.0.heap)) [
      | inl p ↦ rw (p, close_one) refl
      | inr (e, p) ↦
          rw (p, close_one)
            (elim (Bool-cases (carried_by acc.0 session e)) [
              | inl t ↦ rw t (remove_conn-streams acc.0 id)
              | inr t ↦ rw t refl
            ])
    ]

-- Whether the number leads to a connection whose stream is in the table and was registered by the session.
abbrev pub carries : CtrlHub → ℕ → ℕ → Bool
carries h session id = elim (lookup id h.conns) [
  | none ↦ false
  | some ref ↦ elim (lookup ref h.heap) [
    | none ↦ false
    | some e ↦ elim (get h.streams e.stream_id) [
      | none ↦ false
      | some entry ↦ nat_beq entry.client session
    ]
  ]
]

carries-gone :
    (h : CtrlHub) (session id : ℕ)
    → (carries h session id ≡ false) ⊎ (lookup id (close_conns_by_client h session).0.conns ≡ none)
carries-gone h session id = by_place (lookup id h.conns) refl
  where
    by_entry :
        (ref : ℕ)
        → lookup id h.conns ≡ some ref
        → (o : Option ConnEntry) → lookup ref h.heap ≡ o
        → ((elim o as (λ x. Bool) [ none ↦ false | some e ↦ carried_by h session e ]) ≡ false)
          ⊎ (lookup id (close_conns_by_client h session).0.conns ≡ none)
    by_entry ref at none place = inl refl
    by_entry ref at (some e) place = elim (Bool-cases (carried_by h session e)) [
      | inl mine ↦ inr (close_conns_by_client_lem h session id ref e at place mine)
      | inr theirs ↦ inl theirs
    ]

    by_place :
        (o : Option ℕ)
        → lookup id h.conns ≡ o
        → ((elim o as (λ x. Bool) [
          | none ↦ false
          | some ref ↦ elim (lookup ref h.heap) as (λ x. Bool) [
            | none ↦ false
            | some e ↦ carried_by h session e
          ]
        ])
            ≡ false)
          ⊎ (lookup id (close_conns_by_client h session).0.conns ≡ none)
    by_place none at = inl refl
    by_place (some ref) at = by_entry ref at (lookup ref h.heap) refl

-- When a control session ends, whether or not it carries a connection: the streams of its client and no
-- others leave the table, no number is left that led to a connection whose stream was still in the table
-- and registered by that session, and its feed takes no new connections.
pub disconnect_lem :
    (session : ℕ) (s : Serving) (j id : ℕ)
    → IsConsistent s.hub.streams
    → (get (disconnect session s).hub.streams j ≡ others session (get s.hub.streams j))
      × ((carries s.hub session id ≡ false) ⊎ (lookup id (disconnect session s).hub.conns ≡ none))
      × ((disconnect session s).feed.dead ≡ true)
unfolding disconnect session_closed close_conns_by_client
disconnect_lem session s j id c =
    let same = close_each-streams session s.hub.conns (s.hub, 0) in
    (
      ap (λ t. get (remove_by_client t session).0 j) same
          ∙ (remove_by_client_lem s.hub.streams session j c).1,
      carries-gone s.hub session id,
      elim (Bool-cases s.feed.dead) [ inl t ↦ ground arith | inr t ↦ ground arith ],
    )
