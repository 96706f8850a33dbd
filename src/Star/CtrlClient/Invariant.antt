-- ===== src/Star/CtrlClient/Invariant.antt =====
-- ctrlclient.go: the three maps of a client's connections stay in step, and what they hold is open.
pub mod Steps
pub mod Uplink
pub mod Frames
pub mod History
use rain_net.Common.{
  ℕ, ◌<◌, ◌≡◌, refl, sym, ap, inl, inr, Bool, false, Option, none, some, nat_beq, nat_beq_iff,
  Bool-cases, Option-cases, nat_eq, str_eq, ◌≤◌, subst, ◌∙◌, ◌≢◌, true, arith, if◌then◌else◌,
}
use rain_net.Common.Maps.{lookup-erase, erase, Map, lookup, insert, lookup-insert}
use rain_net.Star.Window.{new_window, default_stream_window, Window}
use rain_net.Star.Window
use rain_net.Star.CtrlClient.Dispatch.{enter}
use rain_net.Star.CtrlClient.{
  close_queue, close_inner, Message, close_frame, send_frame, take_off, shut, close_conn,
  CtrlClient, Inner, Queue, adjust,
}

-- A place that holds a value which is not closed.
abbrev pub Open : {V : Type 0} → (V → Bool) → Option V → Type 0
Open is_closed none = ⊥
Open is_closed (some v) = is_closed v ≡ false

pub record IsOpen (c : CtrlClient) (ref : ℕ) : Type 0 where
  pub inner_open : Open (λ (i : Inner). i.closed) (lookup ref c.inner)
  pub window_open : Open (λ (w : Window). w.closed) (lookup ref c.wins)
  pub queue_open : Open (λ (q : Queue). q.closed) (lookup ref c.queues)

pub record IsMatched (c : CtrlClient) : Type 0 where
  pub win_same : (id : ℕ) → lookup id c.conns_win ≡ lookup id c.conns
  pub q_same : (id : ℕ) → lookup id c.conns_q ≡ lookup id c.conns
  pub owner : (i j ref : ℕ) → lookup i c.conns ≡ some ref → lookup j c.conns ≡ some ref → i ≡ j
  pub bounded : (id ref : ℕ) → lookup id c.conns ≡ some ref → ref < c.allocated
  pub live : (id ref : ℕ) → lookup id c.conns ≡ some ref → IsOpen c ref

module _ {V : Type 0} (is_closed : V → Bool) where
  -- A new value need be open only at the place it goes to.
  pub insert-Open :
      (at ref : ℕ) (v : V) (m : Map ℕ V)
      → (at ≡ ref → is_closed v ≡ false)
      → Open is_closed (lookup ref m)
      → Open is_closed (lookup ref (insert at v m))
  insert-Open at ref v m fresh h = elim (Bool-cases (nat_beq at ref)) [
    | inl same ↦ rw (lookup-insert at ref v m, same) (fresh ((nat_beq_iff at ref).0 same))
    | inr other ↦ rw (lookup-insert at ref v m, other) h
  ]

  pub insert-Open_self :
      (ref : ℕ) (v : V) (m : Map ℕ V)
      → is_closed v ≡ false
      → Open is_closed (lookup ref (insert ref v m))
  insert-Open_self ref v m fresh =
      rw (lookup-insert ref ref v m, (nat_beq_iff ref ref).1 refl) fresh

  pub adjust-Open :
      (o : Option ℕ) (f : V → V) (ref : ℕ) (m : Map ℕ V)
      → ((v : V) → o ≡ some ref → is_closed v ≡ false → is_closed (f v) ≡ false)
      → Open is_closed (lookup ref m)
      → Open is_closed (lookup ref (adjust o f m))
  unfolding adjust
  adjust-Open none f ref m keeps h = h
  adjust-Open (some at) f ref m keeps h = elim (Option-cases (lookup at m)) [
    | inl e ↦ rw (e, adjust) h
    | inr (v, e) ↦
        let was : at ≡ ref → is_closed v ≡ false = λ same. rw (sym same, e) at h in
        rw (e, adjust) (insert-Open at ref (f v) m (λ same. keeps v (ap some same) (was same)) h)
  ]

-- A step that leaves the three maps alone and closes nothing.
pub IsMatched-kept :
    (c c' : CtrlClient)
    → c'.conns ≡ c.conns
    → c'.conns_win ≡ c.conns_win
    → c'.conns_q ≡ c.conns_q
    → c.allocated ≤ c'.allocated
    → ((ref : ℕ) → ref < c.allocated → IsOpen c ref → IsOpen c' ref)
    → IsMatched c
    → IsMatched c'
IsMatched-kept c c' same win q more kept h = record {
  win_same = λ id. rw (win, same) (h.win_same id);
  q_same = λ id. rw (q, same) (h.q_same id);
  owner = rw same h.owner;
  bounded = λ id ref e.
      let e' : lookup id c.conns ≡ some ref = rw same at e in omega (arith, h.bounded id ref e');
  live = λ id ref e.
      let e' : lookup id c.conns ≡ some ref = rw same at e in
      kept ref (h.bounded id ref e') (h.live id ref e');
}

some-injective : {m n : ℕ} → ◌≡◌ {A = Option ℕ} (some m) (some n) → m ≡ n
some-injective {m} {n} e = ap (λ o. elim o [ none ↦ m | some k ↦ k ]) e

enter_map :
    (id ref : ℕ) (j : ℕ) (m n : Map ℕ ℕ)
    → lookup j m ≡ lookup j n
    → lookup j (insert id ref m) ≡ lookup j (insert id ref n)
enter_map id ref j m n h = rw (lookup-insert id j ref m, lookup-insert id j ref n, h) refl

pub enter-IsMatched : (c : CtrlClient) (id : ℕ) → IsMatched c → IsMatched (enter c id)
unfolding enter new_window
enter-IsMatched c id h = record {
  win_same = λ j. enter_map id c.allocated j c.conns_win c.conns (h.win_same j);
  q_same = λ j. enter_map id c.allocated j c.conns_q c.conns (h.q_same j);
  owner = λ i j ref e f. ground (
    arith,
    lookup-insert id i c.allocated c.conns,
    lookup-insert id j c.allocated c.conns,
    h.owner i j ref,
    h.bounded i ref,
    h.bounded j ref,
    nat_beq_iff id i,
    nat_beq_iff id j,
  );
  bounded = λ j ref e. ground (arith, lookup-insert id j c.allocated c.conns, h.bounded j ref);
  live = λ j ref e. at_key j ref (nat_beq id j) refl e;
}
  where
    opened : (ref : ℕ) → IsOpen c ref → IsOpen (enter c id) ref
    opened ref o = record {
      inner_open = insert-Open _ c.allocated ref _ c.inner (λ _. refl) o.inner_open;
      window_open =
          insert-Open (λ w. w.closed) c.allocated ref (new_window default_stream_window) c.wins
            (λ _. refl) o.window_open;
      queue_open = insert-Open _ c.allocated ref _ c.queues (λ _. refl) o.queue_open;
    }

    fresh : IsOpen (enter c id) c.allocated
    fresh = record {
      inner_open = insert-Open_self _ c.allocated _ c.inner refl;
      window_open =
          insert-Open_self (λ w. w.closed) c.allocated (new_window default_stream_window) c.wins
            refl;
      queue_open = insert-Open_self _ c.allocated _ c.queues refl;
    }

    at_key :
        (j ref : ℕ) (same : Bool)
        → nat_beq id j ≡ same
        → lookup j (insert id c.allocated c.conns) ≡ some ref
        → IsOpen (enter c id) ref
    at_key j ref true same e =
        subst (IsOpen (enter c id))
          (some-injective (rw (lookup-insert id j c.allocated c.conns, same) at e)) fresh
    at_key j ref false same e =
        opened ref (h.live j ref (rw (lookup-insert id j c.allocated c.conns, same) at e))

-- A step that takes one number off the maps, and closes nothing that another number has.
module _ (c c' : CtrlClient) (id : ℕ) (conns : c'.conns ≡ erase id c.conns)
    (win : c'.conns_win ≡ erase id c.conns_win) (q : c'.conns_q ≡ erase id c.conns_q)
    (more : c.allocated ≤ c'.allocated)
    (kept : (j ref : ℕ) → id ≢ j → lookup j c.conns ≡ some ref → IsOpen c ref → IsOpen c' ref) where
  others : (j ref : ℕ) → lookup j c'.conns ≡ some ref → (id ≢ j) × (lookup j c.conns ≡ some ref)
  others j ref e =
      let e' : lookup j (erase id c.conns) ≡ some ref = rw conns at e in
      (
        (λ same. ground (arith, lookup-erase id j c.conns, nat_beq_iff id j)),
        ground (arith, lookup-erase id j c.conns),
      )

  pub erased-IsMatched : IsMatched c → IsMatched c'
  erased-IsMatched h = record {
    win_same = λ j.
        rw (win, conns, lookup-erase id j c.conns_win, lookup-erase id j c.conns, h.win_same j)
          refl;
    q_same =
        λ j. rw (q, conns, lookup-erase id j c.conns_q, lookup-erase id j c.conns, h.q_same j) refl;
    owner = λ i j ref e f. h.owner i j ref (others i ref e).1 (others j ref f).1;
    bounded = λ j ref e. omega (arith, h.bounded j ref (others j ref e).1);
    live = λ j ref e. let (other, was) = others j ref e in kept j ref other was (h.live j ref was);
  }

shut-IsMatched :
    (c : CtrlClient) (id ref : ℕ)
    → lookup id c.conns ≡ some ref
    → IsMatched c
    → IsMatched (shut (take_off c id) ref (lookup id c.conns_win) (lookup id c.conns_q))
unfolding shut
shut-IsMatched c id ref e h =
    erased-IsMatched c _ id refl refl refl (omega arith)
      (λ j at other f o. apart j at (λ g. other (h.owner id j at g f)) o) h
  where
    apart :
        (j at : ℕ)
        → ¬ (lookup id c.conns ≡ some at)
        → IsOpen c at
        → IsOpen (shut (take_off c id) ref (lookup id c.conns_win) (lookup id c.conns_q)) at
    apart j at not_here o = record {
      inner_open =
          adjust-Open (λ i. i.closed) (some ref) close_inner at c.inner
            (λ v same was. absurd (not_here (e ∙ same))) o.inner_open;
      window_open =
          adjust-Open (λ w. w.closed) (lookup id c.conns_win) Window.close at c.wins
            (λ v same was. absurd (not_here (sym (h.win_same id) ∙ same))) o.window_open;
      queue_open =
          adjust-Open (λ q. q.closed) (lookup id c.conns_q) close_queue at c.queues
            (λ v same was. absurd (not_here (sym (h.q_same id) ∙ same))) o.queue_open;
    }

take_off-IsMatched : (c : CtrlClient) (id : ℕ) → IsMatched c → IsMatched (take_off c id)
take_off-IsMatched c id h =
    erased-IsMatched c _ id refl refl refl (omega arith)
      (λ j at other f o. record {
        inner_open = o.inner_open;
        window_open = o.window_open;
        queue_open = o.queue_open;
      })
      h

-- Changing the session, or what the client keeps of dialled connections, changes nothing of this.
pub send_frame-IsMatched : (c : CtrlClient) (m : Message) → IsMatched c → IsMatched (send_frame c m)
unfolding send_frame
send_frame-IsMatched c m h =
    IsMatched-kept c _ refl refl refl (omega arith)
      (λ ref lt o. record {
        inner_open = o.inner_open;
        window_open = o.window_open;
        queue_open = o.queue_open;
      })
      h

pub close_conn-IsMatched :
    (c : CtrlClient) (id : ℕ) (notify : Bool) → IsMatched c → IsMatched (close_conn c id notify)
unfolding close_conn
close_conn-IsMatched c id notify h = elim (Option-cases (lookup id c.conns)) [
  | inl e ↦ rw (e, close_conn) (take_off-IsMatched c id h)
  | inr (ref, e) ↦ rw (e, close_conn) (told notify (shut-IsMatched c id ref e h))
]
  where
    told :
        {c' : CtrlClient} (b : Bool)
        → IsMatched c'
        → IsMatched (if b then send_frame c' (close_frame id) else c')
    told true k = send_frame-IsMatched _ (close_frame id) k
    told false k = k
