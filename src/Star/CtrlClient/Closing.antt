-- ===== src/Star/CtrlClient/Closing.antt =====
-- ctrlclient.go: closing a connection, alone and while the read loop has its queue in hand.
use rain_net.Common.{
  ℕ, ◌≡◌, refl, sym, ap, ◌∙◌, inl, inr, Bool, true, false, Option, none, some, [], arith, nat_beq,
  if◌then◌else◌, nat_beq_iff, Option-cases, Bytes, nat_eq, str_eq,
}
use rain_net.Common.Maps.{Map, lookup, insert, erase, lookup-insert, lookup-erase}
use rain_net.Star.Session.{Session, send}
use rain_net.Star.Window.{Window}
use rain_net.Star.Window
use rain_net.Star.CtrlClient.{
  CtrlClient, Inner, Queue, adjust, close_conn, take_off, shut, send_frame, close_frame,
  close_queue, close_inner,
}
use rain_net.Star.Session.{Json}
use rain_net.Star.Handshake.{WindowUpdate}
use rain_net.Star.CtrlClient.Pumps.{push, panics, pump, idle}
use rain_net.Star.CtrlClient.Invariant.{IsMatched, IsOpen, Open}

-- closeConn on a connection that stands, field by field.
module _ (c : CtrlClient) (id ref : ℕ) (notify : Bool) (found : lookup id c.conns ≡ some ref) where
  abbrev shut_down : CtrlClient
  shut_down = shut (take_off c id) ref (lookup id c.conns_win) (lookup id c.conns_q)

  abbrev told : CtrlClient
  told = if notify then send_frame shut_down (close_frame id) else shut_down

  close_conn-found : close_conn c id notify ≡ told
  unfolding close_conn
  close_conn-found = rw (found, close_conn) refl

  -- A field that sending a frame does not touch.
  kept_by_telling :
      {A : Type 0} (field : CtrlClient → A)
      → ((link : Session) → field (record shut_down { link = link }) ≡ field shut_down)
      → field (close_conn c id notify) ≡ field shut_down
  unfolding send_frame
  kept_by_telling field same = ap field close_conn-found ∙ by_flag notify
    where
      by_flag :
          (b : Bool)
          → field (if b then send_frame shut_down (close_frame id) else shut_down) ≡ field shut_down
      by_flag true = same _
      by_flag false = refl

lookup-adjust :
    {V : Type 0} (ref : ℕ) (f : V → V) (m : Map ℕ V) (v : V)
    → lookup ref m ≡ some v
    → lookup ref (adjust (some ref) f m) ≡ some (f v)
unfolding adjust
lookup-adjust ref f m v e =
    rw (e, adjust) (rw (lookup-insert ref ref (f v) m, (nat_beq_iff ref ref).1 refl) refl)

-- The value at an open place.
opened_value :
    {V : Type 0} (is_closed : V → Bool) (o : Option V) → Open is_closed o → (v : V) × (o ≡ some v)
opened_value is_closed none h = absurd h
opened_value is_closed (some v) h = (v, refl)

push_closed :
    (c : CtrlClient) (ref : ℕ) (item : Option Bytes) (q : Queue)
    → lookup ref c.queues ≡ some q
    → q.closed ≡ true
    → (push c ref item).1 ≡ panics
unfolding push
push_closed c ref item q e t = rw (e, t, push) refl

-- The read loop looks a queue up under the lock and sends to it after the lock: when a pump closes the
-- connection in between, the send is to a closed channel and panics, whatever the frame was.
pub push-close_conn :
    (c : CtrlClient) (id ref : ℕ) (notify : Bool) (item : Option Bytes)
    → IsMatched c
    → lookup id c.conns_q ≡ some ref
    → (push (close_conn c id notify) ref item).1 ≡ panics
unfolding shut
push-close_conn c id ref notify item h e =
    let found : lookup id c.conns ≡ some ref = sym (h.q_same id) ∙ e in
    let (q, at) =
      opened_value (λ (q : Queue). q.closed) (lookup ref c.queues)
        (h.live id ref found).queue_open in
    let queues : (close_conn c id notify).queues ≡ adjust (some ref) close_queue c.queues =
      kept_by_telling c id ref notify found (λ d. d.queues) (λ link. refl)
      ∙ ap (λ o. adjust o close_queue c.queues) e in
    push_closed (close_conn c id notify) ref item (close_queue q)
      (ap (lookup ref) queues ∙ lookup-adjust ref close_queue c.queues q at) refl

-- What closeConn leaves of a connection that stood at `ref`.
pub record IsGone (c c' : CtrlClient) (id ref : ℕ) (notify : Bool) : Type 0 where
  pub conns_left : (j : ℕ) → lookup j c'.conns ≡ (if nat_beq id j then none else lookup j c.conns)
  pub wins_left :
      (j : ℕ) → lookup j c'.conns_win ≡ (if nat_beq id j then none else lookup j c.conns_win)
  pub queues_left :
      (j : ℕ) → lookup j c'.conns_q ≡ (if nat_beq id j then none else lookup j c.conns_q)
  pub inner_closed :
      (i : Inner) × (lookup ref c.inner ≡ some i) × (lookup ref c'.inner ≡ some (close_inner i))
  pub win_closed :
      (w : Window) × (lookup ref c.wins ≡ some w) × (lookup ref c'.wins ≡ some (Window.close w))
  pub q_closed :
      (q : Queue) × (lookup ref c.queues ≡ some q) × (lookup ref c'.queues ≡ some (close_queue q))
  pub server_told : c'.link ≡ (if notify then (send c.link (close_frame id)).0 else c.link)

erased : (id : ℕ) (m m' : Map ℕ ℕ) → m' ≡ erase id m → lookup id m' ≡ none
erased id m m' e = ground (arith, ap (lookup id) e, lookup-erase id id m, nat_beq_iff id id)

left_of :
    (id j : ℕ) (m m' : Map ℕ ℕ)
    → m' ≡ erase id m
    → lookup j m' ≡ (if nat_beq id j then none else lookup j m)
left_of id j m m' e = ap (lookup j) e ∙ lookup-erase id j m

-- closeConn takes the number off all three maps and no other number, closes the inner connection, its
-- window and its queue, and sends one full close when it is asked to.
pub close_conn-IsGone :
    (c : CtrlClient) (id ref : ℕ) (notify : Bool)
    → IsMatched c
    → lookup id c.conns ≡ some ref
    → IsGone c (close_conn c id notify) id ref notify
unfolding shut send_frame
close_conn-IsGone c id ref notify h found =
    let c' : CtrlClient = close_conn c id notify in
    let conns : c'.conns ≡ erase id c.conns =
      kept_by_telling c id ref notify found (λ d. d.conns) (λ link. refl) in
    let win : c'.conns_win ≡ erase id c.conns_win =
      kept_by_telling c id ref notify found (λ d. d.conns_win) (λ link. refl) in
    let q : c'.conns_q ≡ erase id c.conns_q =
      kept_by_telling c id ref notify found (λ d. d.conns_q) (λ link. refl) in
    let open_here : IsOpen c ref = h.live id ref found in
    let (i, at_inner) =
      opened_value (λ (i : Inner). i.closed) (lookup ref c.inner) open_here.inner_open in
    let (w, at_win) =
      opened_value (λ (w : Window). w.closed) (lookup ref c.wins) open_here.window_open in
    let (p, at_q) =
      opened_value (λ (p : Queue). p.closed) (lookup ref c.queues) open_here.queue_open in
    let inner : c'.inner ≡ adjust (some ref) close_inner c.inner =
      kept_by_telling c id ref notify found (λ d. d.inner) (λ link. refl) in
    let wins : c'.wins ≡ adjust (some ref) Window.close c.wins =
      kept_by_telling c id ref notify found (λ d. d.wins) (λ link. refl)
      ∙ ap (λ o. adjust o Window.close c.wins) (h.win_same id ∙ found) in
    let queues : c'.queues ≡ adjust (some ref) close_queue c.queues =
      kept_by_telling c id ref notify found (λ d. d.queues) (λ link. refl)
      ∙ ap (λ o. adjust o close_queue c.queues) (h.q_same id ∙ found) in
    record {
      conns_left = λ j. left_of id j c.conns c'.conns conns;
      wins_left = λ j. left_of id j c.conns_win c'.conns_win win;
      queues_left = λ j. left_of id j c.conns_q c'.conns_q q;
      inner_closed =
          (i, at_inner, ap (lookup ref) inner ∙ lookup-adjust ref close_inner c.inner i at_inner);
      win_closed =
          (w, at_win, ap (lookup ref) wins ∙ lookup-adjust ref Window.close c.wins w at_win);
      q_closed = (p, at_q, ap (lookup ref) queues ∙ lookup-adjust ref close_queue c.queues p at_q);
      server_told = ap (λ d. d.link) (close_conn-found c id ref notify found) ∙ link_of notify;
    }
  where
    link_of :
        (b : Bool)
        → (if b
            then send_frame (shut_down c id ref notify found) (close_frame id)
            else shut_down c id ref notify found).link
          ≡ (if b then (send c.link (close_frame id)).0 else c.link)
    link_of true = refl
    link_of false = refl

close_conn-conns :
    (c : CtrlClient) (id : ℕ) (notify : Bool) → lookup id (close_conn c id notify).conns ≡ none
unfolding close_conn shut
close_conn-conns c id notify = elim (Option-cases (lookup id c.conns)) [
  | inl e ↦ rw (e, close_conn) (erased id c.conns (erase id c.conns) refl)
  | inr (ref, e) ↦
      erased id c.conns (close_conn c id notify).conns
        (kept_by_telling c id ref notify e (λ d. d.conns) (λ link. refl))
]

close_conn-absent :
    (c : CtrlClient) (id : ℕ) (notify : Bool)
    → lookup id c.conns ≡ none
    → (close_conn c id notify).link ≡ c.link
unfolding close_conn
close_conn-absent c id notify e = rw (e, close_conn) refl

-- A second closeConn of a number sends nothing more.
pub close_conn_twice :
    (c : CtrlClient) (id : ℕ) (first second : Bool)
    → (close_conn (close_conn c id first) id second).link ≡ (close_conn c id first).link
close_conn_twice c id first second =
    close_conn-absent (close_conn c id first) id second (close_conn-conns c id first)

-- The write pump of a connection that is left behind: its queue, open and off the map, which no closeConn
-- closes, and at which the pump waits once it has taken what is in it.
pub record IsStranded (c d : CtrlClient) (id ref : ℕ) : Type 0 where
  pub queue : Queue
  pub stood : lookup ref c.queues ≡ some queue
  pub open_still : queue.closed ≡ false
  pub left : lookup ref d.queues ≡ some queue
  pub off : lookup id d.conns_q ≡ none
  pub nobody_closes : (j : ℕ) (notify : Bool) → (close_conn d j notify).queues ≡ d.queues
  pub pump_waits :
      (json : Json WindowUpdate) (fails : Option ℕ)
      → (pump json fails
          (record d { queues = insert ref (record queue { items = [] }) d.queues })
          id
          ref).1
        ≡ idle
