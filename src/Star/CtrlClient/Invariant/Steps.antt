-- ===== src/Star/CtrlClient/Invariant/Steps.antt =====
-- ctrlclient.go: every step of a client keeps its maps in step.
use rain_net.Common.{
  ℕ, zero, suc, ◌-◌, min, ◌≡◌, refl, sym, ◌∙◌, inl, inr, true, false, Option, none, some, List, [],
  ◌∷◌, ◌++◌, arith, ltb, Bool-cases, Option-cases, length, take, Bytes, nat_eq, str_eq,
}
use rain_net.Common.Maps.{Map, lookup, insert}
use rain_net.Star.Session.{Session, Json}
use rain_net.Star.Handshake.{WindowUpdate}
use rain_net.Star.Window.{Window, Attempt, acquired, refused, blocked, acquire}
use rain_net.Star.Window
use rain_net.Star.CtrlClient.{CtrlClient, Inner, Queue, adjust}
use rain_net.Star.CtrlClient.Pumps.{
  queue_cap, push, pump, pump_queue, pump_item, write_inner, close_write, add_written, is_shut,
}
use rain_net.Star.CtrlClient.Invariant.{
  IsMatched, IsOpen, insert-Open, adjust-Open, IsMatched-kept, close_conn-IsMatched,
}

-- A step that leaves the maps, and all three kinds of places, as they are.
module _ (c c' : CtrlClient) (conns : c'.conns ≡ c.conns) (win : c'.conns_win ≡ c.conns_win)
    (q : c'.conns_q ≡ c.conns_q) (more : c'.allocated ≡ c.allocated) (inner : c'.inner ≡ c.inner)
    (wins : c'.wins ≡ c.wins) (queues : c'.queues ≡ c.queues) where
  pub elsewhere : IsMatched c → IsMatched c'
  elsewhere = IsMatched-kept c c' conns win q (omega arith) (λ ref lt o. record {
    inner_open = rw inner o.inner_open;
    window_open = rw wins o.window_open;
    queue_open = rw queues o.queue_open;
  })

-- A step that changes queues only, and closes none of those that are open.
module _ (c : CtrlClient) (queues : Map ℕ Queue)
    (kept : (ref : ℕ) → IsOpen c ref → IsOpen (record c { queues = queues }) ref) where
  in_queues : IsMatched c → IsMatched (record c { queues = queues })
  in_queues = IsMatched-kept c _ refl refl refl (omega arith) (λ ref lt o. kept ref o)

pub push-IsMatched :
    (c : CtrlClient) (ref : ℕ) (item : Option Bytes) → IsMatched c → IsMatched (push c ref item).0
unfolding push
push-IsMatched c ref item h = elim (Option-cases (lookup ref c.queues)) [
  | inl e ↦ rw (e, push) h
  | inr (q, e) ↦ elim (Bool-cases q.closed) [
    | inl t ↦ rw (e, t, push) h
    | inr f ↦ elim (Bool-cases (ltb (length q.items) queue_cap)) [
      | inl t ↦ rw (e, f, t, push) (put (q.items ++ (item ∷ [])))
      | inr u ↦ rw (e, f, u, push) h
    ]
  ]
]
  where
    put :
        (items : List (Option Bytes))
        → IsMatched
            (record c { queues = insert ref (record { items = items; closed = false }) c.queues })
    put items =
        in_queues c (insert ref (record { items = items; closed = false }) c.queues)
          (λ at o. record {
            inner_open = o.inner_open;
            window_open = o.window_open;
            queue_open =
                insert-Open (λ p. p.closed) ref at (record { items = items; closed = false })
                  c.queues (λ same. refl) o.queue_open;
          })
          h

-- Bytes written, or the write side closed: the inner connection stays open.
in_inner :
    (c : CtrlClient) (link : Session) (ref : ℕ) (f : Inner → Inner)
    → ((i : Inner) → (f i).closed ≡ i.closed)
    → IsMatched c
    → IsMatched (record c { inner = adjust (some ref) f c.inner; link = link })
in_inner c link ref f keeps = IsMatched-kept c _ refl refl refl (omega arith) (λ at lt o. record {
  inner_open =
      adjust-Open (λ i. i.closed) (some ref) f at c.inner (λ i same was. keeps i ∙ was)
        o.inner_open;
  window_open = o.window_open;
  queue_open = o.queue_open;
})

pump_item-IsMatched :
    (json : Json WindowUpdate) (fails : Option ℕ) (c : CtrlClient) (conn_id ref : ℕ)
    (item : Option Bytes)
    → IsMatched c
    → IsMatched (pump_item json fails c conn_id ref item).0
unfolding pump_item write_inner
pump_item-IsMatched json fails c conn_id ref none h =
    in_inner c c.link ref close_write (λ i. refl) h
pump_item-IsMatched json (some n) c conn_id ref (some payload) h =
    close_conn-IsMatched _ conn_id true
      (in_inner c c.link ref (add_written (take n payload)) (λ i. refl) h)
pump_item-IsMatched json none c conn_id ref (some payload) h = elim (Bool-cases (is_shut c ref)) [
  | inl t ↦ rw t (close_conn-IsMatched c conn_id true h)
  | inr f ↦ rw f (in_inner c _ ref (add_written payload) (λ i. refl) h)
]

pub pump-IsMatched :
    (json : Json WindowUpdate) (fails : Option ℕ) (c : CtrlClient) (conn_id ref : ℕ)
    → IsMatched c
    → IsMatched (pump json fails c conn_id ref).0
unfolding pump pump_queue
pump-IsMatched json fails c conn_id ref h = elim (Option-cases (lookup ref c.queues)) [
  | inl e ↦ rw (e, pump) h
  | inr (q, e) ↦ rw (e, pump) (round q e q.items)
]
  where
    round :
        (q : Queue)
        → lookup ref c.queues ≡ some q
        → (items : List (Option Bytes)) → IsMatched (pump_queue json fails c conn_id ref q items).0
    round q e [] = h
    round q e (item ∷ items) =
        pump_item-IsMatched json fails
          (record c { queues = insert ref (record q { items = items }) c.queues }) conn_id ref item
          (in_queues c (insert ref (record q { items = items }) c.queues)
            (λ at o. record {
              inner_open = o.inner_open;
              window_open = o.window_open;
              queue_open =
                  insert-Open (λ p. p.closed) ref at (record q { items = items }) c.queues
                    (λ same. rw (sym same, e) at o.queue_open) o.queue_open;
            })
            h)

-- A window that Acquire hands on was open when it was taken.
abbrev pub Opens : Option Attempt → Type 0
Opens none = Unit {0}
Opens (some (acquired w)) = w.closed ≡ false
Opens (some refused) = Unit {0}
Opens (some (blocked w n)) = w.closed ≡ false

pub acquire-Opens : (fuel : ℕ) (w : Window) (n : ℕ) → Opens (acquire fuel w n)
unfolding acquire
acquire-Opens zero w n = tt
acquire-Opens (suc fuel) w n =
    ground (arith, acquire-Opens fuel (Window.taking w n) (n - min n w.limit))
