-- ===== src/Star/CtrlClient/Pumps.antt =====
-- ctrlclient.go: the queue of a connection, its write pump, and pumpUplink. Each function is the part of
-- a goroutine between two waits.
use rain_net.Common.{
  ℕ, ◌*◌, ◌%◌, ◌^◌, Bool, true, false, Option, none, some, List, [], ◌∷◌, ◌++◌, ltb, if◌then◌else◌,
  length, take, Bytes, nat_eq, str_eq,
}
use rain_net.Common.Maps.{lookup, insert}
use rain_net.Star.MsgType
use rain_net.Star.Message.{half_close}
use rain_net.Star.Handshake.{WindowUpdate}
use rain_net.Star.Session.{Json, send_control}
use rain_net.Star.Window.{Window, Attempt, acquired, refused, blocked}
use rain_net.Star.Window
use rain_net.Star.CtrlClient.{
  Error, CtrlClient, Inner, Queue, adjust, close_conn, send_data, send_frame,
}

abbrev pub uplink_chunk : ℕ
uplink_chunk = 32 * 2 ^ 10

abbrev pub queue_cap : ℕ
queue_cap = 32

-- A received payload of no bytes is a nil slice.
abbrev pub item_of : Bytes → Option Bytes
item_of [] = none
item_of (b ∷ bs) = some (b ∷ bs)

-- A send on the channel of a queue: it is put in, the sender waits for room, or the channel is closed.
pub data Pushed : Type 0 where
  pushed waits panics : Pushed

unfoldable pub push : CtrlClient → ℕ → Option Bytes → CtrlClient × Pushed
push c ref item = elim (lookup ref c.queues) [
  | none ↦ (c, waits)
  | some q ↦
      if q.closed
      then (c, panics)
      else if ltb (length q.items) queue_cap
      then (
        record c { queues = insert ref (record q { items = q.items ++ (item ∷ []) }) c.queues },
        pushed,
      )
      else (c, waits)
]

-- Where the write pump stands after a round: it goes on, it waits for an item, or it has returned.
pub data Pumping : Type 0 where
  goes_on idle returned : Pumping

abbrev pub close_write : Inner → Inner
close_write i = record i { write_closed = true }

abbrev pub add_written : Bytes → Inner → Inner
add_written bs i = record i { written = i.written ++ bs }

unfoldable pub is_shut : CtrlClient → ℕ → Bool
is_shut c ref = elim (lookup ref c.inner) [ none ↦ true | some i ↦ i.closed ]

abbrev pub credit : ℕ → Bytes → WindowUpdate
credit conn_id payload = record { conn_id = conn_id; delta = length payload % 2 ^ 32 }

-- conn.Write of a payload: `fails` is none, or the number of bytes written before the error.
unfoldable pub write_inner :
    Json WindowUpdate → Option ℕ → CtrlClient → ℕ → ℕ → Bytes → CtrlClient × Pumping
write_inner json none c conn_id ref payload =
    if is_shut c ref then (close_conn c conn_id true, returned) else (
      record c {
        inner = adjust (some ref) (add_written payload) c.inner;
        link = (send_control json c.link MsgType.window_update (credit conn_id payload)).0;
      },
      goes_on,
    )
write_inner json (some n) c conn_id ref payload = (
  close_conn (record c { inner = adjust (some ref) (add_written (take n payload)) c.inner }) conn_id
      true,
  returned,
)

unfoldable pub pump_item :
    Json WindowUpdate → Option ℕ → CtrlClient → ℕ → ℕ → Option Bytes → CtrlClient × Pumping
pump_item json fails c conn_id ref none =
    (record c { inner = adjust (some ref) close_write c.inner }, goes_on)
pump_item json fails c conn_id ref (some payload) = write_inner json fails c conn_id ref payload

unfoldable pub pump_queue :
    Json WindowUpdate
    → Option ℕ
    → CtrlClient
    → ℕ
    → ℕ
    → Queue
    → List (Option Bytes)
    → CtrlClient × Pumping
pump_queue json fails c conn_id ref q [] = (c, (if q.closed then returned else idle))
pump_queue json fails c conn_id ref q (item ∷ items) =
    pump_item json fails (record c { queues = insert ref (record q { items = items }) c.queues })
      conn_id ref item

-- One round of the write pump of a connection.
unfoldable pub pump : Json WindowUpdate → Option ℕ → CtrlClient → ℕ → ℕ → CtrlClient × Pumping
pump json fails c conn_id ref = elim (lookup ref c.queues) [
  | none ↦ (c, idle)
  | some q ↦ pump_queue json fails c conn_id ref q q.items
]

-- pumpUplink waits for the window: it has the bytes, it is to return, or it sleeps with some to take.
pub data Taken : Type 0 where
  ready : Taken
  over : Taken
  sleeps : ℕ → Taken

abbrev pub taken_by : CtrlClient → ℕ → Attempt → CtrlClient × Taken
taken_by c ref (acquired w) = (record c { wins = insert ref w c.wins }, ready)
taken_by c ref refused = (c, over)
taken_by c ref (blocked w n) = (record c { wins = insert ref w c.wins }, sleeps n)

unfoldable pub attempt : CtrlClient → ℕ → Option Attempt → Option (CtrlClient × Taken)
attempt c ref none = none
attempt c ref (some a) = some (taken_by c ref a)

-- `win` was looked up when the pump started; fuel as for Acquire.
unfoldable pub uplink_take : ℕ → CtrlClient → Option ℕ → ℕ → Option (CtrlClient × Taken)
uplink_take fuel c none n = some (c, ready)
uplink_take fuel c (some ref) n = elim (lookup ref c.wins) [
  | none ↦ some (c, ready)
  | some w ↦ attempt c ref (Window.acquire fuel w n)
]

-- What came with a read: nothing, io.EOF, or another error.
pub data Ending : Type 0 where
  none_yet end_of_file failure : Ending

-- The end of a round; whether the pump goes on.
unfoldable pub after_read : CtrlClient → ℕ → Ending → CtrlClient × Bool
after_read c conn_id none_yet = (c, true)
after_read c conn_id end_of_file = (send_frame c (half_close conn_id), false)
after_read c conn_id failure = (close_conn c conn_id true, false)

unfoldable pub after_send : CtrlClient × Option Error → ℕ → Ending → CtrlClient × Bool
unfolding after_read
after_send (c, none) conn_id ending = after_read c conn_id ending
after_send (c, some e) conn_id ending = (close_conn c conn_id true, false)

-- A read of some bytes, for which the window has been taken, or of none.
unfoldable pub uplink_send : CtrlClient → ℕ → Bytes → Ending → CtrlClient × Bool
unfolding after_read after_send
uplink_send c conn_id [] ending = after_read c conn_id ending
uplink_send c conn_id (b ∷ bs) ending =
    let sent = send_data c.link conn_id (b ∷ bs) in
    after_send (record c { link = sent.0 }, sent.1) conn_id ending
