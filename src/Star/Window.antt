-- ===== src/Star/Window.antt =====
-- protocol/star/window.go: the send window of one connection. The int64 counters are exact integers
-- here: `outstanding` never exceeds the limit (Window.Credit), and it would take more than 2 ^ 31
-- frames of the largest credit to carry it below an int64. Lengths and limits are not negative.
pub mod Credit
pub mod Ledger
use rain_net.Common.{
  ℕ, zero, suc, ◌+◌, ◌-◌, ◌*◌, ◌^◌, min, Bool, true, false, Option, none, some, leb, if◌then◌else◌,
}
use rain_net.Common.Int.{ℤ, pos, ◌+ℤ◌, ◌-ℤ◌, leb_ℤ}

abbrev pub default_stream_window : ℕ
default_stream_window = 256 * 2 ^ 10

-- `waiters` counts the channels in `notify`.
pub record Window : Type 0 where
  pub outstanding : ℤ
  pub limit : ℕ
  pub closed : Bool
  pub waiters : ℕ

unfoldable pub new_window : ℕ → Window
new_window limit = record { outstanding = pos 0; limit = limit; closed = false; waiters = 0 }

-- The waiters are taken off the list and woken.
unfoldable pub close : Window → Window
close w = record w { closed = true; waiters = 0 }

unfoldable pub release : Window → ℕ → Window
release w n = record w { outstanding = w.outstanding -ℤ pos n; waiters = 0 }

-- Where a call of Acquire stands: it returned nil, it returned ErrWindowClosed, or it sleeps in
-- `select` with so many bytes still to take. When it is woken it goes on by `acquire` with those.
pub data Attempt : Type 0 where
  acquired : Window → Attempt
  refused : Attempt
  blocked : Window → ℕ → Attempt

abbrev pub fits : Window → ℕ → Bool
fits w n = leb_ℤ (w.outstanding +ℤ pos (min n w.limit)) (pos w.limit)

abbrev pub taking : Window → ℕ → Window
taking w n = record w { outstanding = w.outstanding +ℤ pos (min n w.limit) }

-- The loop of Acquire up to the next `select`. `none`: the fuel ran out.
unfoldable pub acquire : ℕ → Window → ℕ → Option Attempt
acquire zero w n = none
acquire (suc fuel) w n =
    let more = acquire fuel (taking w n) (n - min n w.limit) in
    if w.closed
    then some refused
    else if fits w n
    then (if leb n (min n w.limit) then some (acquired (taking w n)) else more)
    else some (blocked (record w { waiters = w.waiters + 1 }) n)
