-- ===== src/Repeater.antt =====
-- `Repeater` (a17/utils/repeater.h and repeater.cpp) and `Watchdog` (watchdog.h and watchdog.cpp). Times
-- are in one unit, and those of the clock are arguments. Of the timer of boost the state has when it
-- expires, whether a handler waits for that, and how many handlers are ready to run without an error:
-- setting the time of expiry cancels the wait, which ends it with an error, but not a ready handler.
pub mod Chain
mod Tests
use general_tools.Common.{
  ℕ, zero, suc, ◌+◌, ◌-◌, ◌*◌, ◌/◌, Bool, true, false, ◌&&◌, not, if◌then◌else◌, ltb, ◌==◌,
}

pub record Timer : Type 0 where
  pub expires_at : ℕ
  pub waits : Bool
  pub ready : ℕ

pub record Repeater : Type 0 where
  pub is_running : Bool
  pub timer : Timer
  pub interval : ℕ

-- `expires_at(time)` or `expires_from_now`, and then `async_wait(handler)`.
abbrev pub wait_until : Timer → ℕ → Timer
wait_until t time = record t { expires_at = time; waits = true }

-- The timer expires while a handler waits.
unfoldable pub expire : Timer → Timer
expire t = if t.waits then record t { waits = false; ready = t.ready + 1 } else t

unfoldable pub start : Repeater → ℕ → Repeater
start r now =
    if not r.is_running
    then record r { timer = wait_until r.timer (now + r.interval); is_running = true }
    else r

unfoldable pub init : ℕ → ℕ → Bool → Repeater
unfolding start
init now interval auto_start =
    let r : Repeater = record {
      is_running = false;
      timer = record { expires_at = now + interval; waits = false; ready = 0 };
      interval = interval;
    } in
    if auto_start then start r now else r

unfoldable pub stop : Repeater → Repeater
stop r = record r { timer = record r.timer { waits = false }; is_running = false }

unfoldable pub set_interval : Repeater → ℕ → ℕ → Repeater
unfolding start stop
set_interval r interval now =
    let r' = record r { interval = interval } in if r'.is_running then start (stop r') now else r'

-- The handler, once it is ready: `again` is what the operation returns. The flag tells whether the
-- operation was called; it does not call the repeater itself.
unfoldable pub repeat : Repeater → ℕ → Bool → Repeater × Bool
repeat r now again =
    let late = ltb (r.timer.expires_at + r.interval / 2) now in
    let from = if late then now else r.timer.expires_at in
    if r.timer.ready == 0
    then (r, false)
    else let t = record r.timer { ready = r.timer.ready - 1 } in
      if not r.is_running
      then (record r { timer = t }, false)
      else if again
      then (record r { timer = wait_until t (from + r.interval) }, true)
      else (record r { timer = t; is_running = false }, true)

-- `Watchdog::mark`, on its timer.
unfoldable pub mark : Timer → ℕ → ℕ → Timer
mark t timeout now = wait_until t (now + timeout)
