-- ===== src/Repeater/Chain.antt =====
-- The calls of a repeater.
use general_tools.Common.{
  ℕ, ◌+◌, ◌/◌, ◌≡◌, refl, Bool, true, ◌&&◌, ◌||◌, not, if◌then◌else◌, ltb, arith,
}
use general_tools.Repeater.{Repeater, init, start, stop, set_interval, expire, repeat}

-- What can happen to a repeater: the calls of its clients, the timer, and its handler.
pub data Step (r : Repeater) : Repeater → Type 0 where
  starts : (now : ℕ) → Step r (start r now)
  stops : Step r (stop r)
  sets : (interval now : ℕ) → Step r (set_interval r interval now)
  expires : Step r (record r { timer = expire r.timer })
  repeats : (now : ℕ) (again : Bool) → Step r (repeat r now again).0

pub data Reach (r : Repeater) : Repeater → Type 0 where
  here : Reach r r
  next : {s t : Repeater} → Reach r s → Step s t → Reach r t

-- A repeater that is running has a handler that waits or is ready.
abbrev pub IsAlive : Repeater → Type 0
IsAlive r = (not r.is_running || (r.timer.waits || ltb 0 r.timer.ready)) ≡ true

Step-IsAlive : {r s : Repeater} → Step r s → IsAlive r → IsAlive s
unfolding start stop set_interval expire repeat
Step-IsAlive {r} (starts now) alive = ground (arith, alive)
Step-IsAlive {r} stops alive = refl
Step-IsAlive {r} (sets interval now) alive = ground (arith, alive)
Step-IsAlive {r} expires alive = ground (arith, alive)
Step-IsAlive {r} (repeats now again) alive = ground (arith, alive)

Reach-IsAlive : {r s : Repeater} → Reach r s → IsAlive r → IsAlive s
Reach-IsAlive here alive = alive
Reach-IsAlive (next steps step) alive = Step-IsAlive step (Reach-IsAlive steps alive)

init-IsAlive : (now interval : ℕ) (auto_start : Bool) → IsAlive (init now interval auto_start)
unfolding init start
init-IsAlive now interval auto_start = ground arith

-- A repeater that runs never falls silent, and one that does not run makes no call: in every history
-- of starts, stops, changes of the interval, expiries and handlers, in any order, a running repeater
-- has a handler that waits for the timer or is ready; a start leaves it running, with such a handler,
-- and the expiry makes a waiting handler ready; the operation is called exactly if a handler is ready
-- and the repeater is running; and when the operation asks to go on, a handler waits again, for one
-- interval behind the last expiry, if the handler is not late by more than half of an interval, and
-- else one interval from now. The operation itself does not call the repeater.
pub repeater_history :
    (begin interval now : ℕ) (auto_start again : Bool) {r : Repeater}
    → Reach (init begin interval auto_start) r
    → let (r', called) = repeat r now again in
      ((not r.is_running || (r.timer.waits || ltb 0 r.timer.ready)) ≡ true)
      × (((start r now).is_running
            && ((start r now).timer.waits || ltb 0 (start r now).timer.ready))
          ≡ true)
      × ((if r.timer.waits then ltb 0 (expire r.timer).ready else true) ≡ true)
      × (called ≡ (r.is_running && ltb 0 r.timer.ready))
      × ((if called && again then r'.timer.waits else true) ≡ true)
      × ((if called && again then r'.timer.expires_at else 0) ≡ (
          if called && again
          then (if ltb (r.timer.expires_at + r.interval / 2) now then now else r.timer.expires_at)
            + r.interval
          else 0))
unfolding repeat start expire
repeater_history begin interval now auto_start again {r} history =
    let alive = Reach-IsAlive history (init-IsAlive begin interval auto_start) in
    (alive, ground (arith, alive), ground arith, ground arith, ground arith, ground arith)
