-- ===== src/Repeater/Tests.antt =====
-- A repeater whose timer has expired once.
use general_tools.Common.{◌≡◌, refl, true, false, ◌&&◌, ◌||◌, ◌+◌, ◌/◌, not, ltb, if◌then◌else◌}
use general_tools.Repeater.{Repeater, init, start, stop, expire, repeat, mark}
use general_tools.Repeater.Chain.{here, next, expires, repeater_history}

abbrev fired : Repeater
unfolding init start expire
fired = let r = init 100 10 true in record r { timer = expire r.timer }

stop_runs : ((stop fired).is_running ≡ false) × ((repeat (stop fired) 112 true).1 ≡ false)
unfolding stop repeat fired
stop_runs = (refl, refl)

late_runs :
    ((repeat fired 112 true).0.timer.expires_at ≡ 120)
    × ((repeat fired 117 true).0.timer.expires_at ≡ 127)
unfolding repeat fired
late_runs = (refl, refl)

mark_runs : (mark fired.timer 50 200).expires_at ≡ 250
unfolding mark
mark_runs = refl

repeater_history_example :
    let (r', called) = repeat fired 112 true in
    ((not fired.is_running || (fired.timer.waits || ltb 0 fired.timer.ready)) ≡ true)
    × (((start fired 112).is_running
          && ((start fired 112).timer.waits || ltb 0 (start fired 112).timer.ready))
        ≡ true)
    × ((if fired.timer.waits then ltb 0 (expire fired.timer).ready else true) ≡ true)
    × (called ≡ (fired.is_running && ltb 0 fired.timer.ready))
    × ((if called && true then r'.timer.waits else true) ≡ true)
    × ((if called && true then r'.timer.expires_at else 0) ≡ (
        if called && true
        then (if ltb (fired.timer.expires_at + fired.interval / 2) 112
            then 112
            else fired.timer.expires_at)
          + fired.interval
        else 0))
unfolding fired
repeater_history_example = repeater_history 100 10 112 true true (next here expires)
