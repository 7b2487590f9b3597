-- ===== src/RateMeasure.antt =====
-- `RateMeasure` (a17/utils/rate_measure.h and rate_measure.cpp): the mean interval, jitter and size of
-- samples over a window of time. An `int64_t` is held as the number of its 64 bits. `of_int64` and
-- `to_int64` are its conversions to and from `double`. Reading the front of an empty queue is `none`.
pub mod Window
mod Tests
use general_tools.Common.{
  ℕ, zero, suc, ◌+◌, ◌-◌, ◌*◌, ◌/◌, ◌%◌, ◌^◌, Bool, true, false, Option, none, some, List, [], ◌∷◌,
  ◌++◌, if◌then◌else◌, ltb, ◌==◌, is_empty, length, ◌>>=◌,
}
use general_tools.Common.Double.{Double}
use general_tools.IntervalBin.{nearest_interval_bin}

pub record RateMeasure : Type 0 where
  pub sample_window : ℕ
  pub target_interval : ℕ
  pub current_target_index : ℕ
  pub intervals : List ℕ
  pub jitters : List ℕ
  pub sizes : List ℕ
  pub ticks : ℕ
  pub last_time : ℕ
  pub interval_acc : ℕ
  pub jitter_acc : ℕ
  pub size_acc : ℕ
  pub avg_interval : ℕ
  pub max_jitter : ℕ

unfoldable pub init : ℕ → RateMeasure
init sample_window = record {
  sample_window = sample_window;
  target_interval = 0;
  current_target_index = 0;
  intervals = [];
  jitters = [];
  sizes = [];
  ticks = 0;
  last_time = 0;
  interval_acc = 0;
  jitter_acc = 0;
  size_acc = 0;
  avg_interval = 0;
  max_jitter = 0;
}

-- `a - b` and `a > b` of `int64_t`.
abbrev pub sub64 : ℕ → ℕ → ℕ
sub64 a b = (a + 2 ^ 64 - b % 2 ^ 64) % 2 ^ 64

abbrev pub greater64 : ℕ → ℕ → Bool
greater64 a b = ltb ((b + 2 ^ 63) % 2 ^ 64) ((a + 2 ^ 63) % 2 ^ 64)

-- The loop that keeps the intervals within the window.
unfoldable pub shrink : ℕ → List ℕ → ℕ → Option (List ℕ × ℕ)
shrink window [] acc = if greater64 acc window then none else some ([], acc)
shrink window (i ∷ intervals) acc =
    let rest = shrink window intervals (sub64 acc i) in
    if greater64 acc window then rest else some (i ∷ intervals, acc)

-- The loops that keep jitters and sizes no more than the intervals.
unfoldable pub trim : ℕ → List ℕ → ℕ → List ℕ × ℕ
trim count [] acc = ([], acc)
trim count (x ∷ xs) acc =
    let rest = trim count xs (sub64 acc x) in
    if ltb count (length xs + 1) then rest else (x ∷ xs, acc)

unfoldable pub reset : RateMeasure → RateMeasure
reset r = record r {
  last_time = 0;
  current_target_index = 0;
  target_interval = 0;
  avg_interval = 0;
  max_jitter = 0;
}

abbrev pub reset_max_jitter : RateMeasure → RateMeasure
reset_max_jitter r = record r { max_jitter = 0 }

-- `sampleCount()`, `size()` and `targetFrequency()`.
abbrev pub sample_count : RateMeasure → ℕ
sample_count r = length r.intervals

abbrev pub size : RateMeasure → ℕ
size r = if is_empty r.sizes then 0 else r.size_acc / length r.sizes

-- `isAtWindow`, for a window and a target that are not negative; a division by zero is `none`.
unfoldable pub is_at_window : RateMeasure → Option Bool
is_at_window r =
    let every = r.sample_window / r.target_interval in
    if r.target_interval == 0
    then some false
    else if every == 0
    then none
    else some (r.ticks % every == 0)

module _ {D : Type 0} (o : Double D) (of_int64 : ℕ → D) (to_int64 : D → ℕ)
    (nearest : ℕ → ℕ → ℕ × ℕ) where
  -- The mean and the target: `nearest` is `NearestIntervalBin`.
  unfoldable pub update_target : RateMeasure → RateMeasure
  update_target r =
      let avg = r.interval_acc / length r.intervals in
      let (target, index) = nearest avg r.current_target_index in
      if is_empty r.intervals
      then r
      else record r { avg_interval = avg; target_interval = target; current_target_index = index }

  unfoldable pub update_jitter : RateMeasure → ℕ → RateMeasure
  unfolding trim
  update_jitter r interval =
      let jitter = o.fabs (of_int64 (sub64 interval r.target_interval)) in
      let (jitters, acc) =
        trim (length r.intervals) (r.jitters ++ to_int64 jitter ∷ [])
          (to_int64 (o.plus (of_int64 r.jitter_acc) jitter)) in
      record r {
        jitters = jitters;
        jitter_acc = acc;
        max_jitter =
            if o.less (of_int64 r.max_jitter) jitter then to_int64 jitter else r.max_jitter;
      }

  unfoldable pub update_size : RateMeasure → ℕ → RateMeasure
  unfolding trim
  update_size r size =
      let (sizes, acc) =
        trim (length r.intervals) (r.sizes ++ size ∷ []) ((r.size_acc + size) % 2 ^ 64) in
      record r { sizes = sizes; size_acc = acc }

  unfoldable pub mark_size : RateMeasure → ℕ → ℕ → Option RateMeasure
  unfolding shrink update_target update_jitter update_size
  mark_size r size now =
      let ticked = record r { ticks = (r.ticks + 1) % 2 ^ 64 } in
      let interval = sub64 now r.last_time in
      let shrunk =
        shrink r.sample_window (r.intervals ++ interval ∷ [])
          ((r.interval_acc + interval) % 2 ^ 64) in
      if r.last_time == 0 then some (record ticked { last_time = now }) else elim shrunk [
        | none ↦ none
        | some (intervals, acc) ↦
            let timed =
              update_target (record ticked { intervals = intervals; interval_acc = acc }) in
            some (record (update_size (update_jitter timed interval) size) { last_time = now })
      ]
