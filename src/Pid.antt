-- ===== src/Pid.antt =====
-- `PID` (a17/utils/pid.h and pid.cpp), over any type of `double`. The clock is an argument of each
-- operation that reads it, and the seconds between two times are the parameter `elapsed_secs`. Where
-- an `assert` fails, or a loop of `handleAngularDiscontinuity` does not end within the given number of
-- turns, the result is `none`.
pub mod Limits
mod Tests
use general_tools.Common.{
  ◌>>=◌, ℕ, zero, suc, Bool, true, false, ◌&&◌, not, Option, none, some, if◌then◌else◌,
}
use general_tools.Common.Double.{Double, min_of, max_of}

pub data Kind : Type 0 where
  linear : Kind
  angular : Kind

pub record Pid (D : Type 0) : Type 0 where
  pub kp : D
  pub ki : D
  pub kd : D
  pub min_output : D
  pub max_output : D
  pub antiwindup_damping : D
  pub integral_error_limit : D
  pub kind : Kind
  pub first_sample_computed : Bool
  pub integral_error : D
  pub last_error : D
  pub last_timepoint : ℕ

abbrev pub is_angular : Kind → Bool
is_angular linear = false
is_angular angular = true

module _ {D : Type 0} (o : Double D) where
  unfoldable pub init : D → D → D → ℕ → Pid D
  init kp ki kd now = record {
    kp = kp;
    ki = ki;
    kd = kd;
    min_output = o.lowest;
    max_output = o.greatest;
    antiwindup_damping = o.of_nat 1;
    integral_error_limit = o.greatest;
    kind = linear;
    first_sample_computed = false;
    integral_error = o.of_nat 0;
    last_error = o.of_nat 0;
    last_timepoint = now;
  }

  -- `clip`; an `assert` that the limit is not negative.
  unfoldable pub clip : D → D → Option D
  clip value limit =
      if o.less_eq (o.of_nat 0) limit
      then some (min_of o limit (max_of o (o.negate limit) value))
      else none

  abbrev pub two_pi : D
  two_pi = o.times (o.of_nat 2) o.m_pi

  -- `while (error > 2 * M_PI) error -= 2 * M_PI`.
  unfoldable pub wrap_down : ℕ → D → Option D
  wrap_down zero error = if o.less two_pi error then none else some error
  wrap_down (suc fuel) error =
      let rest = wrap_down fuel (o.minus error two_pi) in
      if o.less two_pi error then rest else some error

  -- `while (error < -2 * M_PI) error += 2 * M_PI`.
  unfoldable pub wrap_up : ℕ → D → Option D
  wrap_up zero error =
      if o.less error (o.times (o.negate (o.of_nat 2)) o.m_pi) then none else some error
  wrap_up (suc fuel) error =
      let rest = wrap_up fuel (o.plus error two_pi) in
      if o.less error (o.times (o.negate (o.of_nat 2)) o.m_pi) then rest else some error

  -- The last `if` of `handleAngularDiscontinuity`.
  abbrev pub continuous : D → D
  continuous error =
      if o.less o.m_pi error
      then o.minus error two_pi
      else if o.less error (o.negate o.m_pi)
      then o.plus error two_pi
      else error

  unfoldable pub handle_angular_discontinuity : ℕ → Pid D → D → Option D
  unfolding wrap_down wrap_up
  handle_angular_discontinuity fuel p error =
      if not (is_angular p.kind)
      then some error
      else do down ← wrap_down fuel error; bounded ← wrap_up fuel down; some (continuous bounded)

  -- `computeP`: the controller and its output.
  unfoldable pub compute_p : ℕ → Pid D → ℕ → D → D → Option (Pid D × D)
  unfolding handle_angular_discontinuity
  compute_p fuel p now reference signal = do
    let error = o.minus reference signal
    wrapped ← if is_angular p.kind then handle_angular_discontinuity fuel p error else some error
    some (record p { last_error = error; last_timepoint = now }, o.times p.kp wrapped)

  -- The output of `compute`, kept in range.
  unfoldable pub limited : Pid D → D → D
  limited p output = max_of o (min_of o output p.max_output) p.min_output

  module _ (elapsed_secs : ℕ → ℕ → D) where
    -- `compute`, from the second sample on.
    unfoldable pub compute_later : ℕ → Pid D → ℕ → D → D → Option (Pid D × D)
    unfolding handle_angular_discontinuity clip limited
    compute_later fuel p now reference signal = do
      let secs = elapsed_secs p.last_timepoint now
      let difference = o.minus reference signal
      error ←
          if is_angular p.kind
          then handle_angular_discontinuity fuel p difference
          else some difference
      integral ←
          clip (o.plus (o.times p.integral_error p.antiwindup_damping) (o.times error secs))
            p.integral_error_limit
      let derivative =
          if o.less (o.of_nat 0) secs
          then o.divide (o.minus error p.last_error) secs
          else o.of_nat 0
      let output =
          o.plus (o.plus (o.times p.kp error) (o.times p.ki integral)) (o.times p.kd derivative)
      some (
        record p { integral_error = integral; last_error = error; last_timepoint = now },
        limited p output,
      )

    unfoldable pub compute : ℕ → Pid D → ℕ → D → D → Option (Pid D × D)
    unfolding compute_p compute_later
    compute fuel p now reference signal =
        if not p.first_sample_computed
        then compute_p fuel (record p { first_sample_computed = true }) now reference signal
        else compute_later fuel p now reference signal

  unfoldable pub restart_controller : Pid D → ℕ → Pid D
  restart_controller p now = record p {
    first_sample_computed = false;
    integral_error = o.of_nat 0;
    last_error = o.of_nat 0;
    last_timepoint = now;
  }

  unfoldable pub set_anti_windup : Pid D → D → D → Option (Pid D)
  set_anti_windup p damping limit =
      if o.less_eq (o.of_nat 0) damping && o.less_eq damping (o.of_nat 1)
      then some (record p { antiwindup_damping = damping; integral_error_limit = o.fabs limit })
      else none

module _ {D : Type 0} where
  unfoldable pub set_kp : Pid D → D → Pid D
  set_kp p kp = record p { kp = kp }

  unfoldable pub set_ki : Pid D → D → Pid D
  set_ki p ki = record p { ki = ki }

  unfoldable pub set_kd : Pid D → D → Pid D
  set_kd p kd = record p { kd = kd }

  unfoldable pub set_gains : Pid D → D → D → D → Pid D
  set_gains p kp ki kd = record p { kp = kp; ki = ki; kd = kd }

  unfoldable pub set_max_output : Pid D → D → Pid D
  set_max_output p max = record p { max_output = max }

  unfoldable pub set_min_output : Pid D → D → Pid D
  set_min_output p min = record p { min_output = min }

  unfoldable pub set_type : Pid D → Kind → Pid D
  set_type p kind = record p { kind = kind }
