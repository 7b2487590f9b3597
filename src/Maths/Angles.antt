-- ===== src/Maths/Angles.antt =====
-- a17/maths/angle_utils.h and .cpp, and `AngleUnroller` (angle_unroller.h and .cpp). `kPi` of constants.cpp
-- is the `double` of M_PI. A loop that does not end within the given number of turns has no result.
pub mod Unrolled
pub mod Steps
mod Tests
use general_tools.Common.{ℕ, zero, suc, Bool, true, false, Option, none, some, if◌then◌else◌, ◌>>=◌}
use general_tools.Common.Double.{Double}
use general_tools.Maths.Exact.{◌⊕◌, ◌⊖◌, ◌⊗◌, 𝟘}

module _ {D : Type 0} ⦃o : Double D⦄ where
  abbrev pub k_pi : D
  k_pi = o.m_pi

  abbrev pub turn : D
  turn = o.of_nat 2 ⊗ k_pi

  -- `while (angle > kPi) angle -= 2 * kPi`.
  unfoldable pub lowered : ℕ → D → Option D
  lowered zero angle = if o.less k_pi angle then none else some angle
  lowered (suc fuel) angle =
      let rest = lowered fuel (angle ⊖ turn) in if o.less k_pi angle then rest else some angle

  -- `while (angle < -kPi) angle += 2 * kPi`.
  unfoldable pub raised : ℕ → D → Option D
  raised zero angle = if o.less angle (o.negate k_pi) then none else some angle
  raised (suc fuel) angle =
      let rest = raised fuel (angle ⊕ turn) in
      if o.less angle (o.negate k_pi) then rest else some angle

  unfoldable pub wrap_to_pi : ℕ → D → Option D
  unfolding lowered raised
  wrap_to_pi fuel angle = lowered fuel angle >>= raised fuel

  -- `AngleDiff`, with `std::fmod`.
  unfoldable pub angle_diff : (D → D → D) → D → D → D
  angle_diff fmod angle1 angle2 =
      k_pi ⊖ o.fabs (fmod (o.fabs (angle1 ⊖ angle2)) (k_pi ⊗ o.of_nat 2) ⊖ k_pi)

  unfoldable pub degrees_to_radians : D → D
  degrees_to_radians degrees = o.divide (degrees ⊗ k_pi) (o.of_nat 180)

  unfoldable pub radians_to_degrees : D → D
  radians_to_degrees radians = o.divide (radians ⊗ o.of_nat 180) k_pi

pub record AngleUnroller (D : Type 0) : Type 0 where
  pub unrolled_angle : D

-- `AngleUnroller(initial_angle)`.
abbrev pub unroller : {D : Type 0} → D → AngleUnroller D
unroller initial_angle = record { unrolled_angle = initial_angle }

module _ {D : Type 0} ⦃o : Double D⦄ where
  -- The unrolled angle, with the wrapped old one and the wrapped new one.
  unfoldable pub unrolled : D → D → D → D
  unrolled u previous_angle angle =
      let diff = angle ⊖ previous_angle in
      if o.less_eq (o.fabs diff) o.m_pi
      then u ⊕ diff
      else if o.less 𝟘 diff
      then u ⊖ (o.of_nat 2 ⊗ o.m_pi ⊖ diff)
      else u ⊕ (o.of_nat 2 ⊗ o.m_pi ⊕ diff)

  unfoldable pub unroll_angle : ℕ → AngleUnroller D → D → Option (AngleUnroller D × D)
  unfolding wrap_to_pi unrolled
  unroll_angle fuel s angle = do
    previous_angle ← wrap_to_pi fuel s.unrolled_angle
    wrapped ← wrap_to_pi fuel angle
    let u = unrolled s.unrolled_angle previous_angle wrapped
    some (record s { unrolled_angle = u }, u)
