-- ===== src/Maths/Quaternions.antt =====
-- The angles of a quaternion, by a17/maths/quaternion_utils.h, with `double` as the scalar. The product of
-- rotations that makes a quaternion of angles belongs to Eigen.
use general_tools.Common.{ℕ, ◌^◌, Bool, ◌||◌, Option, some, if◌then◌else◌, ◌>>=◌}
use general_tools.Common.Double.{Double}
use general_tools.Maths.Exact.{◌⊕◌, ◌⊖◌, ◌⊗◌, 𝟘, 𝟙}
use general_tools.Maths.Angles.{wrap_to_pi}
pub mod DoubleCover
mod Tests

-- `Eigen::Quaternion`: its four numbers.
pub record Quaternion (D : Type 0) : Type 0 where
  pub w : D
  pub x : D
  pub y : D
  pub z : D

-- The functions and the constant of math.h that the angles are made of.
pub record Trigonometry (D : Type 0) : Type 0 where
  pub atan2 : D → D → D
  pub asin : D → D
  pub copysign : D → D → D
  pub m_pi_2 : D

module _ {D : Type 0} ⦃o : Double D⦄ (t : Trigonometry D) where
  unfoldable pub yaw_from_quaternion : Quaternion D → D
  yaw_from_quaternion q =
      let siny = o.of_nat 2 ⊗ (q.w ⊗ q.z ⊕ q.x ⊗ q.y) in
      let cosy = 𝟙 ⊖ o.of_nat 2 ⊗ (q.y ⊗ q.y ⊕ q.z ⊗ q.z) in t.atan2 siny cosy

  unfoldable pub roll_from_quaternion : Quaternion D → D
  roll_from_quaternion q =
      let sinr = o.of_nat 2 ⊗ (q.w ⊗ q.x ⊕ q.y ⊗ q.z) in
      let cosr = 𝟙 ⊖ o.of_nat 2 ⊗ (q.x ⊗ q.x ⊕ q.y ⊗ q.y) in t.atan2 sinr cosr

  unfoldable pub pitch_from_quaternion : Quaternion D → D
  pitch_from_quaternion q =
      let k_precision = o.ratio 1 (10 ^ 10) in
      let sinp = o.of_nat 2 ⊗ (q.w ⊗ q.y ⊖ q.x ⊗ q.z) in
      if o.less_eq (𝟙 ⊖ k_precision) sinp
      then t.m_pi_2
      else if o.less_eq sinp (o.negate 𝟙 ⊕ k_precision)
      then o.negate t.m_pi_2
      else t.asin sinp

  -- `pitch == M_PI_2 || pitch == -M_PI_2`.
  unfoldable pub is_locked : D → Bool
  is_locked pitch = o.equal pitch t.m_pi_2 || o.equal pitch (o.negate t.m_pi_2)

  -- The roll and the yaw, before they are wrapped.
  unfoldable pub roll_and_yaw : Quaternion D → D × D
  roll_and_yaw q =
      let pitch = pitch_from_quaternion q in
      if is_locked pitch
      then (𝟘, t.copysign 𝟙 pitch ⊗ o.negate (o.of_nat 2) ⊗ t.atan2 q.x q.w)
      else (roll_from_quaternion q, yaw_from_quaternion q)

  -- Roll, pitch and yaw.
  unfoldable pub quaternion_to_euler : ℕ → Quaternion D → Option (D × D × D)
  quaternion_to_euler fuel q = do
    roll ← wrap_to_pi fuel (roll_and_yaw q).0
    pitch ← wrap_to_pi fuel (pitch_from_quaternion q)
    yaw ← wrap_to_pi fuel (roll_and_yaw q).1
    some (roll, pitch, yaw)
