-- ===== src/Maths/Quaternions/DoubleCover.antt =====
-- A quaternion and its negation stand for one rotation: the angles of a17/maths/quaternion_utils.h.
use general_tools.Common.Double.{Double}
use general_tools.Maths.Quaternions.{Quaternion}

module _ {D : Type 0} ⦃o : Double D⦄ where
  -- The quaternion with all four numbers negated.
  unfoldable pub opposite : Quaternion D → Quaternion D
  opposite q = record { w = o.negate q.w; x = o.negate q.x; y = o.negate q.y; z = o.negate q.z }
