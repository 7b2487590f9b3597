-- ===== src/Maths/Floats.antt =====
-- The comparisons of a17/maths/float_utils.h. A `double` argument is narrowed to `float` by the call;
-- the two types of numbers, the conversions between them, `std::nexttoward` and the least normal `float`
-- are the fields of a record.
pub mod Order
mod Tests
use general_tools.Common.{Bool, true, false, ◌&&◌, ◌||◌, not, if◌then◌else◌}
use general_tools.Common.Double.{Double, max_of}

pub record Floats {D : Type 0} (o : Double D) (F : Type 0) : Type 0 where
  pub single : Double F
  pub narrow : D → F
  pub widen : F → D
  pub next_toward : F → F → F
  pub smallest : F

module _ {F D : Type 0} ⦃o : Double D⦄ (n : Floats o F) where
  unfoldable pub float_epsilon : F → F → F
  float_epsilon left right =
      max_of n.single
        (n.single.times (n.single.fabs (n.single.minus (n.next_toward left right) left))
          (n.single.of_nat 2))
        n.smallest

  unfoldable pub float_abs_diff : F → F → D
  float_abs_diff left right = o.fabs (o.minus (n.widen left) (n.widen right))

  unfoldable pub float_min : F
  float_min = n.next_toward n.single.lowest (n.single.of_nat 0)

  unfoldable pub float_max : F
  float_max = n.next_toward n.single.greatest (n.single.of_nat 0)

  -- The `double` that stands for the argument `epsilon`; `-1.0` where it is left out.
  abbrev pub default_epsilon : D
  default_epsilon = o.negate (o.of_nat 1)

  unfoldable pub float_eq_within : F → F → D → Bool
  unfolding float_epsilon float_abs_diff float_min float_max
  float_eq_within left right epsilon =
      if n.single.less_eq left float_min
      then n.single.less_eq right float_min
      else if n.single.less_eq float_max left
      then n.single.less_eq float_max right
      else if n.single.less_eq right float_min || n.single.less_eq float_max right
      then false
      else o.less (float_abs_diff left right)
          (if o.less epsilon (o.of_nat 0) then n.widen (float_epsilon left right) else epsilon)

  unfoldable pub float_eq : F → F → Bool
  unfolding float_eq_within
  float_eq left right = float_eq_within left right default_epsilon

  unfoldable pub float_lt : F → F → Bool
  float_lt left right = n.single.less left right && not (float_eq left right)

  unfoldable pub float_lt_eq : F → F → Bool
  float_lt_eq left right = n.single.less left right || float_eq left right

  unfoldable pub float_gt : F → F → Bool
  float_gt left right = n.single.less right left && not (float_eq left right)

  unfoldable pub float_gt_eq : F → F → Bool
  float_gt_eq left right = n.single.less right left || float_eq left right

  -- `FloatFloor`, with `std::round`, `std::floor` and the conversion to an integer.
  unfoldable pub float_floor : {I : Type 0} → (D → D) → (D → D) → (D → I) → D → I
  unfolding float_abs_diff float_epsilon
  float_floor round floor to_int value =
      if o.less (float_abs_diff (n.narrow value) (n.narrow (round value)))
        (n.widen (float_epsilon (n.narrow value) (n.narrow (round value))))
      then to_int (round value)
      else to_int (floor value)
