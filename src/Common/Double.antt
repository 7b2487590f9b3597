-- ===== src/Common/Double.antt =====
-- The numbers of type `double`, with the operations that the program uses. None of their arithmetic is
-- modelled: they are the fields of a record. `of_nat` is the conversion from a number, `ratio n d` the
-- literal for `n / d`.
use mathlib.Core.Path.{◌≡◌}
use mathlib.Core.Bool.{Bool, true, false}
use Prim.Native.Nat.{ℕ}
use general_tools.Common.Tests.{if◌then◌else◌}

pub record Double (D : Type 0) : Type 0 where
  pub of_nat : ℕ → D
  pub ratio : ℕ → ℕ → D
  pub plus : D → D → D
  pub minus : D → D → D
  pub times : D → D → D
  pub divide : D → D → D
  pub negate : D → D
  pub fabs : D → D
  pub less : D → D → Bool
  pub less_eq : D → D → Bool
  pub equal : D → D → Bool
  pub lowest : D
  pub greatest : D
  pub m_pi : D

-- `<` of the standard for floating point, for all values, NaN included.
pub record IsStrict {D : Type 0} (o : Double D) : Type 0 where
  pub asymmetric : (x y : D) → o.less x y ≡ true → o.less y x ≡ false

module _ {D : Type 0} (o : Double D) where
  -- `std::min(x, y)` and `std::max(x, y)`.
  abbrev pub min_of : D → D → D
  min_of x y = if o.less y x then y else x

  abbrev pub max_of : D → D → D
  max_of x y = if o.less x y then y else x
