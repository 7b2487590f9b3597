-- ===== src/Maths/Floats/Tests.antt =====
-- Whole numbers as `float`s.
use general_tools.Common.{◌≡◌, refl, true, false, ◌&&◌, not, ap}
use mathlib.Core.Nat
use mathlib.Core.Int.{ℤ, pos, negsuc, +ℤ_invr}
use general_tools.Maths.Whole.{of_number, whole, whole_floats}
use general_tools.Maths.Floats.{
  float_abs_diff, float_epsilon, float_eq, float_lt, float_lt_eq, float_gt, float_gt_eq,
  float_floor,
}
use general_tools.Maths.Floats.Order.{IsIeee, comparisons_lem}

less_asymmetric :
    (m n : Nat.ℕ) → whole.less (pos m) (pos n) ≡ true → whole.less (pos n) (pos m) ≡ false
less_asymmetric Nat.ℕ.zero Nat.ℕ.zero e = refl
less_asymmetric Nat.ℕ.zero (Nat.ℕ.suc n) e = refl
less_asymmetric (Nat.ℕ.suc m) Nat.ℕ.zero e = absurd (cc)
less_asymmetric (Nat.ℕ.suc m) (Nat.ℕ.suc n) e = less_asymmetric m n e

asymmetric : (x y : ℤ) → whole.less x y ≡ true → whole.less y x ≡ false
asymmetric (pos m) (pos n) e = less_asymmetric m n e
asymmetric (pos m) (negsuc n) e = absurd (cc)
asymmetric (negsuc m) (pos n) e = refl
asymmetric (negsuc m) (negsuc n) e = less_asymmetric n m e

whole-IsIeee : IsIeee whole_floats
unfolding float_abs_diff
whole-IsIeee = record {
  strict = record { asymmetric = asymmetric };
  neighbour = λ x. refl;
  minus_self = λ x number low high. ap whole.fabs (+ℤ_invr x);
  difference_self = λ x number low high. ap whole.fabs (+ℤ_invr x);
  zero_times = refl;
  zero_less = refl;
  zero_less_double = refl;
  negative = refl;
}

floor_runs : float_floor whole_floats (λ x. x) (λ x. x) (λ x. x) (of_number 3) ≡ of_number 3
unfolding float_floor float_abs_diff float_epsilon
floor_runs = refl

comparisons_lem_example :
    (float_lt_eq whole_floats (of_number 1) (of_number 2)
      ≡ not (float_gt whole_floats (of_number 1) (of_number 2)))
    × (float_gt_eq whole_floats (of_number 1) (of_number 2)
        ≡ not (float_lt whole_floats (of_number 1) (of_number 2)))
    × ((float_lt whole_floats (of_number 1) (of_number 2)
          && float_gt whole_floats (of_number 1) (of_number 2))
        ≡ false)
    × (float_eq whole_floats (of_number 1) (of_number 2)
        ≡ not (float_lt whole_floats (of_number 1) (of_number 2))
          && not (float_gt whole_floats (of_number 1) (of_number 2)))
comparisons_lem_example =
    comparisons_lem whole_floats whole-IsIeee (of_number 1) (of_number 2) refl (λ e f. absurd (cc))
