-- ===== src/Maths/Floats/Order.antt =====
-- The five comparisons as one order.
use general_tools.Common.{
  ◌≡◌, refl, sym, ap, ◌∙◌, true, false, ◌&&◌, not, Bool-cases, inl, inr, arith,
}
use general_tools.Common.Double.{Double, IsStrict}
use general_tools.Maths.Floats.{
  Floats, float_min, float_max, float_abs_diff, float_epsilon, float_eq_within, float_eq, float_lt,
  float_lt_eq, float_gt, float_gt_eq, default_epsilon,
}

-- What the comparisons rely on: `<` of `float` is asymmetric; a finite number differs by zero from
-- itself, and is its own neighbour towards itself; zero times two is zero, and zero is less than the least
-- normal number; the default epsilon is negative.
pub record IsIeee {F D : Type 0} ⦃o : Double D⦄ (n : Floats o F) : Type 0 where
  pub strict : IsStrict n.single
  pub neighbour : (x : F) → n.next_toward x x ≡ x
  pub minus_self :
      (x : F)
      → n.single.less_eq x x ≡ true
      → n.single.less_eq x (float_min n) ≡ false
      → n.single.less_eq (float_max n) x ≡ false
      → n.single.fabs (n.single.minus x x) ≡ n.single.of_nat 0
  pub difference_self :
      (x : F)
      → n.single.less_eq x x ≡ true
      → n.single.less_eq x (float_min n) ≡ false
      → n.single.less_eq (float_max n) x ≡ false
      → float_abs_diff n x x ≡ o.of_nat 0
  pub zero_times : n.single.times (n.single.of_nat 0) (n.single.of_nat 2) ≡ n.single.of_nat 0
  pub zero_less : n.single.less (n.single.of_nat 0) n.smallest ≡ true
  pub zero_less_double : o.less (o.of_nat 0) (n.widen n.smallest) ≡ true
  pub negative : o.less (default_epsilon n) (o.of_nat 0) ≡ true

module _ {F D : Type 0} ⦃o : Double D⦄ (n : Floats o F) (ieee : IsIeee n) where
  epsilon_self :
      (x : F)
      → n.single.less_eq x x ≡ true
      → n.single.less_eq x (float_min n) ≡ false
      → n.single.less_eq (float_max n) x ≡ false
      → float_epsilon n x x ≡ n.smallest
  unfolding float_epsilon
  epsilon_self x number low high =
      rw (ieee.neighbour x, ieee.minus_self x number low high, ieee.zero_times, ieee.zero_less) refl

  -- A number is equal to itself.
  float_eq_refl : (x : F) → n.single.less_eq x x ≡ true → float_eq n x x ≡ true
  unfolding float_eq float_eq_within
  float_eq_refl x number = elim (Bool-cases (n.single.less_eq x (float_min n))) [
    | inl low ↦ rw low refl
    | inr low ↦ elim (Bool-cases (n.single.less_eq (float_max n) x)) [
      | inl high ↦ rw (low, high) refl
      | inr high ↦
          rw
            (
              low,
              high,
              ieee.difference_self x number low high,
              ieee.negative,
              epsilon_self x number low high,
              ieee.zero_less_double,
            )
            refl
    ]
  ]

  -- For two numbers of which one is less than the other unless they are the same, neither of them NaN:
  -- `FloatLtEq` is the negation of `FloatGt`, `FloatGtEq` that of `FloatLt`, not both of `FloatLt` and
  -- `FloatGt` hold, and `FloatEq` holds exactly if neither does.
  pub comparisons_lem :
      (x y : F)
      → n.single.less_eq x x ≡ true
      → (n.single.less x y ≡ false → n.single.less y x ≡ false → x ≡ y)
      → (float_lt_eq n x y ≡ not (float_gt n x y))
        × (float_gt_eq n x y ≡ not (float_lt n x y))
        × ((float_lt n x y && float_gt n x y) ≡ false)
        × (float_eq n x y ≡ not (float_lt n x y) && not (float_gt n x y))
  unfolding float_lt float_gt float_lt_eq float_gt_eq
  comparisons_lem x y number total = elim (Bool-cases (n.single.less x y)) [
    | inl below ↦ ground (arith, below, ieee.strict.asymmetric x y below)
    | inr not_below ↦ elim (Bool-cases (n.single.less y x)) [
      | inl above ↦ ground (arith, above, not_below)
      | inr not_above ↦
          let same : float_eq n x y ≡ true =
            ap (float_eq n x) (sym (total not_below not_above)) ∙ float_eq_refl x number in
          ground (arith, not_above, not_below, same)
    ]
  ]
