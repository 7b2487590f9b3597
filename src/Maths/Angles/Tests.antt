-- ===== src/Maths/Angles/Tests.antt =====
-- Angles that are whole numbers, with a turn of 6, and numbers with an infinite one.
use general_tools.Common.{
  ◌∙◌, ℕ, ◌+◌, ◌-◌, ◌*◌, ◌≡◌, refl, Bool, true, false, Option, none, some, ltb,
}
use general_tools.Common.Double.{Double}
use mathlib.Core.Nat
use mathlib.Core.Int.{ℤ, pos, negsuc, neg_ℤ, suc_ℤ, pred_ℤ, ◌+ℤ◌}
use general_tools.Maths.Whole.{of_number, whole, whole-IsExact}
use general_tools.Maths.Angles.{unroller, turn, wrap_to_pi, unroll_angle, lowered, raised, unrolled}
use general_tools.Maths.Angles.Unrolled.{Turns, turned_down, turned_up}
use general_tools.Maths.Angles.Steps.{IsOrdered, unroll_angle_lem}

above :
    (x : ℤ)
    → whole.less whole.m_pi x ≡ true
    → whole.less (whole.minus x turn) (whole.negate whole.m_pi) ≡ false
above (pos Nat.ℕ.zero) e = absurd (cc)
above (pos (Nat.ℕ.suc Nat.ℕ.zero)) e = absurd (cc)
above (pos (Nat.ℕ.suc (Nat.ℕ.suc Nat.ℕ.zero))) e = absurd (cc)
above (pos (Nat.ℕ.suc (Nat.ℕ.suc (Nat.ℕ.suc Nat.ℕ.zero)))) e = absurd (cc)
above (pos (Nat.ℕ.suc (Nat.ℕ.suc (Nat.ℕ.suc (Nat.ℕ.suc Nat.ℕ.zero))))) e = refl
above (pos (Nat.ℕ.suc (Nat.ℕ.suc (Nat.ℕ.suc (Nat.ℕ.suc (Nat.ℕ.suc Nat.ℕ.zero)))))) e = refl
above (pos (Nat.ℕ.suc (Nat.ℕ.suc (Nat.ℕ.suc (Nat.ℕ.suc (Nat.ℕ.suc (Nat.ℕ.suc n))))))) e = refl
above (negsuc n) e = absurd (cc)

below :
    (x : ℤ)
    → whole.less x (whole.negate whole.m_pi) ≡ true
    → whole.less whole.m_pi (whole.plus x turn) ≡ false
below (pos n) e = absurd (cc)
below (negsuc Nat.ℕ.zero) e = absurd (cc)
below (negsuc (Nat.ℕ.suc Nat.ℕ.zero)) e = absurd (cc)
below (negsuc (Nat.ℕ.suc (Nat.ℕ.suc Nat.ℕ.zero))) e = absurd (cc)
below (negsuc (Nat.ℕ.suc (Nat.ℕ.suc (Nat.ℕ.suc Nat.ℕ.zero)))) e = refl
below (negsuc (Nat.ℕ.suc (Nat.ℕ.suc (Nat.ℕ.suc (Nat.ℕ.suc Nat.ℕ.zero))))) e = refl
below (negsuc (Nat.ℕ.suc (Nat.ℕ.suc (Nat.ℕ.suc (Nat.ℕ.suc (Nat.ℕ.suc Nat.ℕ.zero)))))) e = refl
below (negsuc (Nat.ℕ.suc (Nat.ℕ.suc (Nat.ℕ.suc (Nat.ℕ.suc (Nat.ℕ.suc (Nat.ℕ.suc n))))))) e = refl

unroll_runs :
    unroll_angle 3 (unroller (of_number 3)) (neg_ℤ (of_number 2))
    ≡ some (unroller (of_number 4), of_number 4)
unfolding unroll_angle wrap_to_pi lowered raised unrolled
unroll_runs = refl

less-suc : (x y : ℤ) → whole.less (suc_ℤ x) (suc_ℤ y) ≡ whole.less x y
less-suc (pos m) (pos n) = refl
less-suc (pos m) (negsuc Nat.ℕ.zero) = refl
less-suc (pos m) (negsuc (Nat.ℕ.suc n)) = refl
less-suc (negsuc Nat.ℕ.zero) (pos n) = refl
less-suc (negsuc Nat.ℕ.zero) (negsuc Nat.ℕ.zero) = refl
less-suc (negsuc Nat.ℕ.zero) (negsuc (Nat.ℕ.suc n)) = refl
less-suc (negsuc (Nat.ℕ.suc m)) (pos n) = refl
less-suc (negsuc (Nat.ℕ.suc m)) (negsuc Nat.ℕ.zero) = refl
less-suc (negsuc (Nat.ℕ.suc m)) (negsuc (Nat.ℕ.suc n)) = refl

less-pred : (x y : ℤ) → whole.less (pred_ℤ x) (pred_ℤ y) ≡ whole.less x y
less-pred (pos Nat.ℕ.zero) (pos Nat.ℕ.zero) = refl
less-pred (pos Nat.ℕ.zero) (pos (Nat.ℕ.suc n)) = refl
less-pred (pos (Nat.ℕ.suc m)) (pos Nat.ℕ.zero) = refl
less-pred (pos (Nat.ℕ.suc m)) (pos (Nat.ℕ.suc n)) = refl
less-pred (pos Nat.ℕ.zero) (negsuc n) = refl
less-pred (pos (Nat.ℕ.suc m)) (negsuc n) = refl
less-pred (negsuc m) (pos Nat.ℕ.zero) = refl
less-pred (negsuc m) (pos (Nat.ℕ.suc n)) = refl
less-pred (negsuc m) (negsuc n) = refl

plus-less : (x y z : ℤ) → whole.less (x +ℤ z) (y +ℤ z) ≡ whole.less x y
plus-less x y (pos Nat.ℕ.zero) = refl
plus-less x y (pos (Nat.ℕ.suc n)) = less-suc (x +ℤ pos n) (y +ℤ pos n) ∙ plus-less x y (pos n)
plus-less x y (negsuc Nat.ℕ.zero) = less-pred x y
plus-less x y (negsuc (Nat.ℕ.suc n)) =
    less-pred (x +ℤ negsuc n) (y +ℤ negsuc n) ∙ plus-less x y (negsuc n)

less-asymmetric : (x y : ℤ) → whole.less x y ≡ true → whole.less y x ≡ false
less-asymmetric (pos Nat.ℕ.zero) (pos Nat.ℕ.zero) e = absurd (cc)
less-asymmetric (pos Nat.ℕ.zero) (pos (Nat.ℕ.suc n)) e = refl
less-asymmetric (pos (Nat.ℕ.suc m)) (pos Nat.ℕ.zero) e = absurd (cc)
less-asymmetric (pos (Nat.ℕ.suc m)) (pos (Nat.ℕ.suc n)) e = less-asymmetric (pos m) (pos n) e
less-asymmetric (pos m) (negsuc n) e = absurd (cc)
less-asymmetric (negsuc m) (pos n) e = refl
less-asymmetric (negsuc Nat.ℕ.zero) (negsuc Nat.ℕ.zero) e = absurd (cc)
less-asymmetric (negsuc Nat.ℕ.zero) (negsuc (Nat.ℕ.suc n)) e = absurd (cc)
less-asymmetric (negsuc (Nat.ℕ.suc m)) (negsuc Nat.ℕ.zero) e = refl
less-asymmetric (negsuc (Nat.ℕ.suc m)) (negsuc (Nat.ℕ.suc n)) e =
    less-asymmetric (negsuc m) (negsuc n) e

not_less_trans :
    (x y z : ℤ) → whole.less x y ≡ false → whole.less y z ≡ false → whole.less x z ≡ false
not_less_trans (pos m) y (negsuc k) e e' = refl
not_less_trans (pos m) (negsuc n) (pos k) e e' = absurd (cc)
not_less_trans (pos m) (pos n) (pos Nat.ℕ.zero) e e' = refl
not_less_trans (pos m) (pos Nat.ℕ.zero) (pos (Nat.ℕ.suc k)) e e' = absurd (cc)
not_less_trans (pos Nat.ℕ.zero) (pos (Nat.ℕ.suc n)) (pos (Nat.ℕ.suc k)) e e' = absurd (cc)
not_less_trans (pos (Nat.ℕ.suc m)) (pos (Nat.ℕ.suc n)) (pos (Nat.ℕ.suc k)) e e' =
    not_less_trans (pos m) (pos n) (pos k) e e'
not_less_trans (negsuc m) (pos n) z e e' = absurd (cc)
not_less_trans (negsuc m) (negsuc n) (pos k) e e' = absurd (cc)
not_less_trans (negsuc Nat.ℕ.zero) (negsuc n) (negsuc k) e e' = refl
not_less_trans (negsuc (Nat.ℕ.suc m)) (negsuc Nat.ℕ.zero) (negsuc k) e e' = absurd (cc)
not_less_trans (negsuc (Nat.ℕ.suc m)) (negsuc (Nat.ℕ.suc n)) (negsuc Nat.ℕ.zero) e e' = absurd (cc)
not_less_trans (negsuc (Nat.ℕ.suc m)) (negsuc (Nat.ℕ.suc n)) (negsuc (Nat.ℕ.suc k)) e e' =
    not_less_trans (negsuc m) (negsuc n) (negsuc k) e e'

whole-IsOrdered : IsOrdered whole
whole-IsOrdered = record {
  less_eq-less = λ x y. refl;
  asymmetric = less-asymmetric;
  not_less_trans = not_less_trans;
  plus-less = plus-less;
  fabs-less = λ x. refl;
  two-one = refl;
  pi_positive = refl;
}

unroll_angle_lem_example :
    (u : ℤ) × (unroll_angle 3 (unroller (of_number 3)) (neg_ℤ (of_number 2))
      ≡ some (record { unrolled_angle = u }, u))
    × Turns (neg_ℤ (of_number 2)) u
    × (whole.less whole.m_pi (whole.fabs (whole.minus u (of_number 3))) ≡ false)
unfolding turned_down turned_up
unroll_angle_lem_example =
    unroll_angle_lem whole-IsExact whole-IsOrdered 3 (unroller (of_number 3)) (neg_ℤ (of_number 2))
      (record { above = above; below = below }) (record { not_above = refl; not_below = refl })
      (record { not_above = refl; not_below = refl })

-- No number stands for the infinite one.
abbrev less : Option ℕ → Option ℕ → Bool
less none y = false
less (some m) none = true
less (some m) (some n) = ltb m n

abbrev lift : (ℕ → ℕ → ℕ) → Option ℕ → Option ℕ → Option ℕ
lift f none y = none
lift f (some m) none = none
lift f (some m) (some n) = some (f m n)

instance abbrev infinite : Double (Option ℕ)
infinite = record {
  of_nat = some;
  ratio = λ n d. some n;
  plus = lift ◌+◌;
  minus = lift ◌-◌;
  times = lift ◌*◌;
  divide = λ m n. m;
  negate = λ m. some 0;
  fabs = λ m. m;
  less = less;
  less_eq = less;
  equal = less;
  lowest = some 0;
  greatest = none;
  m_pi = some 3;
}

abbrev infinity : Option ℕ
infinity = none

stalls_run : wrap_to_pi 20 infinity ≡ none
unfolding wrap_to_pi lowered
stalls_run = refl
