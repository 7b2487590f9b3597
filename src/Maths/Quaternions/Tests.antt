-- ===== src/Maths/Quaternions/Tests.antt =====
-- The angles of a quaternion of integers, with small functions for the trigonometric ones.
use general_tools.Common.{◌≡◌, refl}
use mathlib.Core.Int.{ℤ}
use general_tools.Maths.Whole.{whole, of_number}
use general_tools.Maths.Quaternions.{Quaternion, Trigonometry, pitch_from_quaternion}

-- `M_PI_2` is 2.
abbrev small : Trigonometry ℤ
small = record {
  atan2 = λ a b. whole.minus a b;
  asin = λ a. a;
  copysign = λ a b. a;
  m_pi_2 = of_number 2;
}

abbrev tilted : Quaternion ℤ
tilted = record { w = of_number 1; x = of_number 1; y = of_number 1; z = of_number 1 }

tilted_run : pitch_from_quaternion small tilted ≡ of_number 0
unfolding pitch_from_quaternion
tilted_run = refl
