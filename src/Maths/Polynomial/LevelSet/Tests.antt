-- ===== src/Maths/Polynomial/LevelSet/Tests.antt =====
-- The numbers modulo three, a field in which one has a square root.
use general_tools.Common.{
  ℕ, zero, suc, ◌≡◌, refl, Bool, true, false, Option, none, some, List, [], ◌∷◌, All, arith, ◌&&◌,
}
use general_tools.Common.Double.{Double}
use general_tools.Maths.Exact.{IsExact}
use general_tools.Maths.Floats.{Floats}
use general_tools.Maths.Polynomial.{Polynomial, evaluate, level_set}
use general_tools.Maths.Roots.{quadratic_real_roots}
use general_tools.Maths.Polynomial.LevelSet.{IsField, level_set_reaches}

data Three : Type 0 where
  nought : Three
  one : Three
  minus_one : Three

abbrev next : Three → Three
next nought = one
next one = minus_one
next minus_one = nought

abbrev negate : Three → Three
negate nought = nought
negate one = minus_one
negate minus_one = one

abbrev plus : Three → Three → Three
plus nought y = y
plus one y = next y
plus minus_one y = next (next y)

abbrev times : Three → Three → Three
times nought y = nought
times one y = y
times minus_one y = negate y

abbrev of_number : ℕ → Three
of_number zero = nought
of_number (suc n) = next (of_number n)

abbrev equal : Three → Three → Bool
equal nought nought = true
equal one one = true
equal minus_one minus_one = true
equal x y = false

-- One is its own inverse, and so is minus one.
instance abbrev modulo_three : Double Three
modulo_three = record {
  of_nat = of_number;
  ratio = λ n d. times (of_number n) (of_number d);
  plus = plus;
  minus = λ x y. plus x (negate y);
  times = times;
  divide = times;
  negate = negate;
  fabs = λ x. x;
  less = λ x y. equal x nought && equal y one;
  less_eq = equal;
  equal = equal;
  lowest = minus_one;
  greatest = one;
  m_pi = nought;
}

exact : IsExact modulo_three
exact = record {
  plus_assoc = λ x y z. ground arith;
  plus_comm = λ x y. ground arith;
  zero-plus = λ x. refl;
  negate-plus = λ x. ground arith;
  minus-negate = λ x y. refl;
  times_assoc = λ x y z. ground arith;
  times_comm = λ x y. ground arith;
  one-times = λ x. refl;
  times-plus = λ x y z. ground arith;
}

-- What is not a square stays as it is.
abbrev sqrt : Three → Three
sqrt x = x

modulo_three-IsField : IsField modulo_three sqrt
modulo_three-IsField = record {
  divide_times = λ x y solid. ground arith;
  no_divisors = λ x y solid e. ground arith;
  equal_sound = λ x y e. ground arith;
  two = refl;
  two_ne_zero = λ e. cc;
  four = refl;
  sqrt_lem = λ x e. ground arith;
}

abbrev floats : Floats modulo_three Three
floats = record {
  single = modulo_three;
  narrow = λ x. x;
  widen = λ x. x;
  next_toward = λ x y. x;
  smallest = one;
}

abbrev find_roots : List Three → Option (List (Three × Three))
find_roots cs = none

abbrev square : Polynomial Three
square = record { coefficients = nought ∷ nought ∷ one ∷ [] }

roots_run : level_set floats sqrt find_roots square one ≡ minus_one ∷ one ∷ []
unfolding level_set quadratic_real_roots
roots_run = refl

level_set_reaches_example :
    All (λ t. evaluate square t ≡ some one) (level_set floats sqrt find_roots square one)
level_set_reaches_example =
    level_set_reaches floats exact modulo_three-IsField find_roots square one (omega arith)
      (λ e. cc)
