-- ===== src/Pid/Tests.antt =====
-- A controller over whole numbers.
use general_tools.Common.{
  ℕ, ◌+◌, ◌-◌, ◌*◌, ◌/◌, ◌≡◌, refl, [], ◌∷◌, true, List, All, some, ltb, leb, ◌==◌, arith,
}
use general_tools.Common.Double.{Double, IsStrict}
use general_tools.Pid.{Pid, linear, set_gains, set_max_output, set_min_output}
use general_tools.Pid.Limits.{Within, run, outputs_limited}

-- Numbers with a difference that stops at 0.
abbrev whole : Double ℕ
whole = record {
  of_nat = λ n. n;
  ratio = λ n d. n / d;
  plus = ◌+◌;
  minus = ◌-◌;
  times = ◌*◌;
  divide = ◌/◌;
  negate = λ n. 0;
  fabs = λ n. n;
  less = ltb;
  less_eq = leb;
  equal = ◌==◌;
  lowest = 0;
  greatest = 1000;
  m_pi = 3;
}

whole-IsStrict : IsStrict whole
whole-IsStrict = record { asymmetric = λ x y e. ground (arith, e) }

abbrev controller : Pid ℕ
controller = record {
  kp = 2;
  ki = 1;
  kd = 0;
  min_output = 1;
  max_output = 9;
  antiwindup_damping = 1;
  integral_error_limit = 50;
  kind = linear;
  first_sample_computed = true;
  integral_error = 99;
  last_error = 0;
  last_timepoint = 0;
}

setters_run :
    ((set_max_output controller 4).max_output ≡ 4)
    × ((set_min_output controller 3).min_output ≡ 3)
    × ((set_gains controller 1 2 3).kd ≡ 3)
unfolding set_max_output set_min_output set_gains
setters_run = (refl, refl, refl)

outputs_limited_example :
    (p' : Pid ℕ) × (outputs : List ℕ) × (run whole
        (λ a b. b - a)
        3
        controller
        ((1, 7, 2) ∷ (2, 9, 1) ∷ [])
      ≡ some (p', outputs))
    × All (Within whole 1 9) outputs
    × Within whole 0 50 p'.integral_error
outputs_limited_example =
    outputs_limited whole (λ a b. b - a) 3 controller (1, 7, 2) ((2, 9, 1) ∷ []) whole-IsStrict refl
      refl refl refl refl
