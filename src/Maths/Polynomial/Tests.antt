-- ===== src/Maths/Polynomial/Tests.antt =====
-- The polynomial 1 + 2 t + 3 t^2 over the integers.
use general_tools.Common.{ℕ, ◌≡◌, refl, some, List, [], ◌∷◌, map, ok, throws, codes, ◌>>=◌, arith}
use mathlib.Core.Int.{ℤ}
use general_tools.Common.Integers.{pos, negsuc}
use general_tools.Maths.Floats.{
  float_eq, float_eq_within, float_min, float_max, float_abs_diff, float_epsilon,
}
use general_tools.Maths.Sums.{sum}
use general_tools.Maths.Whole.{of_number, whole, whole_floats, whole-IsExact}
use general_tools.Maths.Polynomial.{
  Polynomial, set_coefficients, evaluate, derivative, derivative_at, falling, derived, reverse,
  conversion_matrix, first_row, next_rows, next_row, row_from, zeros, reduced_order, horner,
}
use general_tools.Maths.Polynomial.Value.{value, set_coefficients-value}
use general_tools.Maths.Polynomial.Derivative.{
  nth_derivative, first_derivative, scaled, derivative_at-nth,
}
use general_tools.Maths.Polynomial.Reverse.{dot, reverse-evaluate}

abbrev numbers : List ℕ → List ℤ
numbers ns = map of_number ns

abbrev quadratic : Polynomial ℤ
quadratic = record { coefficients = numbers (1 ∷ 2 ∷ 3 ∷ []) }

abbrev product : List (List ℤ) → List ℤ → List ℤ
product rows v = map (λ row. dot row v) rows

evaluate_runs : evaluate quadratic (of_number 2) ≡ some (of_number 17)
unfolding evaluate horner
evaluate_runs = refl

set_coefficients_runs :
    set_coefficients whole_floats (numbers (1 ∷ 2 ∷ 0 ∷ 0 ∷ []))
    ≡ some (record { coefficients = numbers (1 ∷ 2 ∷ []) })
unfolding set_coefficients reduced_order float_eq float_eq_within float_min float_max float_abs_diff
    float_epsilon
set_coefficients_runs = refl

derivative_runs :
    derivative whole_floats quadratic (pos 1)
    ≡ some (ok (record { coefficients = numbers (2 ∷ 6 ∷ []) }))
unfolding derivative derived falling set_coefficients reduced_order float_eq float_eq_within
    float_min float_max float_abs_diff float_epsilon
derivative_runs = refl

negative_order :
    derivative_at whole_floats quadratic (of_number 0) (negsuc 0)
    ≡ some (throws (codes "Derivative order must be positive"))
unfolding derivative_at derivative
negative_order = refl

set_coefficients-value_example :
    (set_coefficients whole_floats (numbers (1 ∷ 2 ∷ 0 ∷ [])) >>= λ p. evaluate p (of_number 2))
    ≡ some (value (numbers (1 ∷ 2 ∷ 0 ∷ [])) (of_number 2))
unfolding float_eq float_eq_within float_min float_max float_abs_diff float_epsilon
set_coefficients-value_example =
    set_coefficients-value whole_floats whole-IsExact (numbers (1 ∷ 2 ∷ 0 ∷ [])) (of_number 2)
      (omega arith) (λ e. cc, (λ e. cc, (λ e. refl, tt)))

derivative_at-nth_example :
    derivative_at whole_floats quadratic (of_number 2) (pos 1)
    ≡ some (ok (value (nth_derivative 1 quadratic.coefficients) (of_number 2)))
unfolding nth_derivative first_derivative scaled float_eq float_eq_within float_min float_max
    float_abs_diff float_epsilon
derivative_at-nth_example =
    derivative_at-nth whole_floats whole-IsExact quadratic 1 (of_number 2) (omega arith)
      (λ e. cc, (λ e. cc, tt))

reverse-evaluate_example :
    (reverse whole_floats product quadratic (of_number 1) (of_number 3) >>= λ q.
    evaluate q (of_number 2))
    ≡ evaluate quadratic (of_number 2)
unfolding conversion_matrix first_row next_rows next_row row_from zeros sum float_eq float_eq_within
    float_min float_max float_abs_diff float_epsilon
reverse-evaluate_example =
    reverse-evaluate whole_floats whole-IsExact product quadratic (of_number 1) (of_number 3)
      (of_number 2) (λ rows v. refl) (omega arith) (λ e. cc, (λ e. cc, (λ e. cc, tt)))
