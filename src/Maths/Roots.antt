-- ===== src/Maths/Roots.antt =====
-- `QuadraticRealRoots` (a17/maths/polynomial_utils.h). The square root is a parameter.
use general_tools.Common.{List, [], ◌∷◌, if◌then◌else◌}
use general_tools.Common.Double.{Double}
use general_tools.Maths.Exact.{◌⊕◌, ◌⊖◌, ◌⊗◌, 𝟘}

module _ {D : Type 0} ⦃o : Double D⦄ where
  abbrev pub discriminant : D → D → D → D
  discriminant a b c = b ⊗ b ⊖ o.of_nat 4 ⊗ a ⊗ c

  unfoldable pub quadratic_real_roots : (D → D) → D → D → D → List D
  quadratic_real_roots sqrt a b c =
      if o.equal (discriminant a b c) 𝟘
      then o.divide (o.negate b) (o.of_nat 2 ⊗ a) ∷ []
      else if o.less 𝟘 (discriminant a b c)
      then o.divide (o.negate b ⊕ sqrt (discriminant a b c)) (o.of_nat 2 ⊗ a)
        ∷ o.divide (o.negate b ⊖ sqrt (discriminant a b c)) (o.of_nat 2 ⊗ a)
        ∷ []
      else []
