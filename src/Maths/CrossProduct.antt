-- ===== src/Maths/CrossProduct.antt =====
-- `SkewSymmetricMatrix` of a17/maths/matrix_utils.h.
use general_tools.Common.{◌≡◌, refl, ap, ◌∙◌}
use general_tools.Common.Double.{Double}
use general_tools.Maths.Exact.{IsExact, ◌⊕◌, ◌⊖◌, ◌⊗◌, 𝟘, zero-times, plus-zero, times-negate}

-- `vec(0)`, `vec(1)` and `vec(2)`.
pub record Vector (D : Type 0) : Type 0 where
  pub first : D
  pub second : D
  pub third : D

module _ {D : Type 0} ⦃o : Double D⦄ where
  -- The rows of the matrix that is filled by `mat << …`.
  unfoldable pub skew_symmetric_matrix : Vector D → Vector (Vector D)
  skew_symmetric_matrix vec = record {
    first = record { first = 𝟘; second = o.negate vec.third; third = vec.second };
    second = record { first = vec.third; second = 𝟘; third = o.negate vec.first };
    third = record { first = o.negate vec.second; second = vec.first; third = 𝟘 };
  }

  -- The product of a row and a column.
  abbrev dot : Vector D → Vector D → D
  dot v u = v.first ⊗ u.first ⊕ v.second ⊗ u.second ⊕ v.third ⊗ u.third

  abbrev product : Vector (Vector D) → Vector D → Vector D
  product m u = record { first = dot m.first u; second = dot m.second u; third = dot m.third u }

  abbrev cross : Vector D → Vector D → Vector D
  cross v u = record {
    first = v.second ⊗ u.third ⊖ v.third ⊗ u.second;
    second = v.third ⊗ u.first ⊖ v.first ⊗ u.third;
    third = v.first ⊗ u.second ⊖ v.second ⊗ u.first;
  }

module _ {D : Type 0} ⦃o : Double D⦄ (r : IsExact o) where
  negate-times : (x y : D) → o.negate x ⊗ y ≡ o.negate (x ⊗ y)
  negate-times x y =
      r.times_comm (o.negate x) y ∙ times-negate r y x ∙ ap o.negate (r.times_comm y x)

  -- In exact arithmetic the product of the matrix and a vector is their cross product.
  skew_symmetric_matrix-cross : (v u : Vector D) → product (skew_symmetric_matrix v) u ≡ cross v u
  unfolding skew_symmetric_matrix
  skew_symmetric_matrix-cross v u =
      simp (zero-times r, negate-times, r.zero-plus, plus-zero r, r.minus-negate)
        (rw
          (
            r.plus_comm (o.negate (v.third ⊗ u.second)) (v.second ⊗ u.third),
            r.plus_comm (o.negate (v.second ⊗ u.first)) (v.first ⊗ u.second),
          )
          refl)
