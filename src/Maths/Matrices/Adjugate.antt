-- ===== src/Maths/Matrices/Adjugate.antt =====
-- The coefficients of the adjugate of a singular matrix, by a17/maths/matrix_utils.h.
use general_tools.Common.{
  ℕ, zero, suc, ◌+◌, ◌%◌, ◌<◌, ◌≤◌, ◌≡◌, refl, sym, ap, ◌∙◌, true, false, ◌==◌, ltb, if◌then◌else◌,
  Bool-cases, inl, inr, ok, arith,
}
use general_tools.Common.Double.{Double}
use general_tools.Maths.Matrices.{
  Matrices, without, sign, cofactor, row_cofactors, all_cofactors, adjugate,
}
use general_tools.Maths.Matrices.Coefficients.{IsMatrices}
use general_tools.Maths.Matrices.Minor.{IsMinor, without-IsMinor}

module _ {D : Type 0} (o : Double D) where
  -- The sign of a cofactor is that of the sum of its indices.
  pub sign-parity :
      (r c : ℕ) → sign o r c ≡ (if (r + c) % 2 == 0 then o.of_nat 1 else o.negate (o.of_nat 1))
  unfolding sign
  sign-parity r c = elim (Bool-cases (r % 2 == 0)) [
    | inl even_row ↦ elim (Bool-cases (c % 2 == 0)) [
      | inl even_col ↦
          let even : ((r + c) % 2 == 0) ≡ true = ground (arith, even_row, even_col) in
          rw (even_row, even_col, even) refl
      | inr odd_col ↦
          let odd : ((r + c) % 2 == 0) ≡ false = ground (arith, even_row, odd_col) in
          rw (even_row, odd_col, odd) refl
    ]
    | inr odd_row ↦ elim (Bool-cases (c % 2 == 0)) [
      | inl even_col ↦
          let odd : ((r + c) % 2 == 0) ≡ false = ground (arith, odd_row, even_col) in
          rw (odd_row, even_col, odd) refl
      | inr odd_col ↦
          let even : ((r + c) % 2 == 0) ≡ true = ground (arith, odd_row, odd_col) in
          rw (odd_row, odd_col, even) refl
    ]
  ]

module _ {D M : Type 0} (o : Double D) (e : Matrices D M) (l : IsMatrices e) where
  -- A cofactor is that of any minor of its row and column.
  cofactor-minor :
      (mat : M) (r c : ℕ) (x : M)
      → IsMinor e mat r c x
      → r < e.rows mat
      → c < e.cols mat
      → cofactor o e mat r c
        ≡ o.times (if (r + c) % 2 == 0 then o.of_nat 1 else o.negate (o.of_nat 1)) (e.determinant x)
  unfolding cofactor
  cofactor-minor mat r c x minor r< c< =
      let own = without-IsMinor e l mat r c r< c< in
      let same =
        l.determinant_congr (without e mat r c) x (omega (arith, own.minor_rows, minor.minor_rows))
          (omega (arith, own.minor_cols, minor.minor_cols))
          (λ a b a< b<.
            own.minor_coeff a b a< b<
            ∙ sym (
                minor.minor_coeff a b (omega (arith, a<, own.minor_rows, minor.minor_rows))
                  (omega (arith, b<, own.minor_cols, minor.minor_cols)))) in
      ap (λ s. o.times s (e.determinant (without e mat r c))) (sign-parity o r c)
      ∙ ap (o.times _) same

  row_size :
      (mat : M) (r c : ℕ) (m : M)
      → (e.rows (row_cofactors o e mat r c m) ≡ e.rows m)
        × (e.cols (row_cofactors o e mat r c m) ≡ e.cols m)
  unfolding row_cofactors
  row_size mat r zero m = (refl, refl)
  row_size mat r (suc c) m =
      let before = row_cofactors o e mat r c m in
      let size = l.set_coeff_size before r c (cofactor o e mat r c) in
      let ih = row_size mat r c m in (size.0 ∙ ih.0, size.1 ∙ ih.1)

  row_written :
      (mat : M) (r c : ℕ) (m : M) (j : ℕ)
      → r < e.rows m
      → c ≤ e.cols m
      → j < c
      → e.coeff (row_cofactors o e mat r c m) r j ≡ cofactor o e mat r j
  unfolding row_cofactors
  row_written mat r zero m j r< c≤ j< = absurd (omega (arith, j<))
  row_written mat r (suc c) m j r< c≤ j< =
      let before = row_cofactors o e mat r c m in
      let x = cofactor o e mat r c in
      let size = row_size mat r c m in
      let r_in : r < e.rows before = omega (arith, size.0) in
      elim (Bool-cases (ltb j c)) [
        | inl earlier ↦
            l.coeff_kept before r c x r j r_in (omega (arith, size.1))
              (λ p. absurd (ground (arith, earlier, p.1)))
            ∙ row_written mat r c m j r< (omega arith) (ground (arith, earlier))
        | inr last ↦
            let j≡c : j ≡ c = ground (arith, last) in
            ap (e.coeff (e.set_coeff before r c x) r) j≡c
            ∙ l.coeff_set before r c x r_in (omega (arith, size.1))
            ∙ ap (cofactor o e mat r) (sym j≡c)
      ]

  other_row :
      (mat : M) (r c : ℕ) (m : M) (i j : ℕ)
      → i < e.rows m
      → j < e.cols m
      → ¬ (i ≡ r)
      → e.coeff (row_cofactors o e mat r c m) i j ≡ e.coeff m i j
  unfolding row_cofactors
  other_row mat r zero m i j i< j< other = refl
  other_row mat r (suc c) m i j i< j< other =
      let size = row_size mat r c m in
      l.coeff_kept (row_cofactors o e mat r c m) r c (cofactor o e mat r c) i j
        (omega (arith, size.0)) (omega (arith, size.1)) (λ p. other p.0)
      ∙ other_row mat r c m i j i< j< other

  all_size :
      (mat : M) (r : ℕ) (m : M)
      → (e.rows (all_cofactors o e mat r m) ≡ e.rows m)
        × (e.cols (all_cofactors o e mat r m) ≡ e.cols m)
  unfolding all_cofactors
  all_size mat zero m = (refl, refl)
  all_size mat (suc r) m =
      let size = row_size mat r (e.cols mat) (all_cofactors o e mat r m) in
      let ih = all_size mat r m in (size.0 ∙ ih.0, size.1 ∙ ih.1)

  all_written :
      (mat : M) (r : ℕ) (m : M) (i j : ℕ)
      → r ≤ e.rows m
      → e.cols mat ≡ e.cols m
      → i < r
      → j < e.cols mat
      → e.coeff (all_cofactors o e mat r m) i j ≡ cofactor o e mat i j
  unfolding all_cofactors
  all_written mat zero m i j r≤ same i< j< = absurd (omega (arith, i<))
  all_written mat (suc r) m i j r≤ same i< j< =
      let before = all_cofactors o e mat r m in
      let size = all_size mat r m in
      elim (Bool-cases (ltb i r)) [
        | inl earlier ↦
            other_row mat r (e.cols mat) before i j (omega (arith, size.0)) (omega (arith, size.1))
              (λ p. absurd (ground (arith, earlier, p)))
            ∙ all_written mat r m i j (omega arith) same (ground (arith, earlier)) j<
        | inr last ↦
            let i≡r : i ≡ r = ground (arith, last) in
            ap (λ k. e.coeff (row_cofactors o e mat r (e.cols mat) before) k j) i≡r
            ∙ row_written mat r (e.cols mat) before j (omega (arith, size.0))
                (omega (arith, size.1)) j<
            ∙ ap (λ k. cofactor o e mat k j) (sym i≡r)
      ]

-- For a square matrix whose determinant is zero, `Adjugate` returns a matrix, and its coefficient in the
-- row `i` and the column `j` is the determinant of the matrix without the row `j` and the column `i`, with
-- the sign of `i + j`. That matrix is any one with the right coefficients, whatever the memory of the copies
-- held before.
pub adjugate-singular :
    {D M : Type 0} (o : Double D) (e : Matrices D M)
    → IsMatrices e
    → (mat : M) → e.rows mat ≡ e.cols mat
    → o.equal (e.determinant mat) (o.of_nat 0) ≡ true
    → (i j : ℕ) (x : M) → i < e.rows mat
    → j < e.rows mat
    → IsMinor e mat j i x
    → (adj : M) × (adjugate o e mat ≡ ok adj)
      × (e.coeff adj i j
          ≡ o.times
              (if (i + j) % 2 == 0 then o.of_nat 1 else o.negate (o.of_nat 1))
              (e.determinant x))
unfolding adjugate
adjugate-singular o e l mat square singular i j x i< j< minor =
    let new = e.allocated (e.rows mat) (e.cols mat) in
    let new_size = l.allocated_size (e.rows mat) (e.cols mat) in
    let cofactors = all_cofactors o e mat (e.rows mat) new in
    let size = all_size o e l mat (e.rows mat) new in
    let shape : (e.rows mat == e.cols mat) ≡ true = ground (arith, square) in
    let turned : (j + i) % 2 ≡ (i + j) % 2 = ap (λ k. k % 2) (omega arith) in
    (
      e.transpose cofactors,
      rw (shape, singular) refl,
      l.coeff-transpose cofactors i j (omega (arith, size.1, new_size.1))
            (omega (arith, size.0, new_size.0))
          ∙ all_written o e l mat (e.rows mat) new j i (omega (arith, new_size.0)) (sym new_size.1)
              j< (omega arith)
          ∙ cofactor-minor o e l mat j i x minor j< (omega arith)
          ∙ ap
              (λ k.
                o.times (if k == 0 then o.of_nat 1 else o.negate (o.of_nat 1)) (e.determinant x))
              turned,
    )
