-- ===== src/Maths/Matrices.antt =====
-- The adjugate of a17/maths/matrix_utils.h. The matrices of Eigen are the fields of a record; only what
-- `Adjugate` calls is named.
use general_tools.Common.{
  ℕ, zero, suc, ◌+◌, ◌-◌, ◌%◌, ◌<◌, ◌≤◌, ◌≡◌, Bool, true, false, ◌==◌, ltb, not, if◌then◌else◌,
  Result, ok, throws, codes,
}
use general_tools.Common.Double.{Double}
pub mod Coefficients
pub mod Minor
pub mod Adjugate
mod Tests

-- `allocated` has the coefficients that the memory holds. `block m i j h w` starts at row `i` and column
-- `j`, with `h` rows and `w` columns, and `set_block m i j h w x` assigns `x` to it.
pub record Matrices (D M : Type 0) : Type 0 where
  pub allocated : ℕ → ℕ → M
  pub rows : M → ℕ
  pub cols : M → ℕ
  pub coeff : M → ℕ → ℕ → D
  pub set_coeff : M → ℕ → ℕ → D → M
  pub block : M → ℕ → ℕ → ℕ → ℕ → M
  pub set_block : M → ℕ → ℕ → ℕ → ℕ → M → M
  pub transpose : M → M
  pub inverse : M → M
  pub determinant : M → D
  pub scale : D → M → M

module _ {D M : Type 0} (e : Matrices D M) where
  -- The matrix without the row `r` and the column `c`, by the copy of four blocks.
  unfoldable pub without : M → ℕ → ℕ → M
  without mat r c =
      let temp = e.allocated (e.rows mat - 1) (e.cols mat - 1) in
      let br_rows = e.rows mat - (r + 1) in
      let br_cols = e.cols mat - (c + 1) in
      let temp = e.set_block temp 0 0 r c (e.block mat 0 0 r c) in
      let temp = e.set_block temp 0 c r br_cols (e.block mat 0 (c + 1) r br_cols) in
      let temp = e.set_block temp r 0 br_rows c (e.block mat (r + 1) 0 br_rows c) in
      e.set_block temp r c br_rows br_cols (e.block mat (r + 1) (c + 1) br_rows br_cols)

module _ {D : Type 0} (o : Double D) where
  unfoldable pub sign : ℕ → ℕ → D
  sign r c =
      let even_row = r % 2 == 0 in
      let even_col = c % 2 == 0 in
      if if even_row then even_col else not even_col then o.of_nat 1 else o.negate (o.of_nat 1)

module _ {D M : Type 0} (o : Double D) (e : Matrices D M) where
  unfoldable pub cofactor : M → ℕ → ℕ → D
  cofactor mat r c = o.times (sign o r c) (e.determinant (without e mat r c))

  -- The first `c` rounds of the inner loop, in the row `r`.
  unfoldable pub row_cofactors : M → ℕ → ℕ → M → M
  row_cofactors mat r zero cofactors = cofactors
  row_cofactors mat r (suc c) cofactors =
      e.set_coeff (row_cofactors mat r c cofactors) r c (cofactor mat r c)

  -- The first `r` rounds of the outer loop.
  unfoldable pub all_cofactors : M → ℕ → M → M
  all_cofactors mat zero cofactors = cofactors
  all_cofactors mat (suc r) cofactors =
      row_cofactors mat r (e.cols mat) (all_cofactors mat r cofactors)

  unfoldable pub adjugate : M → Result M
  adjugate mat =
      let det = e.determinant mat in
      if not (e.rows mat == e.cols mat)
      then throws (codes "Input must be a square matrix")
      else if not (o.equal det (o.of_nat 0))
      then ok (e.scale det (e.inverse mat))
      else ok (e.transpose (all_cofactors mat (e.rows mat) (e.allocated (e.rows mat) (e.cols mat))))
