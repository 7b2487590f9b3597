-- ===== src/Maths/Matrices/Minor.antt =====
-- The matrix of which a cofactor is the determinant, by a17/maths/matrix_utils.h: a row and a column less.
use general_tools.Common.{
  ℕ, suc, ◌+◌, ◌-◌, ◌<◌, ◌≤◌, ◌≡◌, ◌∙◌, true, false, ltb, if◌then◌else◌, Bool-cases, inl, inr,
  arith,
}
use general_tools.Maths.Matrices.{Matrices, without}
use general_tools.Maths.Matrices.Coefficients.{IsMatrices, size_kept, kept, set_here, same_place}

-- The index that is left after the index `r` is skipped.
abbrev pub skip : ℕ → ℕ → ℕ
skip r a = if ltb a r then a else suc a

-- `x` is the matrix `m` without the row `r` and the column `c`.
pub record IsMinor {D M : Type 0} (e : Matrices D M) (m : M) (r c : ℕ) (x : M) : Type 0 where
  pub minor_rows : suc (e.rows x) ≡ e.rows m
  pub minor_cols : suc (e.cols x) ≡ e.cols m
  pub minor_coeff :
      (a b : ℕ) → a < e.rows x → b < e.cols x → e.coeff x a b ≡ e.coeff m (skip r a) (skip c b)

module _ {D M : Type 0} (e : Matrices D M) (l : IsMatrices e) where
  -- The copy after one, two and three blocks.
  abbrev one_block : M → ℕ → ℕ → M
  one_block mat r c =
      e.set_block (e.allocated (e.rows mat - 1) (e.cols mat - 1)) 0 0 r c (e.block mat 0 0 r c)

  abbrev two_blocks : M → ℕ → ℕ → M
  two_blocks mat r c =
      let right = e.cols mat - (c + 1) in
      e.set_block (one_block mat r c) 0 c r right (e.block mat 0 (c + 1) r right)

  abbrev three_blocks : M → ℕ → ℕ → M
  three_blocks mat r c =
      let below = e.rows mat - (r + 1) in
      e.set_block (two_blocks mat r c) r 0 below c (e.block mat (r + 1) 0 below c)

  HasSize : M → M → Type 0
  HasSize mat t = (e.rows t ≡ e.rows mat - 1) × (e.cols t ≡ e.cols mat - 1)

  one_size : (mat : M) (r c : ℕ) → HasSize mat (one_block mat r c)
  unfolding HasSize
  one_size mat r c =
      size_kept e l _ _ _ _ 0 0 r c (l.allocated_size (e.rows mat - 1) (e.cols mat - 1))

  two_size : (mat : M) (r c : ℕ) → HasSize mat (two_blocks mat r c)
  unfolding HasSize
  two_size mat r c = size_kept e l _ _ _ _ 0 c r (e.cols mat - (c + 1)) (one_size mat r c)

  three_size : (mat : M) (r c : ℕ) → HasSize mat (three_blocks mat r c)
  unfolding HasSize
  three_size mat r c = size_kept e l _ _ _ _ r 0 (e.rows mat - (r + 1)) c (two_size mat r c)

  without_size : (mat : M) (r c : ℕ) → HasSize mat (without e mat r c)
  unfolding HasSize without
  without_size mat r c =
      size_kept e l _ _ _ _ r c (e.rows mat - (r + 1)) (e.cols mat - (c + 1)) (three_size mat r c)

  Skipped : M → ℕ → ℕ → M → ℕ → ℕ → Type 0
  Skipped mat r c x a b = e.coeff x a b ≡ e.coeff mat (skip r a) (skip c b)

  -- The rows above the one that is left out.
  upper :
      (mat : M) (r c a b : ℕ)
      → r < e.rows mat
      → c < e.cols mat
      → b < e.cols mat - 1
      → a < r
      → Skipped mat r c (two_blocks mat r c) a b
  unfolding Skipped HasSize
  upper mat r c a b r< c< b< above =
      let n = e.rows mat - 1 in
      let k = e.cols mat - 1 in
      let right = e.cols mat - (c + 1) in
      let up : ltb a r ≡ true = ground (arith, above) in
      elim (Bool-cases (ltb b c)) [
        | inl left ↦
            kept e l (one_block mat r c) _ n k 0 c r right a b (one_size mat r c) (omega arith) b<
              (λ p. absurd (ground (arith, left, p)))
            ∙ set_here e l mat _ n k 0 0 0 0 r c a b (l.allocated_size n k) (omega arith)
                (omega arith) (omega arith) (omega arith) (omega arith) (omega arith) (omega arith)
                (ground (arith, left))
            ∙ same_place e l mat _ _ (skip r a) (skip c b) (rw up (omega arith))
                (rw left (omega arith))
        | inr beside ↦
            set_here e l mat (one_block mat r c) n k 0 c 0 (c + 1) r right a b (one_size mat r c)
              (omega arith) (omega arith) (omega arith) (omega arith) (omega arith) (omega arith)
              (ground (arith, beside)) (ground (arith, beside))
            ∙ same_place e l mat _ _ (skip r a) (skip c b) (rw up (omega arith))
                (rw beside (ground (arith, beside)))
      ]

  -- The rows below it.
  lower :
      (mat : M) (r c a b : ℕ)
      → r < e.rows mat
      → c < e.cols mat
      → a < e.rows mat - 1
      → b < e.cols mat - 1
      → r ≤ a
      → Skipped mat r c (without e mat r c) a b
  unfolding Skipped HasSize without
  lower mat r c a b r< c< a< b< under =
      let n = e.rows mat - 1 in
      let k = e.cols mat - 1 in
      let below = e.rows mat - (r + 1) in
      let right = e.cols mat - (c + 1) in
      let down : ltb a r ≡ false = ground (arith, under) in
      elim (Bool-cases (ltb b c)) [
        | inl left ↦
            kept e l (three_blocks mat r c) _ n k r c below right a b (three_size mat r c) a< b<
              (λ p. absurd (ground (arith, left, p)))
            ∙ set_here e l mat (two_blocks mat r c) n k r 0 (r + 1) 0 below c a b (two_size mat r c)
                (omega arith) (omega arith) (omega arith) (omega arith) under (omega arith)
                (omega arith) (ground (arith, left))
            ∙ same_place e l mat _ _ (skip r a) (skip c b) (rw down (omega arith))
                (rw left (omega arith))
        | inr beside ↦
            set_here e l mat (three_blocks mat r c) n k r c (r + 1) (c + 1) below right a b
              (three_size mat r c) (omega arith) (omega arith) (omega arith) (omega arith) under
              (omega arith) (ground (arith, beside)) (ground (arith, beside))
            ∙ same_place e l mat _ _ (skip r a) (skip c b) (rw down (omega arith))
                (rw beside (ground (arith, beside)))
      ]

  pub without-IsMinor :
      (mat : M) (r c : ℕ) → r < e.rows mat → c < e.cols mat → IsMinor e mat r c (without e mat r c)
  unfolding without Skipped HasSize
  without-IsMinor mat r c r< c< =
      let n = e.rows mat - 1 in
      let k = e.cols mat - 1 in
      let below = e.rows mat - (r + 1) in
      let right = e.cols mat - (c + 1) in
      let size = without_size mat r c in
      record {
        minor_rows = omega (arith, size.0);
        minor_cols = omega (arith, size.1);
        minor_coeff = λ a b a_in b_in.
            let a< : a < n = omega (arith, a_in, size.0) in
            let b< : b < k = omega (arith, b_in, size.1) in
            elim (Bool-cases (ltb a r)) [
              | inl up ↦
                  kept e l (three_blocks mat r c) _ n k r c below right a b (three_size mat r c) a<
                    b< (λ p. absurd (ground (arith, up, p)))
                  ∙ kept e l (two_blocks mat r c) _ n k r 0 below c a b (two_size mat r c) a< b<
                      (λ p. absurd (ground (arith, up, p)))
                  ∙ upper mat r c a b r< c< b< (ground (arith, up))
              | inr down ↦ lower mat r c a b r< c< a< b< (ground (arith, down))
            ];
      }
