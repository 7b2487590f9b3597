-- ===== src/Maths/Matrices/Coefficients.antt =====
-- Coefficients, blocks and determinants of the matrices of Eigen, for a17/maths/matrix_utils.h.
use general_tools.Common.{ℕ, ◌+◌, ◌-◌, ◌<◌, ◌≤◌, ◌≡◌, sym, ap, ◌∙◌, arith}
use general_tools.Maths.Matrices.{Matrices}

-- What Eigen documents of coefficients, blocks, the transpose and the determinant, inside of the bounds.
pub record IsMatrices {D M : Type 0} (e : Matrices D M) : Type 0 where
  pub allocated_size : (n k : ℕ) → (e.rows (e.allocated n k) ≡ n) × (e.cols (e.allocated n k) ≡ k)
  pub set_coeff_size :
      (m : M) (i j : ℕ) (x : D)
      → (e.rows (e.set_coeff m i j x) ≡ e.rows m) × (e.cols (e.set_coeff m i j x) ≡ e.cols m)
  pub block_size :
      (m : M) (i j h w : ℕ) → (e.rows (e.block m i j h w) ≡ h) × (e.cols (e.block m i j h w) ≡ w)
  pub set_block_size :
      (m : M) (i j h w : ℕ) (x : M)
      → (e.rows (e.set_block m i j h w x) ≡ e.rows m)
        × (e.cols (e.set_block m i j h w x) ≡ e.cols m)
  pub coeff_set :
      (m : M) (i j : ℕ) (x : D)
      → i < e.rows m
      → j < e.cols m
      → e.coeff (e.set_coeff m i j x) i j ≡ x
  pub coeff_kept :
      (m : M) (i j : ℕ) (x : D) (a b : ℕ)
      → a < e.rows m
      → b < e.cols m
      → ¬ ((a ≡ i) × (b ≡ j))
      → e.coeff (e.set_coeff m i j x) a b ≡ e.coeff m a b
  pub coeff-block :
      (m : M) (i j h w a b : ℕ)
      → i + h ≤ e.rows m
      → j + w ≤ e.cols m
      → a < h
      → b < w
      → e.coeff (e.block m i j h w) a b ≡ e.coeff m (i + a) (j + b)
  pub block_set :
      (m : M) (i j h w : ℕ) (x : M) (a b : ℕ)
      → i + h ≤ e.rows m
      → j + w ≤ e.cols m
      → e.rows x ≡ h
      → e.cols x ≡ w
      → a < h
      → b < w
      → e.coeff (e.set_block m i j h w x) (i + a) (j + b) ≡ e.coeff x a b
  pub block_kept :
      (m : M) (i j h w : ℕ) (x : M) (a b : ℕ)
      → a < e.rows m
      → b < e.cols m
      → ¬ ((i ≤ a) × (a < i + h) × (j ≤ b) × (b < j + w))
      → e.coeff (e.set_block m i j h w x) a b ≡ e.coeff m a b
  pub coeff-transpose :
      (m : M) (a b : ℕ) → a < e.cols m → b < e.rows m → e.coeff (e.transpose m) a b ≡ e.coeff m b a
  pub determinant_congr :
      (x y : M)
      → e.rows x ≡ e.rows y
      → e.cols x ≡ e.cols y
      → ((a b : ℕ) → a < e.rows x → b < e.cols x → e.coeff x a b ≡ e.coeff y a b)
      → e.determinant x ≡ e.determinant y

module _ {D M : Type 0} (e : Matrices D M) (l : IsMatrices e) where
  -- An assignment of a block of `mat`, at an index inside of it.
  copied :
      (mat temp : M) (i j p q h w a b : ℕ)
      → i + h ≤ e.rows temp
      → j + w ≤ e.cols temp
      → p + h ≤ e.rows mat
      → q + w ≤ e.cols mat
      → i ≤ a
      → a < i + h
      → j ≤ b
      → b < j + w
      → e.coeff (e.set_block temp i j h w (e.block mat p q h w)) a b
        ≡ e.coeff mat (p + (a - i)) (q + (b - j))
  copied mat temp i j p q h w a b fit_rows fit_cols from_rows from_cols i≤a a< j≤b b< =
      let there =
        l.block_set temp i j h w (e.block mat p q h w) (a - i) (b - j) fit_rows fit_cols
          (l.block_size mat p q h w).0 (l.block_size mat p q h w).1 (omega arith) (omega arith) in
      let x = e.set_block temp i j h w (e.block mat p q h w) in
      let row : i + (a - i) ≡ a = omega arith in
      let col : j + (b - j) ≡ b = omega arith in
      ap (λ k. e.coeff x k b) (sym row)
      ∙ ap (e.coeff x (i + (a - i))) (sym col)
      ∙ there
      ∙ l.coeff-block mat p q h w (a - i) (b - j) from_rows from_cols (omega arith) (omega arith)

  -- Sizes after one more assignment of a block.
  pub size_kept :
      (t x : M) (n k i j h w : ℕ)
      → (e.rows t ≡ n) × (e.cols t ≡ k)
      → (e.rows (e.set_block t i j h w x) ≡ n) × (e.cols (e.set_block t i j h w x) ≡ k)
  size_kept t x n k i j h w s =
      ((l.set_block_size t i j h w x).0 ∙ s.0, (l.set_block_size t i j h w x).1 ∙ s.1)

  pub kept :
      (t x : M) (n k i j h w a b : ℕ)
      → (e.rows t ≡ n) × (e.cols t ≡ k)
      → a < n
      → b < k
      → ¬ ((i ≤ a) × (a < i + h) × (j ≤ b) × (b < j + w))
      → e.coeff (e.set_block t i j h w x) a b ≡ e.coeff t a b
  kept t x n k i j h w a b s a< b< outside =
      l.block_kept t i j h w x a b (omega (arith, s.0)) (omega (arith, s.1)) outside

  pub set_here :
      (mat t : M) (n k i j p q h w a b : ℕ)
      → (e.rows t ≡ n) × (e.cols t ≡ k)
      → i + h ≤ n
      → j + w ≤ k
      → p + h ≤ e.rows mat
      → q + w ≤ e.cols mat
      → i ≤ a
      → a < i + h
      → j ≤ b
      → b < j + w
      → e.coeff (e.set_block t i j h w (e.block mat p q h w)) a b
        ≡ e.coeff mat (p + (a - i)) (q + (b - j))
  set_here mat t n k i j p q h w a b s fit_rows fit_cols =
      copied mat t i j p q h w a b (omega (arith, s.0)) (omega (arith, s.1))

  pub same_place : (mat : M) (a b c d : ℕ) → a ≡ c → b ≡ d → e.coeff mat a b ≡ e.coeff mat c d
  same_place mat a b c d p q = ap (λ k. e.coeff mat k b) p ∙ ap (e.coeff mat c) q
