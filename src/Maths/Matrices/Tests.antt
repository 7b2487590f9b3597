-- ===== src/Maths/Matrices/Tests.antt =====
-- The adjugate of a singular matrix of two rows, with tables as matrices.
use general_tools.Common.{
  ℕ, zero, suc, ◌+◌, ◌-◌, ◌<◌, ◌*◌, ◌≡◌, refl, ap, ◌∙◌, true, false, ◌==◌, ltb, ◌&&◌, not,
  if◌then◌else◌, Bool-cases, inl, inr, ok, arith,
}
use mathlib.Core.Int.{ℤ}
use general_tools.Maths.Whole.{whole, of_number}
use general_tools.Maths.Matrices.{Matrices, adjugate}
use general_tools.Maths.Matrices.Coefficients.{IsMatrices}
use general_tools.Maths.Matrices.Minor.{IsMinor}
use general_tools.Maths.Matrices.Adjugate.{adjugate-singular}

record Table : Type 0 where
  height : ℕ
  width : ℕ
  at : ℕ → ℕ → ℤ

-- The determinant up to two rows.
abbrev small_determinant : ℕ → (ℕ → ℕ → ℤ) → ℤ
small_determinant zero f = whole.of_nat 1
small_determinant (suc zero) f = f 0 0
small_determinant (suc (suc zero)) f =
    whole.minus (whole.times (f 0 0) (f 1 1)) (whole.times (f 0 1) (f 1 0))
small_determinant (suc (suc (suc n))) f = whole.of_nat 0

abbrev tables : Matrices ℤ Table
tables = record {
  allocated = λ n k. record { height = n; width = k; at = λ a b. whole.of_nat 7 };
  rows = λ m. m.height;
  cols = λ m. m.width;
  coeff = λ m. m.at;
  set_coeff = λ m i j x. record {
    height = m.height;
    width = m.width;
    at = λ a b. if (a == i) && (b == j) then x else m.at a b;
  };
  block = λ m i j h w. record { height = h; width = w; at = λ a b. m.at (i + a) (j + b) };
  set_block = λ m i j h w x. record {
    height = m.height;
    width = m.width;
    at = λ a b.
        if not (ltb a i) && ltb a (i + h) && not (ltb b j) && ltb b (j + w)
        then x.at (a - i) (b - j)
        else m.at a b;
  };
  transpose = λ m. record { height = m.width; width = m.height; at = λ a b. m.at b a };
  inverse = λ m. m;
  determinant =
      λ m. if m.height == m.width then small_determinant m.height m.at else whole.of_nat 0;
  scale =
      λ x m. record { height = m.height; width = m.width; at = λ a b. whole.times x (m.at a b) };
}

small_determinant_congr :
    (n : ℕ) (f g : ℕ → ℕ → ℤ)
    → ((a b : ℕ) → a < n → b < n → f a b ≡ g a b)
    → small_determinant n f ≡ small_determinant n g
small_determinant_congr zero f g h = refl
small_determinant_congr (suc zero) f g h = h 0 0 (omega arith) (omega arith)
small_determinant_congr (suc (suc zero)) f g h =
    rw
      (
        h 0 0 (omega arith) (omega arith),
        h 0 1 (omega arith) (omega arith),
        h 1 0 (omega arith) (omega arith),
        h 1 1 (omega arith) (omega arith),
      )
      refl
small_determinant_congr (suc (suc (suc n))) f g h = refl

tables-IsMatrices : IsMatrices tables
tables-IsMatrices = record {
  allocated_size = λ n k. (refl, refl);
  set_coeff_size = λ m i j x. (refl, refl);
  block_size = λ m i j h w. (refl, refl);
  set_block_size = λ m i j h w x. (refl, refl);
  coeff_set = λ m i j x i< j<. ground arith;
  coeff_kept = λ m i j x a b a< b< other. ground (arith, other);
  coeff-block = λ m i j h w a b fr fc a< b<. refl;
  block_set = λ m i j h w x a b fr fc hr hc a< b<.
      let row_low : ltb (i + a) i ≡ false = ground arith in
      let row_high : ltb (i + a) (i + h) ≡ true = ground (arith, a<) in
      let col_low : ltb (j + b) j ≡ false = ground arith in
      let col_high : ltb (j + b) (j + w) ≡ true = ground (arith, b<) in
      let row : i + a - i ≡ a = omega arith in
      let col : j + b - j ≡ b = omega arith in
      rw (row_low, row_high, col_low, col_high, row, col) refl;
  block_kept = λ m i j h w x a b a< b< outside. ground (arith, outside);
  coeff-transpose = λ m a b a< b<. refl;
  determinant_congr = λ x y r c h. elim (Bool-cases (x.height == x.width)) [
    | inl square ↦
        let other : (y.height == y.width) ≡ true = ground (arith, square, r, c) in
        rw (square, other)
          (small_determinant_congr x.height x.at y.at
              (λ a b a< b<. h a b a< (ground (arith, square, b<)))
            ∙ ap (λ n. small_determinant n y.at) r)
    | inr oblong ↦
        let other : (y.height == y.width) ≡ false = ground (arith, oblong, r, c) in
        rw (oblong, other) refl
  ];
}

abbrev singular_table : Table
singular_table = record { height = 2; width = 2; at = λ a b. of_number ((a + 1) * (b + 2)) }

abbrev one_cell : Table
one_cell = record { height = 1; width = 1; at = λ a b. of_number 4 }

one_cell-IsMinor : IsMinor tables singular_table 0 1 one_cell
one_cell-IsMinor = record {
  minor_rows = refl;
  minor_cols = refl;
  minor_coeff = λ a b a< b<.
      let first_row : a ≡ 0 = omega (arith, a<) in
      let first_col : b ≡ 0 = omega (arith, b<) in rw (first_row, first_col) refl;
}

adjugate-singular_example :
    (adj : Table) × (adjugate whole tables singular_table ≡ ok adj)
    × (adj.at 1 0 ≡ whole.times (whole.negate (whole.of_nat 1)) (of_number 4))
adjugate-singular_example =
    adjugate-singular whole tables tables-IsMatrices singular_table refl refl 1 0 one_cell
      (omega arith) (omega arith) one_cell-IsMinor
