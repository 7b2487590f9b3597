-- ===== src/Maths/Polynomial.antt =====
-- `Polynomial` (a17/maths/polynomial.h). A vector of Eigen is the list of its entries, a matrix the list
-- of its rows; the product of a matrix and a vector, which is code of Eigen, is a parameter. `none` is an
-- access outside of a vector, which the source does not define.
pub mod Value
pub mod Derivative
pub mod Reverse
pub mod LevelSet
mod Tests
use general_tools.Common.{
  ℕ, zero, suc, ◌+◌, ◌-◌, ◌≤◌, Bool, true, false, not, Option, none, some, Result, ok, throws,
  codes, ◌==◌, ltb, List, [], ◌∷◌, ◌++◌, if◌then◌else◌, leb, length, take, drop, get_or, ◌>>=◌,
}
use general_tools.Common.Double.{Double}
use general_tools.Common.Integers.{ℤ, pos, negsuc}
use general_tools.Maths.Exact.{◌⊕◌, ◌⊖◌, ◌⊗◌, 𝟘, 𝟙}
use general_tools.Maths.Floats.{Floats, float_eq}
use general_tools.Maths.Roots.{quadratic_real_roots}

pub record Polynomial (D : Type 0) : Type 0 where
  pub coefficients : List D

-- `Polynomial()`.
abbrev pub empty : {D : Type 0} → Polynomial D
empty = record { coefficients = [] }

module _ {F D : Type 0} ⦃o : Double D⦄ (n : Floats o F) where
  -- `FloatEq(c, 0.0)`.
  abbrev pub is_zero : D → Bool
  is_zero c = float_eq n (n.narrow c) (n.narrow 𝟘)

  -- The loop of `setCoefficients`, from the index `k` down.
  unfoldable pub reduced_order : ℕ → List D → ℕ
  reduced_order zero cs = 0
  reduced_order (suc k) cs =
      let below = reduced_order k cs in if not (is_zero (get_or cs (suc k) 𝟘)) then suc k else below

  -- `setCoefficients`, and the constructor that calls it. The head of one entry of no entries is not
  -- defined.
  unfoldable pub set_coefficients : List D → Option (Polynomial D)
  unfolding reduced_order
  set_coefficients cs = elim (length cs) [
    | zero ↦ none
    | suc k ↦ some (record { coefficients = take (reduced_order k cs + 1) cs })
  ]

module _ {D : Type 0} ⦃o : Double D⦄ where
  -- The loop of `operator()`, with `k` coefficients left.
  unfoldable pub horner : ℕ → List D → D → D → D
  horner zero cs t value = value
  horner (suc k) cs t value = horner k cs t (value ⊗ t ⊕ get_or cs k 𝟘)

  unfoldable pub evaluate : Polynomial D → D → Option D
  unfolding horner
  evaluate p t = elim (length p.coefficients) [
    | zero ↦ none
    | suc k ↦ some (horner k p.coefficients t (get_or p.coefficients k 𝟘))
  ]

  -- The loop `derivative_coefficient *= k`, with `order` rounds left.
  unfoldable pub falling : ℕ → ℕ → D → D
  falling zero k coefficient = coefficient
  falling (suc order) k coefficient = falling order (k - 1) (coefficient ⊗ o.of_nat k)

  -- The new coefficients of `derivative`, from the last one down, with `i` of them left.
  unfoldable pub derived : ℕ → ℕ → List D → List D → List D
  derived zero order cs out = out
  derived (suc i) order cs out =
      derived i order cs ((get_or cs (i + order) 𝟘 ⊗ falling order (i + order) 𝟙) ∷ out)

  -- The first row of the conversion matrix, with `k` entries left.
  unfoldable pub first_row : ℕ → D → D → List D
  first_row zero c before = []
  first_row (suc k) c before = (c ⊗ before) ∷ first_row k c (c ⊗ before)

  -- The loop over the columns of a later row: `before` is the entry to the left, the list the entries of
  -- the row above from the column before.
  unfoldable pub row_from : D → D → List D → List D
  row_from c before [] = []
  row_from c before (a ∷ above) = (c ⊗ before ⊖ a) ∷ row_from c (c ⊗ before ⊖ a) above

  unfoldable pub zeros : ℕ → List D
  zeros zero = []
  zeros (suc k) = 𝟘 ∷ zeros k

  -- The row of index `row`, below the row `above`; the entries before the column `row` are zero.
  unfoldable pub next_row : ℕ → D → List D → List D
  unfolding zeros row_from
  next_row row c above =
      zeros row ++ row_from c 𝟘 (take (length above - row) (drop (row - 1) above))

  -- The rows from the index `row` on, with `k` of them left.
  unfoldable pub next_rows : ℕ → ℕ → D → List D → List (List D)
  unfolding next_row
  next_rows zero row c above = []
  next_rows (suc k) row c above =
      next_row row c above ∷ next_rows k (row + 1) c (next_row row c above)

  -- `conversion_matrix`, of a positive size.
  unfoldable pub conversion_matrix : ℕ → D → List (List D)
  unfolding first_row next_rows
  conversion_matrix zero c = []
  conversion_matrix (suc k) c = (𝟙 ∷ first_row k c 𝟙) ∷ next_rows k 1 c (𝟙 ∷ first_row k c 𝟙)

-- A result of a constructor that does not throw.
abbrev pub built : {D : Type 0} → Option (Polynomial D) → Option (Result (Polynomial D))
built none = none
built (some p) = some (ok p)

module _ {F D : Type 0} ⦃o : Double D⦄ (n : Floats o F) where
  -- `derivative(order)`.
  unfoldable pub derivative : Polynomial D → ℤ → Option (Result (Polynomial D))
  unfolding set_coefficients derived
  derivative p (negsuc k) = some (throws (codes "Derivative order must be positive"))
  derivative p (pos zero) = built (set_coefficients n p.coefficients)
  derivative p (pos (suc k)) =
      if leb (length p.coefficients) (suc k)
      then built (set_coefficients n (𝟘 ∷ []))
      else built
          (set_coefficients n (derived (length p.coefficients - suc k) (suc k) p.coefficients []))

  -- `derivative(t, order)`.
  unfoldable pub derivative_at : Polynomial D → D → ℤ → Option (Result D)
  unfolding derivative evaluate
  derivative_at p t order = do
    r ← derivative p order
    elim r [
      | ok d ↦ elim (evaluate d t) [ none ↦ none | some v ↦ some (ok v) ]
      | throws e ↦ some (throws e)
    ]

  -- `reverse`, with the product of a matrix and a vector.
  unfoldable pub reverse :
      (List (List D) → List D → List D) → Polynomial D → D → D → Option (Polynomial D)
  unfolding conversion_matrix set_coefficients
  reverse product p t0 t1 = elim (length p.coefficients) [
    | zero ↦ none
    | suc k ↦ set_coefficients n (product (conversion_matrix (suc k) (t0 ⊕ t1)) p.coefficients)
  ]

  -- The real parts of the roots with no imaginary part.
  unfoldable pub real_roots : List (D × D) → List D
  real_roots [] = []
  real_roots ((re, im) ∷ roots) =
      let rest = real_roots roots in if is_zero n im then re ∷ rest else rest

  -- `G(t) = P(t) - level`.
  abbrev pub lowered : List D → D → List D
  lowered [] level = []
  lowered (c ∷ cs) level = (c ⊖ level) ∷ cs

  -- `levelSet`. `find_roots` is `findRootsJenkinsTraub`, with no result where it fails.
  unfoldable pub level_set : (D → D) → (List D → Option (List (D × D))) → Polynomial D → D → List D
  unfolding quadratic_real_roots real_roots
  level_set sqrt find_roots p level =
      let g = lowered p.coefficients level in
      if ltb (length g) 2
      then []
      else if length g == 2
      then o.divide (o.negate (get_or g 0 𝟘)) (get_or g 1 𝟘) ∷ []
      else if length g == 3
      then quadratic_real_roots sqrt (get_or g 2 𝟘) (get_or g 1 𝟘) (get_or g 0 𝟘)
      else elim (find_roots g) [ none ↦ [] | some roots ↦ real_roots roots ]
