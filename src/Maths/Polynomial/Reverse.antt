-- ===== src/Maths/Polynomial/Reverse.antt =====
-- The reversed polynomial: the conversion matrix, and the value of its product with the coefficients.
use general_tools.Common.{
  ℕ, zero, suc, ◌+◌, ◌-◌, ◌<◌, ◌≡◌, refl, sym, ap, ◌∙◌, some, List, [], ◌∷◌, ◌++◌, map, length,
  get_or, take, drop, ◌>>=◌, arith,
}
use general_tools.Common.Tabulate.{
  tabulate, tabulate_congr, length-tabulate, get_or-tabulate, drop-tabulate, take-tabulate,
  append-tabulate, map-tabulate,
}
use general_tools.Common.Double.{Double}
use general_tools.Maths.Exact.{
  IsExact, ◌⊕◌, ◌⊖◌, ◌⊗◌, 𝟘, 𝟙, times-zero, times_swap, times-minus, minus-times, plus-minus,
  plus-zero, minus-zero,
}
use general_tools.Maths.Sums.{
  sum, power, sum_congr, sum-last, sum-minus, sum-zero, sum_exchange, times-sum, sum-times,
}
use general_tools.Maths.Floats.{Floats}
use general_tools.Maths.Polynomial.{
  Polynomial, evaluate, first_row, row_from, zeros, next_row, next_rows, conversion_matrix, reverse,
}
use general_tools.Maths.Polynomial.Value.{value, IsPlain, set_coefficients-value, evaluate-value}

module _ {D : Type 0} ⦃o : Double D⦄ where
  -- The entry of a product: the sum, over a row, of its entries times those of the vector.
  abbrev pub dot : List D → List D → D
  dot row v = sum (length v) (λ j. get_or row j 𝟘 ⊗ get_or v j 𝟘)

  abbrev pub IsProduct : (List (List D) → List D → List D) → Type 0
  IsProduct product =
      (rows : List (List D)) (v : List D) → product rows v ≡ map (λ row. dot row v) rows

  -- The entries of the conversion matrix.
  unfoldable entry : D → ℕ → ℕ → D
  entry c zero zero = 𝟙
  entry c zero (suc k) = c ⊗ entry c zero k
  entry c (suc row) zero = 𝟘
  entry c (suc row) (suc k) = c ⊗ entry c (suc row) k ⊖ entry c row k

  first_row-tabulate :
      (k : ℕ) (c : D) (f : ℕ → D)
      → ((i : ℕ) → f (suc i) ≡ c ⊗ f i)
      → first_row k c (f 0) ≡ tabulate k (λ i. f (suc i))
  unfolding first_row tabulate
  first_row-tabulate zero c f h = refl
  first_row-tabulate (suc k) c f h =
      ap (λ x. x ∷ first_row k c x) (sym (h 0))
      ∙ ap (◌∷◌ (f 1)) (first_row-tabulate k c (λ i. f (suc i)) (λ i. h (suc i)))

  row_from-tabulate :
      (k : ℕ) (c : D) (a g : ℕ → D)
      → ((i : ℕ) → g (suc i) ≡ c ⊗ g i ⊖ a i)
      → row_from c (g 0) (tabulate k a) ≡ tabulate k (λ i. g (suc i))
  unfolding row_from tabulate
  row_from-tabulate zero c a g h = refl
  row_from-tabulate (suc k) c a g h =
      ap (λ x. x ∷ row_from c x (tabulate k (λ i. a (suc i)))) (sym (h 0))
      ∙ ap (◌∷◌ (g 1)) (row_from-tabulate k c (λ i. a (suc i)) (λ i. g (suc i)) (λ i. h (suc i)))

  zeros-tabulate : (k : ℕ) (f : ℕ → D) → ((i : ℕ) → i < k → f i ≡ 𝟘) → zeros k ≡ tabulate k f
  unfolding zeros tabulate
  zeros-tabulate zero f h = refl
  zeros-tabulate (suc k) f h =
      ap (◌∷◌ 𝟘) (zeros-tabulate k (λ i. f (suc i)) (λ i u. h (suc i) (omega arith)))
      ∙ ap (λ x. x ∷ tabulate k (λ i. f (suc i))) (sym (h 0 (omega arith)))

module _ {D : Type 0} ⦃o : Double D⦄ (r : IsExact o) (c : D) where
  entry_lem : (row k : ℕ) → entry c (suc row) (suc k) ≡ c ⊗ entry c (suc row) k ⊖ entry c row k
  unfolding entry
  entry_lem row k = refl

  -- Below the diagonal the entries are zero.
  entry-zero : (row k : ℕ) → k < row → entry c row k ≡ 𝟘
  unfolding entry
  entry-zero zero k h = absurd (omega arith)
  entry-zero (suc row) zero h = refl
  entry-zero (suc row) (suc k) h =
      ap (λ x. c ⊗ x ⊖ entry c row k) (entry-zero (suc row) k (omega arith))
      ∙ ap (λ x. c ⊗ 𝟘 ⊖ x) (entry-zero row k (omega arith))
      ∙ minus-zero r (c ⊗ 𝟘)
      ∙ times-zero r c

  next_row-tabulate :
      (row d : ℕ)
      → next_row (suc row) c (tabulate (suc row + d) (entry c row))
        ≡ tabulate (suc row + d) (entry c (suc row))
  unfolding next_row
  next_row-tabulate row d =
      let size : length (tabulate (suc row + d) (entry c row)) - suc row ≡ d =
        omega (arith, length-tabulate (suc row + d) (entry c row)) in
      let split : suc row + d ≡ row + (d + 1) = omega arith in
      let here : suc row - 1 ≡ row = omega arith in
      let start : row ≡ row + 0 = omega arith in
      ap
        (λ k.
          zeros (suc row)
          ++ row_from c 𝟘 (take k (drop (suc row - 1) (tabulate (suc row + d) (entry c row)))))
        size
      ∙ ap
          (λ k.
            zeros (suc row)
            ++ row_from c 𝟘 (take d (drop k (tabulate (suc row + d) (entry c row)))))
          here
      ∙ ap (λ k. zeros (suc row) ++ row_from c 𝟘 (take d (drop row (tabulate k (entry c row)))))
          split
      ∙ ap (λ w. zeros (suc row) ++ row_from c 𝟘 (take d w))
          (drop-tabulate row (d + 1) (entry c row))
      ∙ ap (λ w. zeros (suc row) ++ row_from c 𝟘 w) (take-tabulate d 1 (λ i. entry c row (row + i)))
      ∙ ap (λ x. zeros (suc row) ++ row_from c x (tabulate d (λ i. entry c row (row + i))))
          (sym (entry-zero (suc row) (row + 0) (omega arith)))
      ∙ ap (λ w. zeros (suc row) ++ w)
          (row_from-tabulate d c (λ i. entry c row (row + i)) (λ i. entry c (suc row) (row + i))
            (λ i. along i))
      ∙ ap (λ w. w ++ tabulate d (λ i. entry c (suc row) (row + suc i)))
          (zeros-tabulate (suc row) (entry c (suc row)) (λ i u. entry-zero (suc row) i u))
      ∙ ap (λ w. tabulate (suc row) (entry c (suc row)) ++ w)
          (tabulate_congr d (λ i. entry c (suc row) (row + suc i))
            (λ i. entry c (suc row) (suc row + i)) (λ i u. ap (entry c (suc row)) (omega arith)))
      ∙ append-tabulate (suc row) d (entry c (suc row))
    where
      along :
          (i : ℕ)
          → entry c (suc row) (row + suc i)
            ≡ c ⊗ entry c (suc row) (row + i) ⊖ entry c row (row + i)
      along i =
          let e : row + suc i ≡ suc (row + i) = omega arith in
          ap (entry c (suc row)) e ∙ entry_lem row (row + i)

  next_rows-tabulate :
      (k row d : ℕ)
      → next_rows k (suc row) c (tabulate (suc row + k + d) (entry c row))
        ≡ tabulate k (λ i. tabulate (suc row + k + d) (entry c (suc row + i)))
  unfolding next_rows
  next_rows-tabulate zero row d = unfold tabulate in refl
  next_rows-tabulate (suc k) row d =
      let size : suc row + suc k + d ≡ suc row + (suc k + d) = omega arith in
      let size' : suc row + suc k + d ≡ suc (suc row) + k + d = omega arith in
      let up : suc row + 1 ≡ suc (suc row) = omega arith in
      let here : suc row ≡ suc row + 0 = omega arith in
      let first : next_row (suc row) c (tabulate (suc row + suc k + d) (entry c row))
          ≡ tabulate (suc row + suc k + d) (entry c (suc row)) =
        ap (λ j. next_row (suc row) c (tabulate j (entry c row))) size
        ∙ next_row-tabulate row (suc k + d)
        ∙ ap (λ j. tabulate j (entry c (suc row))) (sym size) in
      ap (λ w. w ∷ next_rows k (suc row + 1) c w) first
      ∙ ap (◌∷◌ (tabulate (suc row + suc k + d) (entry c (suc row)))) (
          ap (λ j. next_rows k j c (tabulate (suc row + suc k + d) (entry c (suc row)))) up
          ∙ ap (λ j. next_rows k (suc (suc row)) c (tabulate j (entry c (suc row)))) size'
          ∙ next_rows-tabulate k (suc row) d
          ∙ tabulate_congr k (λ i. tabulate (suc (suc row) + k + d) (entry c (suc (suc row) + i)))
              (λ i. tabulate (suc row + suc k + d) (entry c (suc row + suc i)))
              (λ i u.
                ap (λ j. tabulate j (entry c (suc (suc row) + i))) (sym size')
                ∙ ap (λ j. tabulate (suc row + suc k + d) (entry c j)) (omega arith)))
      ∙ ap
          (λ j.
            tabulate (suc row + suc k + d) (entry c j)
            ∷ tabulate k (λ i. tabulate (suc row + suc k + d) (entry c (suc row + suc i))))
          here
      ∙ unfold tabulate in refl

  conversion_matrix-entry :
      (n : ℕ) → conversion_matrix n c ≡ tabulate n (λ row. tabulate n (entry c row))
  unfolding conversion_matrix tabulate entry
  conversion_matrix-entry zero = refl
  conversion_matrix-entry (suc k) =
      let top : 𝟙 ∷ first_row k c 𝟙 ≡ tabulate (suc k) (entry c 0) =
        ap (◌∷◌ 𝟙) (first_row-tabulate k c (entry c 0) (λ i. refl)) in
      let size : suc k ≡ 1 + k + 0 = omega arith in
      let next : (i : ℕ) → 1 + i ≡ suc i = λ i. omega arith in
      ap (λ w. w ∷ next_rows k 1 c w) top
      ∙ ap (◌∷◌ (tabulate (suc k) (entry c 0))) (
          ap (λ j. next_rows k 1 c (tabulate j (entry c 0))) size
          ∙ next_rows-tabulate k 0 0
          ∙ tabulate_congr k (λ i. tabulate (1 + k + 0) (entry c (1 + i)))
              (λ i. tabulate (suc k) (entry c (suc i)))
              (λ i u.
                ap (λ j. tabulate j (entry c (1 + i))) (sym size)
                ∙ ap (λ j. tabulate (suc k) (entry c j)) (next i)))

  -- The entries of a column are the coefficients of a power of `c - t`.
  power-entry :
      (n k : ℕ) (t : D) → k < n → sum n (λ row. power t row ⊗ entry c row k) ≡ power (c ⊖ t) k
  unfolding sum power entry
  power-entry zero k t h = absurd (omega arith)
  power-entry (suc m) zero t h =
      ap (◌⊕◌ (𝟙 ⊗ 𝟙)) (
        sum_congr r m (λ i. t ⊗ power t i ⊗ 𝟘) (λ i. 𝟘) (λ i u. times-zero r (t ⊗ power t i))
        ∙ sum-zero r m)
      ∙ plus-zero r (𝟙 ⊗ 𝟙)
      ∙ r.one-times 𝟙
  power-entry (suc m) (suc k) t h =
      let column = λ (j i : ℕ). power t i ⊗ entry c i j in
      let whole = power-entry (suc m) k t (omega arith) in
      let scale : (i : ℕ) → power t i ⊗ (c ⊗ entry c i k) ≡ c ⊗ column k i =
        λ i. times_swap r (power t i) c (entry c i k) in
      let shift : (i : ℕ) → t ⊗ power t i ⊗ entry c i k ≡ t ⊗ column k i =
        λ i. r.times_assoc t (power t i) (entry c i k) in
      let shorter : sum m (column k) ≡ power (c ⊖ t) k =
        sym (
          sum-last r m (column k)
          ∙ ap (λ x. sum m (column k) ⊕ power t m ⊗ x) (entry-zero m k (omega arith))
          ∙ ap (◌⊕◌ (sum m (column k))) (times-zero r (power t m))
          ∙ plus-zero r (sum m (column k)))
        ∙ whole in
      ap (◌⊕◌ (𝟙 ⊗ (c ⊗ entry c 0 k))) (
        sum_congr r m (λ i. t ⊗ power t i ⊗ (c ⊗ entry c (suc i) k ⊖ entry c i k))
          (λ i. t ⊗ power t i ⊗ (c ⊗ entry c (suc i) k) ⊖ t ⊗ power t i ⊗ entry c i k)
          (λ i u. times-minus r (t ⊗ power t i) (c ⊗ entry c (suc i) k) (entry c i k))
        ∙ sum-minus r m (λ i. t ⊗ power t i ⊗ (c ⊗ entry c (suc i) k))
            (λ i. t ⊗ power t i ⊗ entry c i k))
      ∙ plus-minus r (𝟙 ⊗ (c ⊗ entry c 0 k)) (sum m (λ i. t ⊗ power t i ⊗ (c ⊗ entry c (suc i) k)))
          (sum m (λ i. t ⊗ power t i ⊗ entry c i k))
      ∙ ap (λ x. x ⊖ sum m (λ i. t ⊗ power t i ⊗ entry c i k))
          (sum_congr r (suc m) (λ i. power t i ⊗ (c ⊗ entry c i k)) (λ i. c ⊗ column k i)
              (λ i u. scale i)
            ∙ sym (times-sum r (suc m) c (column k))
            ∙ ap (◌⊗◌ c) whole)
      ∙ ap (◌⊖◌ (c ⊗ power (c ⊖ t) k)) (
          sum_congr r m (λ i. t ⊗ power t i ⊗ entry c i k) (λ i. t ⊗ column k i) (λ i u. shift i)
          ∙ sym (times-sum r m t (column k))
          ∙ ap (◌⊗◌ t) shorter)
      ∙ sym (minus-times r c t (power (c ⊖ t) k))

  length-product :
      (product : List (List D) → List D → List D) (n : ℕ) (cs : List D)
      → IsProduct product
      → length (product (conversion_matrix n c) cs) ≡ n
  length-product product n cs law =
      ap length (
        law (conversion_matrix n c) cs
        ∙ ap (map (λ w. dot w cs)) (conversion_matrix-entry n)
        ∙ map-tabulate n (λ w. dot w cs) (λ i. tabulate n (entry c i)))
      ∙ length-tabulate n (λ i. dot (tabulate n (entry c i)) cs)

  -- The product of the conversion matrix and the coefficients, as a polynomial, at `t`.
  product-value :
      (product : List (List D) → List D → List D) (cs : List D) (t : D)
      → IsProduct product
      → value (product (conversion_matrix (length cs) c) cs) t ≡ value cs (c ⊖ t)
  unfolding value
  product-value product cs t law =
      let n = length cs in
      let row : ℕ → List D = λ i. tabulate n (entry c i) in
      let out : ℕ → D = λ i. sum n (λ j. entry c i j ⊗ get_or cs j 𝟘) in
      let entries : product (conversion_matrix n c) cs ≡ tabulate n out =
        law (conversion_matrix n c) cs
        ∙ ap (map (λ w. dot w cs)) (conversion_matrix-entry n)
        ∙ map-tabulate n (λ w. dot w cs) row
        ∙ tabulate_congr n (λ i. dot (row i) cs) out
            (λ i u.
              sum_congr r n (λ j. get_or (row i) j 𝟘 ⊗ get_or cs j 𝟘)
                (λ j. entry c i j ⊗ get_or cs j 𝟘)
                (λ j l. ap (λ x. x ⊗ get_or cs j 𝟘) (get_or-tabulate n j (entry c i) 𝟘 l))) in
      ap (λ w. sum (length w) (λ i. power t i ⊗ get_or w i 𝟘)) entries
      ∙ ap (λ m. sum m (λ i. power t i ⊗ get_or (tabulate n out) i 𝟘)) (length-tabulate n out)
      ∙ sum_congr r n (λ i. power t i ⊗ get_or (tabulate n out) i 𝟘)
          (λ i. sum n (λ j. power t i ⊗ entry c i j ⊗ get_or cs j 𝟘))
          (λ i u.
            ap (◌⊗◌ (power t i)) (get_or-tabulate n i out 𝟘 u)
            ∙ times-sum r n (power t i) (λ j. entry c i j ⊗ get_or cs j 𝟘)
            ∙ sum_congr r n (λ j. power t i ⊗ (entry c i j ⊗ get_or cs j 𝟘))
                (λ j. power t i ⊗ entry c i j ⊗ get_or cs j 𝟘)
                (λ j l. sym (r.times_assoc (power t i) (entry c i j) (get_or cs j 𝟘))))
      ∙ sum_exchange r n n (λ i j. power t i ⊗ entry c i j ⊗ get_or cs j 𝟘)
      ∙ sum_congr r n (λ j. sum n (λ i. power t i ⊗ entry c i j ⊗ get_or cs j 𝟘))
          (λ j. power (c ⊖ t) j ⊗ get_or cs j 𝟘)
          (λ j l.
            sym (sum-times r n (get_or cs j 𝟘) (λ i. power t i ⊗ entry c i j))
            ∙ ap (λ x. x ⊗ get_or cs j 𝟘) (power-entry n j t l))

module _ {F D : Type 0} ⦃o : Double D⦄ (n : Floats o F) (r : IsExact o) where
  -- For a polynomial with a coefficient, in exact arithmetic, the reverse over the interval [t0, t1] has
  -- at t the value of the polynomial at t0 + t1 - t, if the product of Eigen sums each row, and every
  -- entry of the product that counts as zero is zero.
  pub reverse-evaluate :
      (product : List (List D) → List D → List D) (p : Polynomial D) (t0 t1 t : D)
      → IsProduct product
      → 0 < length p.coefficients
      → IsPlain n (product (conversion_matrix (length p.coefficients) (t0 ⊕ t1)) p.coefficients)
      → (reverse n product p t0 t1 >>= λ q. evaluate q t) ≡ evaluate p (t0 ⊕ t1 ⊖ t)
  unfolding reverse
  reverse-evaluate product p t0 t1 t law h plain = go p.coefficients h plain
    where
      go :
          (cs : List D)
          → 0 < length cs
          → IsPlain n (product (conversion_matrix (length cs) (t0 ⊕ t1)) cs)
          → (reverse n product (record { coefficients = cs }) t0 t1 >>= λ q. evaluate q t)
            ≡ evaluate (record { coefficients = cs }) (t0 ⊕ t1 ⊖ t)
      go [] h plain = absurd (omega arith)
      go (x ∷ cs) h plain =
          set_coefficients-value n r
            (product (conversion_matrix (length (x ∷ cs)) (t0 ⊕ t1)) (x ∷ cs)) t
            (omega (arith, length-product r (t0 ⊕ t1) product (length (x ∷ cs)) (x ∷ cs) law)) plain
          ∙ ap some (product-value r (t0 ⊕ t1) product (x ∷ cs) t law)
          ∙ sym (evaluate-value r (record { coefficients = x ∷ cs }) (t0 ⊕ t1 ⊖ t) h)
