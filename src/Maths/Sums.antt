-- ===== src/Maths/Sums.antt =====
-- Finite sums and powers over exact numbers.
use general_tools.Common.{ℕ, zero, suc, ◌+◌, ◌≤◌, ◌<◌, ◌≡◌, refl, sym, ap, ◌∙◌, arith}
use general_tools.Common.Double.{Double}
use general_tools.Maths.Exact.{
  IsExact, ◌⊕◌, ◌⊖◌, ◌⊗◌, 𝟘, 𝟙, times-zero, plus_interchange, minus_interchange, minus_self,
}

module _ {D : Type 0} ⦃o : Double D⦄ where
  -- `f 0 + f 1 + … + f (n - 1)`.
  unfoldable pub sum : ℕ → (ℕ → D) → D
  sum zero f = 𝟘
  sum (suc n) f = f 0 ⊕ sum n (λ k. f (suc k))

  unfoldable pub power : D → ℕ → D
  power t zero = 𝟙
  power t (suc k) = t ⊗ power t k

module _ {D : Type 0} ⦃o : Double D⦄ (r : IsExact o) where
  -- Two sums of equal terms, of which only the first `n` count.
  pub sum_congr : (n : ℕ) (f g : ℕ → D) → ((k : ℕ) → k < n → f k ≡ g k) → sum n f ≡ sum n g
  unfolding sum
  sum_congr zero f g h = refl
  sum_congr (suc n) f g h =
      ap (λ v. v ⊕ sum n (λ k. f (suc k))) (h 0 (omega arith))
      ∙ ap (◌⊕◌ (g 0))
          (sum_congr n (λ k. f (suc k)) (λ k. g (suc k)) (λ k l. h (suc k) (omega arith)))

  pub sum-zero : (n : ℕ) → ◌≡◌ {A = D} (sum n (λ k. 𝟘)) 𝟘
  unfolding sum
  sum-zero zero = refl
  sum-zero (suc n) = ap (◌⊕◌ 𝟘) (sum-zero n) ∙ r.zero-plus 𝟘

  pub sum-plus : (n : ℕ) (f g : ℕ → D) → sum n (λ k. f k ⊕ g k) ≡ sum n f ⊕ sum n g
  unfolding sum
  sum-plus zero f g = sym (r.zero-plus 𝟘)
  sum-plus (suc n) f g =
      ap (◌⊕◌ (f 0 ⊕ g 0)) (sum-plus n (λ k. f (suc k)) (λ k. g (suc k)))
      ∙ plus_interchange r (f 0) (g 0) (sum n (λ k. f (suc k))) (sum n (λ k. g (suc k)))

  pub sum-minus : (n : ℕ) (f g : ℕ → D) → sum n (λ k. f k ⊖ g k) ≡ sum n f ⊖ sum n g
  unfolding sum
  sum-minus zero f g = sym (minus_self r 𝟘)
  sum-minus (suc n) f g =
      ap (◌⊕◌ (f 0 ⊖ g 0)) (sum-minus n (λ k. f (suc k)) (λ k. g (suc k)))
      ∙ sym (minus_interchange r (f 0) (sum n (λ k. f (suc k))) (g 0) (sum n (λ k. g (suc k))))

  pub times-sum : (n : ℕ) (x : D) (f : ℕ → D) → x ⊗ sum n f ≡ sum n (λ k. x ⊗ f k)
  unfolding sum
  times-sum zero x f = times-zero r x
  times-sum (suc n) x f =
      r.times-plus x (f 0) (sum n (λ k. f (suc k)))
      ∙ ap (◌⊕◌ (x ⊗ f 0)) (times-sum n x (λ k. f (suc k)))

  -- A table summed by rows or by columns.
  pub sum_exchange :
      (rows columns : ℕ) (cell : ℕ → ℕ → D)
      → sum rows (λ a. sum columns (cell a)) ≡ sum columns (λ b. sum rows (λ a. cell a b))
  unfolding sum
  sum_exchange rows zero cell = sum-zero rows
  sum_exchange rows (suc columns) cell =
      sum-plus rows (λ a. cell a 0) (λ a. sum columns (λ b. cell a (suc b)))
      ∙ ap (◌⊕◌ (sum rows (λ a. cell a 0))) (sum_exchange rows columns (λ a b. cell a (suc b)))

  -- The last term of a sum.
  pub sum-last : (n : ℕ) (f : ℕ → D) → sum (suc n) f ≡ sum n f ⊕ f n
  unfolding sum
  sum-last zero f = r.plus_comm (f 0) 𝟘
  sum-last (suc n) f =
      ap (◌⊕◌ (f 0)) (sum-last n (λ k. f (suc k)))
      ∙ sym (r.plus_assoc (f 0) (sum n (λ k. f (suc k))) (f (suc n)))

  -- Terms that are zero may be left out at the end.
  pub sum_shrink :
      (m d : ℕ) (f : ℕ → D) → ((k : ℕ) → m ≤ k → k < m + d → f k ≡ 𝟘) → sum (m + d) f ≡ sum m f
  sum_shrink m zero f h = ap (λ k. sum k f) (omega arith)
  sum_shrink m (suc d) f h =
      let e : m + suc d ≡ suc (m + d) = omega arith in
      ap (λ k. sum k f) e
      ∙ sum-last (m + d) f
      ∙ ap (◌⊕◌ (sum (m + d) f)) (h (m + d) (omega arith) (omega arith))
      ∙ r.plus_comm (sum (m + d) f) 𝟘
      ∙ r.zero-plus (sum (m + d) f)
      ∙ sum_shrink m d f (λ k l u. h k l (omega arith))

  pub sum-times : (n : ℕ) (x : D) (f : ℕ → D) → sum n f ⊗ x ≡ sum n (λ k. f k ⊗ x)
  sum-times n x f =
      r.times_comm (sum n f) x
      ∙ times-sum n x f
      ∙ sum_congr n (λ k. x ⊗ f k) (λ k. f k ⊗ x) (λ k h. r.times_comm x (f k))
