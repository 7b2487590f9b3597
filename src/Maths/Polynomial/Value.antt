-- ===== src/Maths/Polynomial/Value.antt =====
-- The value of a polynomial as a sum of powers, and what `operator()` and the constructor make of it.
use general_tools.Common.{
  ℕ, zero, suc, ◌+◌, ◌-◌, ◌≤◌, ◌<◌, ◌≡◌, refl, sym, ap, ◌∙◌, inl, inr, true, some, List, [], ◌∷◌,
  All, Bool-cases, length, length-take, get_or, take, ◌>>=◌, arith,
}
use native.Mathlib.Decide.{dec_le}
use general_tools.Common.Double.{Double}
use general_tools.Maths.Exact.{IsExact, ◌⊕◌, ◌⊗◌, 𝟘, 𝟙, times-zero, times_swap}
use general_tools.Maths.Sums.{sum, power, sum_congr, sum-last, sum_shrink}
use general_tools.Maths.Floats.{Floats}
use general_tools.Maths.Polynomial.{
  Polynomial, is_zero, reduced_order, set_coefficients, horner, evaluate,
}

module _ {D : Type 0} ⦃o : Double D⦄ where
  -- `P(t) = c[0] + c[1] * t + c[2] * t^2 + ...`.
  unfoldable pub value : List D → D → D
  unfolding sum power
  value cs t = sum (length cs) (λ k. power t k ⊗ get_or cs k 𝟘)

module _ {D : Type 0} ⦃o : Double D⦄ (r : IsExact o) where
  horner_lem :
      (k : ℕ) (cs : List D) (t v : D)
      → horner k cs t v ≡ power t k ⊗ v ⊕ sum k (λ i. power t i ⊗ get_or cs i 𝟘)
  unfolding horner power
  horner_lem zero cs t v =
      unfold sum in sym (r.plus_comm (𝟙 ⊗ v) 𝟘 ∙ r.zero-plus (𝟙 ⊗ v) ∙ r.one-times v)
  horner_lem (suc k) cs t v =
      let c = get_or cs k 𝟘 in
      let s = sum k (λ i. power t i ⊗ get_or cs i 𝟘) in
      horner_lem k cs t (v ⊗ t ⊕ c)
      ∙ ap (λ w. w ⊕ s) (r.times-plus (power t k) (v ⊗ t) c)
      ∙ r.plus_assoc (power t k ⊗ (v ⊗ t)) (power t k ⊗ c) s
      ∙ ap (◌⊕◌ (power t k ⊗ (v ⊗ t))) (r.plus_comm (power t k ⊗ c) s)
      ∙ ap (λ w. power t k ⊗ w ⊕ (s ⊕ power t k ⊗ c)) (r.times_comm v t)
      ∙ ap (λ w. w ⊕ (s ⊕ power t k ⊗ c))
          (times_swap r (power t k) t v ∙ sym (r.times_assoc t (power t k) v))
      ∙ ap (◌⊕◌ (t ⊗ power t k ⊗ v)) (sym (sum-last r k (λ i. power t i ⊗ get_or cs i 𝟘)))

  -- `operator()` computes the sum of powers, in exact arithmetic.
  pub evaluate-value :
      (p : Polynomial D) (t : D)
      → 0 < length p.coefficients
      → evaluate p t ≡ some (value p.coefficients t)
  unfolding evaluate value
  evaluate-value p t h = go p.coefficients h
    where
      go :
          (cs : List D)
          → 0 < length cs
          → evaluate (record { coefficients = cs }) t ≡ some (value cs t)
      go [] h = absurd (omega arith)
      go (c ∷ cs) h = ap some (
          horner_lem (length cs) (c ∷ cs) t (get_or (c ∷ cs) (length cs) 𝟘)
          ∙ r.plus_comm (power t (length cs) ⊗ get_or (c ∷ cs) (length cs) 𝟘) _
          ∙ sym (sum-last r (length cs) (λ i. power t i ⊗ get_or (c ∷ cs) i 𝟘)))

get_or-take :
    {A : Type 0} (m i : ℕ) (xs : List A) (d : A) → i < m → get_or (take m xs) i d ≡ get_or xs i d
get_or-take zero i xs d h = absurd (omega arith)
get_or-take (suc m) i [] d h = refl
get_or-take (suc m) zero (x ∷ xs) d h = refl
get_or-take (suc m) (suc i) (x ∷ xs) d h = get_or-take m i xs d (omega arith)

All-get_or :
    {A : Type 0} (P : A → Type 0) (xs : List A) (i : ℕ) (d : A)
    → All P xs
    → i < length xs
    → P (get_or xs i d)
All-get_or P [] i d h l = absurd (omega arith)
All-get_or P (x ∷ xs) zero d h l = h.0
All-get_or P (x ∷ xs) (suc i) d h l = All-get_or P xs i d h.1 (omega arith)

module _ {F D : Type 0} ⦃o : Double D⦄ (n : Floats o F) where
  -- Every coefficient that counts as zero is zero.
  abbrev pub IsPlain : List D → Type 0
  IsPlain = All (λ c. is_zero n c ≡ true → c ≡ 𝟘)

  reduced_order-bound : (k : ℕ) (cs : List D) → reduced_order n k cs ≤ k
  unfolding reduced_order
  reduced_order-bound zero cs = omega arith
  reduced_order-bound (suc k) cs = ground (arith, reduced_order-bound k cs)

  -- Above the reduced order every coefficient counts as zero.
  reduced_order-zero :
      (k : ℕ) (cs : List D) (i : ℕ)
      → reduced_order n k cs < i
      → i ≤ k
      → is_zero n (get_or cs i 𝟘) ≡ true
  unfolding reduced_order
  reduced_order-zero zero cs i l u = absurd (omega arith)
  reduced_order-zero (suc k) cs i l u = elim (Bool-cases (is_zero n (get_or cs (suc k) 𝟘))) [
    | inl e ↦ elim (dec_le i k) [
      | yes h ↦ reduced_order-zero k cs i (ground (arith, e)) h
      | no h ↦ let same : i ≡ suc k = omega arith in rw same e
    ]
    | inr e ↦ absurd (ground (arith, e))
  ]

module _ {F D : Type 0} ⦃o : Double D⦄ (n : Floats o F) (r : IsExact o) where
  -- Leaving out the leading coefficients that are zero keeps the value.
  take-value :
      (k m : ℕ) (cs : List D) (t : D)
      → length cs ≡ suc k
      → m ≤ k
      → ((i : ℕ) → m < i → i ≤ k → get_or cs i 𝟘 ≡ 𝟘)
      → value (take (m + 1) cs) t ≡ value cs t
  unfolding value
  take-value k m cs t l b h =
      let term : (i : ℕ) → D = λ i. power t i ⊗ get_or cs i 𝟘 in
      let size : length (take (m + 1) cs) ≡ m + 1 = omega (arith, length-take (m + 1) cs) in
      let whole : length cs ≡ (m + 1) + (k - m) = omega (arith, l) in
      ap (λ j. sum j (λ i. power t i ⊗ get_or (take (m + 1) cs) i 𝟘)) size
      ∙ sum_congr r (m + 1) (λ i. power t i ⊗ get_or (take (m + 1) cs) i 𝟘) term
          (λ i u. ap (◌⊗◌ (power t i)) (get_or-take (m + 1) i cs 𝟘 u))
      ∙ sym (
          sum_shrink r (m + 1) (k - m) term (λ i a u.
            ap (◌⊗◌ (power t i)) (h i (omega arith) (omega arith)) ∙ times-zero r (power t i)))
      ∙ ap (λ j. sum j term) (sym whole)

  -- A polynomial built from coefficients, at least one and each zero if it counts as zero, has the value
  -- of their sum of powers, in exact arithmetic.
  pub set_coefficients-value :
      (cs : List D) (t : D)
      → 0 < length cs
      → IsPlain n cs
      → (set_coefficients n cs >>= λ p. evaluate p t) ≡ some (value cs t)
  unfolding set_coefficients
  set_coefficients-value [] t h plain = absurd (omega arith)
  set_coefficients-value (c ∷ cs) t h plain =
      let k = length cs in
      let m = reduced_order n k (c ∷ cs) in
      let bound = reduced_order-bound n k (c ∷ cs) in
      let size = length-take (m + 1) (c ∷ cs) in
      evaluate-value r (record { coefficients = take (m + 1) (c ∷ cs) }) t
        (omega (arith, size, bound))
      ∙ ap some (
          take-value k m (c ∷ cs) t refl bound (λ i l u.
            All-get_or (λ x. is_zero n x ≡ true → x ≡ 𝟘) (c ∷ cs) i 𝟘 plain (omega arith)
              (reduced_order-zero n k (c ∷ cs) i l u)))
