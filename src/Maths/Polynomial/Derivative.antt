-- ===== src/Maths/Polynomial/Derivative.antt =====
-- The derivative of any order as that many derivatives of the first order.
use general_tools.Common.{
  ℕ, zero, suc, ◌+◌, ◌-◌, ◌≤◌, ◌<◌, ◌≡◌, refl, sym, ap, ◌∙◌, inl, inr, some, List, [], ◌∷◌,
  Option-cases, length, get_or, ok, arith,
}
use native.Mathlib.Decide.{dec_lt, dec_le}
use general_tools.Common.Double.{Double}
use general_tools.Common.Integers.{pos}
use general_tools.Maths.Exact.{IsExact, ◌⊗◌, 𝟘, 𝟙}
use general_tools.Maths.Floats.{Floats}
use general_tools.Maths.Polynomial.{
  Polynomial, set_coefficients, falling, derived, derivative, derivative_at, built,
}
use general_tools.Maths.Polynomial.Value.{value, IsPlain, set_coefficients-value}

module _ {D : Type 0} ⦃o : Double D⦄ where
  unfoldable pub scaled : ℕ → List D → List D
  scaled k [] = []
  scaled k (c ∷ cs) = (c ⊗ o.of_nat k) ∷ scaled (suc k) cs

  -- The coefficients of the first derivative.
  unfoldable pub first_derivative : List D → List D
  unfolding scaled
  first_derivative [] = []
  first_derivative (c ∷ cs) = scaled 1 cs

  unfoldable pub nth_derivative : ℕ → List D → List D
  unfolding first_derivative
  nth_derivative zero cs = cs
  nth_derivative (suc order) cs = first_derivative (nth_derivative order cs)

  length-scaled : (k : ℕ) (cs : List D) → length (scaled k cs) ≡ length cs
  unfolding scaled
  length-scaled k [] = refl
  length-scaled k (c ∷ cs) = ap suc (length-scaled (suc k) cs)

  get_or-scaled :
      (k i : ℕ) (cs : List D)
      → i < length cs
      → get_or (scaled k cs) i 𝟘 ≡ get_or cs i 𝟘 ⊗ o.of_nat (i + k)
  unfolding scaled
  get_or-scaled k i [] h = absurd (omega arith)
  get_or-scaled k zero (c ∷ cs) h = ap (λ j. c ⊗ o.of_nat j) (omega arith)
  get_or-scaled k (suc i) (c ∷ cs) h =
      get_or-scaled (suc k) i cs (omega arith) ∙ ap (λ j. get_or cs i 𝟘 ⊗ o.of_nat j) (omega arith)

  length-first : (cs : List D) → length (first_derivative cs) ≡ length cs - 1
  unfolding first_derivative
  length-first [] = refl
  length-first (c ∷ cs) = omega (arith, length-scaled 1 cs)

  get_or-first :
      (i : ℕ) (cs : List D)
      → i + 1 < length cs
      → get_or (first_derivative cs) i 𝟘 ≡ get_or cs (suc i) 𝟘 ⊗ o.of_nat (i + 1)
  unfolding first_derivative
  get_or-first i [] h = absurd (omega arith)
  get_or-first i (c ∷ cs) h = get_or-scaled 1 i cs (omega arith)

  length-nth : (order : ℕ) (cs : List D) → length (nth_derivative order cs) ≡ length cs - order
  unfolding nth_derivative
  length-nth zero cs = omega arith
  length-nth (suc order) cs =
      let ih = length-nth order cs in omega (arith, length-first (nth_derivative order cs), ih)

  -- The product of the loop by its last factor.
  falling-last :
      (order k : ℕ) (v : D) → falling (suc order) k v ≡ falling order k v ⊗ o.of_nat (k - order)
  unfolding falling
  falling-last zero k v = ap (λ j. v ⊗ o.of_nat j) (omega arith)
  falling-last (suc order) k v =
      falling-last order (k - 1) (v ⊗ o.of_nat k)
      ∙ ap (λ j. falling order (k - 1) (v ⊗ o.of_nat k) ⊗ o.of_nat j) (omega arith)

  -- What the loop of `derivative` has written.
  derived_lem :
      (n order : ℕ) (cs out : List D)
      → (length (derived n order cs out) ≡ n + length out)
        × ((j : ℕ)
            → j < n
            → get_or (derived n order cs out) j 𝟘
              ≡ get_or cs (j + order) 𝟘 ⊗ falling order (j + order) 𝟙)
        × ((j : ℕ) → get_or (derived n order cs out) (n + j) 𝟘 ≡ get_or out j 𝟘)
  unfolding derived
  derived_lem zero order cs out =
      (omega arith, λ j l. absurd (omega arith), λ j. ap (λ i. get_or out i 𝟘) (omega arith))
  derived_lem (suc n) order cs out =
      let term = get_or cs (n + order) 𝟘 ⊗ falling order (n + order) 𝟙 in
      let ih = derived_lem n order cs (term ∷ out) in
      (
        omega (arith, ih.0),
        λ j l. elim (dec_lt j n) [
          | yes h ↦ ih.1 j h
          | no h ↦
              let same : j ≡ n + 0 = omega arith in
              let last : n + 0 ≡ n = omega arith in
              ap (λ i. get_or (derived n order cs (term ∷ out)) i 𝟘) same
              ∙ ih.2 0
              ∙ ap (λ i. get_or cs (i + order) 𝟘 ⊗ falling order (i + order) 𝟙) (sym (same ∙ last))
        ],
        λ j. ap (λ i. get_or (derived n order cs (term ∷ out)) i 𝟘) (omega arith) ∙ ih.2 (suc j),
      )

-- Two lists with the same entries.
list_ext :
    {A : Type 0} (xs ys : List A) (d : A)
    → length xs ≡ length ys
    → ((i : ℕ) → i < length xs → get_or xs i d ≡ get_or ys i d)
    → xs ≡ ys
list_ext [] [] d l h = refl
list_ext [] (y ∷ ys) d l h = absurd (omega arith)
list_ext (x ∷ xs) [] d l h = absurd (omega arith)
list_ext (x ∷ xs) (y ∷ ys) d l h =
    ap (λ z. z ∷ xs) (h 0 (omega arith))
    ∙ ap (◌∷◌ y) (list_ext xs ys d (omega arith) (λ i u. h (suc i) (omega arith)))

module _ {D : Type 0} ⦃o : Double D⦄ (r : IsExact o) where
  get_or-nth :
      (order i : ℕ) (cs : List D)
      → i + order < length cs
      → get_or (nth_derivative order cs) i 𝟘 ≡ get_or cs (i + order) 𝟘 ⊗ falling order (i + order) 𝟙
  unfolding nth_derivative
  get_or-nth zero i cs h =
      let e : i ≡ i + 0 = omega arith in
      unfold falling in
      ap (λ j. get_or cs j 𝟘) e
      ∙ sym (r.times_comm (get_or cs (i + 0) 𝟘) 𝟙 ∙ r.one-times (get_or cs (i + 0) 𝟘))
  get_or-nth (suc order) i cs h =
      let last : i + 1 ≡ i + suc order - order = omega arith in
      let e : suc i + order ≡ i + suc order = omega arith in
      let c = get_or cs (i + suc order) 𝟘 in
      let f = falling order (i + suc order) 𝟙 in
      let size = length-nth order cs in
      get_or-first i (nth_derivative order cs) (omega (arith, size))
      ∙ ap (λ w. w ⊗ o.of_nat (i + 1)) (get_or-nth order (suc i) cs (omega arith))
      ∙ ap (λ (j : ℕ). get_or cs j 𝟘 ⊗ falling order j 𝟙 ⊗ o.of_nat (i + 1)) e
      ∙ r.times_assoc c f (o.of_nat (i + 1))
      ∙ ap (λ j. c ⊗ (f ⊗ o.of_nat j)) last
      ∙ ap (◌⊗◌ c) (sym (falling-last order (i + suc order) 𝟙))

  derived-nth :
      (order : ℕ) (cs : List D) → derived (length cs - order) order cs [] ≡ nth_derivative order cs
  derived-nth order cs =
      let d = derived_lem (length cs - order) order cs [] in
      let size = length-nth order cs in
      list_ext (derived (length cs - order) order cs []) (nth_derivative order cs) 𝟘
        (omega (arith, d.0, size))
        (λ i u. d.1 i (omega (arith, d.0)) ∙ sym (get_or-nth order i cs (omega (arith, d.0))))

module _ {F D : Type 0} ⦃o : Double D⦄ (n : Floats o F) (r : IsExact o) where
  -- The value of `set_coefficients`, as the result of a call that may throw.
  derivative_at-built :
      (p : Polynomial D) (order : ℕ) (t : D) (cs : List D)
      → derivative n p (pos order) ≡ built (set_coefficients n cs)
      → 0 < length cs
      → IsPlain n cs
      → derivative_at n p t (pos order) ≡ some (ok (value cs t))
  unfolding derivative_at
  derivative_at-built p order t cs e h plain = elim (Option-cases (set_coefficients n cs)) [
    | inl q ↦ absurd (ground (arith, q, set_coefficients-value n r cs t h plain))
    | inr (d, q) ↦ ground (arith, e, q, set_coefficients-value n r cs t h plain)
  ]

  derivative-gone :
      (p : Polynomial D) (k : ℕ)
      → length p.coefficients ≤ suc k
      → derivative n p (pos (suc k)) ≡ built (set_coefficients n (𝟘 ∷ []))
  unfolding derivative
  derivative-gone p k l = ground arith

  derivative-left :
      (p : Polynomial D) (k : ℕ)
      → suc k < length p.coefficients
      → derivative n p (pos (suc k))
        ≡ built
            (set_coefficients n (derived (length p.coefficients - suc k) (suc k) p.coefficients []))
  unfolding derivative
  derivative-left p k l = ground arith

  value-zero : (cs : List D) (t : D) → length cs ≡ 0 → value (𝟘 ∷ []) t ≡ value cs t
  unfolding value
  value-zero [] t e = r.plus_comm (𝟙 ⊗ 𝟘) 𝟘 ∙ r.zero-plus (𝟙 ⊗ 𝟘) ∙ r.one-times 𝟘
  value-zero (c ∷ cs) t e = absurd (omega (arith, e))

  -- For a polynomial with a coefficient, in exact arithmetic, `derivative(t, order)` with an order that
  -- is not negative is the value at t of the polynomial that `order` first derivatives leave, if every
  -- coefficient of that which counts as zero is zero.
  pub derivative_at-nth :
      (p : Polynomial D) (order : ℕ) (t : D)
      → 0 < length p.coefficients
      → IsPlain n (nth_derivative order p.coefficients)
      → derivative_at n p t (pos order) ≡ some (ok (value (nth_derivative order p.coefficients) t))
  unfolding nth_derivative
  derivative_at-nth p zero t h plain =
      derivative_at-built p 0 t p.coefficients (unfold derivative in refl) h plain
  derivative_at-nth p (suc k) t h plain =
      let cs = nth_derivative (suc k) p.coefficients in
      elim (dec_le (length p.coefficients) (suc k)) [
        | yes l ↦
            derivative_at-built p (suc k) t (𝟘 ∷ []) (derivative-gone p k l) (omega arith)
              ((λ e. refl), tt)
            ∙ ap (λ v. some (ok v))
                (value-zero cs t (omega (arith, length-nth (suc k) p.coefficients, l)))
        | no l ↦
            derivative_at-built p (suc k) t cs
              (derivative-left p k (omega arith)
                ∙ ap (λ w. built (set_coefficients n w)) (derived-nth r (suc k) p.coefficients))
              (omega (arith, length-nth (suc k) p.coefficients, l)) plain
      ]
