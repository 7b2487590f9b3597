-- ===== src/Maths/Polynomial/LevelSet.antt =====
-- The level set of a polynomial of order 1 or 2.
mod Tests
use general_tools.Common.{
  ℕ, zero, suc, ◌<◌, ◌≡◌, ◌≢◌, refl, sym, ap, ◌∙◌, true, false, Bool-cases, inl, inr, Option, some,
  List, [], ◌∷◌, All, ◌-◌, length, get_or, if◌then◌else◌, arith,
}
use general_tools.Common.Double.{Double}
use general_tools.Maths.Exact.{
  IsExact, ◌⊕◌, ◌⊖◌, ◌⊗◌, 𝟘, 𝟙, plus_cancel, times_swap, plus-zero, plus-times, times-one,
  minus-plus_comm, plus-minus_self, times-negate, zero-times, negate-negate,
}
use general_tools.Maths.Sums.{sum, power}
use general_tools.Maths.Floats.{Floats}
use general_tools.Maths.Roots.{quadratic_real_roots, discriminant}
use general_tools.Maths.Polynomial.{Polynomial, evaluate, level_set}
use general_tools.Maths.Polynomial.Value.{value, evaluate-value}

-- Division and square roots without rounding.
pub record IsField {D : Type 0} (o : Double D) (sqrt : D → D) : Type 0 where
  pub divide_times : (x y : D) → y ≢ o.of_nat 0 → o.times (o.divide x y) y ≡ x
  pub no_divisors : (x y : D) → y ≢ o.of_nat 0 → o.times y x ≡ o.of_nat 0 → x ≡ o.of_nat 0
  pub equal_sound : (x y : D) → o.equal x y ≡ true → x ≡ y
  pub two : o.of_nat 2 ≡ o.plus (o.of_nat 1) (o.of_nat 1)
  pub two_ne_zero : o.of_nat 2 ≢ o.of_nat 0
  pub four : o.of_nat 4 ≡ o.times (o.of_nat 2) (o.of_nat 2)
  pub sqrt_lem : (x : D) → o.less (o.of_nat 0) x ≡ true → o.times (sqrt x) (sqrt x) ≡ x

module _ {D : Type 0} ⦃o : Double D⦄ (r : IsExact o) {sqrt : D → D} (field : IsField o sqrt) where
  abbrev two : D
  two = o.of_nat 2

  twice : (x : D) → two ⊗ x ≡ x ⊕ x
  twice x =
      ap (λ v. v ⊗ x) field.two
      ∙ plus-times r 𝟙 𝟙 x
      ∙ ap (λ v. v ⊕ 𝟙 ⊗ x) (r.one-times x)
      ∙ ap (◌⊕◌ x) (r.one-times x)

  square_plus : (u b : D) → (u ⊕ b) ⊗ (u ⊕ b) ≡ (u ⊗ u ⊕ two ⊗ (u ⊗ b)) ⊕ b ⊗ b
  square_plus u b =
      r.times-plus (u ⊕ b) u b
      ∙ ap (λ v. v ⊕ (u ⊕ b) ⊗ b) (plus-times r u b u ∙ ap (◌⊕◌ (u ⊗ u)) (r.times_comm b u))
      ∙ ap (◌⊕◌ (u ⊗ u ⊕ u ⊗ b)) (plus-times r u b b)
      ∙ r.plus_assoc (u ⊗ u) (u ⊗ b) (u ⊗ b ⊕ b ⊗ b)
      ∙ ap (◌⊕◌ (u ⊗ u))
          (sym (r.plus_assoc (u ⊗ b) (u ⊗ b) (b ⊗ b)) ∙ ap (λ v. v ⊕ b ⊗ b) (sym (twice (u ⊗ b))))
      ∙ sym (r.plus_assoc (u ⊗ u) (two ⊗ (u ⊗ b)) (b ⊗ b))

  -- A number whose square is the discriminant, and the root that comes from it.
  root_scaled :
      (a b c x u : D)
      → x ⊗ (two ⊗ a) ≡ u
      → (u ⊕ b) ⊗ (u ⊕ b) ≡ discriminant a b c
      → two ⊗ a ⊗ (two ⊗ (c ⊕ (x ⊗ b ⊕ x ⊗ (x ⊗ a)))) ≡ 𝟘
  root_scaled a b c x u scaled square =
      let q = two ⊗ a in
      let four_ac : q ⊗ (two ⊗ c) ≡ o.of_nat 4 ⊗ a ⊗ c =
        r.times_assoc two a (two ⊗ c)
        ∙ ap (◌⊗◌ two) (times_swap r a two c)
        ∙ sym (r.times_assoc two two (a ⊗ c))
        ∙ ap (λ v. v ⊗ (a ⊗ c)) (sym field.four)
        ∙ sym (r.times_assoc (o.of_nat 4) a c) in
      let linear : q ⊗ (two ⊗ (x ⊗ b)) ≡ two ⊗ (u ⊗ b) =
        times_swap r q two (x ⊗ b)
        ∙ ap (◌⊗◌ two) (sym (r.times_assoc q x b) ∙ ap (λ v. v ⊗ b) (r.times_comm q x ∙ scaled)) in
      let squared : q ⊗ (two ⊗ (x ⊗ (x ⊗ a))) ≡ u ⊗ u =
        ap (◌⊗◌ q) (times_swap r two x (x ⊗ a) ∙ ap (◌⊗◌ x) (times_swap r two x a ∙ scaled))
        ∙ sym (r.times_assoc q x u)
        ∙ ap (λ v. v ⊗ u) (r.times_comm q x ∙ scaled) in
      let parts : q ⊗ (two ⊗ (c ⊕ (x ⊗ b ⊕ x ⊗ (x ⊗ a))))
          ≡ o.of_nat 4 ⊗ a ⊗ c ⊕ (two ⊗ (u ⊗ b) ⊕ u ⊗ u) =
        ap (◌⊗◌ q) (
          r.times-plus two c (x ⊗ b ⊕ x ⊗ (x ⊗ a))
          ∙ ap (◌⊕◌ (two ⊗ c)) (r.times-plus two (x ⊗ b) (x ⊗ (x ⊗ a))))
        ∙ r.times-plus q (two ⊗ c) (two ⊗ (x ⊗ b) ⊕ two ⊗ (x ⊗ (x ⊗ a)))
        ∙ ap (◌⊕◌ (q ⊗ (two ⊗ c))) (r.times-plus q (two ⊗ (x ⊗ b)) (two ⊗ (x ⊗ (x ⊗ a))))
        ∙ ap (λ v. v ⊕ (q ⊗ (two ⊗ (x ⊗ b)) ⊕ q ⊗ (two ⊗ (x ⊗ (x ⊗ a))))) four_ac
        ∙ ap (λ v. o.of_nat 4 ⊗ a ⊗ c ⊕ (v ⊕ q ⊗ (two ⊗ (x ⊗ (x ⊗ a))))) linear
        ∙ ap (λ v. o.of_nat 4 ⊗ a ⊗ c ⊕ (two ⊗ (u ⊗ b) ⊕ v)) squared in
      parts
      ∙ cancelled (o.of_nat 4 ⊗ a ⊗ c) (two ⊗ (u ⊗ b)) (u ⊗ u) (b ⊗ b)
          (sym (square_plus u b) ∙ square)
    where
      cancelled : (k l m n : D) → (m ⊕ l) ⊕ n ≡ n ⊖ k → k ⊕ (l ⊕ m) ≡ 𝟘
      cancelled k l m n e = plus_cancel r n (k ⊕ (l ⊕ m)) 𝟘 (
          r.plus_comm n (k ⊕ (l ⊕ m))
          ∙ r.plus_assoc k (l ⊕ m) n
          ∙ ap (λ v. k ⊕ (v ⊕ n)) (r.plus_comm l m)
          ∙ ap (◌⊕◌ k) e
          ∙ plus-minus_self r k n
          ∙ sym (plus-zero r n))

  quadratic_root :
      (a b c x u : D)
      → a ≢ 𝟘
      → x ⊗ (two ⊗ a) ≡ u
      → (u ⊕ b) ⊗ (u ⊕ b) ≡ discriminant a b c
      → c ⊕ (x ⊗ b ⊕ x ⊗ (x ⊗ a)) ≡ 𝟘
  quadratic_root a b c x u solid scaled square =
      field.no_divisors (c ⊕ (x ⊗ b ⊕ x ⊗ (x ⊗ a))) two field.two_ne_zero (
        field.no_divisors (two ⊗ (c ⊕ (x ⊗ b ⊕ x ⊗ (x ⊗ a)))) (two ⊗ a)
          (λ e. solid (field.no_divisors a two field.two_ne_zero e))
          (root_scaled a b c x u scaled square))

  from_lowered : (c level rest : D) → (c ⊖ level) ⊕ rest ≡ 𝟘 → c ⊕ rest ≡ level
  from_lowered c level rest e =
      sym (plus-minus_self r level (c ⊕ rest))
      ∙ ap (◌⊕◌ level) (sym (minus-plus_comm r c level rest) ∙ e)
      ∙ plus-zero r level

  value-linear : (c b x : D) → value (c ∷ b ∷ []) x ≡ c ⊕ x ⊗ b
  unfolding value sum power
  value-linear c b x =
      ap (λ v. v ⊕ (x ⊗ 𝟙 ⊗ b ⊕ 𝟘)) (r.one-times c)
      ∙ ap (◌⊕◌ c) (plus-zero r (x ⊗ 𝟙 ⊗ b) ∙ ap (λ v. v ⊗ b) (times-one r x))

  value-quadratic : (c b a x : D) → value (c ∷ b ∷ a ∷ []) x ≡ c ⊕ (x ⊗ b ⊕ x ⊗ (x ⊗ a))
  unfolding value sum power
  value-quadratic c b a x =
      ap (λ v. v ⊕ (x ⊗ 𝟙 ⊗ b ⊕ (x ⊗ (x ⊗ 𝟙) ⊗ a ⊕ 𝟘))) (r.one-times c)
      ∙ ap (λ v. c ⊕ (v ⊗ b ⊕ (x ⊗ (x ⊗ 𝟙) ⊗ a ⊕ 𝟘))) (times-one r x)
      ∙ ap (λ v. c ⊕ (x ⊗ b ⊕ v))
          (plus-zero r (x ⊗ (x ⊗ 𝟙) ⊗ a)
            ∙ ap (λ v. x ⊗ v ⊗ a) (times-one r x)
            ∙ r.times_assoc x x a)

  back : (b s : D) → (o.negate b ⊕ s) ⊕ b ≡ s
  back b s =
      ap (λ v. v ⊕ b) (r.plus_comm (o.negate b) s)
      ∙ r.plus_assoc s (o.negate b) b
      ∙ ap (◌⊕◌ s) (r.negate-plus b)
      ∙ plus-zero r s

  back_minus : (b s : D) → (o.negate b ⊖ s) ⊕ b ≡ o.negate s
  back_minus b s = ap (λ v. v ⊕ b) (r.minus-negate (o.negate b) s) ∙ back b (o.negate s)

  square_negate : (s : D) → o.negate s ⊗ o.negate s ≡ s ⊗ s
  square_negate s =
      times-negate r (o.negate s) s
      ∙ ap o.negate (r.times_comm (o.negate s) s ∙ times-negate r s s)
      ∙ negate-negate r (s ⊗ s)

  -- Each root that `QuadraticRealRoots` finds is one.
  roots_lem :
      (a b c : D)
      → a ≢ 𝟘
      → All (λ x. c ⊕ (x ⊗ b ⊕ x ⊗ (x ⊗ a)) ≡ 𝟘) (quadratic_real_roots sqrt a b c)
  unfolding quadratic_real_roots
  roots_lem a b c solid =
      let d = discriminant a b c in
      let s = sqrt d in
      let nonzero : two ⊗ a ≢ 𝟘 = λ e. solid (field.no_divisors a two field.two_ne_zero e) in
      let root : (u : D)
          → (u ⊕ b) ⊗ (u ⊕ b) ≡ d
          → c ⊕ (o.divide u (two ⊗ a) ⊗ b ⊕ o.divide u (two ⊗ a) ⊗ (o.divide u (two ⊗ a) ⊗ a)) ≡ 𝟘 =
        λ u e.
          quadratic_root a b c (o.divide u (two ⊗ a)) u solid
            (field.divide_times u (two ⊗ a) nonzero) e in
      elim (Bool-cases (o.equal d 𝟘)) [
        | inl e ↦ rw e (
          root (o.negate b)
              (ap (λ v. v ⊗ v) (r.negate-plus b) ∙ zero-times r 𝟘 ∙ sym (field.equal_sound d 𝟘 e)),
          tt,
        )
        | inr e ↦ elim (Bool-cases (o.less 𝟘 d)) [
          | inl p ↦
              rw (e, p)
                (
                  root (o.negate b ⊕ s) (ap (λ v. v ⊗ v) (back b s) ∙ field.sqrt_lem d p),
                  (
                    root (o.negate b ⊖ s)
                        (ap (λ v. v ⊗ v) (back_minus b s) ∙ square_negate s ∙ field.sqrt_lem d p),
                    tt,
                  ),
                )
          | inr p ↦ rw (e, p) tt
        ]
      ]

All-map :
    {A : Type 0} (P Q : A → Type 0) (xs : List A) → ((x : A) → P x → Q x) → All P xs → All Q xs
All-map P Q [] f h = tt
All-map P Q (x ∷ xs) f h = (f x h.0, All-map P Q xs f h.1)

module _ {F D : Type 0} ⦃o : Double D⦄ (n : Floats o F) (r : IsExact o) {sqrt : D → D}
    (field : IsField o sqrt) (find_roots : List D → Option (List (D × D))) where
  -- With exact arithmetic, division and square roots, each value in the level set of a polynomial of
  -- order 2 or less, whose leading coefficient is not zero, is one where the polynomial has the level.
  pub level_set_reaches :
      (p : Polynomial D) (level : D)
      → length p.coefficients < 4
      → get_or p.coefficients (length p.coefficients - 1) 𝟘 ≢ 𝟘
      → All (λ t. evaluate p t ≡ some level) (level_set n sqrt find_roots p level)
  unfolding level_set
  level_set_reaches p level short solid = go p.coefficients short solid
    where
      go :
          (cs : List D)
          → length cs < 4
          → get_or cs (length cs - 1) 𝟘 ≢ 𝟘
          → All
              (λ t. evaluate (record { coefficients = cs }) t ≡ some level)
              (level_set n sqrt find_roots (record { coefficients = cs }) level)
      go [] short solid = tt
      go (c ∷ []) short solid = tt
      go (c ∷ b ∷ []) short solid =
          let x = o.divide (o.negate (c ⊖ level)) b in
          (
            evaluate-value r (record { coefficients = c ∷ b ∷ [] }) x (omega arith)
                ∙ ap some (
                    value-linear r field c b x
                    ∙ from_lowered r field c level (x ⊗ b) (
                        ap (◌⊕◌ (c ⊖ level)) (field.divide_times (o.negate (c ⊖ level)) b solid)
                        ∙ r.plus_comm (c ⊖ level) (o.negate (c ⊖ level))
                        ∙ r.negate-plus (c ⊖ level))),
            tt,
          )
      go (c ∷ b ∷ a ∷ []) short solid =
          All-map (λ x. (c ⊖ level) ⊕ (x ⊗ b ⊕ x ⊗ (x ⊗ a)) ≡ 𝟘)
            (λ x. evaluate (record { coefficients = c ∷ b ∷ a ∷ [] }) x ≡ some level)
            (quadratic_real_roots sqrt a b (c ⊖ level))
            (λ x e.
              evaluate-value r (record { coefficients = c ∷ b ∷ a ∷ [] }) x (omega arith)
              ∙ ap some (
                  value-quadratic r field c b a x
                  ∙ from_lowered r field c level (x ⊗ b ⊕ x ⊗ (x ⊗ a)) e))
            (roots_lem r field a b (c ⊖ level) solid)
      go (c ∷ b ∷ a ∷ z ∷ cs) short solid = absurd (omega arith)
