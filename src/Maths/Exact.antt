-- ===== src/Maths/Exact.antt =====
-- Arithmetic without rounding: the operations of a type of `double` as those of a commutative ring.
use general_tools.Common.{◌≡◌, sym, ap, ◌∙◌}
use general_tools.Common.Double.{Double}

pub record IsExact {D : Type 0} (o : Double D) : Type 0 where
  pub plus_assoc : (x y z : D) → o.plus (o.plus x y) z ≡ o.plus x (o.plus y z)
  pub plus_comm : (x y : D) → o.plus x y ≡ o.plus y x
  pub zero-plus : (x : D) → o.plus (o.of_nat 0) x ≡ x
  pub negate-plus : (x : D) → o.plus (o.negate x) x ≡ o.of_nat 0
  pub minus-negate : (x y : D) → o.minus x y ≡ o.plus x (o.negate y)
  pub times_assoc : (x y z : D) → o.times (o.times x y) z ≡ o.times x (o.times y z)
  pub times_comm : (x y : D) → o.times x y ≡ o.times y x
  pub one-times : (x : D) → o.times (o.of_nat 1) x ≡ x
  pub times-plus : (x y z : D) → o.times x (o.plus y z) ≡ o.plus (o.times x y) (o.times x z)

module _ {D : Type 0} ⦃o : Double D⦄ where
  infixl 65 ◌⊕◌ ◌⊖◌
  infixl 70 ◌⊗◌
  abbrev pub ◌⊕◌ : D → D → D
  x ⊕ y = o.plus x y

  abbrev pub ◌⊖◌ : D → D → D
  x ⊖ y = o.minus x y

  abbrev pub ◌⊗◌ : D → D → D
  x ⊗ y = o.times x y

  abbrev pub 𝟘 : D
  𝟘 = o.of_nat 0

  abbrev pub 𝟙 : D
  𝟙 = o.of_nat 1

module _ {D : Type 0} ⦃o : Double D⦄ (r : IsExact o) where
  pub plus-zero : (x : D) → x ⊕ 𝟘 ≡ x
  plus-zero x = r.plus_comm x 𝟘 ∙ r.zero-plus x

  pub plus_cancel : (x y z : D) → x ⊕ y ≡ x ⊕ z → y ≡ z
  plus_cancel x y z e = sym (undo y) ∙ ap (◌⊕◌ (o.negate x)) e ∙ undo z
    where
      undo : (w : D) → o.negate x ⊕ (x ⊕ w) ≡ w
      undo w =
          sym (r.plus_assoc (o.negate x) x w) ∙ ap (λ v. v ⊕ w) (r.negate-plus x) ∙ r.zero-plus w

  pub times-zero : (x : D) → x ⊗ 𝟘 ≡ 𝟘
  times-zero x =
      plus_cancel (x ⊗ 𝟘) (x ⊗ 𝟘) 𝟘
        (sym (r.times-plus x 𝟘 𝟘) ∙ ap (◌⊗◌ x) (r.zero-plus 𝟘) ∙ sym (plus-zero (x ⊗ 𝟘)))

  pub zero-times : (x : D) → 𝟘 ⊗ x ≡ 𝟘
  zero-times x = r.times_comm 𝟘 x ∙ times-zero x

  pub plus-times : (x y z : D) → (x ⊕ y) ⊗ z ≡ x ⊗ z ⊕ y ⊗ z
  plus-times x y z =
      r.times_comm (x ⊕ y) z
      ∙ r.times-plus z x y
      ∙ ap (λ v. v ⊕ z ⊗ y) (r.times_comm z x)
      ∙ ap (◌⊕◌ (x ⊗ z)) (r.times_comm z y)

  pub times-one : (x : D) → x ⊗ 𝟙 ≡ x
  times-one x = r.times_comm x 𝟙 ∙ r.one-times x

  pub plus_interchange : (a b c d : D) → (a ⊕ b) ⊕ (c ⊕ d) ≡ (a ⊕ c) ⊕ (b ⊕ d)
  plus_interchange a b c d =
      r.plus_assoc a b (c ⊕ d)
      ∙ ap (◌⊕◌ a)
          (sym (r.plus_assoc b c d) ∙ ap (λ v. v ⊕ d) (r.plus_comm b c) ∙ r.plus_assoc c b d)
      ∙ sym (r.plus_assoc a c (b ⊕ d))

  -- `x (y z) = y (x z)`.
  pub times_swap : (x y z : D) → x ⊗ (y ⊗ z) ≡ y ⊗ (x ⊗ z)
  times_swap x y z =
      sym (r.times_assoc x y z) ∙ ap (λ v. v ⊗ z) (r.times_comm x y) ∙ r.times_assoc y x z

  pub times-negate : (x y : D) → x ⊗ o.negate y ≡ o.negate (x ⊗ y)
  times-negate x y = plus_cancel (x ⊗ y) (x ⊗ o.negate y) (o.negate (x ⊗ y)) (
      sym (r.times-plus x y (o.negate y))
      ∙ ap (◌⊗◌ x) (r.plus_comm y (o.negate y) ∙ r.negate-plus y)
      ∙ times-zero x
      ∙ sym (r.plus_comm (x ⊗ y) (o.negate (x ⊗ y)) ∙ r.negate-plus (x ⊗ y)))

  pub times-minus : (x y z : D) → x ⊗ (y ⊖ z) ≡ x ⊗ y ⊖ x ⊗ z
  times-minus x y z =
      ap (◌⊗◌ x) (r.minus-negate y z)
      ∙ r.times-plus x y (o.negate z)
      ∙ ap (◌⊕◌ (x ⊗ y)) (times-negate x z)
      ∙ sym (r.minus-negate (x ⊗ y) (x ⊗ z))

  pub minus-times : (x y z : D) → (x ⊖ y) ⊗ z ≡ x ⊗ z ⊖ y ⊗ z
  minus-times x y z =
      r.times_comm (x ⊖ y) z
      ∙ times-minus z x y
      ∙ ap (λ v. v ⊖ z ⊗ y) (r.times_comm z x)
      ∙ ap (◌⊖◌ (x ⊗ z)) (r.times_comm z y)

  pub negate_plus : (x y : D) → o.negate (x ⊕ y) ≡ o.negate x ⊕ o.negate y
  negate_plus x y = plus_cancel (x ⊕ y) (o.negate (x ⊕ y)) (o.negate x ⊕ o.negate y) (
      r.plus_comm (x ⊕ y) _
      ∙ r.negate-plus (x ⊕ y)
      ∙ sym (
          plus_interchange x y (o.negate x) (o.negate y)
          ∙ ap₂' (r.plus_comm x _ ∙ r.negate-plus x) (r.plus_comm y _ ∙ r.negate-plus y)
          ∙ r.zero-plus 𝟘))
    where
      ap₂' : {a b c d : D} → a ≡ b → c ≡ d → a ⊕ c ≡ b ⊕ d
      ap₂' {b} {c} p q = ap (λ v. v ⊕ c) p ∙ ap (◌⊕◌ b) q

  -- `(a + b) - (c + d) = (a - c) + (b - d)`.
  pub minus_interchange : (a b c d : D) → (a ⊕ b) ⊖ (c ⊕ d) ≡ (a ⊖ c) ⊕ (b ⊖ d)
  minus_interchange a b c d =
      r.minus-negate (a ⊕ b) (c ⊕ d)
      ∙ ap (◌⊕◌ (a ⊕ b)) (negate_plus c d)
      ∙ plus_interchange a b (o.negate c) (o.negate d)
      ∙ ap (λ v. v ⊕ (b ⊕ o.negate d)) (sym (r.minus-negate a c))
      ∙ ap (◌⊕◌ (a ⊖ c)) (sym (r.minus-negate b d))

  pub minus_self : (x : D) → x ⊖ x ≡ 𝟘
  minus_self x = r.minus-negate x x ∙ r.plus_comm x (o.negate x) ∙ r.negate-plus x

  pub minus-zero : (x : D) → x ⊖ 𝟘 ≡ x
  minus-zero x =
      r.minus-negate x 𝟘 ∙ ap (◌⊕◌ x) (sym (plus-zero (o.negate 𝟘)) ∙ r.negate-plus 𝟘) ∙ plus-zero x

  pub plus-minus : (x y z : D) → x ⊕ (y ⊖ z) ≡ x ⊕ y ⊖ z
  plus-minus x y z =
      ap (◌⊕◌ x) (r.minus-negate y z)
      ∙ sym (r.plus_assoc x y (o.negate z))
      ∙ sym (r.minus-negate (x ⊕ y) z)

  pub negate-negate : (x : D) → o.negate (o.negate x) ≡ x
  negate-negate x = plus_cancel (o.negate x) (o.negate (o.negate x)) x (
      r.plus_comm (o.negate x) (o.negate (o.negate x))
      ∙ r.negate-plus (o.negate x)
      ∙ sym (r.negate-plus x))

  pub plus-minus_self : (x y : D) → x ⊕ (y ⊖ x) ≡ y
  plus-minus_self x y =
      r.plus_comm x (y ⊖ x)
      ∙ ap (λ v. v ⊕ x) (r.minus-negate y x)
      ∙ r.plus_assoc y (o.negate x) x
      ∙ ap (◌⊕◌ y) (r.negate-plus x)
      ∙ plus-zero y

  pub minus-plus : (x y z : D) → x ⊖ (y ⊕ z) ≡ x ⊖ y ⊖ z
  minus-plus x y z =
      r.minus-negate x (y ⊕ z)
      ∙ ap (◌⊕◌ x) (negate_plus y z)
      ∙ sym (r.plus_assoc x (o.negate y) (o.negate z))
      ∙ ap (λ v. v ⊕ o.negate z) (sym (r.minus-negate x y))
      ∙ sym (r.minus-negate (x ⊖ y) z)

  pub minus-minus : (x y z : D) → x ⊖ (y ⊖ z) ≡ x ⊖ y ⊕ z
  minus-minus x y z =
      ap (◌⊖◌ x) (r.minus-negate y z)
      ∙ minus-plus x y (o.negate z)
      ∙ r.minus-negate (x ⊖ y) (o.negate z)
      ∙ ap (◌⊕◌ (x ⊖ y)) (negate-negate z)

  pub minus-plus_comm : (x y z : D) → x ⊖ y ⊕ z ≡ x ⊕ z ⊖ y
  minus-plus_comm x y z =
      r.plus_comm (x ⊖ y) z ∙ plus-minus z x y ∙ ap (λ v. v ⊖ y) (r.plus_comm z x)
