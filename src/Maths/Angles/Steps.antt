-- ===== src/Maths/Angles/Steps.antt =====
-- How far `unrollAngle` moves: at most half a turn.
use general_tools.Common.{
  ℕ, ◌≡◌, refl, sym, ap, ◌∙◌, true, false, not, some, if◌then◌else◌, Bool-cases, inl, inr, arith,
}
use general_tools.Common.Double.{Double}
use general_tools.Maths.Exact.{
  IsExact, ◌⊕◌, ◌⊖◌, ◌⊗◌, 𝟘, 𝟙, plus_cancel, plus-times, plus-minus, plus-minus_self, minus-minus,
  minus-plus_comm, plus-zero,
}
use general_tools.Maths.Angles.{k_pi, turn, AngleUnroller, unrolled, unroll_angle}
use general_tools.Maths.Angles.Unrolled.{
  Turns, IsRoomy, IsEnough, IsWrapped, wrap_to_pi_lem, then-Turns, unrolled-Turns,
}

-- The order of exact numbers, with `fabs` and a `M_PI` that is not negative.
pub record IsOrdered {D : Type 0} (o : Double D) : Type 0 where
  pub less_eq-less : (x y : D) → o.less_eq x y ≡ not (o.less y x)
  pub asymmetric : (x y : D) → o.less x y ≡ true → o.less y x ≡ false
  pub not_less_trans : (x y z : D) → o.less x y ≡ false → o.less y z ≡ false → o.less x z ≡ false
  pub plus-less : (x y z : D) → o.less (o.plus x z) (o.plus y z) ≡ o.less x y
  pub fabs-less : (x : D) → o.fabs x ≡ (if o.less x (o.of_nat 0) then o.negate x else x)
  pub two-one : o.of_nat 2 ≡ o.plus (o.of_nat 1) (o.of_nat 1)
  pub pi_positive : o.less o.m_pi (o.of_nat 0) ≡ false

module _ {D : Type 0} ⦃o : Double D⦄ (r : IsExact o) (h : IsOrdered o) where
  turn-halves : ◌≡◌ {A = D} turn (k_pi ⊕ k_pi)
  turn-halves =
      ap (λ x. x ⊗ k_pi) h.two-one
      ∙ plus-times r 𝟙 𝟙 k_pi
      ∙ ap (λ x. x ⊕ 𝟙 ⊗ k_pi) (r.one-times k_pi)
      ∙ ap (◌⊕◌ k_pi) (r.one-times k_pi)

  minus-plus_self : (x y : D) → (x ⊖ y) ⊕ y ≡ x
  minus-plus_self x y = r.plus_comm (x ⊖ y) y ∙ plus-minus_self r y x

  plus-minus_other : (u x : D) → (u ⊕ x) ⊖ u ≡ x
  plus-minus_other u x = plus_cancel r u ((u ⊕ x) ⊖ u) x (plus-minus_self r u (u ⊕ x))

  less-moved : (x y z x' y' : D) → x ⊕ z ≡ x' → y ⊕ z ≡ y' → o.less x y ≡ o.less x' y'
  less-moved x y z x' y' e e' =
      sym (h.plus-less x y z) ∙ ap (λ v. o.less v (y ⊕ z)) e ∙ ap (o.less x') e'

  back_half : o.negate k_pi ⊕ turn ≡ k_pi
  back_half =
      ap (◌⊕◌ (o.negate k_pi)) turn-halves
      ∙ sym (r.plus_assoc (o.negate k_pi) k_pi k_pi)
      ∙ ap (λ v. v ⊕ k_pi) (r.negate-plus k_pi)
      ∙ r.zero-plus k_pi

  -- A wrapped angle and a turn are not below pi.
  turn_above : (x : D) → o.less x (o.negate k_pi) ≡ false → o.less (turn ⊕ x) k_pi ≡ false
  turn_above x low =
      sym (less-moved x (o.negate k_pi) turn (turn ⊕ x) k_pi (r.plus_comm x turn) back_half) ∙ low

  -- A difference of more than pi, less a turn.
  over_near :
      (d : D)
      → o.less k_pi d ≡ true
      → o.less turn d ≡ false
      → o.less k_pi (o.fabs (d ⊖ turn)) ≡ false
  over_near d far small =
      let e = d ⊖ turn in
      let not_pos : o.less 𝟘 e ≡ false =
        less-moved 𝟘 e turn turn d (r.zero-plus turn) (minus-plus_self d turn) ∙ small in
      elim (Bool-cases (o.less e 𝟘)) [
        | inr zero ↦
            ap (o.less k_pi) (h.fabs-less e ∙ rw zero refl)
            ∙ h.not_less_trans k_pi 𝟘 e h.pi_positive not_pos
        | inl neg ↦
            ap (o.less k_pi) (h.fabs-less e ∙ rw neg refl)
            ∙ less-moved k_pi (o.negate e) e (k_pi ⊕ e) 𝟘 refl (r.negate-plus e)
            ∙ less-moved (k_pi ⊕ e) 𝟘 k_pi d k_pi
                (ap (λ v. v ⊕ k_pi) (r.plus_comm k_pi e)
                  ∙ r.plus_assoc e k_pi k_pi
                  ∙ ap (◌⊕◌ e) (sym turn-halves)
                  ∙ minus-plus_self d turn)
                (r.zero-plus k_pi)
            ∙ h.asymmetric k_pi d far
      ]

  -- A difference of less than -pi, and a turn.
  under_near :
      (d : D)
      → o.less k_pi (o.negate d) ≡ true
      → o.less (turn ⊕ d) 𝟘 ≡ false
      → o.less k_pi (o.fabs (turn ⊕ d)) ≡ false
  under_near d far small =
      let f = turn ⊕ d in
      let back : f ⊕ o.negate d ≡ k_pi ⊕ k_pi =
        r.plus_assoc turn d (o.negate d)
        ∙ ap (◌⊕◌ turn) (r.plus_comm d (o.negate d) ∙ r.negate-plus d)
        ∙ plus-zero r turn
        ∙ turn-halves in
      let below : o.less f k_pi ≡ true =
        less-moved f k_pi (o.negate d) (k_pi ⊕ k_pi) (o.negate d ⊕ k_pi) back
          (r.plus_comm k_pi (o.negate d))
        ∙ h.plus-less k_pi (o.negate d) k_pi
        ∙ far in
      ap (o.less k_pi) (h.fabs-less f ∙ rw small refl) ∙ h.asymmetric f k_pi below

  -- The step of the unrolled angle.
  unrolled_step :
      (u p a : D) → IsWrapped p → IsWrapped a → o.less k_pi (o.fabs (unrolled u p a ⊖ u)) ≡ false
  unfolding unrolled
  unrolled_step u p a p-is a-is =
      let d = a ⊖ p in
      elim (Bool-cases (o.less_eq (o.fabs d) o.m_pi)) [
        | inl near ↦ rw near (
            ap (λ x. o.less k_pi (o.fabs x)) (plus-minus_other u d)
            ∙ ground (arith, near, h.less_eq-less (o.fabs d) k_pi))
        | inr far ↦
            let beyond : o.less k_pi (o.fabs d) ≡ true =
              ground (arith, far, h.less_eq-less (o.fabs d) k_pi) in
            elim (Bool-cases (o.less 𝟘 d)) [
              | inl over ↦
                  let same : o.fabs d ≡ d = h.fabs-less d ∙ rw (h.asymmetric 𝟘 d over) refl in
                  let small : o.less turn d ≡ false =
                    less-moved turn d p (turn ⊕ p) a refl (minus-plus_self a p)
                    ∙ h.not_less_trans (turn ⊕ p) k_pi a (turn_above p p-is.1) a-is.0 in
                  rw (far, over)
                    (ap (λ x. o.less k_pi (o.fabs x))
                        (ap (λ x. x ⊖ u)
                            (minus-minus r u turn d
                              ∙ minus-plus_comm r u turn d
                              ∙ sym (plus-minus r u d turn))
                          ∙ plus-minus_other u (d ⊖ turn))
                      ∙ over_near d (ap (o.less k_pi) (sym same) ∙ beyond) small)
              | inr under ↦
                  let small : o.less (turn ⊕ d) 𝟘 ≡ false =
                    less-moved (turn ⊕ d) 𝟘 p (turn ⊕ a) p
                      (r.plus_assoc turn d p ∙ ap (◌⊕◌ turn) (minus-plus_self a p)) (r.zero-plus p)
                    ∙ h.not_less_trans (turn ⊕ a) k_pi p (turn_above a a-is.1) p-is.0 in
                  let opposite : o.less k_pi (o.negate d) ≡ true = elim (Bool-cases (o.less d 𝟘)) [
                    | inl neg ↦ ap (o.less k_pi) (sym (h.fabs-less d ∙ rw neg refl)) ∙ beyond
                    | inr zero ↦
                        let same : o.fabs d ≡ d = h.fabs-less d ∙ rw zero refl in
                        let no = h.not_less_trans k_pi 𝟘 d h.pi_positive under in
                        absurd (ground (arith, ap (o.less k_pi) same, no, beyond))
                  ] in
                  rw (far, under)
                    (ap (λ x. o.less k_pi (o.fabs x)) (plus-minus_other u (turn ⊕ d))
                      ∙ under_near d opposite small)
            ]
      ]

  -- In exact, ordered arithmetic, with enough turns for the old unrolled angle and for the new angle, and if
  -- a turn brings an angle from beyond pi or -pi not beyond the other: `unrollAngle` ends, returns the angle
  -- that it stores, this is the given angle and some whole turns, and it differs from the old unrolled angle
  -- by no more than pi.
  pub unroll_angle_lem :
      (fuel : ℕ) (s : AngleUnroller D) (angle : D)
      → IsRoomy o
      → IsEnough fuel s.unrolled_angle
      → IsEnough fuel angle
      → (u : D) × (unroll_angle fuel s angle ≡ some (record s { unrolled_angle = u }, u))
        × Turns angle u
        × (o.less k_pi (o.fabs (u ⊖ s.unrolled_angle)) ≡ false)
  unfolding unroll_angle
  unroll_angle_lem fuel s angle roomy old new =
      let (p, old_result, old_turns, old_wrapped) =
        wrap_to_pi_lem fuel s.unrolled_angle roomy old in
      let (a, new_result, new_turns, new_wrapped) = wrap_to_pi_lem fuel angle roomy new in
      (
        unrolled s.unrolled_angle p a,
        simp (old_result, new_result) refl,
        then-Turns new_turns (unrolled-Turns r s.unrolled_angle p a old_turns),
        unrolled_step s.unrolled_angle p a old_wrapped new_wrapped,
      )
