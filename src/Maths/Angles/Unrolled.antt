-- ===== src/Maths/Angles/Unrolled.antt =====
-- Whole turns: what wrapping and unrolling add to an angle, and when wrapping ends.
use general_tools.Common.{
  ℕ, zero, suc, ◌⊎◌, ◌≡◌, refl, sym, ap, ◌∙◌, subst, true, false, none, some, inl, inr, Bool-cases,
}
use general_tools.Common.Double.{Double}
use general_tools.Maths.Exact.{
  IsExact, ◌⊕◌, ◌⊖◌, 𝟘, plus-minus, plus-minus_self, minus-plus, minus-minus, minus-plus_comm,
}
use general_tools.Maths.Angles.{k_pi, turn, lowered, raised, wrap_to_pi, unrolled}

-- The second angle is the first one and some whole turns, up or down.
pub data Turns {D : Type 0} ⦃o : Double D⦄ (x : D) : D → Type 0 where
  none_yet : Turns x x
  up : {y : D} → Turns x y → Turns x (y ⊕ turn)
  down : {y : D} → Turns x y → Turns x (y ⊖ turn)

-- A turn brings an angle from above pi not below -pi, and from below -pi not above pi.
pub record IsRoomy {D : Type 0} (o : Double D) : Type 0 where
  pub above :
      (x : D) → o.less o.m_pi x ≡ true → o.less (o.minus x (turn ⦃o = o⦄)) (o.negate o.m_pi) ≡ false
  pub below :
      (x : D) → o.less x (o.negate o.m_pi) ≡ true → o.less o.m_pi (o.plus x (turn ⦃o = o⦄)) ≡ false

module _ {D : Type 0} ⦃o : Double D⦄ where
  pub then-Turns : {x y z : D} → Turns x y → Turns y z → Turns x z
  then-Turns p none_yet = p
  then-Turns p (up q) = up (then-Turns p q)
  then-Turns p (down q) = down (then-Turns p q)

  -- The angle after a number of turns of the loops, if they run on.
  unfoldable pub turned_down : ℕ → D → D
  turned_down zero x = x
  turned_down (suc k) x = turned_down k (x ⊖ turn)

  unfoldable pub turned_up : ℕ → D → D
  turned_up zero x = x
  turned_up (suc k) x = turned_up k (x ⊕ turn)

  -- The numbers of turns are enough: after so many the angle is no more above pi, or below -pi.
  pub record IsEnough (fuel : ℕ) (x : D) : Type 0 where
    pub not_above : o.less k_pi (turned_down fuel x) ≡ false
    pub not_below : o.less (turned_up fuel x) (o.negate k_pi) ≡ false

  -- An angle between -pi and pi.
  abbrev pub IsWrapped : D → Type 0
  IsWrapped y = (o.less k_pi y ≡ false) × (o.less y (o.negate k_pi) ≡ false)

  abbrev Lowered : ℕ → D → Type 0
  Lowered fuel x =
      (y : D) × (lowered fuel x ≡ some y)
      × Turns x y
      × (o.less k_pi y ≡ false)
      × ((y ≡ x) ⊎ (o.less y (o.negate k_pi) ≡ false))

  lowered_lem :
      (fuel : ℕ) (x : D) → IsRoomy o → o.less k_pi (turned_down fuel x) ≡ false → Lowered fuel x
  unfolding lowered turned_down
  lowered_lem zero x roomy h = (x, rw h refl, none_yet, h, inl refl)
  lowered_lem (suc fuel) x roomy h = elim (Bool-cases (o.less k_pi x)) [
    | inr e ↦ (x, rw e refl, none_yet, e, inl refl)
    | inl e ↦
        let (y, result, turns, below, side) = lowered_lem fuel (x ⊖ turn) roomy h in
        (
          y,
          rw e result,
          then-Turns (down none_yet) turns,
          below,
          inr (elim side [ inl same ↦ rw same (roomy.above x e) | inr above ↦ above ]),
        )
  ]

  raised_lem :
      (fuel : ℕ) (x : D)
      → IsRoomy o
      → o.less k_pi x ≡ false
      → o.less (turned_up fuel x) (o.negate k_pi) ≡ false
      → (y : D) × (raised fuel x ≡ some y) × Turns x y × IsWrapped y
  unfolding raised turned_up
  raised_lem zero x roomy b h = (x, rw h refl, none_yet, (b, h))
  raised_lem (suc fuel) x roomy b h = elim (Bool-cases (o.less x (o.negate k_pi))) [
    | inr e ↦ (x, rw e refl, none_yet, (b, e))
    | inl e ↦
        let (y, result, turns, wrapped) = raised_lem fuel (x ⊕ turn) roomy (roomy.below x e) h in
        (y, rw e result, then-Turns (up none_yet) turns, wrapped)
  ]

  raised_inside : (fuel : ℕ) (x : D) → o.less x (o.negate k_pi) ≡ false → raised fuel x ≡ some x
  unfolding raised
  raised_inside zero x h = rw h refl
  raised_inside (suc fuel) x h = rw h refl

  -- With enough turns `WrapToPi` ends, at an angle between -pi and pi that differs by whole turns.
  pub wrap_to_pi_lem :
      (fuel : ℕ) (x : D)
      → IsRoomy o
      → IsEnough fuel x
      → (y : D) × (wrap_to_pi fuel x ≡ some y) × Turns x y × IsWrapped y
  unfolding wrap_to_pi
  wrap_to_pi_lem fuel x roomy enough =
      let (y, result, turns, not_above, side) = lowered_lem fuel x roomy enough.not_above in
      elim side [
        | inr inside ↦ (y, rw result (raised_inside fuel y inside), turns, (not_above, inside))
        | inl same ↦
            let rest =
              raised_lem fuel y roomy not_above
                (ap (λ w. o.less (turned_up fuel w) (o.negate k_pi)) same ∙ enough.not_below) in
            (rest.0, rw result rest.1, then-Turns turns rest.2, rest.3)
      ]

module _ {D : Type 0} ⦃o : Double D⦄ (r : IsExact o) where
  -- Adding the way from `p` to `a` to an angle that is whole turns from `p`.
  moved-Turns : {u p : D} (a : D) → Turns u p → Turns a (u ⊕ (a ⊖ p))
  moved-Turns {u} a none_yet = subst (Turns a) (sym (plus-minus_self r u a)) none_yet
  moved-Turns {u} a (up {y = y} q) =
      subst (Turns a) (sym (ap (◌⊕◌ u) (minus-plus r a y turn) ∙ plus-minus r u (a ⊖ y) turn))
        (down (moved-Turns a q))
  moved-Turns {u} a (down {y = y} q) =
      subst (Turns a)
        (sym (ap (◌⊕◌ u) (minus-minus r a y turn) ∙ sym (r.plus_assoc u (a ⊖ y) turn)))
        (up (moved-Turns a q))

  pub unrolled-Turns : (u p a : D) → Turns u p → Turns a (unrolled u p a)
  unfolding unrolled
  unrolled-Turns u p a q =
      let moved = moved-Turns a q in
      elim (Bool-cases (o.less_eq (o.fabs (a ⊖ p)) o.m_pi)) [
        | inl near ↦ rw near moved
        | inr far ↦ elim (Bool-cases (o.less 𝟘 (a ⊖ p))) [
          | inl over ↦
              rw (far, over)
                (subst (Turns a)
                  (sym (minus-minus r u turn (a ⊖ p) ∙ minus-plus_comm r u turn (a ⊖ p)))
                  (down moved))
          | inr under ↦
              rw (far, under)
                (subst (Turns a)
                  (sym (ap (◌⊕◌ u) (r.plus_comm turn (a ⊖ p)) ∙ sym (r.plus_assoc u (a ⊖ p) turn)))
                  (up moved))
        ]
      ]

module _ {D : Type 0} ⦃o : Double D⦄ where
  lowered-stuck : (fuel : ℕ) (x : D) → o.less k_pi x ≡ true → x ⊖ turn ≡ x → lowered fuel x ≡ none
  unfolding lowered
  lowered-stuck zero x above same = rw above refl
  lowered-stuck (suc fuel) x above same =
      rw above (ap (lowered fuel) same ∙ lowered-stuck fuel x above same)

  -- An angle above pi that a turn less does not change, as an infinite one or one too large for its
  -- `double`, never leaves the loop of `WrapToPi`: no number of turns gives a result.
  pub wrap_to_pi_stalls :
      (fuel : ℕ) (x : D) → o.less k_pi x ≡ true → x ⊖ turn ≡ x → wrap_to_pi fuel x ≡ none
  unfolding wrap_to_pi
  wrap_to_pi_stalls fuel x above same = rw (lowered-stuck fuel x above same) refl
