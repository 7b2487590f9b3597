-- ===== src/Maths/Whole.antt =====
-- The integers as exact numbers, and as `float`s too.
use general_tools.Common.{
  ℕ, zero, suc, ◌/◌, ◌≡◌, refl, sym, ap, ◌∙◌, Bool, true, false, ◌&&◌, not, if◌then◌else◌,
}
use general_tools.Common.Double.{Double}
use mathlib.Core.Nat
use mathlib.Core.Int.{
  ℤ, pos, negsuc, suc_ℤ, pred_ℤ, ◌+ℤ◌, ◌-ℤ◌, ◌*ℤ◌, neg_ℤ, one, +ℤ_assoc, +ℤ_comm, +ℤ_idl, +ℤ_invl,
  +ℤ_invr, neg_ℤ-+ℤ, *ℤ_comm, *ℤ-one, zero-*ℤ, suc_ℤ-*ℤ, pred_ℤ-*ℤ, ℤ_ind,
}
use general_tools.Maths.Exact.{IsExact}
use general_tools.Maths.Floats.{Floats}

abbrev pub of_number : ℕ → ℤ
of_number zero = pos Nat.ℕ.zero
of_number (suc n) = suc_ℤ (of_number n)

abbrev ltb : Nat.ℕ → Nat.ℕ → Bool
ltb m Nat.ℕ.zero = false
ltb Nat.ℕ.zero (Nat.ℕ.suc n) = true
ltb (Nat.ℕ.suc m) (Nat.ℕ.suc n) = ltb m n

abbrev less : ℤ → ℤ → Bool
less (pos m) (pos n) = ltb m n
less (pos m) (negsuc n) = false
less (negsuc m) (pos n) = true
less (negsuc m) (negsuc n) = ltb n m

instance abbrev pub whole : Double ℤ
whole = record {
  of_nat = of_number;
  ratio = λ n d. of_number (n / d);
  plus = ◌+ℤ◌;
  minus = ◌-ℤ◌;
  times = ◌*ℤ◌;
  divide = λ n d. n;
  negate = neg_ℤ;
  fabs = λ n. if less n (of_number 0) then neg_ℤ n else n;
  less = less;
  less_eq = λ m n. not (less n m);
  equal = λ m n. not (less n m) && not (less m n);
  lowest = neg_ℤ (of_number 9);
  greatest = of_number 9;
  m_pi = of_number 3;
}

-- The `float`s have no numbers between two integers.
abbrev pub whole_floats : Floats whole ℤ
whole_floats = record {
  single = whole;
  narrow = λ n. n;
  widen = λ n. n;
  next_toward = λ m n. m;
  smallest = of_number 1;
}

-- A statement on the integers, from 0 by steps up and down.
by_steps :
    (P : ℤ → Type 0)
    → P (pos Nat.ℕ.zero)
    → ((k : ℤ) → P k → P (suc_ℤ k))
    → ((k : ℤ) → P k → P (pred_ℤ k))
    → (k : ℤ) → P k
by_steps P z up down k = ℤ_ind P z (λ n. up (pos n)) (λ n. down (neg_ℤ (pos n))) k

interchange : (a b c d : ℤ) → (a +ℤ b) +ℤ (c +ℤ d) ≡ (a +ℤ c) +ℤ (b +ℤ d)
interchange a b c d =
    +ℤ_assoc a b (c +ℤ d)
    ∙ ap (◌+ℤ◌ a) (sym (+ℤ_assoc b c d) ∙ ap (λ v. v +ℤ d) (+ℤ_comm b c) ∙ +ℤ_assoc c b d)
    ∙ sym (+ℤ_assoc a c (b +ℤ d))

times-plus : (k m n : ℤ) → k *ℤ (m +ℤ n) ≡ k *ℤ m +ℤ k *ℤ n
times-plus k m n =
    by_steps (λ k. k *ℤ (m +ℤ n) ≡ k *ℤ m +ℤ k *ℤ n) (simp zero-*ℤ)
      (λ k ih. simp suc_ℤ-*ℤ (ap (λ v. v +ℤ (m +ℤ n)) ih ∙ interchange (k *ℤ m) (k *ℤ n) m n))
      (λ k ih.
        simp (pred_ℤ-*ℤ, neg_ℤ-+ℤ)
          (ap (λ v. v +ℤ (neg_ℤ m +ℤ neg_ℤ n)) ih
            ∙ interchange (k *ℤ m) (k *ℤ n) (neg_ℤ m) (neg_ℤ n)))
      k

plus-times : (k m n : ℤ) → (k +ℤ m) *ℤ n ≡ k *ℤ n +ℤ m *ℤ n
plus-times k m n = rw (*ℤ_comm (k +ℤ m) n, *ℤ_comm k n, *ℤ_comm m n) (times-plus n k m)

neg-times : (k n : ℤ) → neg_ℤ k *ℤ n ≡ neg_ℤ (k *ℤ n)
neg-times k n =
    sym (+ℤ_idl (neg_ℤ k *ℤ n))
    ∙ ap (λ v. v +ℤ neg_ℤ k *ℤ n) (sym (+ℤ_invl (k *ℤ n)))
    ∙ +ℤ_assoc (neg_ℤ (k *ℤ n)) (k *ℤ n) (neg_ℤ k *ℤ n)
    ∙ ap (◌+ℤ◌ (neg_ℤ (k *ℤ n)))
        (sym (plus-times k (neg_ℤ k) n) ∙ ap (λ v. v *ℤ n) (+ℤ_invr k) ∙ zero-*ℤ n)

times_assoc : (k m n : ℤ) → (k *ℤ m) *ℤ n ≡ k *ℤ (m *ℤ n)
times_assoc k m n =
    by_steps (λ k. (k *ℤ m) *ℤ n ≡ k *ℤ (m *ℤ n)) (simp zero-*ℤ)
      (λ k ih. simp (suc_ℤ-*ℤ, plus-times) (ap (λ v. v +ℤ m *ℤ n) ih))
      (λ k ih. simp (pred_ℤ-*ℤ, plus-times, neg-times) (ap (λ v. v +ℤ neg_ℤ (m *ℤ n)) ih)) k

pub whole-IsExact : IsExact whole
whole-IsExact = record {
  plus_assoc = +ℤ_assoc;
  plus_comm = +ℤ_comm;
  zero-plus = +ℤ_idl;
  negate-plus = +ℤ_invl;
  minus-negate = λ x y. refl;
  times_assoc = times_assoc;
  times_comm = *ℤ_comm;
  one-times = λ x. *ℤ_comm (pos (Nat.ℕ.suc Nat.ℕ.zero)) x ∙ unfold one in *ℤ-one x;
  times-plus = times-plus;
}
