-- ===== src/IntervalBin/Digits.antt =====
-- The number of decimal digits.
use native.Mathlib.Nat.{pow-succ'}
use general_tools.Common.{
  ℕ, zero, suc, ◌+◌, ◌-◌, ◌*◌, ◌/◌, ◌%◌, ◌^◌, ◌≤◌, ◌<◌, ◌≡◌, refl, sym, subst, Bool, true, ◌&&◌,
  if◌then◌else◌, ltb, leb, ◌==◌, get_or, arith, Bool-cases, inl, inr,
}
use general_tools.IntervalBin.{ten_to_the, guess, base_two_digits, base_ten_digits}

-- What the two tables promise for numbers of `k + 1` bits, below the last entry.
abbrev sound_at : ℕ → Bool
sound_at k =
    let g = get_or guess (k + 1) 0 in
    leb (10 ^ (g - 1)) (2 ^ k)
    && (leb (2 ^ (k + 1)) (10 ^ (g + 1)) && get_or ten_to_the g 0 == 10 ^ g)

abbrev up_to : (ℕ → Bool) → ℕ → Bool
up_to p zero = true
up_to p (suc n) = p n && up_to p n

up_to_at : (p : ℕ → Bool) (n k : ℕ) → up_to p n ≡ true → k < n → p k ≡ true
up_to_at p zero k e h = absurd (omega (arith, h))
up_to_at p (suc n) k e h = elim (Bool-cases (k == n)) [
  | inl last ↦ ground (arith, last, e)
  | inr other ↦ up_to_at p n k (ground (arith, e)) (ground (arith, h, other))
]

tables_sound : up_to sound_at 63 ≡ true
tables_sound = refl

HasDigits : ℕ → ℕ → Type 0
HasDigits d x = (10 ^ (d - 1) ≤ x) × (x < 10 ^ d)

from_guess :
    (g t x : ℕ)
    → t ≡ 10 ^ g
    → 10 ^ (g - 1) ≤ x
    → x < 10 ^ (g + 1)
    → HasDigits (g + (if leb t x then 1 else 0)) x
unfolding HasDigits
from_guess g t x e low high = elim (Bool-cases (leb t x)) [
  | inl reached ↦
      let one_less : g + 1 - 1 ≡ g = omega arith in
      rw (reached, one_less) (ground (arith, reached, e), high)
  | inr below ↦
      let none_more : g + 0 ≡ g = omega arith in
      rw (below, none_more) (low, ground (arith, below, e))
]

digits_last :
    (x : ℕ)
    → 2 ^ 63 ≤ x
    → x < 10 ^ 19
    → HasDigits (19 + (if leb 18446744073709551615 x then 1 else 0)) x
unfolding HasDigits
digits_last x low small = ground arith

-- A number of `k + 1` bits has the digits that the tables give.
digits_at :
    (k x : ℕ)
    → k < 64
    → 2 ^ k ≤ x
    → x < 2 ^ (k + 1)
    → x < 10 ^ 19
    → let g = get_or guess (k + 1) 0 in
      HasDigits (g + (if leb (get_or ten_to_the g 0) x then 1 else 0)) x
digits_at k x h low high small = elim (Bool-cases (ltb k 63)) [
  | inl table ↦
      let sound = up_to_at sound_at 63 k tables_sound (ground (arith, table)) in
      let g = get_or guess (k + 1) 0 in
      let parts : (10 ^ (g - 1) ≤ 2 ^ k)
          × (2 ^ (k + 1) ≤ 10 ^ (g + 1))
          × (get_or ten_to_the g 0 ≡ 10 ^ g) =
        ground (arith, sound) in
      from_guess g (get_or ten_to_the g 0) x parts.2 (omega (arith, parts, low))
        (omega (arith, parts, high))
  | inr last ↦
      let e : k ≡ 63 = ground (arith, last, h) in
      subst
        (λ k.
          HasDigits
            (get_or guess (k + 1) 0
              + (if leb (get_or ten_to_the (get_or guess (k + 1) 0) 0) x then 1 else 0))
            x)
        (sym e) (digits_last x (subst (λ k. 2 ^ k ≤ x) e low) small)
]

pow_next : (n : ℕ) → 2 ^ (n + 1) ≡ 2 * 2 ^ n
pow_next n = let e : n + 1 ≡ suc n = omega arith in rw e (pow-succ' 2 n)

pow_shift : (n : ℕ) → 2 ^ (n + 32) ≡ 2 ^ n * 2 ^ 32
pow_shift zero = refl
pow_shift (suc n) =
    let e : suc n + 32 ≡ suc (n + 32) = omega arith in
    rw e (omega (arith, pow_shift n, pow-succ' 2 (n + 32), pow-succ' 2 n))

module _ (clz : ℕ → ℕ)
    (counts : (v : ℕ)
      → 0 < v
      → v < 2 ^ 32
      → (clz v < 32) × (2 ^ (31 - clz v) ≤ v) × (v < 2 ^ (32 - clz v))) where
  two_digits_low :
      (x : ℕ) → 0 < x → x < 2 ^ 32 → (base_two_digits clz x ≡ 31 - clz x + 1) × (31 - clz x < 64)
  unfolding base_two_digits
  two_digits_low x some_bit small =
      let none_above : x / 2 ^ 32 ≡ 0 = omega (arith, small) in
      let all_below : x % 2 ^ 32 ≡ x = omega (arith, small) in
      let c = counts x some_bit small in ground (arith, none_above, all_below, c, some_bit)

  two_digits_high :
      (x : ℕ)
      → 2 ^ 32 ≤ x
      → x < 2 ^ 64
      → let hi = x / 2 ^ 32 in
        (base_two_digits clz x ≡ 31 - clz hi + 32 + 1)
        × (31 - clz hi + 32 < 64)
        × (2 ^ (31 - clz hi + 32) ≤ x)
        × (x < 2 ^ (31 - clz hi + 32 + 1))
  unfolding base_two_digits
  two_digits_high x big small =
      let hi = x / 2 ^ 32 in
      let positive : 0 < hi = omega (arith, big) in
      let c = counts hi positive (omega (arith, small)) in
      let bits : 32 - clz hi ≡ 31 - clz hi + 1 = omega (arith, c.0) in
      let shifted = pow_shift (31 - clz hi) in
      let more = pow_next (31 - clz hi) in
      let most = pow_next (31 - clz hi + 32) in
      let top : hi < 2 ^ (31 - clz hi + 1) = subst (λ n. hi < 2 ^ n) bits c.2 in
      (
        ground (arith, positive, c.0),
        omega (arith, c.0),
        omega (arith, shifted, c.1),
        omega (arith, shifted, more, most, top),
      )

-- The number of decimal digits is right for every interval below ten to the 19, which is more than
-- 300 years in nanoseconds: where `__builtin_clz` counts the leading zero bits, the result is the `d`
-- with `10 ^ (d - 1) <= x < 10 ^ d`.
pub base_ten_digits_lem :
    (clz : ℕ → ℕ) (x : ℕ)
    → ((v : ℕ)
        → 0 < v
        → v < 2 ^ 32
        → (clz v < 32) × (2 ^ (31 - clz v) ≤ v) × (v < 2 ^ (32 - clz v)))
    → 0 < x
    → x < 10 ^ 19
    → let d = base_ten_digits clz x in (10 ^ (d - 1) ≤ x) × (x < 10 ^ d)
unfolding base_ten_digits HasDigits
base_ten_digits_lem clz x counts positive small = elim (Bool-cases (ltb x (2 ^ 32))) [
  | inl low ↦
      let fits : x < 2 ^ 32 = ground (arith, low) in
      let (eq, le) = two_digits_low clz counts x positive fits in
      let c = counts x positive fits in
      let bits : 32 - clz x ≡ 31 - clz x + 1 = omega (arith, c.0) in
      rw eq (digits_at (31 - clz x) x le c.1 (subst (λ n. x < 2 ^ n) bits c.2) small)
  | inr high ↦
      let facts = two_digits_high clz counts x (ground (arith, high)) (omega (arith, small)) in
      rw facts.0 (digits_at (31 - clz (x / 2 ^ 32) + 32) x facts.1 facts.2 facts.3 small)
]
