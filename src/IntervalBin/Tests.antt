-- ===== src/IntervalBin/Tests.antt =====
-- Runs of the tables of digits, and their theorem at a number.
use general_tools.Common.{
  ℕ, zero, suc, ◌-◌, ◌^◌, ◌≤◌, ◌<◌, ◌≡◌, refl, ltb, if◌then◌else◌, Bool-cases, inl, inr, arith,
}
use general_tools.IntervalBin.{base_two_digits, base_ten_digits}
use general_tools.IntervalBin.Digits.{base_ten_digits_lem}

-- The leading zeros, of at most `fuel` bits.
abbrev zeros_in : ℕ → ℕ → ℕ
zeros_in zero v = 0
zeros_in (suc fuel) v = let rest = zeros_in fuel v in if ltb v (2 ^ fuel) then suc rest else 0

abbrev clz : ℕ → ℕ
clz v = zeros_in 32 v

digits_run :
    (base_ten_digits clz 99999 ≡ 5)
    × (base_ten_digits clz 10000000000 ≡ 11)
    × (base_ten_digits clz (10 ^ 19) ≡ 19)
unfolding base_ten_digits base_two_digits
digits_run = (refl, refl, refl)

counts_step :
    (fuel v : ℕ)
    → 0 < v
    → v < 2 ^ fuel
    → (zeros_in fuel v < fuel)
      × (2 ^ (fuel - 1 - zeros_in fuel v) ≤ v)
      × (v < 2 ^ (fuel - zeros_in fuel v))
counts_step zero v some_bit small = absurd (omega (arith, some_bit, small))
counts_step (suc fuel) v some_bit small = elim (Bool-cases (ltb v (2 ^ fuel))) [
  | inl shorter ↦
      let ih = counts_step fuel v some_bit (ground (arith, shorter)) in
      let z = zeros_in fuel v in
      let low : suc fuel - 1 - suc z ≡ fuel - 1 - z = omega arith in
      let high : suc fuel - suc z ≡ fuel - z = omega arith in
      rw (shorter, low, high) (omega (arith, ih.0), ih.1, ih.2)
  | inr longer ↦
      let low : suc fuel - 1 - 0 ≡ fuel = omega arith in
      let high : suc fuel - 0 ≡ suc fuel = omega arith in
      rw (longer, low, high) (omega arith, ground (arith, longer), small)
]

base_ten_digits_lem_example :
    (10 ^ (base_ten_digits clz 99999 - 1) ≤ 99999) × (99999 < 10 ^ base_ten_digits clz 99999)
base_ten_digits_lem_example =
    base_ten_digits_lem clz 99999 (λ v positive small. counts_step 32 v positive small)
      (omega arith) (omega arith)
