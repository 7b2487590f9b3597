-- ===== src/IntervalBin.antt =====
-- a17/utils/nearest_interval_bin.cpp: the number of decimal digits of an interval, and the bin that is
-- nearest to it. `__builtin_clz` is the parameter `clz`. The two loops of the search read one entry
-- beyond the end of the table that they reach: what is there is the argument `beyond`.
pub mod Digits
pub mod Search
mod Tests
use general_tools.Common.{
  ℕ, zero, suc, ◌+◌, ◌-◌, ◌*◌, ◌/◌, ◌%◌, ◌^◌, ◌<◌, Bool, true, false, List, [], ◌∷◌, map,
  if◌then◌else◌, ltb, leb, ◌==◌, get_or,
}
use general_tools.Common.Double.{Double}

-- `kTenToThe`; the last entry is `UINT64_MAX`.
abbrev pub ten_to_the : List ℕ
ten_to_the =
    1 ∷ 10 ∷ 100 ∷ 1000 ∷ 10000 ∷ 100000 ∷ 1000000 ∷ 10000000 ∷ 100000000 ∷ 1000000000 ∷ 10000000000
    ∷ 100000000000 ∷ 1000000000000 ∷ 10000000000000 ∷ 100000000000000 ∷ 1000000000000000
    ∷ 10000000000000000 ∷ 100000000000000000 ∷ 1000000000000000000 ∷ 18446744073709551615 ∷ []

abbrev pub guess : List ℕ
guess =
    0 ∷ 0 ∷ 0 ∷ 0 ∷ 1 ∷ 1 ∷ 1 ∷ 2 ∷ 2 ∷ 2 ∷ 3 ∷ 3 ∷ 3 ∷ 3 ∷ 4 ∷ 4 ∷ 4 ∷ 5 ∷ 5 ∷ 5 ∷ 6 ∷ 6 ∷ 6 ∷ 6
    ∷ 7 ∷ 7 ∷ 7 ∷ 8 ∷ 8 ∷ 8 ∷ 9 ∷ 9 ∷ 9 ∷ 9 ∷ 10 ∷ 10 ∷ 10 ∷ 11 ∷ 11 ∷ 11 ∷ 12 ∷ 12 ∷ 12 ∷ 12 ∷ 13
    ∷ 13 ∷ 13 ∷ 14 ∷ 14 ∷ 14 ∷ 15 ∷ 15 ∷ 15 ∷ 15 ∷ 16 ∷ 16 ∷ 16 ∷ 17 ∷ 17 ∷ 17 ∷ 18 ∷ 18 ∷ 18 ∷ 18
    ∷ 19 ∷ []

module _ (clz : ℕ → ℕ) where
  unfoldable pub base_two_digits : ℕ → ℕ
  base_two_digits x =
      let hi = x / 2 ^ 32 in
      let lo = x % 2 ^ 32 in if hi == 0 then if lo == 0 then 0 else 32 - clz lo else 64 - clz hi

  unfoldable pub base_ten_digits : ℕ → ℕ
  unfolding base_two_digits
  base_ten_digits x =
      let digits = get_or guess (base_two_digits x) 0 in
      digits + (if leb (get_or ten_to_the digits 0) x then 1 else 0)

module _ {D : Type 0} (o : Double D) where
  -- `kIntervalBins`.
  abbrev pub interval_bins : List D
  interval_bins =
      o.of_nat 1
      ∷ o.divide (o.of_nat 1) (o.ratio 75 100)
      ∷ o.divide (o.of_nat 1) (o.ratio 6 10)
      ∷ o.of_nat 2
      ∷ o.ratio 5 2
      ∷ o.of_nat 3
      ∷ o.of_nat 4
      ∷ o.of_nat 5
      ∷ o.divide (o.of_nat 1) (o.ratio 15 100)
      ∷ o.of_nat 10
      ∷ []

  -- `std::fabs(x - kIntervalBins[i])`.
  abbrev pub distance : D → D → ℕ → D
  distance beyond x i = o.fabs (o.minus x (get_or interval_bins i beyond))

  -- The same for `kIntervalBins[index - 1]`.
  abbrev pub distance_left : D → D → ℕ → D
  distance_left beyond x zero = o.fabs (o.minus x beyond)
  distance_left beyond x (suc i) = distance beyond x i

  -- The loop to the left.
  unfoldable pub search_left : D → D → ℕ → D → D → ℕ
  search_left beyond x zero diff diff_left = 0
  search_left beyond x (suc i) diff diff_left =
      let further = search_left beyond x i diff_left (distance_left beyond x i) in
      if o.less diff_left diff then further else suc i

  -- The loop to the right, with the number of bins to the right of `i`.
  unfoldable pub search_right : D → D → ℕ → ℕ → D → D → ℕ
  search_right beyond x zero i diff diff_right = i
  search_right beyond x (suc n) i diff diff_right =
      let further = search_right beyond x n (suc i) diff_right (distance beyond x (suc (suc i))) in
      if o.less diff_right diff then further else i

  -- The index of the bin for `x`, from the previous one.
  unfoldable pub nearest_index : D → D → ℕ → ℕ
  unfolding search_left search_right
  nearest_index beyond x index =
      let diff = distance beyond x index in
      let diff_left = if ltb 0 index then distance_left beyond x index else o.greatest in
      let diff_right = if ltb index 9 then distance beyond x (suc index) else o.greatest in
      if o.less diff_left diff
      then search_left beyond x index diff diff_left
      else if o.less diff_right diff
      then search_right beyond x (9 - index) index diff diff_right
      else index

  -- `NearestIntervalBin`: the bin and the new index; `to_uint64` is the conversion of the result.
  unfoldable pub nearest_interval_bin : (ℕ → ℕ) → (D → ℕ) → D → ℕ → ℕ → ℕ × ℕ
  unfolding base_ten_digits nearest_index
  nearest_interval_bin clz to_uint64 beyond interval index =
      let exp = get_or ten_to_the (base_ten_digits clz interval - 1) 0 in
      let index' = nearest_index beyond (o.divide (o.of_nat interval) (o.of_nat exp)) index in
      if interval == 0
      then (0, index)
      else (to_uint64 (o.times (get_or interval_bins index' beyond) (o.of_nat exp)), index')
