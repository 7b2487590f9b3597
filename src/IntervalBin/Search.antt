-- ===== src/IntervalBin/Search.antt =====
-- The search for the nearest bin.
use general_tools.Common.{
  ℕ, zero, suc, ◌+◌, ◌-◌, ◌≤◌, ◌<◌, ◌≡◌, refl, ap, ap₂, ◌∙◌, List, [], ◌∷◌, if◌then◌else◌, ltb,
  ◌==◌, get_or, length, arith, Bool-cases, inl, inr,
}
use general_tools.Common.Double.{Double}
use general_tools.IntervalBin.{
  interval_bins, distance, distance_left, search_left, search_right, nearest_index,
  nearest_interval_bin, base_ten_digits, ten_to_the,
}

get_or-default :
    {A : Type 0} (xs : List A) (i : ℕ) (b c : A) → i < length xs → get_or xs i b ≡ get_or xs i c
get_or-default [] i b c h = absurd (omega (arith, h))
get_or-default (x ∷ xs) zero b c h = refl
get_or-default (x ∷ xs) (suc i) b c h = get_or-default xs i b c (omega (arith, h))

module _ {D : Type 0} (o : Double D) (b c x : D) where
  distance-inside : (i : ℕ) → i < 10 → distance o b x i ≡ distance o c x i
  distance-inside i h = ap (λ d. o.fabs (o.minus x d)) (get_or-default (interval_bins o) i b c h)

  search_left-inside :
      (i : ℕ) (diff diff_left : D)
      → i < 10
      → search_left o b x i diff diff_left ≡ search_left o c x i diff diff_left
  unfolding search_left
  search_left-inside zero diff diff_left h = refl
  search_left-inside (suc zero) diff diff_left h = refl
  search_left-inside (suc (suc i)) diff diff_left h =
      ap (λ d. if o.less diff_left diff then search_left o b x (suc i) diff_left d else suc (suc i))
        (distance-inside i (omega (arith, h)))
      ∙ ap (λ n. if o.less diff_left diff then n else suc (suc i))
          (search_left-inside (suc i) diff_left (distance o c x i) (omega (arith, h)))

  search_right-inside :
      (n i : ℕ) (diff diff_right : D)
      → i + n ≡ 9
      → search_right o b x n i diff diff_right ≡ search_right o c x n i diff diff_right
  unfolding search_right
  search_right-inside zero i diff diff_right h = refl
  search_right-inside (suc zero) i diff diff_right h = refl
  search_right-inside (suc (suc n)) i diff diff_right h =
      ap
        (λ d. if o.less diff_right diff then search_right o b x (suc n) (suc i) diff_right d else i)
        (distance-inside (suc (suc i)) (omega (arith, h)))
      ∙ ap (λ m. if o.less diff_right diff then m else i)
          (search_right-inside (suc n) (suc i) diff_right (distance o c x (suc (suc i)))
            (omega (arith, h)))

module _ {D : Type 0} (o : Double D) (b x : D) where
  search_left-le : (i : ℕ) (diff diff_left : D) → search_left o b x i diff diff_left ≤ i
  unfolding search_left
  search_left-le zero diff diff_left = omega arith
  search_left-le (suc i) diff diff_left =
      ground (arith, search_left-le i diff_left (distance_left o b x i))

  search_right-le : (n i : ℕ) (diff diff_right : D) → search_right o b x n i diff diff_right ≤ i + n
  unfolding search_right
  search_right-le zero i diff diff_right = omega arith
  search_right-le (suc n) i diff diff_right =
      ground (arith, search_right-le n (suc i) diff_right (distance o b x (suc (suc i))))

-- The choice of the direction, with the two searches.
abbrev choose : {D : Type 0} → Double D → D → D → D → (D → D → ℕ) → (D → D → ℕ) → ℕ → ℕ
choose o d dl dr left right index =
    if o.less dl d then left d dl else if o.less dr d then right d dr else index

nearest_index-lt :
    {D : Type 0} (o : Double D) (b x : D) (index : ℕ) → index < 10 → nearest_index o b x index < 10
unfolding nearest_index
nearest_index-lt o b x index h =
    let diff = distance o b x index in
    let left =
      search_left-le o b x index diff
        (if ltb 0 index then distance_left o b x index else o.greatest) in
    let right =
      search_right-le o b x (9 - index) index diff
        (if ltb index 9 then distance o b x (suc index) else o.greatest) in
    ground (arith, left, right, h)

distance_left-inside :
    {D : Type 0} (o : Double D) (b c x : D) (index : ℕ)
    → index < 10
    → (if ltb 0 index then distance_left o b x index else o.greatest)
      ≡ (if ltb 0 index then distance_left o c x index else o.greatest)
distance_left-inside o b c x zero h = refl
distance_left-inside o b c x (suc index) h =
    ap (λ d. if ltb 0 (suc index) then d else o.greatest)
      (distance-inside o b c x index (omega (arith, h)))

distance_right-inside :
    {D : Type 0} (o : Double D) (b c x : D) (index : ℕ)
    → (if ltb index 9 then distance o b x (suc index) else o.greatest)
      ≡ (if ltb index 9 then distance o c x (suc index) else o.greatest)
distance_right-inside o b c x index = elim (Bool-cases (ltb index 9)) [
  | inl inside ↦ rw inside (distance-inside o b c x (suc index) (ground (arith, inside)))
  | inr end ↦ rw end refl
]

nearest_index-inside :
    {D : Type 0} (o : Double D) (b c x : D) (index : ℕ)
    → index < 10
    → nearest_index o b x index ≡ nearest_index o c x index
unfolding nearest_index
nearest_index-inside o b c x index h =
    let dl = if ltb 0 index then distance_left o c x index else o.greatest in
    let dr = if ltb index 9 then distance o c x (suc index) else o.greatest in
    ap
      (λ d.
        choose o d (if ltb 0 index then distance_left o b x index else o.greatest)
          (if ltb index 9 then distance o b x (suc index) else o.greatest) (search_left o b x index)
          (search_right o b x (9 - index) index) index)
      (distance-inside o b c x index h)
    ∙ ap
        (λ d.
          choose o (distance o c x index) d
            (if ltb index 9 then distance o b x (suc index) else o.greatest)
            (search_left o b x index) (search_right o b x (9 - index) index) index)
        (distance_left-inside o b c x index h)
    ∙ ap
        (λ d.
          choose o (distance o c x index) dl d (search_left o b x index)
            (search_right o b x (9 - index) index) index)
        (distance_right-inside o b c x index)
    ∙ ap₂
        (λ l r.
          if o.less dl (distance o c x index)
          then l
          else if o.less dr (distance o c x index)
          then r
          else index)
        (search_left-inside o b c x index (distance o c x index) dl h)
        (search_right-inside o b c x (9 - index) index (distance o c x index) dr (omega (arith, h)))

-- The search keeps inside the table: from an index of the table it comes to an index of the table,
-- and the result does not depend on what lies beyond the table, though the loops read one entry there.
pub nearest_interval_bin-inside :
    {D : Type 0} (o : Double D) (clz : ℕ → ℕ) (to_uint64 : D → ℕ) (b c : D) (interval index : ℕ)
    → index < 10
    → (nearest_interval_bin o clz to_uint64 b interval index
        ≡ nearest_interval_bin o clz to_uint64 c interval index)
      × ((nearest_interval_bin o clz to_uint64 b interval index).1 < 10)
unfolding nearest_interval_bin
nearest_interval_bin-inside o clz to_uint64 b c interval index h =
    let exp = get_or ten_to_the (base_ten_digits clz interval - 1) 0 in
    let x = o.divide (o.of_nat interval) (o.of_nat exp) in
    let same = nearest_index-inside o b c x index h in
    let bound = nearest_index-lt o b x index h in
    (
      ap
            (λ i.
              if interval == 0
              then (0, index)
              else (to_uint64 (o.times (get_or (interval_bins o) i b) (o.of_nat exp)), i))
            same
          ∙ ap
              (λ v.
                if interval == 0
                then (0, index)
                else (to_uint64 (o.times v (o.of_nat exp)), nearest_index o c x index))
              (get_or-default (interval_bins o) (nearest_index o c x index) b c
                (omega (arith, bound, same))),
      ground (arith, bound, h),
    )
