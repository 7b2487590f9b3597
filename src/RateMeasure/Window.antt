-- ===== src/RateMeasure/Window.antt =====
-- The window of a measure.
use general_tools.Common.{
  ℕ, ◌+◌, ◌-◌, ◌%◌, ◌^◌, ◌≤◌, ◌<◌, ◌≡◌, ◌≢◌, refl, ap, sym, ◌∙◌, some, List, [], ◌∷◌, ◌++◌, ltb,
  length, length-append, arith, Bool-cases, inl, inr,
}
use general_tools.Common.Double.{Double}
use general_tools.RateMeasure.{
  RateMeasure, sub64, greater64, shrink, trim, update_target, update_jitter, update_size, mark_size,
}

abbrev pub sum : List ℕ → ℕ
sum [] = 0
sum (x ∷ xs) = x + sum xs

sum-append : (xs : List ℕ) (x : ℕ) → sum (xs ++ x ∷ []) ≡ sum xs + x
sum-append [] x = omega arith
sum-append (y ∷ xs) x = omega (arith, sum-append xs x)

-- The accumulated values are those of the queues, the intervals fit the window, and the queues are
-- equally long.
pub record IsValid (r : RateMeasure) : Type 0 where
  pub window_lt : r.sample_window < 2 ^ 62
  pub acc_eq : r.interval_acc ≡ sum r.intervals
  pub acc_le : r.interval_acc ≤ r.sample_window
  pub size_eq : r.size_acc ≡ sum r.sizes % 2 ^ 64
  pub jitters_length : length r.jitters ≡ length r.intervals
  pub sizes_length : length r.sizes ≡ length r.intervals

shrink-sum :
    (window : ℕ) (is : List ℕ) (acc : ℕ)
    → window < 2 ^ 62
    → acc ≡ sum is
    → acc < 2 ^ 63
    → (is' : List ℕ) × (acc' : ℕ) × (shrink window is acc ≡ some (is', acc'))
      × (acc' ≡ sum is')
      × (acc' ≤ window)
      × (length is' ≤ length is)
unfolding shrink
shrink-sum window [] acc w e h = ([], acc, ground (arith, e), e, omega (arith, e), omega arith)
shrink-sum window (i ∷ is) acc w e h = elim (Bool-cases (greater64 acc window)) [
  | inl over ↦
      let (is', acc', done, sums, fits, shorter) =
        shrink-sum window is (sub64 acc i) w (omega (arith, e, h)) (omega (arith, e, h)) in
      (is', acc', ground (arith, over, done), sums, fits, omega (arith, shorter))
  | inr inside ↦ (i ∷ is, acc, ground (arith, inside), e, ground (arith, inside, h, w), omega arith)
]

trim-length :
    (count : ℕ) (xs : List ℕ) (acc : ℕ) → count ≤ length xs → length (trim count xs acc).0 ≡ count
unfolding trim
trim-length count [] acc h = omega (arith, h)
trim-length count (x ∷ xs) acc h = elim (Bool-cases (ltb count (length xs + 1))) [
  | inl over ↦ rw over (trim-length count xs (sub64 acc x) (ground (arith, over)))
  | inr inside ↦ rw inside (ground (arith, inside, h))
]

trim-sum :
    (count : ℕ) (xs : List ℕ) (acc : ℕ)
    → acc ≡ sum xs % 2 ^ 64
    → (trim count xs acc).1 ≡ sum (trim count xs acc).0 % 2 ^ 64
unfolding trim
trim-sum count [] acc e = e
trim-sum count (x ∷ xs) acc e = elim (Bool-cases (ltb count (length xs + 1))) [
  | inl over ↦ rw over (trim-sum count xs (sub64 acc x) (omega (arith, e)))
  | inr inside ↦ rw inside e
]

module _ {D : Type 0} (o : Double D) (of_int64 : ℕ → D) (to_int64 : D → ℕ)
    (nearest : ℕ → ℕ → ℕ × ℕ) where
  update_target-fields :
      (r : RateMeasure)
      → let r' = update_target o of_int64 to_int64 nearest r in
        (r'.intervals ≡ r.intervals)
        × (r'.interval_acc ≡ r.interval_acc)
        × (r'.sample_window ≡ r.sample_window)
        × (r'.jitters ≡ r.jitters)
        × (r'.sizes ≡ r.sizes)
        × (r'.size_acc ≡ r.size_acc)
  unfolding update_target
  update_target-fields r = ground arith

  update_jitter-fields :
      (r : RateMeasure) (interval : ℕ)
      → length r.intervals ≤ length r.jitters + 1
      → let r' = update_jitter o of_int64 to_int64 nearest r interval in
        (length r'.jitters ≡ length r.intervals)
        × (r'.intervals ≡ r.intervals)
        × (r'.interval_acc ≡ r.interval_acc)
        × (r'.sample_window ≡ r.sample_window)
        × (r'.sizes ≡ r.sizes)
        × (r'.size_acc ≡ r.size_acc)
  unfolding update_jitter
  update_jitter-fields r interval h = (
    trim-length (length r.intervals)
        (r.jitters ++ to_int64 (o.fabs (of_int64 (sub64 interval r.target_interval))) ∷ [])
        (to_int64
          (o.plus (of_int64 r.jitter_acc) (o.fabs (of_int64 (sub64 interval r.target_interval)))))
        (omega (
          arith,
          h,
          length-append r.jitters
              (to_int64 (o.fabs (of_int64 (sub64 interval r.target_interval))) ∷ []),
        )),
    refl,
    refl,
    refl,
    refl,
    refl,
  )

  update_size-fields :
      (r : RateMeasure) (size : ℕ)
      → length r.intervals ≤ length r.sizes + 1
      → r.size_acc ≡ sum r.sizes % 2 ^ 64
      → let r' = update_size o of_int64 to_int64 nearest r size in
        (length r'.sizes ≡ length r.intervals)
        × (r'.size_acc ≡ sum r'.sizes % 2 ^ 64)
        × (r'.intervals ≡ r.intervals)
        × (r'.interval_acc ≡ r.interval_acc)
        × (r'.sample_window ≡ r.sample_window)
        × (r'.jitters ≡ r.jitters)
  unfolding update_size
  update_size-fields r size h e = (
    trim-length (length r.intervals) (r.sizes ++ size ∷ []) ((r.size_acc + size) % 2 ^ 64)
        (omega (arith, h, length-append r.sizes (size ∷ []))),
    trim-sum (length r.intervals) (r.sizes ++ size ∷ []) ((r.size_acc + size) % 2 ^ 64)
        (omega (arith, e, sum-append r.sizes size)),
    refl,
    refl,
    refl,
    refl,
  )

-- A sample of a measure that is running keeps it well-formed: for a time that is not before the last
-- one, and less than 146 years behind it, the call returns, never reading an empty queue, and then the
-- accumulated interval and size are the sums of the queues, the intervals fit the window, and the
-- three queues are equally long; whatever the target intervals and the jitters are.
pub mark_size-IsValid :
    {D : Type 0} (o : Double D) (of_int64 : ℕ → D) (to_int64 : D → ℕ) (nearest : ℕ → ℕ → ℕ × ℕ)
    (r : RateMeasure) (size now : ℕ)
    → IsValid r
    → r.last_time ≢ 0
    → r.last_time ≤ now
    → now < 2 ^ 63
    → now - r.last_time < 2 ^ 62
    → (r' : RateMeasure) × (mark_size o of_int64 to_int64 nearest r size now ≡ some r')
      × IsValid r'
      × (r'.last_time ≡ now)
unfolding mark_size
mark_size-IsValid o of_int64 to_int64 nearest r size now v running later fits near =
    let interval = sub64 now r.last_time in
    let plain : interval ≡ now - r.last_time = omega (arith, later, fits) in
    let total = sum-append r.intervals interval in
    let (intervals, acc, done, sums, inside, shorter) =
      shrink-sum r.sample_window (r.intervals ++ interval ∷ [])
        ((r.interval_acc + interval) % 2 ^ 64) v.window_lt
        (omega (arith, v.acc_eq, v.acc_le, v.window_lt, plain, near, total))
        (omega (arith, v.acc_le, v.window_lt, plain, near)) in
    let base : RateMeasure = record r {
      ticks = (r.ticks + 1) % 2 ^ 64;
      intervals = intervals;
      interval_acc = acc;
    } in
    let timed = update_target o of_int64 to_int64 nearest base in
    let t = update_target-fields o of_int64 to_int64 nearest base in
    let grown = length-append r.intervals (interval ∷ []) in
    let j =
      update_jitter-fields o of_int64 to_int64 nearest timed interval
        (omega (arith, ap length t.0, ap length t.3, shorter, grown, v.jitters_length)) in
    let jittered = update_jitter o of_int64 to_int64 nearest timed interval in
    let s =
      update_size-fields o of_int64 to_int64 nearest jittered size
        (omega (
          arith,
          ap length j.1,
          ap length t.0,
          ap length j.4,
          ap length t.4,
          shorter,
          grown,
          v.sizes_length,
        ))
        (j.5 ∙ t.5 ∙ v.size_eq ∙ ap (λ l. sum l % 2 ^ 64) (sym t.4 ∙ sym j.4)) in
    let sized = update_size o of_int64 to_int64 nearest jittered size in
    (
      record sized { last_time = now },
      ground (arith, done, running),
      record {
        window_lt = omega (arith, s.4, j.3, t.2, v.window_lt);
        acc_eq = s.3 ∙ j.2 ∙ t.1 ∙ sums ∙ ap sum (sym t.0 ∙ sym j.1 ∙ sym s.2);
        acc_le = omega (arith, s.3, j.2, t.1, s.4, j.3, t.2, inside);
        size_eq = s.1;
        jitters_length = ap length s.5 ∙ j.0 ∙ ap length (sym j.1 ∙ sym s.2);
        sizes_length = s.0 ∙ ap length (sym s.2);
      },
      refl,
    )
