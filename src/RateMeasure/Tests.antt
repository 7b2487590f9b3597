-- ===== src/RateMeasure/Tests.antt =====
-- A measure at its second sample.
use general_tools.Common.{
  ℕ, ◌+◌, ◌-◌, ◌*◌, ◌/◌, ◌≡◌, refl, some, none, [], ◌∷◌, ltb, leb, ◌==◌, arith,
}
use general_tools.Common.Double.{Double}
use general_tools.RateMeasure.{RateMeasure, init, reset, mark_size, is_at_window}
use general_tools.RateMeasure.Window.{IsValid, mark_size-IsValid}

-- Numbers with a difference that stops at 0.
abbrev whole : Double ℕ
whole = record {
  of_nat = λ n. n;
  ratio = λ n d. n / d;
  plus = ◌+◌;
  minus = ◌-◌;
  times = ◌*◌;
  divide = ◌/◌;
  negate = λ n. 0;
  fabs = λ n. n;
  less = ltb;
  less_eq = leb;
  equal = ◌==◌;
  lowest = 0;
  greatest = 1000;
  m_pi = 3;
}

abbrev running : RateMeasure
unfolding init
running = record (init 2000) {
  last_time = 50;
  intervals = 700 ∷ [];
  jitters = 1 ∷ [];
  sizes = 4 ∷ [];
  interval_acc = 700;
  size_acc = 4;
}

running-IsValid : IsValid running
unfolding running
running-IsValid = record {
  window_lt = omega arith;
  acc_eq = refl;
  acc_le = omega arith;
  size_eq = refl;
  jitters_length = refl;
  sizes_length = refl;
}

-- A target longer than the window, and a reset, which keeps the intervals.
edges_run :
    (is_at_window (record running { target_interval = 5000 }) ≡ none)
    × ((reset running).intervals ≡ 700 ∷ [])
unfolding is_at_window reset running
edges_run = (refl, refl)

mark_size-IsValid_example :
    (r' : RateMeasure) × (mark_size whole (λ n. n) (λ n. n) (λ a i. (a, i)) running 8 1550
      ≡ some r')
    × IsValid r'
    × (r'.last_time ≡ 1550)
unfolding running
mark_size-IsValid_example =
    mark_size-IsValid whole (λ n. n) (λ n. n) (λ a i. (a, i)) running 8 1550 running-IsValid
      (omega arith) (omega arith) (omega arith) (omega arith)
