-- ===== src/Pid/Limits.antt =====
-- The limits of a controller.
use general_tools.Common.{
  ◌>>=◌, ℕ, ◌≡◌, refl, true, false, Option, some, if◌then◌else◌, arith, All, Option-cases, is_some,
  inl, inr, List, [], ◌∷◌,
}
use general_tools.Common.Double.{Double, IsStrict, min_of, max_of}
use general_tools.Pid.{
  Pid, linear, is_angular, clip, limited, handle_angular_discontinuity, compute_p, compute_later,
  compute, restart_controller,
}

-- A value is not below and not above two limits.
abbrev pub Within : {D : Type 0} → Double D → D → D → D → Type 0
Within o low high x = (o.less x low ≡ false) × (o.less high x ≡ false)

module _ {D : Type 0} (o : Double D) (strict : IsStrict o) where
  irreflexive : (x : D) → o.less x x ≡ false
  irreflexive x = ground (arith, strict.asymmetric x x)

  clip-Within :
      (value limit clipped : D)
      → o.less limit (o.negate limit) ≡ false
      → clip o value limit ≡ some clipped
      → Within o (o.negate limit) limit clipped
  unfolding clip
  clip-Within value limit clipped low done = ground (
    arith,
    strict.asymmetric (max_of o (o.negate limit) value) limit,
    strict.asymmetric (o.negate limit) value,
    irreflexive limit,
    irreflexive (o.negate limit),
  )

  limited-Within :
      (p : Pid D) (output : D)
      → o.less p.max_output p.min_output ≡ false
      → Within o p.min_output p.max_output (limited o p output)
  unfolding limited
  limited-Within p output ordered = ground (
    arith,
    irreflexive p.max_output,
    irreflexive p.min_output,
    strict.asymmetric p.min_output (min_of o output p.max_output),
  )

  compute_later-Within :
      (elapsed_secs : ℕ → ℕ → D) (fuel : ℕ) (p : Pid D) (now : ℕ) (reference signal : D)
      (p' : Pid D) (output : D)
      → o.less p.max_output p.min_output ≡ false
      → o.less p.integral_error_limit (o.negate p.integral_error_limit) ≡ false
      → compute_later o elapsed_secs fuel p now reference signal ≡ some (p', output)
      → Within o p.min_output p.max_output output
        × Within o (o.negate p.integral_error_limit) p.integral_error_limit p'.integral_error
        × (p'.max_output ≡ p.max_output)
        × (p'.min_output ≡ p.min_output)
        × (p'.integral_error_limit ≡ p.integral_error_limit)
        × (p'.first_sample_computed ≡ p.first_sample_computed)
        × (p'.kind ≡ p.kind)
  unfolding compute_later
  compute_later-Within elapsed_secs fuel p now reference signal p' output ordered low done =
      let difference = o.minus reference signal in
      elim (Option-cases (
        if is_angular p.kind
        then handle_angular_discontinuity o fuel p difference
        else some difference)) [
          | inl no_error ↦ absurd (ground (arith, no_error, done))
          | inr (error, wrapped) ↦
              let sum =
                o.plus (o.times p.integral_error p.antiwindup_damping)
                  (o.times error (elapsed_secs p.last_timepoint now)) in
              elim (Option-cases (clip o sum p.integral_error_limit)) [
                | inl failed ↦ absurd (ground (arith, wrapped, failed, done))
                | inr (integral, clipped) ↦
                    let derivative =
                      if o.less (o.of_nat 0) (elapsed_secs p.last_timepoint now)
                      then o.divide (o.minus error p.last_error) (elapsed_secs p.last_timepoint now)
                      else o.of_nat 0 in
                    let limits =
                      limited-Within p
                        (o.plus (o.plus (o.times p.kp error) (o.times p.ki integral))
                          (o.times p.kd derivative))
                        ordered in
                    let bounded = clip-Within sum p.integral_error_limit integral low clipped in
                    ground (arith, wrapped, clipped, done, limits, bounded)
              ]
        ]

  compute_later-linear :
      (elapsed_secs : ℕ → ℕ → D) (fuel : ℕ) (p : Pid D) (now : ℕ) (reference signal : D)
      → p.kind ≡ linear
      → o.less_eq (o.of_nat 0) p.integral_error_limit ≡ true
      → is_some (compute_later o elapsed_secs fuel p now reference signal) ≡ true
  unfolding compute_later clip
  compute_later-linear elapsed_secs fuel p now reference signal straight sound =
      ground (arith, straight, sound)

-- The time, the reference and the signal of a sample.
abbrev pub Samples : Type 0 → Type 0
Samples D = List (ℕ × D × D)

module _ {D : Type 0} (o : Double D) (elapsed_secs : ℕ → ℕ → D) (fuel : ℕ) where
  -- Samples one after another, with the outputs.
  abbrev pub run : Pid D → Samples D → Option (Pid D × List D)
  run p [] = some (p, [])
  run p ((now, reference, signal) ∷ samples) =
      compute o elapsed_secs fuel p now reference signal >>= λ r.
      run r.0 samples >>= λ s. some (s.0, r.1 ∷ s.1)

module _ {D : Type 0} (o : Double D) (strict : IsStrict o) (elapsed_secs : ℕ → ℕ → D) (fuel : ℕ)
    (min max limit : D) (ordered : o.less max min ≡ false)
    (low : o.less limit (o.negate limit) ≡ false)
    (sound : o.less_eq (o.of_nat 0) limit ≡ true) where
  -- A linear controller with these limits that has seen its first sample.
  record Running (p : Pid D) : Type 0 where
    min_eq : p.min_output ≡ min
    max_eq : p.max_output ≡ max
    limit_eq : p.integral_error_limit ≡ limit
    straight : p.kind ≡ linear
    started : p.first_sample_computed ≡ true

  -- One more sample.
  record Step (p : Pid D) (now : ℕ) (reference signal : D) : Type 0 where
    after : Pid D
    output : D
    computed : compute o elapsed_secs fuel p now reference signal ≡ some (after, output)
    running : Running after
    in_range : Within o min max output
    integral_in_range : Within o (o.negate limit) limit after.integral_error

  compute-Running :
      (p : Pid D) (now : ℕ) (reference signal : D) → Running p → Step p now reference signal
  unfolding compute
  compute-Running p now reference signal r =
      let total =
        compute_later-linear o strict elapsed_secs fuel p now reference signal r.straight
          (ground (arith, r.limit_eq, sound)) in
      elim (Option-cases (compute_later o elapsed_secs fuel p now reference signal)) [
        | inl no_result ↦ absurd (ground (arith, no_result, total))
        | inr ((p', output), done) ↦
            let facts =
              compute_later-Within o strict elapsed_secs fuel p now reference signal p' output
                (ground (arith, r.max_eq, r.min_eq, ordered)) (ground (arith, r.limit_eq, low))
                done in
            record {
              after = p';
              output = output;
              computed = ground (arith, r.started, done);
              running = record {
                min_eq = ground (arith, facts, r.min_eq);
                max_eq = ground (arith, facts, r.max_eq);
                limit_eq = ground (arith, facts, r.limit_eq);
                straight = ground (arith, facts, r.straight);
                started = ground (arith, facts, r.started);
              };
              in_range = ground (arith, facts, r.min_eq, r.max_eq);
              integral_in_range = ground (arith, facts, r.limit_eq);
            }
      ]

  run-Running :
      (p : Pid D) (samples : Samples D)
      → Running p
      → Within o (o.negate limit) limit p.integral_error
      → (p' : Pid D) × (outputs : List D) × (run o elapsed_secs fuel p samples ≡ some (p', outputs))
        × All (Within o min max) outputs
        × Within o (o.negate limit) limit p'.integral_error
  run-Running p [] r start = (p, [], refl, tt, start)
  run-Running p ((now, reference, signal) ∷ samples) r start =
      let step = compute-Running p now reference signal r in
      let (p', outputs, done, limits, integral) =
        run-Running step.after samples step.running step.integral_in_range in
      (
        p',
        step.output ∷ outputs,
        ground (arith, step.computed, done),
        (step.in_range, limits),
        integral,
      )

-- A linear controller stays within its limits: from any state after the first sample, whatever the
-- accumulated error was before and whatever the samples are, infinite or not a number included, every
-- `compute` has a result, no output is below the minimum or above the maximum, and after one sample or
-- more the accumulated error is not outside its limit. The limits have to be in order, and that of the
-- integral not negative.
pub outputs_limited :
    {D : Type 0} (o : Double D) (elapsed_secs : ℕ → ℕ → D) (fuel : ℕ) (p : Pid D)
    (sample : ℕ × D × D) (samples : Samples D)
    → IsStrict o
    → p.kind ≡ linear
    → p.first_sample_computed ≡ true
    → o.less p.max_output p.min_output ≡ false
    → o.less p.integral_error_limit (o.negate p.integral_error_limit) ≡ false
    → o.less_eq (o.of_nat 0) p.integral_error_limit ≡ true
    → (p' : Pid D) × (outputs : List D) × (run o elapsed_secs fuel p (sample ∷ samples)
        ≡ some (p', outputs))
      × All (Within o p.min_output p.max_output) outputs
      × Within o (o.negate p.integral_error_limit) p.integral_error_limit p'.integral_error
outputs_limited o elapsed_secs fuel p (now, reference, signal) samples strict straight started
      ordered low sound =
    let step =
      compute-Running o strict elapsed_secs fuel p.min_output p.max_output p.integral_error_limit
        ordered low sound p now reference signal
        (record {
          min_eq = refl;
          max_eq = refl;
          limit_eq = refl;
          straight = straight;
          started = started;
        }) in
    let (p', outputs, done, limits, integral) =
      run-Running o strict elapsed_secs fuel p.min_output p.max_output p.integral_error_limit
        ordered low sound step.after samples step.running step.integral_in_range in
    (
      p',
      step.output ∷ outputs,
      ground (arith, step.computed, done),
      (step.in_range, limits),
      integral,
    )

-- The first output is not limited: it is the proportional part, whatever the limits are.
pub first_sample_not_limited :
    {D : Type 0} (o : Double D) (elapsed_secs : ℕ → ℕ → D) (fuel : ℕ) (p : Pid D) (now : ℕ)
    (reference signal : D)
    → p.kind ≡ linear
    → (p' : Pid D) × (compute o elapsed_secs fuel (restart_controller o p now) now reference signal
        ≡ some (p', o.times p.kp (o.minus reference signal)))
unfolding compute compute_p restart_controller
first_sample_not_limited o elapsed_secs fuel p now reference signal straight = (
  record p {
    first_sample_computed = true;
    integral_error = o.of_nat 0;
    last_error = o.minus reference signal;
    last_timepoint = now;
  },
  ground (arith, straight),
)
