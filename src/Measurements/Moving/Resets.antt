-- ===== src/Measurements/Moving/Resets.antt =====
-- What Reset leaves of the samples.
use mathlib.Core.Option.{some-injective}
use go_concurrency_limits.Base.{
  Bool, true, false, ◌≡◌, refl, sym, ap, subst, ◌∙◌, none, some, List, [], ◌∷◌, Bool-cases, inl,
  inr, arith, if◌then◌else◌, ◌||◌,
}
use go_concurrency_limits.Base.Int.{ℤ, pos, ltb_ℤ}
use go_concurrency_limits.Base.Float.{Float64}
use go_concurrency_limits.Measurements.Moving.{
  SimpleExponentialMovingAverage, new_simple_exponential_moving_average, average_add, average_reset,
  SimpleMovingVariance, new_simple_moving_variance, variance_add, variance_reset, variance_update,
}

module _ (fl : Float64) where
  open fl use {F, of_int, to_int, ceil, fdiv, flt}

  -- What no method changes, from the constructor's argument.
  record IsMade (alpha : F) (m : SimpleExponentialMovingAverage fl) : Type 0 where
    initial_alpha : m.initial_alpha ≡ alpha
    min_samples : m.min_samples ≡ to_int (ceil (fdiv (of_int (pos 1)) alpha))

  add-IsMade :
      (value alpha : F) (m : SimpleExponentialMovingAverage fl)
      → IsMade alpha m
      → IsMade alpha (average_add fl value m)
  unfolding average_add
  add-IsMade value alpha m k = record {
    initial_alpha = k.initial_alpha;
    min_samples = k.min_samples;
  }

  -- The average without samples, by its alpha and its number of samples.
  abbrev fresh : F → ℤ → SimpleExponentialMovingAverage fl
  fresh alpha n = record {
    alpha = alpha;
    initial_alpha = alpha;
    min_samples = n;
    seen_samples = pos 0;
    value = of_int (pos 0);
  }

  new-fresh :
      (alpha : F) (m : SimpleExponentialMovingAverage fl)
      → new_simple_exponential_moving_average fl alpha ≡ some m
      → fresh alpha (to_int (ceil (fdiv (of_int (pos 1)) alpha))) ≡ m
  unfolding new_simple_exponential_moving_average
  new-fresh alpha m e = made (flt alpha (of_int (pos 0)) || flt (of_int (pos 1)) alpha) e
    where
      made :
          (b : Bool)
          → (if b then none else some (fresh alpha (to_int (ceil (fdiv (of_int (pos 1)) alpha)))))
            ≡ some m
          → fresh alpha (to_int (ceil (fdiv (of_int (pos 1)) alpha))) ≡ m
      made true h = absurd (ground arith)
      made false h = some-injective _ _ h

  new-IsMade :
      (alpha : F) (m : SimpleExponentialMovingAverage fl)
      → new_simple_exponential_moving_average fl alpha ≡ some m
      → IsMade alpha m
  new-IsMade alpha m e =
      subst (IsMade alpha) (new-fresh alpha m e)
        (record { initial_alpha = refl; min_samples = refl })

  reset-new :
      (alpha : F) (m t : SimpleExponentialMovingAverage fl)
      → new_simple_exponential_moving_average fl alpha ≡ some m
      → IsMade alpha t
      → average_reset fl t ≡ m
  unfolding average_reset
  reset-new alpha m t e k =
      ap (λ a. fresh a t.min_samples) k.initial_alpha
      ∙ ap (fresh alpha) k.min_samples
      ∙ new-fresh alpha m e

  -- The calls between the constructor and Reset.
  pub data Call : Type 0 where
    adds : F → Call
    updates : (F → F) → Call
    resets : Call

  module _ (sqrt : F → F) (pow : F → F → F) where
    unfoldable pub step : Call → SimpleMovingVariance fl → SimpleMovingVariance fl
    step (adds value) m = variance_add fl sqrt pow value m
    step (updates operation) m = variance_update fl operation m
    step resets m = variance_reset fl m

    unfoldable pub run : List Call → SimpleMovingVariance fl → SimpleMovingVariance fl
    run [] m = m
    run (c ∷ cs) m = run cs (step c m)

    abbrev BothMade : F → F → SimpleMovingVariance fl → Type 0
    BothMade a b m = IsMade a m.average × IsMade b m.variance

    step-IsMade :
        (c : Call) (a b : F) (m : SimpleMovingVariance fl)
        → BothMade a b m
        → BothMade a b (step c m)
    unfolding step variance_add variance_update variance_reset average_reset
    step-IsMade (adds value) a b m (p, q) = (
      add-IsMade value a m.average p,
      elim (Bool-cases (ltb_ℤ (pos 0) m.average.seen_samples)) [
        | inl e ↦ rw e (add-IsMade _ b m.variance q)
        | inr e ↦ rw e q
      ],
    )
    step-IsMade (updates operation) a b m h = h
    step-IsMade resets a b m (p, q) = (
      record { initial_alpha = p.initial_alpha; min_samples = p.min_samples },
      record { initial_alpha = q.initial_alpha; min_samples = q.min_samples },
    )

    run-IsMade :
        (cs : List Call) (a b : F) (m : SimpleMovingVariance fl)
        → BothMade a b m
        → BothMade a b (run cs m)
    unfolding run
    run-IsMade [] a b m h = h
    run-IsMade (c ∷ cs) a b m h = run-IsMade cs a b (step c m) (step-IsMade c a b m h)

    -- A moving variance after any calls and Reset is the one that its constructor made.
    pub variance_reset-run :
        (alpha_average alpha_variance : F) (average variance : SimpleExponentialMovingAverage fl)
        (m : SimpleMovingVariance fl) (cs : List Call)
        → new_simple_exponential_moving_average fl alpha_average ≡ some average
        → new_simple_exponential_moving_average fl alpha_variance ≡ some variance
        → new_simple_moving_variance fl alpha_average alpha_variance ≡ some m
        → variance_reset fl (run cs m) ≡ m
    unfolding variance_reset new_simple_moving_variance
    variance_reset-run a b average variance m cs p q e =
        let new : SimpleMovingVariance fl = record {
          average = average;
          variance = variance;
          stdev = of_int (pos 0);
          normalized = of_int (pos 0);
        } in
        let same : new ≡ m =
          some-injective _ _ (sym (rw (p, q, new_simple_moving_variance) refl) ∙ e) in
        let (k, l) =
          run-IsMade cs a b m
            (subst (BothMade a b) same (new-IsMade a average p, new-IsMade b variance q)) in
        ap
          (λ (z : SimpleExponentialMovingAverage fl). record new {
            average = z;
            variance = average_reset fl (run cs m).variance;
          })
          (reset-new a average (run cs m).average p k)
        ∙ ap (λ (z : SimpleExponentialMovingAverage fl). record new { variance = z })
            (reset-new b variance (run cs m).variance q l)
        ∙ same
