-- ===== src/Limit/Vegas.antt =====
-- limit/vegas.go: VegasLimit. OnSample runs under a mutex. The jitter that a probe draws
-- (newProbeJitter, from math/rand) is an argument.
pub mod Samples
use go_concurrency_limits.Base.{Bool, true, false, Option, none, some, ◌||◌, if◌then◌else◌, ◌>>=◌}
use go_concurrency_limits.Base.Int.{ℤ, pos, negsuc, int64, ◌+ℤ◌, times, ltb_ℤ, leb_ℤ}
use go_concurrency_limits.Base.Float.{Float64}
use go_concurrency_limits.Measurements.Averages.{MinimumMeasurement, minimum_add}

module _ (fl : Float64) where
  open fl use {F, of_int, to_int, fadd, fsub, fmul, fdiv, fmax, fmin, ceil, flt, fle, feq}

  -- The functions give none where they panic.
  pub record VegasLimit : Type 0 where
    pub estimated_limit : F
    pub max_limit : ℤ
    pub rtt_no_load : MinimumMeasurement fl
    pub smoothing : F
    pub alpha_func : ℤ → Option ℤ
    pub beta_func : ℤ → Option ℤ
    pub threshold_func : ℤ → Option ℤ
    pub increase_func : F → Option F
    pub decrease_func : F → Option F
    pub probe_multiplier : ℤ
    pub probe_jitter : F
    pub probe_count : ℤ

  -- int64(l.probeJitter*float64(l.probeMultipler)*l.estimatedLimit) <= l.probeCount
  unfoldable pub should_probe : VegasLimit → Bool
  should_probe l =
      leb_ℤ (to_int (fmul (fmul l.probe_jitter (of_int l.probe_multiplier)) l.estimated_limit))
        l.probe_count

  -- The size of the queue, by Little's law.
  unfoldable pub queue_size_of : ℤ → VegasLimit → ℤ
  queue_size_of rtt l = to_int (
      ceil (fmul l.estimated_limit (fsub (of_int (pos 1)) (fdiv l.rtt_no_load.value (of_int rtt)))))

  -- The limit before it is clamped and smoothed; some none where updateEstimatedLimit returns, and none
  -- where it panics.
  unfoldable pub target : ℤ → ℤ → Bool → VegasLimit → Option (Option F)
  unfolding queue_size_of
  target rtt in_flight true l = l.decrease_func l.estimated_limit >>= (λ x. some (some x))
  target rtt in_flight false l =
      let queue_size = queue_size_of rtt l in
      let n = to_int l.estimated_limit in
      if flt (fmul (of_int in_flight) (of_int (pos 2))) l.estimated_limit then some none else do
        alpha ← l.alpha_func n
        beta ← l.beta_func n
        threshold ← l.threshold_func n
        if ltb_ℤ queue_size threshold
            then some (some (fadd l.estimated_limit (of_int beta)))
            else if ltb_ℤ queue_size alpha
            then l.increase_func l.estimated_limit >>= (λ x. some (some x))
            else if ltb_ℤ beta queue_size
            then l.decrease_func l.estimated_limit >>= (λ x. some (some x))
            else some none

  unfoldable pub clamp : F → VegasLimit → F
  clamp x l = fmax (of_int (pos 1)) (fmin (of_int l.max_limit) x)

  unfoldable pub smooth : F → VegasLimit → F
  smooth x l =
      fadd (fmul (fsub (of_int (pos 1)) l.smoothing) l.estimated_limit) (fmul l.smoothing x)

  abbrev pub updated : Option F → VegasLimit → VegasLimit
  updated none l = l
  updated (some x) l = record l { estimated_limit = smooth (clamp x l) l }

  unfoldable pub update_estimated_limit : ℤ → ℤ → Bool → VegasLimit → Option VegasLimit
  unfolding target clamp smooth
  update_estimated_limit rtt in_flight did_drop l = do
    new_limit ← target rtt in_flight did_drop l
    some (updated new_limit l)

  -- The branch of a probe.
  unfoldable pub probe : F → ℤ → VegasLimit → VegasLimit
  unfolding minimum_add
  probe jitter rtt l = record l {
    probe_jitter = jitter;
    probe_count = pos 0;
    rtt_no_load = minimum_add fl (of_int rtt) (record { value = of_int (pos 0) });
  }

  -- The rest of OnSample: a new minimum, or an update.
  unfoldable pub observe : ℤ → ℤ → Bool → VegasLimit → Option VegasLimit
  unfolding update_estimated_limit minimum_add
  observe rtt in_flight did_drop l =
      if feq l.rtt_no_load.value (of_int (pos 0)) || flt (of_int rtt) l.rtt_no_load.value
      then some (record l { rtt_no_load = minimum_add fl (of_int rtt) l.rtt_no_load })
      else update_estimated_limit rtt in_flight did_drop l

  unfoldable pub on_sample : F → ℤ → ℤ → ℤ → Bool → VegasLimit → Option VegasLimit
  unfolding should_probe probe observe
  on_sample jitter start_time rtt in_flight did_drop l =
      let counted = record l { probe_count = int64 (l.probe_count +ℤ pos 1) } in
      if should_probe counted
      then some (probe jitter rtt counted)
      else observe rtt in_flight did_drop counted

  abbrev given_or : {A : Type 0} → A → Option A → A
  given_or default none = default
  given_or default (some f) = f

  -- log_func is functions.Log10RootFunction(0), and log_float_func is
  -- functions.Log10RootFloatFunction(0); both give none where they panic. jitter is drawn by newProbeJitter.
  unfoldable pub new_vegas_limit :
      F
      → (ℤ → Option ℤ)
      → (F → Option F)
      → ℤ
      → Option (MinimumMeasurement fl)
      → ℤ
      → F
      → Option (ℤ → Option ℤ)
      → Option (ℤ → Option ℤ)
      → Option (ℤ → Option ℤ)
      → Option (F → Option F)
      → Option (F → Option F)
      → ℤ
      → VegasLimit
  new_vegas_limit jitter log_func log_float_func initial_limit rtt_no_load max_concurrency smoothing
        alpha beta threshold increase decrease probe_multiplier =
      record {
        estimated_limit = of_int (if ltb_ℤ initial_limit (pos 1) then pos 20 else initial_limit);
        max_limit = if ltb_ℤ max_concurrency (pos 0) then pos 1000 else max_concurrency;
        rtt_no_load = given_or (record { value = of_int (pos 0) }) rtt_no_load;
        smoothing =
            if flt smoothing (of_int (pos 0)) || flt (of_int (pos 1)) smoothing
            then of_int (pos 1)
            else smoothing;
        alpha_func = given_or (λ limit. log_func limit >>= (λ n. some (int64 (times 3 n)))) alpha;
        beta_func = given_or (λ limit. log_func limit >>= (λ n. some (int64 (times 6 n)))) beta;
        threshold_func = given_or log_func threshold;
        increase_func =
            given_or (λ limit. log_float_func limit >>= (λ x. some (fadd limit x))) increase;
        decrease_func =
            given_or (λ limit. log_float_func limit >>= (λ x. some (fsub limit x))) decrease;
        probe_multiplier = if leb_ℤ probe_multiplier (pos 0) then pos 30 else probe_multiplier;
        probe_jitter = jitter;
        probe_count = pos 0;
      }

  unfoldable pub new_default_vegas_limit_with_limit :
      F → (ℤ → Option ℤ) → (F → Option F) → ℤ → VegasLimit
  unfolding new_vegas_limit
  new_default_vegas_limit_with_limit jitter log_func log_float_func initial_limit =
      new_vegas_limit jitter log_func log_float_func initial_limit none (negsuc 0)
        (of_int (negsuc 0)) none none none none none (negsuc 0)

  unfoldable pub new_default_vegas_limit : F → (ℤ → Option ℤ) → (F → Option F) → VegasLimit
  unfolding new_vegas_limit
  new_default_vegas_limit jitter log_func log_float_func =
      new_vegas_limit jitter log_func log_float_func (negsuc 0) none (negsuc 0) (of_int (negsuc 0))
        none none none none none (negsuc 0)

  abbrev pub estimated_limit : VegasLimit → ℤ
  estimated_limit l = to_int l.estimated_limit

  abbrev pub rtt_no_load : VegasLimit → ℤ
  rtt_no_load l = to_int l.rtt_no_load.value
