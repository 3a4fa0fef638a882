-- ===== src/Limit/Gradient.antt =====
-- limit/gradient.go: GradientLimit. OnSample runs under a mutex; none is a panic. intn n is what
-- rand.Intn n gives, for a positive n.
pub mod Steps
pub mod Range
pub mod Probes
use go_concurrency_limits.Base.{
  ℕ, Bool, true, false, Option, none, some, ◌||◌, if◌then◌else◌, ◌>>=◌,
}
use go_concurrency_limits.Base.Int.{ℤ, pos, negsuc, ltb_ℤ, leb_ℤ, eqb_ℤ, int64, ◌+ℤ◌, ◌-ℤ◌}
use go_concurrency_limits.Base.Float.{Float64}
use go_concurrency_limits.Measurements.Averages.{MinimumMeasurement, minimum_add, minimum_reset}

-- ProbeDisabled
abbrev pub probe_disabled : ℤ
probe_disabled = negsuc 0

unfoldable pub next_probe_countdown : (ℤ → ℤ) → ℤ → Option ℤ
next_probe_countdown intn probe_interval =
    if eqb_ℤ probe_interval probe_disabled
    then some probe_disabled
    else if leb_ℤ probe_interval (pos 0)
    then none
    else some (int64 (probe_interval +ℤ intn probe_interval))

module _ (fl : Float64) where
  open fl use {F, of_int, ratio, to_int, fadd, fsub, fmul, fdiv, fmax, fmin, flt}

  -- queue_size_func gives none where the function panics.
  pub record GradientLimit : Type 0 where
    pub estimated_limit : F
    pub max_limit : ℤ
    pub min_limit : ℤ
    pub queue_size_func : ℤ → Option ℤ
    pub smoothing : F
    pub rtt_tolerance : F
    pub probe_interval : ℤ
    pub reset_rtt_counter : ℤ
    pub rtt_no_load_measurement : MinimumMeasurement fl

  abbrev queue_func : (ℤ → Option ℤ) → Option (ℤ → Option ℤ) → ℤ → Option ℤ
  queue_func square_root none = square_root
  queue_func square_root (some f) = f

  -- square_root is functions.SqrtRootFunction(4).
  unfoldable pub new_gradient_limit :
      (ℤ → ℤ)
      → (ℤ → Option ℤ)
      → ℤ
      → ℤ
      → ℤ
      → F
      → Option (ℤ → Option ℤ)
      → F
      → ℤ
      → Option GradientLimit
  unfolding next_probe_countdown
  new_gradient_limit intn square_root initial_limit min_limit max_concurrency smoothing
        queue_size_func rtt_tolerance probe_interval =
      let interval = if eqb_ℤ probe_interval (pos 0) then pos 1000 else probe_interval in
      do
        counter ← next_probe_countdown intn interval
        some (record {
          estimated_limit = of_int (if leb_ℤ initial_limit (pos 0) then pos 50 else initial_limit);
          max_limit = if leb_ℤ max_concurrency (pos 0) then pos 1000 else max_concurrency;
          min_limit = if ltb_ℤ min_limit (pos 1) then pos 1 else min_limit;
          queue_size_func = queue_func square_root queue_size_func;
          smoothing =
              if flt smoothing (of_int (pos 0)) || flt (of_int (pos 1)) smoothing
              then ratio 2 10
              else smoothing;
          rtt_tolerance =
              if flt rtt_tolerance (of_int (pos 0)) then of_int (pos 2) else rtt_tolerance;
          probe_interval = interval;
          reset_rtt_counter = counter;
          rtt_no_load_measurement = record { value = of_int (pos 0) };
        })

  -- The smoothing and the bounds of a new limit.
  unfoldable pub bounded : ℤ → F → GradientLimit → F
  bounded queue_size new_limit l =
      let smoothed =
        if flt new_limit l.estimated_limit
        then fmax (of_int l.min_limit) (
            fadd (fmul l.estimated_limit (fsub (of_int (pos 1)) l.smoothing))
              (fmul l.smoothing new_limit))
        else new_limit in
      fmax (of_int queue_size) (fmin (of_int l.max_limit) smoothed)

  -- OnSample from rttNoLoadMeasurement.Add on.
  unfoldable pub observe : ℤ → ℤ → ℤ → Bool → GradientLimit → GradientLimit
  unfolding minimum_add bounded
  observe queue_size rtt in_flight did_drop l =
      let m = minimum_add fl (of_int rtt) l.rtt_no_load_measurement in
      let rtt_no_load = to_int m.value in
      let gradient =
        fmax (ratio 5 10)
          (fmin (of_int (pos 1)) (fdiv (fmul l.rtt_tolerance (of_int rtt_no_load)) (of_int rtt))) in
      let half = fdiv l.estimated_limit (of_int (pos 2)) in
      let measured = record l { rtt_no_load_measurement = m } in
      if did_drop
      then record measured { estimated_limit = bounded queue_size half l }
      else if flt (of_int in_flight) half
      then measured
      else record measured {
        estimated_limit =
            bounded queue_size (fadd (fmul l.estimated_limit gradient) (of_int queue_size)) l;
      }

  -- The probe for a new RTT without load.
  unfoldable pub probe : (ℤ → ℤ) → ℤ → GradientLimit → Option GradientLimit
  unfolding next_probe_countdown minimum_reset
  probe intn queue_size l = do
    counter ← next_probe_countdown intn l.probe_interval
    some (record l {
      reset_rtt_counter = counter;
      estimated_limit = fmax (of_int l.min_limit) (of_int queue_size);
      rtt_no_load_measurement = minimum_reset fl l.rtt_no_load_measurement;
    })

  unfoldable pub on_sample : (ℤ → ℤ) → ℤ → ℤ → ℤ → Bool → GradientLimit → Option GradientLimit
  unfolding observe probe
  on_sample intn start_time rtt in_flight did_drop l = do
    queue_size ← l.queue_size_func (to_int l.estimated_limit)
    let counted = record l { reset_rtt_counter = int64 (l.reset_rtt_counter -ℤ pos 1) }
    if eqb_ℤ l.probe_interval probe_disabled
        then some (observe queue_size rtt in_flight did_drop l)
        else if leb_ℤ counted.reset_rtt_counter (pos 0)
        then probe intn queue_size counted
        else some (observe queue_size rtt in_flight did_drop counted)

  abbrev pub estimated_limit : GradientLimit → ℤ
  estimated_limit l = to_int l.estimated_limit

  abbrev pub rtt_no_load : GradientLimit → ℤ
  rtt_no_load l = to_int l.rtt_no_load_measurement.value
