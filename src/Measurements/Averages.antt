-- ===== src/Measurements/Averages.antt =====
-- measurements/single.go, measurements/exponential_average.go and measurements/minimum.go, each method
-- under the measurement's mutex. The second result of Add is read by no caller and left out.
use go_concurrency_limits.Base.{◌||◌, if◌then◌else◌}
use go_concurrency_limits.Base.Int.{ℤ, pos, int64, ◌+ℤ◌, ltb_ℤ}
use go_concurrency_limits.Base.Float.{Float64}

module _ (fl : Float64) where
  open fl use {F, of_int, fadd, fsub, fmul, fdiv, flt, feq}

  pub record SingleMeasurement : Type 0 where
    pub value : F

  unfoldable pub single_add : F → SingleMeasurement → SingleMeasurement
  single_add value m = record { value = value }

  pub record ExponentialAverageMeasurement : Type 0 where
    pub value : F
    pub sum : F
    pub window : ℤ
    pub warmup_window : ℤ
    pub count : ℤ

  unfoldable pub new_exponential_average_measurement : ℤ → ℤ → ExponentialAverageMeasurement
  new_exponential_average_measurement window warmup_window = record {
    value = of_int (pos 0);
    sum = of_int (pos 0);
    window = window;
    warmup_window = warmup_window;
    count = pos 0;
  }

  unfoldable pub factor : ℤ → F
  factor n = fdiv (of_int (pos 2)) (of_int (int64 (n +ℤ pos 1)))

  unfoldable pub exponential_add : F → ExponentialAverageMeasurement → ExponentialAverageMeasurement
  unfolding factor
  exponential_add value m =
      let n = int64 (m.count +ℤ pos 1) in
      let sum = fadd m.sum value in
      let f = factor m.window in
      if ltb_ℤ m.count m.warmup_window
      then record m { count = n; sum = sum; value = fdiv sum (of_int n) }
      else record m { value = fadd (fmul m.value (fsub (of_int (pos 1)) f)) (fmul value f) }

  unfoldable pub exponential_update :
      (F → F) → ExponentialAverageMeasurement → ExponentialAverageMeasurement
  exponential_update operation m = record m { value = operation m.value }

  unfoldable pub single_reset : SingleMeasurement → SingleMeasurement
  single_reset m = record { value = of_int (pos 0) }

  unfoldable pub single_update : (F → F) → SingleMeasurement → SingleMeasurement
  single_update operation m = record { value = operation m.value }

  unfoldable pub exponential_reset : ExponentialAverageMeasurement → ExponentialAverageMeasurement
  exponential_reset m = record m { value = of_int (pos 0); count = pos 0; sum = of_int (pos 0) }

  pub record MinimumMeasurement : Type 0 where
    pub value : F

  unfoldable pub minimum_add : F → MinimumMeasurement → MinimumMeasurement
  minimum_add sample m =
      if feq m.value (of_int (pos 0)) || flt sample m.value then record { value = sample } else m

  unfoldable pub minimum_reset : MinimumMeasurement → MinimumMeasurement
  minimum_reset m = record { value = of_int (pos 0) }

  -- operation is applied to the current value, and the result is a sample.
  unfoldable pub minimum_update : (F → F) → MinimumMeasurement → MinimumMeasurement
  unfolding minimum_add
  minimum_update operation m = minimum_add (operation m.value) m
