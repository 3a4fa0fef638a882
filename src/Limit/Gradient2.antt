-- ===== src/Limit/Gradient2.antt =====
-- limit/gradient2.go: Gradient2Limit. OnSample runs under a mutex.
pub mod Range
use go_concurrency_limits.Base.{Bool, Option, none, some, ◌||◌, if◌then◌else◌}
use go_concurrency_limits.Base.Int.{ℤ, pos, ltb_ℤ, leb_ℤ}
use go_concurrency_limits.Base.Float.{Float64}
use go_concurrency_limits.Limit.Interface.{Limit}
use go_concurrency_limits.Measurements.Averages.{
  SingleMeasurement, ExponentialAverageMeasurement, new_exponential_average_measurement, single_add,
  exponential_add, exponential_update,
}

module _ (fl : Float64) where
  open fl use {F, of_int, ratio, to_int, fadd, fsub, fmul, fdiv, fmax, fmin, flt, fle}

  pub record Gradient2Limit : Type 0 where
    pub estimated_limit : F
    pub short_rtt : SingleMeasurement fl
    pub long_rtt : ExponentialAverageMeasurement fl
    pub max_limit : ℤ
    pub min_limit : ℤ
    pub queue_size_func : ℤ → ℤ
    pub smoothing : F

  -- if value <= 0 { value = default }
  abbrev or_default : ℤ → ℤ → ℤ
  or_default default value = if leb_ℤ value (pos 0) then default else value

  abbrev queue_func : Option (ℤ → ℤ) → ℤ → ℤ
  queue_func none limit = pos 4
  queue_func (some f) limit = f limit

  -- none is the error that minLimit is above maxConcurrency.
  unfoldable pub new_gradient2_limit : ℤ → ℤ → ℤ → Option (ℤ → ℤ) → F → ℤ → Option Gradient2Limit
  unfolding new_exponential_average_measurement
  new_gradient2_limit initial_limit max_concurrency min_limit queue_size_func smoothing
        long_window =
      let s =
        if flt (of_int (pos 1)) smoothing || flt smoothing (of_int (pos 0))
        then ratio 2 10
        else smoothing in
      let top = or_default (pos 1000) max_concurrency in
      let low = or_default (pos 4) min_limit in
      let w = if ltb_ℤ long_window (pos 0) then pos 100 else long_window in
      if ltb_ℤ top low
      then none
      else some (record {
        estimated_limit = of_int (or_default (pos 4) initial_limit);
        max_limit = top;
        min_limit = low;
        queue_size_func = queue_func queue_size_func;
        smoothing = s;
        short_rtt = record { value = of_int (pos 0) };
        long_rtt = new_exponential_average_measurement fl w (pos 10);
      })

  -- The new limit, from the long and the short RTT and the queue size.
  unfoldable pub new_limit : F → F → ℤ → Gradient2Limit → F
  new_limit long short queue_size l =
      let gradient = fmax (ratio 5 10) (fmin (of_int (pos 1)) (fdiv long short)) in
      let raw = fadd (fmul l.estimated_limit gradient) (of_int queue_size) in
      let smooth =
        fadd (fmul l.estimated_limit (fsub (of_int (pos 1)) l.smoothing)) (fmul raw l.smoothing) in
      fmax (of_int l.min_limit) (fmin (of_int l.max_limit) smooth)

  -- The measurements with the new RTT: the long one shrinks where it is more than twice the short one.
  unfoldable pub measure : F → Gradient2Limit → Gradient2Limit
  unfolding single_add exponential_add exponential_update
  measure rtt l =
      let short = single_add fl rtt l.short_rtt in
      let long = exponential_add fl rtt l.long_rtt in
      let shrunk = exponential_update fl (λ value. fmul value (ratio 9 10)) long in
      record l {
        short_rtt = short;
        long_rtt = if flt (of_int (pos 2)) (fdiv long.value short.value) then shrunk else long;
      }

  -- The RTTs that the formula uses are those that Add returned.
  unfoldable pub on_sample : ℤ → ℤ → ℤ → Bool → Gradient2Limit → Gradient2Limit
  unfolding measure new_limit
  on_sample start_time rtt in_flight did_drop l =
      let long = (exponential_add fl (of_int rtt) l.long_rtt).value in
      let short = (single_add fl (of_int rtt) l.short_rtt).value in
      let queue_size = l.queue_size_func (to_int l.estimated_limit) in
      let m = measure (of_int rtt) l in
      if flt (of_int in_flight) (fdiv l.estimated_limit (of_int (pos 2)))
      then m
      else record m { estimated_limit = new_limit long short queue_size l }

  abbrev pub gradient2_limit : Limit
  gradient2_limit = record {
    State = Gradient2Limit;
    estimated_limit = λ l. to_int l.estimated_limit;
    on_sample = on_sample;
  }
