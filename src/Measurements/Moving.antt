-- ===== src/Measurements/Moving.antt =====
-- measurements/moving_average.go, moving_variance.go and windowless_moving_percentile.go, each method
-- under the measurement's mutex. The second result of Add, whether the value changed, is read by no
-- caller and left out. sqrt and pow are those of package math; none is the error of a constructor.
pub mod Resets
use go_concurrency_limits.Base.{
  Bool, true, false, not, Option, none, some, ◌||◌, if◌then◌else◌, ◌>>=◌,
}
use go_concurrency_limits.Base.Int.{ℤ, pos, int64, ◌+ℤ◌, ltb_ℤ, leb_ℤ, eqb_ℤ}
use go_concurrency_limits.Base.Float.{Float64}

module _ (fl : Float64) where
  open fl use {F, of_int, to_int, fadd, fsub, fmul, fdiv, ceil, flt, fle, feq}

  pub record SimpleExponentialMovingAverage : Type 0 where
    pub alpha : F
    pub initial_alpha : F
    pub min_samples : ℤ
    pub seen_samples : ℤ
    pub value : F

  -- math.Trunc of a ceiling is the ceiling.
  unfoldable pub new_simple_exponential_moving_average : F → Option SimpleExponentialMovingAverage
  new_simple_exponential_moving_average alpha =
      if flt alpha (of_int (pos 0)) || flt (of_int (pos 1)) alpha
      then none
      else some (record {
        alpha = alpha;
        initial_alpha = alpha;
        min_samples = to_int (ceil (fdiv (of_int (pos 1)) alpha));
        seen_samples = pos 0;
        value = of_int (pos 0);
      })

  unfoldable pub average_add : F → SimpleExponentialMovingAverage → SimpleExponentialMovingAverage
  average_add value m =
      let seen =
        if ltb_ℤ m.seen_samples m.min_samples
        then int64 (m.seen_samples +ℤ pos 1)
        else m.seen_samples in
      let alpha =
        if leb_ℤ m.min_samples seen then m.alpha else fdiv (of_int (pos 1)) (of_int seen) in
      record m {
        seen_samples = seen;
        value = fadd (fmul (fsub (of_int (pos 1)) alpha) m.value) (fmul alpha value);
      }

  unfoldable pub average_reset : SimpleExponentialMovingAverage → SimpleExponentialMovingAverage
  average_reset m = record m {
    seen_samples = pos 0;
    value = of_int (pos 0);
    alpha = m.initial_alpha;
  }

  unfoldable pub average_update :
      (F → F) → SimpleExponentialMovingAverage → SimpleExponentialMovingAverage
  unfolding average_add
  average_update operation m =
      let added = average_add m.value m in record added { value = operation added.value }

  pub record SimpleMovingVariance : Type 0 where
    pub average : SimpleExponentialMovingAverage
    pub variance : SimpleExponentialMovingAverage
    pub stdev : F
    pub normalized : F

  unfoldable pub new_simple_moving_variance : F → F → Option SimpleMovingVariance
  unfolding new_simple_exponential_moving_average
  new_simple_moving_variance alpha_average alpha_variance = do
    average ← new_simple_exponential_moving_average alpha_average
    variance ← new_simple_exponential_moving_average alpha_variance
    some (record {
      average = average;
      variance = variance;
      stdev = of_int (pos 0);
      normalized = of_int (pos 0);
    })

  unfoldable pub variance_reset : SimpleMovingVariance → SimpleMovingVariance
  unfolding average_reset
  variance_reset m = record {
    average = average_reset m.average;
    variance = average_reset m.variance;
    stdev = of_int (pos 0);
    normalized = of_int (pos 0);
  }

  unfoldable pub variance_update : (F → F) → SimpleMovingVariance → SimpleMovingVariance
  variance_update operation m = record m { stdev = operation m.variance.value }

  pub record WindowlessMovingPercentile : Type 0 where
    pub p : F
    pub delta_initial : F
    pub value : F
    pub delta : F
    pub delta_state : SimpleMovingVariance
    pub seen_count : ℤ

  unfoldable pub new_windowless_moving_percentile :
      F → F → F → F → Option WindowlessMovingPercentile
  unfolding new_simple_moving_variance
  new_windowless_moving_percentile p delta_initial alpha_average alpha_variance =
      if fle p (of_int (pos 0)) || fle (of_int (pos 1)) p
      then none
      else new_simple_moving_variance alpha_average alpha_variance >>= (λ variance. some (record {
        p = p;
        delta_initial = delta_initial;
        value = of_int (pos 0);
        delta = delta_initial;
        delta_state = variance;
        seen_count = pos 0;
      }))

  unfoldable pub percentile_reset : WindowlessMovingPercentile → WindowlessMovingPercentile
  percentile_reset m = record m { value = of_int (pos 0); seen_count = pos 0 }

  module _ (sqrt : F → F) (pow : F → F → F) where
    unfoldable pub variance_add : F → SimpleMovingVariance → SimpleMovingVariance
    unfolding average_add
    variance_add value m =
        let squared = pow (fsub value m.average.value) (of_int (pos 2)) in
        let variance =
          if ltb_ℤ (pos 0) m.average.seen_samples
          then average_add squared m.variance
          else m.variance in
        let average = average_add value m.average in
        let stdev = sqrt variance.value in
        record {
          average = average;
          variance = variance;
          stdev = stdev;
          normalized =
              if not (feq stdev (of_int (pos 0)))
              then fdiv (fsub value average.value) stdev
              else m.normalized;
        }

    unfoldable pub percentile_add : F → WindowlessMovingPercentile → WindowlessMovingPercentile
    unfolding variance_add
    percentile_add value m =
        let seen =
          if ltb_ℤ m.seen_count (pos 2) then int64 (m.seen_count +ℤ pos 1) else m.seen_count in
        let state = variance_add value m.delta_state in
        let delta = if leb_ℤ (pos 2) seen then fmul m.delta_initial state.stdev else m.delta in
        record m {
          seen_count = seen;
          delta_state = state;
          delta = delta;
          value =
              if eqb_ℤ seen (pos 1)
              then value
              else if flt value m.value
              then fsub m.value (fdiv delta m.p)
              else if flt m.value value
              then fadd m.value (fdiv delta (fsub (of_int (pos 1)) m.p))
              else m.value;
        }

    unfoldable pub percentile_update :
        (F → F) → WindowlessMovingPercentile → WindowlessMovingPercentile
    unfolding percentile_add
    percentile_update operation m =
        let added = percentile_add m.value m in record added { value = operation added.value }
