-- ===== src/Limit/Aimd.antt =====
-- limit/aimd.go: AIMDLimit, additive increase and multiplicative decrease. OnSample runs under a mutex.
pub mod Bounds
use go_concurrency_limits.Base.{Bool, true, false, if◌then◌else◌}
use go_concurrency_limits.Base.Int.{ℤ, pos, int64, ◌+ℤ◌, ◌-ℤ◌, leb_ℤ}
use go_concurrency_limits.Base.Float.{Float64}
use go_concurrency_limits.Limit.Interface.{Limit}

module _ (fl : Float64) where
  open fl use {F, of_int, ratio, to_int, fmul, fmax, fmin}

  pub record AimdLimit : Type 0 where
    pub limit : ℤ
    pub increase_by : ℤ
    pub back_off_ratio : F

  unfoldable pub new_aimd_limit : ℤ → F → ℤ → AimdLimit
  new_aimd_limit initial_limit back_off_ratio increase_by = record {
    limit = initial_limit;
    back_off_ratio = back_off_ratio;
    increase_by = if leb_ℤ increase_by (pos 0) then pos 1 else increase_by;
  }

  unfoldable pub new_default_aimd_limit : AimdLimit
  unfolding new_aimd_limit
  new_default_aimd_limit = new_aimd_limit (pos 10) (ratio 9 10) (pos 1)

  -- int(math.Max(1, math.Min(float64(l.limit-1), float64(l.limit)*l.backOffRatio)))
  unfoldable pub backed_off : AimdLimit → ℤ
  backed_off l = to_int (
      fmax (of_int (pos 1))
        (fmin (of_int (int64 (l.limit -ℤ pos 1))) (fmul (of_int l.limit) l.back_off_ratio)))

  unfoldable pub on_sample : ℤ → ℤ → ℤ → Bool → AimdLimit → AimdLimit
  unfolding backed_off
  on_sample start_time rtt in_flight true l = record l { limit = backed_off l }
  on_sample start_time rtt in_flight false l =
      if leb_ℤ l.limit in_flight then record l { limit = int64 (l.limit +ℤ l.increase_by) } else l

  abbrev pub aimd_limit : Limit
  aimd_limit = record { State = AimdLimit; estimated_limit = λ l. l.limit; on_sample = on_sample }
