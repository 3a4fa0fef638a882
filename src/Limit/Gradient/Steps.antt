-- ===== src/Limit/Gradient/Steps.antt =====
-- What one sample does to GradientLimit, by its counter.
use go_concurrency_limits.Base.{◌≡◌, refl, Bool, true, false, Option, none, some, List, [], ◌∷◌}
use go_concurrency_limits.Base.Int.{ℤ, pos, int64, ◌-ℤ◌, leb_ℤ, eqb_ℤ}
use go_concurrency_limits.Base.Float.{Float64}
use go_concurrency_limits.Limit.Gradient.{GradientLimit, observe, probe, on_sample, probe_disabled}

-- intn is what rand.Intn gives at the sample.
pub record Sample : Type 0 where
  pub intn : ℤ → ℤ
  pub start_time : ℤ
  pub rtt : ℤ
  pub in_flight : ℤ
  pub did_drop : Bool

module _ (fl : Float64) where
  open fl use {F, of_int, to_int, fmax, fadd, fmul, fdiv, flt}

  unfoldable pub step : Sample → GradientLimit fl → Option (GradientLimit fl)
  step x l = on_sample fl x.intn x.start_time x.rtt x.in_flight x.did_drop l

  unfoldable pub run : List Sample → GradientLimit fl → Option (GradientLimit fl)
  run [] l = some l
  run (x ∷ xs) l = elim (step x l) [ none ↦ none | some l' ↦ run xs l' ]

  -- What no sample changes.
  pub record IsKept (l l' : GradientLimit fl) : Type 0 where
    pub interval : l'.probe_interval ≡ l.probe_interval
    pub queue : l'.queue_size_func ≡ l.queue_size_func
    pub most : l'.max_limit ≡ l.max_limit
    pub least : l'.min_limit ≡ l.min_limit

  -- resetRTTCounter--
  abbrev pub counted : GradientLimit fl → GradientLimit fl
  counted l = record l { reset_rtt_counter = int64 (l.reset_rtt_counter -ℤ pos 1) }

  pub step_due :
      (x : Sample) (q : ℤ) (l : GradientLimit fl)
      → l.queue_size_func (to_int l.estimated_limit) ≡ some q
      → eqb_ℤ l.probe_interval probe_disabled ≡ false
      → leb_ℤ (counted l).reset_rtt_counter (pos 0) ≡ true
      → step x l ≡ probe fl x.intn q (counted l)
  unfolding step on_sample
  step_due x q l e enabled due = rw (e, enabled, due) refl

  pub step_early :
      (x : Sample) (q : ℤ) (l : GradientLimit fl)
      → l.queue_size_func (to_int l.estimated_limit) ≡ some q
      → eqb_ℤ l.probe_interval probe_disabled ≡ false
      → leb_ℤ (counted l).reset_rtt_counter (pos 0) ≡ false
      → step x l ≡ some (observe fl q x.rtt x.in_flight x.did_drop (counted l))
  unfolding step on_sample
  step_early x q l e enabled early = rw (e, enabled, early) refl
