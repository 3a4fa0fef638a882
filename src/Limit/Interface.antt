-- ===== src/Limit/Interface.antt =====
-- core/limit.go: the interface Limit. NotifyOnChange only registers observers, which no component of
-- the library reads back, so it is left out.
use go_concurrency_limits.Base.{Bool}
use go_concurrency_limits.Base.Int.{ℤ}

pub record Limit : Type 1 where
  pub State : Type 0
  pub estimated_limit : State → ℤ
  -- startTime, rtt, inFlight, didDrop
  pub on_sample : ℤ → ℤ → ℤ → Bool → State → State
