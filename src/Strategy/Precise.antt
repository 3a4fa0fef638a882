-- ===== src/Strategy/Precise.antt =====
-- strategy/precise.go: a counter under a mutex, so that each method is one atomic step.
pub mod Gauge
pub mod Lawful
pub mod Wrap
use go_concurrency_limits.Base.{Bool, true, false, if◌then◌else◌}
use go_concurrency_limits.Base.Int.{ℤ, pos, int32, ◌+ℤ◌, ◌-ℤ◌, ltb_ℤ, leb_ℤ}
use go_concurrency_limits.Core.{
  StrategyToken, new_not_acquired_strategy_token, new_acquired_strategy_token,
}

pub record PreciseStrategy : Type 0 where
  pub in_flight : ℤ  -- int32
  pub limit : ℤ  -- int32

unfoldable pub new_precise_strategy : ℤ → PreciseStrategy
new_precise_strategy limit = record {
  in_flight = pos 0;
  limit = int32 (if ltb_ℤ limit (pos 1) then pos 1 else limit);
}

-- The handle of a token is the method value s.releaseHandler, which captures nothing else.
unfoldable pub try_acquire : PreciseStrategy → PreciseStrategy × StrategyToken (Unit {0}) × Bool
try_acquire s =
    let n = int32 (s.in_flight +ℤ pos 1) in
    if leb_ℤ s.limit s.in_flight
    then (s, new_not_acquired_strategy_token s.in_flight, false)
    else (record s { in_flight = n }, new_acquired_strategy_token n tt, true)

unfoldable pub release_handler : PreciseStrategy → PreciseStrategy
release_handler s = record s { in_flight = int32 (s.in_flight -ℤ pos 1) }

unfoldable pub set_limit : ℤ → PreciseStrategy → PreciseStrategy
set_limit limit s = record s { limit = int32 (if ltb_ℤ limit (pos 1) then pos 1 else limit) }

unfoldable pub get_limit : PreciseStrategy → ℤ
get_limit s = s.limit

unfoldable pub get_busy_count : PreciseStrategy → ℤ
get_busy_count s = s.in_flight
