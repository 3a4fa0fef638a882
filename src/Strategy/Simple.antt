-- ===== src/Strategy/Simple.antt =====
-- strategy/simple.go: a counter and a limit, each an atomic variable. TryAcquire loads the one,
-- loads the other, and adds: three accesses, between which other goroutines may run.
pub mod Threads
pub mod Lawful
use go_concurrency_limits.Base.{Bool, true, false, if◌then◌else◌}
use go_concurrency_limits.Base.Int.{ℤ, pos, int32, ◌+ℤ◌, ◌-ℤ◌, ltb_ℤ, leb_ℤ}
use go_concurrency_limits.Core.{
  StrategyToken, new_not_acquired_strategy_token, new_acquired_strategy_token,
}

pub record SimpleStrategy : Type 0 where
  pub in_flight : ℤ  -- *int32
  pub limit : ℤ  -- *int32

unfoldable pub new_simple_strategy : ℤ → SimpleStrategy
new_simple_strategy limit = record {
  limit = int32 (if ltb_ℤ limit (pos 1) then pos 1 else limit);
  in_flight = pos 0;
}

-- atomic.AddInt32(s.inFlight, delta): the new state and the new value.
unfoldable pub add_in_flight : ℤ → SimpleStrategy → SimpleStrategy × ℤ
add_in_flight delta s = let n = int32 (s.in_flight +ℤ delta) in (record s { in_flight = n }, n)

-- The test of TryAcquire, at the two values that it has loaded.
unfoldable pub is_full : ℤ → ℤ → Bool
is_full in_flight limit = leb_ℤ limit in_flight

-- TryAcquire with no other goroutine in between.
unfoldable pub try_acquire : SimpleStrategy → SimpleStrategy × StrategyToken (Unit {0}) × Bool
unfolding add_in_flight is_full
try_acquire s =
    let (s', n) = add_in_flight (pos 1) s in
    if is_full s.in_flight s.limit
    then (s, new_not_acquired_strategy_token s.in_flight, false)
    else (s', new_acquired_strategy_token n tt, true)

-- The function that a token's release calls: atomic.AddInt32(ref, -1).
unfoldable pub release_func : SimpleStrategy → SimpleStrategy
unfolding add_in_flight
release_func s = (add_in_flight (ℤ.negsuc 0) s).0

unfoldable pub set_limit : ℤ → SimpleStrategy → SimpleStrategy
set_limit limit s = record s { limit = int32 (if ltb_ℤ limit (pos 1) then pos 1 else limit) }

unfoldable pub get_limit : SimpleStrategy → ℤ
get_limit s = s.limit

unfoldable pub get_busy_count : SimpleStrategy → ℤ
get_busy_count s = s.in_flight
