-- ===== src/Strategy/Precise/Wrap.antt =====
-- A limit that does not fit in an int32.
use go_concurrency_limits.Base.{ℕ, ◌≤◌, ◌<◌, ◌≡◌, false, arith}
use go_concurrency_limits.Base.Int.{pos, two_31, int32, ◌≤ℤ◌, ◌<ℤ◌}
use go_concurrency_limits.Strategy.Precise.{PreciseStrategy, try_acquire, set_limit, get_limit}

int32_wraps : (n : ℕ) → two_31 ≤ n → n < 4294967296 → int32 (pos n) <ℤ pos 0
unfolding int32
int32_wraps n lo hi = ground arith

-- SetLimit with a limit from 2^31 to 2^32 - 1 stores a negative limit, and TryAcquire then refuses
-- every request, also when nothing is in flight.
pub huge_limit_refuses :
    (n : ℕ) (s : PreciseStrategy)
    → two_31 ≤ n
    → n < 4294967296
    → pos 0 ≤ℤ s.in_flight
    → (get_limit (set_limit (pos n) s) <ℤ pos 0)
      × ((try_acquire (set_limit (pos n) s)).0 ≡ set_limit (pos n) s)
      × ((try_acquire (set_limit (pos n) s)).2 ≡ false)
unfolding try_acquire set_limit get_limit
huge_limit_refuses n s lo hi busy = ground (arith, int32_wraps n lo hi)
