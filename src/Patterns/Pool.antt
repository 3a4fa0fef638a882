-- ===== src/Patterns/Pool.antt =====
-- patterns/pool/: Pool and FixedPool. Acquire only passes the call on to the limiter. The metric
-- registry and the logger are left out. Times are in nanoseconds.
pub mod Delegate
pub mod Capacity
use go_concurrency_limits.Base.{ℕ, false, Option, none, some, List, length, if◌then◌else◌}
use go_concurrency_limits.Base.Int.{ℤ, pos, ltb_ℤ, leb_ℤ}
use go_concurrency_limits.Limit.Fixed.{FixedLimit, fixed_limit, new_fixed_limit}
use go_concurrency_limits.Strategy.Precise.{new_precise_strategy}
use go_concurrency_limits.Strategy.Precise.Lawful.{precise_strategy}
use go_concurrency_limits.Limiter.Interface.{Limiter}
use go_concurrency_limits.Limiter.Default.{DefaultLimiter, Result, ok, err, new_default_limiter}
use go_concurrency_limits.Limiter.Default.Slots.{default_limiter}
use go_concurrency_limits.Limiter.Queue.{QueueBlockingLimiter}
use go_concurrency_limits.Limiter.Queue.Config.{
  QueueLimiterConfig, OrderingField, fifo_string, lifo_string,
  new_queue_blocking_limiter_from_config,
}
use go_concurrency_limits.Limiter.Blocking.{BlockingLimiter, new_blocking_limiter}

-- Any other int is treated as ordering_random.
pub data Ordering : Type 0 where
  ordering_random ordering_fifo ordering_lifo : Ordering

-- The core.Limiter of a pool.
pub data PoolLimiter (d : Limiter) : Type 0 where
  queue_blocking : QueueBlockingLimiter d → PoolLimiter d
  blocking : BlockingLimiter d → PoolLimiter d

abbrev pub at_least_zero : ℤ → ℤ
at_least_zero timeout = if ltb_ℤ timeout (pos 0) then pos 0 else timeout

abbrev pub config_for : OrderingField → ℤ → ℤ → QueueLimiterConfig
config_for ordering backlog timeout = record {
  ordering = ordering;
  max_backlog_size = backlog;
  max_backlog_timeout = timeout;
  backlog_evict_done_ctx = false;
}

module _ (d : Limiter) where
  -- The switch on the ordering, for goroutines with the contexts.
  unfoldable pub limiter_for : Ordering → ℤ → ℤ → List d.Ctx → d.State → PoolLimiter d
  unfolding new_queue_blocking_limiter_from_config new_blocking_limiter
  limiter_for ordering_fifo backlog timeout ctxs delegate = queue_blocking (
      new_queue_blocking_limiter_from_config d (config_for fifo_string backlog timeout)
        (length ctxs) delegate)
  limiter_for ordering_lifo backlog timeout ctxs delegate = queue_blocking (
      new_queue_blocking_limiter_from_config d (config_for lifo_string backlog timeout)
        (length ctxs) delegate)
  limiter_for ordering_random backlog timeout ctxs delegate =
      blocking (new_blocking_limiter d ctxs delegate)

  -- none is the error that the delegate is nil.
  unfoldable pub new_pool : Option d.State → Ordering → ℤ → ℤ → List d.Ctx → Option (PoolLimiter d)
  unfolding limiter_for
  new_pool none ordering backlog timeout ctxs = none
  new_pool (some delegate) ordering backlog timeout ctxs =
      some (limiter_for ordering backlog (at_least_zero timeout) ctxs delegate)

pub record FixedPool : Type 0 where
  pub limit : ℤ
  pub ordering : Ordering
  pub limiter : PoolLimiter (default_limiter fixed_limit)

abbrev pub default_if_negative : ℤ → ℤ → ℤ
default_if_negative default value = if ltb_ℤ value (pos 0) then default else value

-- now is the clock when the first window is made.
unfoldable pub new_fixed_pool :
    ℤ → Ordering → ℤ → ℤ → ℤ → ℤ → ℤ → ℤ → ℤ → List (Unit {0}) → Result FixedPool
unfolding new_fixed_limit new_precise_strategy new_default_limiter limiter_for
new_fixed_pool now ordering fixed size min_w max_w threshold backlog timeout ctxs =
    let made =
      new_default_limiter fixed_limit precise_strategy now (some (new_fixed_limit fixed))
        (default_if_negative (pos 250000000) min_w) (default_if_negative (pos 500000000) max_w)
        (default_if_negative (pos 10000000) threshold)
        (if leb_ℤ size (pos 0) then pos 100 else size) (some (new_precise_strategy fixed)) in
    elim made [
      | err e ↦ err e
      | ok delegate ↦ ok (record {
        limit = fixed;
        ordering = ordering;
        limiter =
            limiter_for (default_limiter fixed_limit) ordering backlog (at_least_zero timeout) ctxs
              delegate;
      })
    ]
