-- ===== src/Patterns/Pool/Capacity.antt =====
-- A fixed pool never has more listeners out than its limit.
use go_concurrency_limits.Base.{
  ℕ, zero, suc, ◌≤◌, ◌≡◌, refl, sym, ap, subst, ◌∙◌, Option, none, some, List, All, total, length,
  arith, if◌then◌else◌,
}
use go_concurrency_limits.Base.Int.{ℤ, pos, pos_part, leb_ℤ}
use go_concurrency_limits.Limit.Fixed.{fixed_limit, new_fixed_limit}
use go_concurrency_limits.Strategy.Precise.{try_acquire, new_precise_strategy}
use go_concurrency_limits.Strategy.Precise.Lawful.{precise_strategy, precise_laws}
use go_concurrency_limits.Limiter.Default.{DefaultListener, new_default_limiter, Result, ok, err}
use go_concurrency_limits.Limiter.Default.History.{Inv, new_default_limiter-SystemInv}
use go_concurrency_limits.Strategy.Precise
use go_concurrency_limits.Limiter.Queue.{QueueBlockingLimiter, Status, absent}
use go_concurrency_limits.Limiter.Queue.Config.{
  QueueLimiterConfig, fifo_string, lifo_string, repeat, new_queue_blocking_limiter_from_config,
}
use go_concurrency_limits.Limiter.Queue.System.{Reach, System, calm}
use go_concurrency_limits.Limiter.Queue.System.Invariant.{is_received}
use go_concurrency_limits.Limiter.Queue.Safety.{IsNew, Reach-Good}
use go_concurrency_limits.Patterns.Pool.{
  Ordering, ordering_random, ordering_fifo, ordering_lifo, PoolLimiter, queue_blocking, blocking,
  limiter_for, FixedPool, new_fixed_pool, default_if_negative, at_least_zero, config_for,
}
use mathlib.Core.Option.{some-injective}
use go_concurrency_limits.Limiter.Default.Slots.{default_limiter}
use go_concurrency_limits.Patterns.Pool.Delegate.{bound_of, Delegate, IsCapped, capped_laws}

made-IsCapped :
    (now fixed min_w max_w threshold size : ℤ) (l : Delegate)
    → new_default_limiter fixed_limit precise_strategy now
        (some (new_fixed_limit fixed))
        min_w
        max_w
        threshold
        size
        (some (new_precise_strategy fixed))
      ≡ ok l
    → IsCapped (new_fixed_limit fixed).limit l × (pos_part l.in_flight ≡ 0)
unfolding new_default_limiter
made-IsCapped now fixed min_w max_w threshold size l e =
    let made =
      new_default_limiter-SystemInv fixed_limit precise_strategy precise_laws now
        (new_fixed_limit fixed) min_w max_w threshold size (new_precise_strategy fixed) l e
        (unfold new_precise_strategy Precise.get_busy_count in refl) in
    let v = made.0 in
    let free : pos_part l.in_flight ≡ 0 = ap pos_part v.counts.in_flight in
    (
      record {
        good = (
          subst (λ n. Inv fixed_limit precise_strategy precise_laws n l) (sym free) v.counts,
          omega arith,
        );
        limit_same = ground arith;
        capped = omega arith;
      },
      free,
    )

abbrev Queue : Type 0
Queue = QueueBlockingLimiter (default_limiter fixed_limit)

abbrev inner : PoolLimiter (default_limiter fixed_limit) → Option Queue
inner (queue_blocking q) = some q
inner (blocking b) = none

repeat-All :
    (n : ℕ)
    → All
        (λ (x : Status (Unit {0}) (DefaultListener fixed_limit precise_strategy)). x ≡ absent)
        (repeat n absent)
repeat-All zero = tt
repeat-All (suc n) = (refl, repeat-All n)

from_config-IsNew :
    (limit : ℤ) (config : QueueLimiterConfig) (n : ℕ) (l : Delegate)
    → IsCapped limit l × (pos_part l.in_flight ≡ 0)
    → IsNew
        (default_limiter fixed_limit)
        (capped_laws limit)
        (new_queue_blocking_limiter_from_config (default_limiter fixed_limit) config n l)
unfolding new_queue_blocking_limiter_from_config
from_config-IsNew limit config n l (k, free) = record {
  good = k;
  free = free;
  unused = repeat-All n;
  empty = refl;
}

limiter_for-IsNew :
    (limit : ℤ) (ordering : Ordering) (backlog timeout : ℤ) (ctxs : List (Unit {0})) (l : Delegate)
    (q : Queue)
    → IsCapped limit l × (pos_part l.in_flight ≡ 0)
    → limiter_for (default_limiter fixed_limit) ordering backlog timeout ctxs l ≡ queue_blocking q
    → IsNew (default_limiter fixed_limit) (capped_laws limit) q
unfolding limiter_for
limiter_for-IsNew limit ordering_fifo backlog timeout ctxs l q k e =
    subst (IsNew (default_limiter fixed_limit) (capped_laws limit))
      (some-injective _ _ (ap inner e))
      (from_config-IsNew limit (config_for fifo_string backlog timeout) (length ctxs) l k)
limiter_for-IsNew limit ordering_lifo backlog timeout ctxs l q k e =
    subst (IsNew (default_limiter fixed_limit) (capped_laws limit))
      (some-injective _ _ (ap inner e))
      (from_config-IsNew limit (config_for lifo_string backlog timeout) (length ctxs) l k)
limiter_for-IsNew limit ordering_random backlog timeout ctxs l q k e = absurd (ground arith)

-- A fixed pool with the FIFO or the LIFO ordering, whatever its goroutines do and in whatever order,
-- an unblock interrupted between any two of its calls included, where each call of the pool's
-- DefaultLimiter is one step: the listeners that the goroutines hold are never more than the limit of its
-- FixedLimit, or 1 where that is 0.
pub fixed_pool_capacity :
    (now : ℤ) (ordering : Ordering) (fixed size min_w max_w threshold backlog timeout : ℤ)
    (ctxs : List (Unit {0})) (pool : FixedPool) (q : Queue)
    (t : System (default_limiter fixed_limit))
    → new_fixed_pool now ordering fixed size min_w max_w threshold backlog timeout ctxs ≡ ok pool
    → pool.limiter ≡ queue_blocking q
    → Reach (default_limiter fixed_limit) (calm (default_limiter fixed_limit) q) t
    → total (is_received (default_limiter fixed_limit)) t.limiter.status
      ≤ bound_of (new_fixed_limit fixed).limit
unfolding new_fixed_pool
fixed_pool_capacity now ordering fixed size min_w max_w threshold backlog timeout ctxs pool q t e p
      r =
    let (l, made, same) = opened _ e in
    let k =
      made-IsCapped now fixed (default_if_negative (pos 250000000) min_w)
        (default_if_negative (pos 500000000) max_w) (default_if_negative (pos 10000000) threshold)
        (if leb_ℤ size (pos 0) then pos 100 else size) l made in
    let new =
      limiter_for-IsNew (new_fixed_limit fixed).limit ordering backlog (at_least_zero timeout) ctxs
        l q k (sym same ∙ p) in
    let (g, n) =
      Reach-Good (default_limiter fixed_limit) (capped_laws (new_fixed_limit fixed).limit) new r in
    let c = g.capped in omega arith
  where
    opened :
        (made : Result Delegate)
        → elim made [
          | err x ↦ err x
          | ok delegate ↦ ok (record {
            limit = fixed;
            ordering = ordering;
            limiter =
                limiter_for
                  (default_limiter fixed_limit)
                  ordering
                  backlog
                  (at_least_zero timeout)
                  ctxs
                  delegate;
          })
        ]
          ≡ ok pool
        → (l : Delegate) × (made ≡ ok l)
          × (pool.limiter
              ≡ limiter_for
                  (default_limiter fixed_limit)
                  ordering
                  backlog
                  (at_least_zero timeout)
                  ctxs
                  l)
    opened (err x) h = absurd (ground arith)
    opened (ok l) h = (l, refl, ground arith)
