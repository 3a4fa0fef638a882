-- ===== src/Tests/Pools.antt =====
-- A fixed pool of one slot with two goroutines.
use go_concurrency_limits.Base.{◌≤◌, ◌≡◌, refl, false, [], ◌∷◌, total}
use go_concurrency_limits.Base.Int.{pos, int32, int64}
use go_concurrency_limits.Limiter.Default
use go_concurrency_limits.Limiter.Queue
use go_concurrency_limits.Limiter.Queue.System
use go_concurrency_limits.Limiter.Queue.System.Invariant
use go_concurrency_limits.Limit.Fixed.{new_fixed_limit}
use go_concurrency_limits.Measurements.Window.{new_default_immutable_sample_window}
use go_concurrency_limits.Patterns.Pool
use go_concurrency_limits.Patterns.Pool.Capacity
use go_concurrency_limits.Patterns.Pool.Delegate as PoolDelegate
use go_concurrency_limits.Strategy.Precise
use go_concurrency_limits.Tests.Queues.{delegate, at_time}

abbrev made : PoolDelegate.Delegate
made = record {
  limit = record { limit = pos 1 };
  strategy = record { in_flight = pos 0; limit = pos 1 };
  min_window_time = pos 250000000;
  max_window_time = pos 500000000;
  min_rtt_threshold = pos 10000000;
  window_size = pos 100;
  in_flight = pos 0;
  sample = record {
    start_time = pos 1;
    min_rtt = pos 9223372036854775807;
    max_in_flight = pos 0;
    sample_count = pos 0;
    sum = pos 0;
    did_drop = false;
  };
  next_update_time = pos 0;
}

abbrev queue : Queue.QueueBlockingLimiter delegate
queue = record {
  delegate = made;
  max_backlog_size = 4;
  ordering = Queue.fifo;
  backlog = [];
  status = Queue.absent ∷ Queue.absent ∷ [];
}

abbrev pool : Pool.FixedPool
pool = record { limit = pos 1; ordering = Pool.ordering_fifo; limiter = Pool.queue_blocking queue }

pool_lem :
    Pool.new_fixed_pool
      (pos 1)
      Pool.ordering_fifo
      (pos 1)
      (pos 0)
      (pos 250000000)
      (pos 500000000)
      (pos 10000000)
      (pos 4)
      (pos 0)
      (tt ∷ tt ∷ [])
    ≡ Default.ok pool
unfolding Pool.new_fixed_pool Precise.set_limit Precise.new_precise_strategy int32
    new_default_immutable_sample_window
pool_lem = refl

abbrev tried : Queue.QueueBlockingLimiter delegate
tried =
    Queue.try_delegate delegate (at_time 6) 1 tt
      (Queue.try_delegate delegate (at_time 5) 0 tt queue)

trying : System.Reach delegate (System.calm delegate queue) (System.calm delegate tried)
unfolding Queue.try_delegate Default.acquire Precise.try_acquire int32 int64
trying =
    System.next (System.next System.here (System.tries (at_time 5) 0 tt refl refl))
      (System.tries (at_time 6) 1 tt refl refl)

fixed_pool_capacity_example :
    total (Invariant.is_received delegate) tried.status ≤ PoolDelegate.bound_of (pos 1)
unfolding new_fixed_limit
fixed_pool_capacity_example =
    Capacity.fixed_pool_capacity (pos 1) Pool.ordering_fifo (pos 1) (pos 0) (pos 250000000)
      (pos 500000000) (pos 10000000) (pos 4) (pos 0) (tt ∷ tt ∷ []) pool queue
      (System.calm delegate tried) pool_lem refl trying
