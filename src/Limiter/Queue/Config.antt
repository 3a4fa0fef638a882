-- ===== src/Limiter/Queue/Config.antt =====
-- limiter/queue_blocking.go: the configuration and its defaults, and the constructors of
-- limiter/fifo_blocking.go and limiter/lifo_blocking.go. Times are in nanoseconds; tags and the metric
-- registry are left out.
use go_concurrency_limits.Base.{ℕ, zero, suc, Bool, false, List, [], ◌∷◌, if◌then◌else◌}
use go_concurrency_limits.Base.Int.{ℤ, pos, pos_part, leb_ℤ, eqb_ℤ}
use go_concurrency_limits.Limiter.Interface.{Limiter}
use go_concurrency_limits.Limiter.Queue.{
  QueueOrdering, fifo, lifo, unordered, QueueBlockingLimiter, absent,
}

-- The value of the string field: "", "fifo", "lifo", or another string.
pub data OrderingField : Type 0 where
  empty_string fifo_string lifo_string other_string : OrderingField

pub record QueueLimiterConfig : Type 0 where
  pub ordering : OrderingField
  pub max_backlog_size : ℤ
  pub max_backlog_timeout : ℤ
  pub backlog_evict_done_ctx : Bool

abbrev pub millisecond : ℤ
millisecond = pos 1000000

abbrev default_ordering : OrderingField → OrderingField
default_ordering empty_string = lifo_string
default_ordering o = o

unfoldable pub apply_defaults : QueueLimiterConfig → QueueLimiterConfig
apply_defaults c = record {
  max_backlog_size = if leb_ℤ c.max_backlog_size (pos 0) then pos 100 else c.max_backlog_size;
  max_backlog_timeout =
      if eqb_ℤ c.max_backlog_timeout (pos 0) then pos 1000000000 else c.max_backlog_timeout;
  ordering = default_ordering c.ordering;
  backlog_evict_done_ctx = c.backlog_evict_done_ctx;
}

abbrev pub ordering_of : OrderingField → QueueOrdering
ordering_of fifo_string = fifo
ordering_of lifo_string = lifo
ordering_of _ = unordered

abbrev pub repeat : {A : Type 0} → ℕ → A → List A
repeat zero a = []
repeat (suc n) a = a ∷ repeat n a

module _ (d : Limiter) where
  -- The limiter for n goroutines. The timeout and the eviction on a done context are choices of the
  -- steps of a goroutine. The conversion to uint64 is of a positive number.
  unfoldable pub new_queue_blocking_limiter_from_config :
      QueueLimiterConfig → ℕ → d.State → QueueBlockingLimiter d
  unfolding apply_defaults
  new_queue_blocking_limiter_from_config config n delegate =
      let c = apply_defaults config in
      record {
        delegate = delegate;
        max_backlog_size = pos_part c.max_backlog_size;
        ordering = ordering_of c.ordering;
        backlog = [];
        status = repeat n absent;
      }

  unfoldable pub new_queue_blocking_limiter_with_defaults : ℕ → d.State → QueueBlockingLimiter d
  unfolding new_queue_blocking_limiter_from_config
  new_queue_blocking_limiter_with_defaults = new_queue_blocking_limiter_from_config (record {
    ordering = empty_string;
    max_backlog_size = pos 0;
    max_backlog_timeout = pos 0;
    backlog_evict_done_ctx = false;
  })

  unfoldable pub new_fifo_blocking_limiter : ℤ → ℤ → ℕ → d.State → QueueBlockingLimiter d
  unfolding new_queue_blocking_limiter_from_config
  new_fifo_blocking_limiter size timeout = new_queue_blocking_limiter_from_config (record {
    ordering = fifo_string;
    max_backlog_size = size;
    max_backlog_timeout = timeout;
    backlog_evict_done_ctx = false;
  })

  unfoldable pub new_fifo_blocking_limiter_with_defaults : ℕ → d.State → QueueBlockingLimiter d
  unfolding new_fifo_blocking_limiter
  new_fifo_blocking_limiter_with_defaults = new_fifo_blocking_limiter (pos 100) (pos 1000000000)

  -- The ordering is left to the default.
  unfoldable pub new_lifo_blocking_limiter : ℤ → ℤ → ℕ → d.State → QueueBlockingLimiter d
  unfolding new_queue_blocking_limiter_from_config
  new_lifo_blocking_limiter size timeout = new_queue_blocking_limiter_from_config (record {
    ordering = empty_string;
    max_backlog_size = size;
    max_backlog_timeout = timeout;
    backlog_evict_done_ctx = false;
  })

  unfoldable pub new_lifo_blocking_limiter_with_defaults : ℕ → d.State → QueueBlockingLimiter d
  unfolding new_lifo_blocking_limiter
  new_lifo_blocking_limiter_with_defaults = new_lifo_blocking_limiter (pos 0) (pos 0)
