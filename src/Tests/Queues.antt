-- ===== src/Tests/Queues.antt =====
-- QueueBlockingLimiter over DefaultLimiter at concrete calls: two goroutines, and one slot.
use go_concurrency_limits.Base.{
  ℕ, ◌+◌, ◌≤◌, ◌≡◌, refl, true, some, List, [], ◌∷◌, arith, length, total, All,
}
use go_concurrency_limits.Base.Int.{ℤ, pos, pos_part, int32, int64}
use go_concurrency_limits.Core.{func}
use go_concurrency_limits.Limit.Fixed.{fixed_limit}
use go_concurrency_limits.Strategy.Precise
use go_concurrency_limits.Strategy.Precise.Lawful.{precise_strategy}
use go_concurrency_limits.Limiter.Default
use go_concurrency_limits.Limiter.Default.Slots.{
  default_limiter, default_limiter-CountsSlots, GoodLimiter,
}
use go_concurrency_limits.Limiter.Interface.{Limiter, CountsSlots}
use go_concurrency_limits.Limiter.Queue
use go_concurrency_limits.Limiter.Queue.Backlog
use go_concurrency_limits.Limiter.Queue.Order
use go_concurrency_limits.Limiter.Queue.System
use go_concurrency_limits.Limiter.Queue.System.Hold
use go_concurrency_limits.Limiter.Queue.System.Invariant
use go_concurrency_limits.Limiter.Queue.Safety
use go_concurrency_limits.Limiter.Queue.Wakeup
use go_concurrency_limits.Tests.Limiters.{DefaultLimiter, limiter}

abbrev pub delegate : Limiter
delegate = default_limiter fixed_limit

abbrev pub laws : CountsSlots delegate
laws = default_limiter-CountsSlots fixed_limit

-- The default limiter of the other tests, with the limit 1.
abbrev pub one_slot : DefaultLimiter
one_slot = record limiter {
  limit = record { limit = pos 1 };
  strategy = record { in_flight = pos 0; limit = pos 1 };
}

pub one_slot-GoodLimiter : GoodLimiter fixed_limit one_slot
unfolding Precise.get_busy_count Precise.get_limit int32
one_slot-GoodLimiter = (record { in_flight = refl; busy_count = refl; in_step = refl }, omega arith)

abbrev queue : Queue.QueueBlockingLimiter delegate
queue = record {
  delegate = one_slot;
  max_backlog_size = 4;
  ordering = Queue.lifo;
  backlog = [];
  status = Queue.absent ∷ Queue.absent ∷ [];
}

queue-IsNew : Safety.IsNew delegate laws queue
queue-IsNew = record {
  good = one_slot-GoodLimiter;
  free = refl;
  unused = (refl, (refl, tt));
  empty = refl;
}

abbrev pub at_time : ℕ → ℤ × ℤ
at_time n = (pos n, pos n)

-- Goroutine 0 gets the slot, goroutine 1 is refused, pushes and selects, and is served by the report
-- of goroutine 0.
abbrev tried : Queue.QueueBlockingLimiter delegate
tried =
    Queue.try_delegate delegate (at_time 6) 1 tt
      (Queue.try_delegate delegate (at_time 5) 0 tt queue)

abbrev waiting : Queue.QueueBlockingLimiter delegate
waiting = Queue.set_status delegate 1 Queue.selecting (Queue.try_push delegate 1 tt tried)

abbrev pub held : Default.DefaultListener fixed_limit precise_strategy
held = record {
  current_max_in_flight = pos 1;
  token = record { acquired = true; in_flight_count = pos 1; release_func = func tt };
  start_time = pos 5;
  min_rtt_threshold = pos 0;
  next_update_time = pos 0;
}

abbrev served : Queue.QueueBlockingLimiter delegate
served =
    Queue.on_success delegate (at_time 9) held (Queue.set_status delegate 0 Queue.refused waiting)

-- The steps of the report: its call of the delegate, and then unblock up to each point at which others may
-- run, with the timeout of goroutine 1 before the send.
abbrev freed : System.System delegate
freed = System.report delegate System.success (at_time 9) 0 held (System.calm delegate waiting)

abbrev next_element : Queue.QueueElement Unit
next_element = record { id = 1; ctx = tt }

abbrev regranted : Default.DefaultListener fixed_limit precise_strategy
regranted = record held { start_time = pos 10 }

abbrev asked : System.System delegate
asked = System.ask delegate (at_time 10) next_element (System.look delegate 0 freed)

abbrev timed_out : System.System delegate
timed_out = record asked { limiter = Queue.set_status delegate 1 Queue.leaving asked.limiter }

abbrev sent : System.System delegate
sent = System.send delegate 1 regranted (System.remove delegate 1 regranted timed_out)

asking : System.Reach delegate (System.calm delegate queue) asked
unfolding Queue.try_delegate Queue.try_push Default.acquire Default.on_success Precise.try_acquire
    int32 int64 System.report System.look
asking =
    System.next
      (System.next
        (System.next
          (System.next
            (System.next
              (System.next (System.next System.here (System.tries (at_time 5) 0 tt refl refl))
                (System.tries (at_time 6) 1 tt refl refl))
              (System.pushes 1 tt refl refl))
            (System.selects 1 refl refl))
          (System.reports System.success (at_time 9) 0 held refl refl))
        (System.looks 0 refl refl refl))
      (System.asks (at_time 10) next_element refl refl)

sending : System.Reach delegate (System.calm delegate queue) sent
unfolding Queue.try_delegate Queue.try_push Default.acquire Default.on_success Precise.try_acquire
    int32 int64 System.ask System.look System.report Precise.release_handler System.remove
sending =
    System.next
      (System.next (System.next asking (System.expires 1 refl refl))
        (System.removes 1 regranted refl refl))
      (System.sends 1 regranted refl refl)

Reach-safe_example :
    (pos_part sent.limiter.delegate.in_flight
      ≡ Hold.in_hand delegate sent.holder
        + total (Invariant.is_received delegate) sent.limiter.status)
    × (length sent.limiter.backlog ≤ sent.limiter.max_backlog_size)
    × Backlog.Distinct sent.limiter.backlog
    × All (λ e. Backlog.Waits sent.limiter.status e.id) sent.limiter.backlog
Reach-safe_example = Safety.Reach-safe delegate laws queue-IsNew sending

served_lem :
    served.status ≡ Queue.refused ∷ Queue.received (record held { start_time = pos 9 }) ∷ []
unfolding Queue.try_delegate Queue.try_push Default.acquire Precise.try_acquire int32 int64
    Queue.on_success Default.on_success Precise.release_handler
served_lem = refl

abbrev element : ℕ → Queue.QueueElement (Unit {0})
element i = record { id = i; ctx = tt }

abbrev elements : List (Queue.QueueElement (Unit {0}))
elements = element 1 ∷ []

pop_order_example :
    (Queue.pop Queue.fifo (element 2 ∷ element 1 ∷ element 0 ∷ [])
      ≡ (element 2 ∷ element 1 ∷ [], some (element 0)))
    × (Queue.pop Queue.lifo (element 2 ∷ element 1 ∷ element 0 ∷ [])
        ≡ (element 1 ∷ element 0 ∷ [], some (element 2)))
unfolding Queue.push
pop_order_example =
    Order.pop_order elements (element 0) 2 tt
      ((λ e. ground arith, (λ e. ground arith, tt)), ((λ e. ground arith, tt), (tt, tt)))

-- Two goroutines are in the backlog and the slot is free: the newest has not reached its select.
abbrev late : Queue.QueueBlockingLimiter delegate
late = record queue {
  backlog = element 1 ∷ element 0 ∷ [];
  status = Queue.selecting ∷ Queue.arriving ∷ [];
}

unblock_lost_example :
    let t = Queue.unblock delegate (at_time 5) late in
    (t.backlog ≡ Queue.evict 1 late.backlog)
    × (t.status ≡ late.status)
    × (pos_part t.delegate.in_flight ≡ 0)
unfolding Default.acquire Precise.try_acquire int32 int64
unblock_lost_example =
    Wakeup.unblock_lost delegate laws (at_time 5) late (element 1) held one_slot-GoodLimiter
      (unfold Queue.peek in refl) refl (λ e. ground arith)
