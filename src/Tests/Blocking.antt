-- ===== src/Tests/Blocking.antt =====
-- BlockingLimiter over DefaultLimiter at concrete calls: two goroutines, and one slot.
use go_concurrency_limits.Base.{◌≡◌, refl, true, false, [], ◌∷◌, arith}
use go_concurrency_limits.Base.Int.{pos, int32, int64}
use go_concurrency_limits.Strategy.Precise
use go_concurrency_limits.Limiter.Default
use go_concurrency_limits.Limiter.Blocking
use go_concurrency_limits.Limiter.Blocking.System
use go_concurrency_limits.Limiter.Blocking.Wakeup
use go_concurrency_limits.Tests.Queues.{delegate, one_slot, held, at_time}

abbrev start : Blocking.BlockingLimiter delegate
start = record {
  delegate = one_slot;
  notify = 0;
  closed = λ g. false;
  status = Blocking.looping tt ∷ Blocking.looping tt ∷ [];
  reports = 0;
}

-- Goroutine 0 gets the slot and goroutine 1 is refused; then goroutine 0 reports.
abbrev full : Blocking.BlockingLimiter delegate
full = Blocking.attempt delegate (at_time 6) 1 tt 0 (
    Blocking.attempt delegate (at_time 5) 0 tt 0
      (Blocking.begin delegate 1 tt false (Blocking.begin delegate 0 tt false start)))

abbrev freed : Blocking.BlockingLimiter delegate
freed = Blocking.close delegate 0 0 (
    Blocking.exchange delegate 0
      (Blocking.report delegate Blocking.success (at_time 9) 0 held full))

freeing : System.Reach delegate (System.with_timeout (pos 0)) start freed
unfolding Blocking.begin Blocking.attempt Blocking.report Blocking.exchange Blocking.close
    Default.acquire Precise.try_acquire int32 int64
freeing =
    System.next
      (System.next
        (System.next
          (System.next
            (System.next
              (System.next (System.next System.here (System.begins 0 tt false refl refl))
                (System.begins 1 tt false refl refl))
              (System.attempts (at_time 5) 0 tt 0 refl refl))
            (System.attempts (at_time 6) 1 tt 0 refl refl))
          (System.reports Blocking.success (at_time 9) 0 held refl refl))
        (System.exchanges 0 refl refl))
      (System.closes 0 0 refl refl)

no_lost_wakeup_example : freed.closed 0 ≡ true
unfolding Blocking.begin Blocking.attempt Blocking.report Blocking.exchange Blocking.close
    Default.acquire Precise.try_acquire int32 int64
no_lost_wakeup_example =
    Wakeup.no_lost_wakeup delegate 1 tt 0 0
      (record {
        at_start = ((tt, refl), ((tt, refl), tt));
        no_reports = refl;
        first_channel = refl;
      })
      freeing refl (omega arith) refl
