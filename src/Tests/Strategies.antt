-- ===== src/Tests/Strategies.antt =====
-- The strategies at concrete inputs.
use Prim.Native.String.{String}
use go_concurrency_limits.Base.{
  get_elem?, ℕ, ◌≤◌, ◌≡◌, refl, true, false, List, [], ◌∷◌, Option, some, arith, total, All, Bool,
  ◌⊎◌,
}
use go_concurrency_limits.Base.Int.{pos, int32, ◌<ℤ◌}
use go_concurrency_limits.Core.{StrategyToken}
use go_concurrency_limits.Tests.Floats.{thousandths, thousandths-IsIeee}
use go_concurrency_limits.Strategy.Precise as Precise
use go_concurrency_limits.Strategy.Precise.Gauge
use go_concurrency_limits.Strategy.Precise.Wrap
use go_concurrency_limits.Strategy.Simple as Simple
use go_concurrency_limits.Strategy.Simple.Threads
use go_concurrency_limits.Strategy.Lookup
use go_concurrency_limits.Strategy.Lookup.Partition
use go_concurrency_limits.Strategy.Lookup.Accounts
use go_concurrency_limits.Strategy.Lookup.Grants
use go_concurrency_limits.Strategy.Lookup.Capacity
use go_concurrency_limits.Strategy.Lookup.Limits
use go_concurrency_limits.Strategy.Lookup.New
use go_concurrency_limits.Strategy.Lookup.Unknown

-- Two goroutines load 0, both pass the test against 1, both add: two tokens under the limit 1.
abbrev overshot : Threads.System
overshot = record {
  strategy = record { in_flight = pos 2; limit = pos 1 };
  callers = Threads.idle ∷ Threads.idle ∷ [];
  tokens = 2;
}

overshooting : Threads.Reach 1 (Threads.init 1 2) overshot
unfolding Simple.new_simple_strategy Simple.add_in_flight Simple.is_full int32
overshooting =
    Threads.next
      (Threads.next
        (Threads.next
          (Threads.next
            (Threads.next (Threads.next Threads.here (Threads.load 0 refl refl))
              (Threads.load 1 refl refl))
            (Threads.pass 0 (pos 0) refl refl refl))
          (Threads.pass 1 (pos 0) refl refl refl))
        (Threads.add 0 refl refl))
      (Threads.add 1 refl refl)

overshoot_bounded_example : (Simple.get_busy_count overshot.strategy ≡ pos 2) × (3 ≤ 3)
overshoot_bounded_example =
    Threads.overshoot_bounded 1 1 2 (omega arith) (omega arith) (omega arith) (omega arith)
      overshooting

abbrev calls : List Gauge.Call
calls = Gauge.acquires ∷ Gauge.resizes 2 ∷ Gauge.acquires ∷ Gauge.acquires ∷ Gauge.releases ∷ []

calls_answer : (Gauge.session_run calls (Gauge.new_session 1)).tokens ≡ 1
unfolding Gauge.session_run Gauge.session_step Precise.new_precise_strategy Precise.try_acquire
    Precise.release_handler Precise.set_limit int32
calls_answer = refl

session_run_capped_example :
    let c = Gauge.session_run calls (Gauge.new_session 1) in
    (Precise.get_busy_count c.strategy ≡ pos c.tokens) × (c.tokens ≤ 2)
session_run_capped_example =
    Gauge.session_run_capped 2 1 calls (omega arith) (omega arith) (omega arith)
      (tt, (omega arith, (tt, (tt, (tt, tt)))))

abbrev started : Gauge.Session
started = record { tokens = 1; strategy = record { in_flight = pos 1; limit = pos 3 } }

abbrev gauge : Gauge.Gauge
gauge = record { held = 1; bound = 3 }

started-Refines : Gauge.Refines started gauge
started-Refines = record {
  tokens = refl;
  in_flight = refl;
  limit = refl;
  held_small = omega arith;
  bound_small = omega arith;
}

session_run-Refines_example :
    Gauge.Refines (Gauge.session_run calls started) (Gauge.gauge_run calls gauge)
session_run-Refines_example =
    Gauge.session_run-Refines calls started gauge (tt, (omega arith, (tt, (tt, (tt, tt)))))
      started-Refines

abbrev F : Type 0
F = Option ℕ

-- Two partitions, of 30% and 50%, as the caller makes them.
abbrev bins : List (Partition.LookupPartition F)
bins =
    record { name = "batch"; percent = some 300; limit = pos 1; busy = pos 0 }
    ∷ record { name = "live"; percent = some 500; limit = pos 1; busy = pos 0 }
    ∷ []

abbrev names : List (String × ℕ)
names = ("batch", 0) ∷ ("live", 1) ∷ []

-- The strategy of limit 4 over them, and what it is with six tokens out.
abbrev fresh : Lookup.LookupPartitionStrategy F
fresh = record {
  heap =
      record { name = "batch"; percent = some 300; limit = pos 2; busy = pos 0 }
      ∷ record { name = "live"; percent = some 500; limit = pos 2; busy = pos 0 }
      ∷ record { name = "<unknown>"; percent = some 0; limit = pos 4; busy = pos 0 }
      ∷ [];
  partitions = names;
  unknown_partition = 2;
  busy = pos 0;
  limit = pos 4;
}

abbrev acquisitions : List Capacity.Call
acquisitions =
    Capacity.acquires "live"
    ∷ Capacity.acquires "live"
    ∷ Capacity.acquires "live"
    ∷ Capacity.acquires "live"
    ∷ Capacity.acquires "live"
    ∷ Capacity.acquires "batch"
    ∷ []

abbrev crowded : Lookup.LookupPartitionStrategy F
crowded = record fresh {
  heap =
      record { name = "batch"; percent = some 300; limit = pos 2; busy = pos 1 }
      ∷ record { name = "live"; percent = some 500; limit = pos 2; busy = pos 4 }
      ∷ record { name = "<unknown>"; percent = some 0; limit = pos 4; busy = pos 0 }
      ∷ [];
  busy = pos 5;
}

fresh_lem : Lookup.new_lookup_partition_strategy thousandths bins names (pos 4) ≡ Lookup.ok fresh
unfolding Lookup.new_lookup_partition_strategy int32
fresh_lem = refl

crowded_lem : Capacity.run acquisitions fresh ≡ some crowded
unfolding Capacity.run Capacity.step Lookup.try_acquire Lookup.acquire_from int32
crowded_lem = refl

fresh-IsWithin : Capacity.IsWithin fresh
fresh-IsWithin =
    New.new_lookup_partition_strategy-IsWithin thousandths bins names (pos 4) fresh_lem
      (refl, (refl, tt))

new_lookup_partition_strategy-IsWithin_example : Capacity.IsWithin fresh
new_lookup_partition_strategy-IsWithin_example =
    New.new_lookup_partition_strategy-IsWithin thousandths bins names (pos 4) fresh_lem
      (refl, (refl, tt))

run_capacity_example :
    (s : Lookup.LookupPartitionStrategy F) × (Capacity.run acquisitions fresh ≡ some s)
    × (s.busy ≡ pos (total Accounts.used s.heap))
    × (total Accounts.used s.heap ≤ 12)
    × (Capacity.capacity s ≡ 12)
run_capacity_example = Capacity.run_capacity acquisitions fresh fresh-IsWithin (omega arith)

try_acquire_counts_example :
    (p : Partition.LookupPartition F) × (r : Lookup.LookupPartitionStrategy F
      × StrategyToken ℕ
      × Bool)
    × (get_elem? fresh.heap (Lookup.bin_of fresh "live") ≡ some p)
    × (Lookup.try_acquire fresh "live" ≡ some r)
    × (Grants.IsRefused p fresh r.0 r.2
        ⊎ Grants.IsGranted (Lookup.bin_of fresh "live") p fresh r.0 r.2)
try_acquire_counts_example = Grants.try_acquire_counts fresh "live" fresh-IsWithin.wf (omega arith)

unknown_guaranteed_example :
    (r : Lookup.LookupPartitionStrategy F × StrategyToken ℕ × Bool) × (Lookup.try_acquire crowded
        "other"
      ≡ some r)
    × (r.2 ≡ true)
unknown_guaranteed_example =
    Unknown.unknown_guaranteed thousandths bins names 4 acquisitions "other" {s = fresh}
      {t = crowded} fresh_lem (refl, (refl, tt)) crowded_lem (unfold Lookup.lookup in refl) refl
      (omega arith)

abbrev widened : Lookup.LookupPartitionStrategy F
widened = record fresh {
  heap =
      record { name = "batch"; percent = some 300; limit = pos 3; busy = pos 0 }
      ∷ record { name = "live"; percent = some 500; limit = pos 4; busy = pos 0 }
      ∷ record { name = "<unknown>"; percent = some 0; limit = pos 4; busy = pos 0 }
      ∷ [];
  limit = pos 8;
}

widened_lem : Lookup.set_limit thousandths (pos 8) fresh ≡ some widened
unfolding Lookup.set_limit int32
widened_lem = refl

set_limit-IsShare_example :
    (pos 8 ≡ pos 8)
    × All (λ e. Limits.Shares thousandths thousandths-IsIeee 8 widened.heap e.1) names
set_limit-IsShare_example =
    Limits.set_limit-IsShare thousandths thousandths-IsIeee 8 fresh widened (omega arith)
      ((refl, refl), ((refl, refl), ((refl, refl), tt))) (ground arith) widened_lem

huge_limit_refuses_example :
    let s : Precise.PreciseStrategy = record { in_flight = pos 0; limit = pos 5 } in
    (Precise.get_limit (Precise.set_limit (pos 2147483648) s) <ℤ pos 0)
    × ((Precise.try_acquire (Precise.set_limit (pos 2147483648) s)).0
        ≡ Precise.set_limit (pos 2147483648) s)
    × ((Precise.try_acquire (Precise.set_limit (pos 2147483648) s)).2 ≡ false)
huge_limit_refuses_example =
    Wrap.huge_limit_refuses 2147483648 (record { in_flight = pos 0; limit = pos 5 }) (omega arith)
      (omega arith) (omega arith)
