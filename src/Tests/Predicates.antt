-- ===== src/Tests/Predicates.antt =====
-- PredicatePartitionStrategy at concrete inputs: contexts are numbers.
use go_concurrency_limits.Base.{
  List, length, ℕ, ◌≡◌, refl, Bool, true, false, Option, some, none, [], ◌∷◌, arith, ltb, All, ◌⊎◌,
}
use go_concurrency_limits.Base.Int.{pos, int32, negsuc, ◌<ℤ◌, ◌≤ℤ◌}
use go_concurrency_limits.Core.{StrategyToken, new_not_acquired_strategy_token}
use go_concurrency_limits.Strategy.Predicate
use go_concurrency_limits.Strategy.Predicate.Partition
use go_concurrency_limits.Strategy.Predicate.Match
use go_concurrency_limits.Strategy.Predicate.Bins

abbrev State : Type 0
State = Predicate.PredicatePartitionStrategy (Option ℕ) ℕ

-- The contexts below 5, and those below 10.
abbrev strategy : State
strategy = record {
  heap =
      record {
        name = "low";
        percent = some 300;
        predicate = λ n. ltb n 5;
        limit = pos 1;
        busy = pos 0;
      }
      ∷ record {
        name = "high";
        percent = some 500;
        predicate = λ n. ltb n 10;
        limit = pos 1;
        busy = pos 0;
      }
      ∷ [];
  partitions = 0 ∷ 1 ∷ [];
  busy = pos 0;
  limit = pos 1;
}

try_acquire_cases_example :
    (r : State × StrategyToken ℕ × Bool) × (Predicate.try_acquire 7 strategy ≡ some r)
    × ((All (Match.Answers 7 strategy.heap false) strategy.partitions
          × (r ≡ (strategy, new_not_acquired_strategy_token (pos 0), false)))
        ⊎ Match.IsFirst 7 strategy strategy.partitions r)
try_acquire_cases_example = Match.try_acquire_cases 7 strategy (omega arith, (omega arith, tt))

remove_partitions_matching_lem_example :
    (kept : List ℕ) × (removed : List ℕ) × (Predicate.remove_partitions_matching 7 strategy
      ≡ some (record strategy { partitions = kept }, removed, ltb 0 (length removed)))
    × Match.Merges (0 ∷ 1 ∷ []) kept removed
    × All (Match.Answers 7 strategy.heap false) kept
    × All (Match.Answers 7 strategy.heap true) removed
remove_partitions_matching_lem_example =
    Match.remove_partitions_matching_lem 7 strategy (omega arith, (omega arith, tt))

abbrev granted : Option (State × StrategyToken ℕ × Bool) → Bool
granted none = false
granted (some r) = r.2

granted_lem : granted (Predicate.try_acquire 7 strategy) ≡ true
unfolding Predicate.try_acquire int32
granted_lem = refl

bin_busy_count_cases_example :
    ((pos 0 ≤ℤ negsuc 0)
      × (negsuc 0 <ℤ pos 2)
      × (p : Partition.PredicatePartition (Option ℕ) ℕ) × (Predicate.partition_at strategy
            (negsuc 0)
          ≡ Predicate.ok p)
      × (Predicate.bin_busy_count (negsuc 0) strategy ≡ Predicate.ok p.busy)
      × (Predicate.bin_limit (negsuc 0) strategy ≡ Predicate.ok p.limit))
    ⊎ (((pos 2 ≤ℤ negsuc 0)
          × (negsuc 0 ≤ℤ pos 3)
          × (Predicate.bin_busy_count (negsuc 0) strategy ≡ Predicate.panic)
          × (Predicate.bin_limit (negsuc 0) strategy ≡ Predicate.panic))
        ⊎ (((negsuc 0 <ℤ pos 0) ⊎ (pos 3 <ℤ negsuc 0))
            × (Predicate.bin_busy_count (negsuc 0) strategy
                ≡ Predicate.err Predicate.invalid_bin_index)
            × (Predicate.bin_limit (negsuc 0) strategy
                ≡ Predicate.err Predicate.invalid_bin_index)))
bin_busy_count_cases_example =
    Bins.bin_busy_count_cases strategy (negsuc 0) (omega arith, (omega arith, tt)) (ground arith)
