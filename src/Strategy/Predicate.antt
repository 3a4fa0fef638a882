-- ===== src/Strategy/Predicate.antt =====
-- strategy/predicate_partition.go. Partitions are shared through pointers by the strategy's slice and
-- by the tokens, so they stand in a heap, a list indexed by pointer; a method called through a pointer
-- outside the heap (nil) panics. Every method runs under the strategy's mutex and is one atomic step.
pub mod Partition
pub mod Match
pub mod Bins
use go_concurrency_limits.Base.{
  ℕ, ◌+◌, Bool, true, false, not, ◌&&◌, ◌||◌, Option, none, some, List, [], ◌∷◌, ◌++◌, ltb, leb,
  ◌==◌, length, get_elem?, set, if◌then◌else◌,
}
use go_concurrency_limits.Base.Int.{
  ℤ, pos, negsuc, int32, int64, pos_part, ◌+ℤ◌, ◌-ℤ◌, ltb_ℤ, leb_ℤ, eqb_ℤ,
}
use go_concurrency_limits.Base.Float.{Float64}
use go_concurrency_limits.Core.{
  StrategyToken, new_not_acquired_strategy_token, new_acquired_strategy_token,
}
use Partition.{
  PredicatePartition, update_limit, is_limit_exceeded, partition_acquire, partition_release,
}

pub data Error : Type 0 where
  no_partitions sum_of_percentages invalid_bin_index : Error

pub data Result {ℓ} (A : Type ℓ) : Type ℓ where
  ok : A → Result A
  err : Error → Result A
  panic : Result A

pub record PredicatePartitionStrategy (F C : Type 0) : Type 0 where
  pub heap : List (PredicatePartition F C)
  pub partitions : List ℕ
  pub busy : ℤ  -- int32
  pub limit : ℤ  -- int32

abbrev pub contains : ℕ → List ℕ → Bool
contains i [] = false
contains i (j ∷ rest) = if j == i then true else contains i rest

abbrev pub map_result : {A B : Type 0} → (A → B) → Result A → Result B
map_result f (ok x) = ok (f x)
map_result f (err e) = err e
map_result f panic = panic

abbrev is_empty : List ℕ → Bool
is_empty [] = true
is_empty (i ∷ rest) = false

module _ {F C : Type 0} where
  -- The body of the loop of TryAcquire for a partition whose predicate holds.
  unfoldable pub acquire_from :
      PredicatePartitionStrategy F C
      → ℕ
      → PredicatePartition F C
      → PredicatePartitionStrategy F C × StrategyToken ℕ × Bool
  unfolding is_limit_exceeded partition_acquire
  acquire_from s i p =
      let n = int32 (s.busy +ℤ pos 1) in
      if leb_ℤ s.limit s.busy && is_limit_exceeded p
      then (s, new_not_acquired_strategy_token s.busy, false)
      else (
        record s { busy = n; heap = set s.heap i (partition_acquire p) },
        new_acquired_strategy_token n i,
        true,
      )

  -- The loop, over the rest of the slice.
  unfoldable pub acquire_first :
      C
      → PredicatePartitionStrategy F C
      → List ℕ
      → Option (PredicatePartitionStrategy F C × StrategyToken ℕ × Bool)
  unfolding acquire_from
  acquire_first ctx s [] = some (s, new_not_acquired_strategy_token s.busy, false)
  acquire_first ctx s (i ∷ rest) = elim (get_elem? s.heap i) [
    | none ↦ none
    | some p ↦
        let others = acquire_first ctx s rest in
        if p.predicate ctx then some (acquire_from s i p) else others
  ]

  unfoldable pub try_acquire :
      C
      → PredicatePartitionStrategy F C
      → Option (PredicatePartitionStrategy F C × StrategyToken ℕ × Bool)
  unfolding acquire_first
  try_acquire ctx s = acquire_first ctx s s.partitions

  -- The closure of releasePartition, with the partition that it captures.
  unfoldable pub release_partition :
      ℕ → PredicatePartitionStrategy F C → Option (PredicatePartitionStrategy F C)
  unfolding partition_release
  release_partition i s = elim (get_elem? s.heap i) [
    | none ↦ none
    | some p ↦
        some
          (record s { busy = int32 (s.busy -ℤ pos 1); heap = set s.heap i (partition_release p) })
  ]

  unfoldable pub add_partition :
      ℕ → PredicatePartitionStrategy F C → PredicatePartitionStrategy F C × Bool
  add_partition i s =
      if contains i s.partitions
      then (s, false)
      else (record s { partitions = s.partitions ++ (i ∷ []) }, true)

  -- The loop of RemovePartitionsMatching: what is kept and what is removed, in order.
  unfoldable pub split_matching :
      C → List (PredicatePartition F C) → List ℕ → Option (List ℕ × List ℕ)
  split_matching ctx h [] = some ([], [])
  split_matching ctx h (i ∷ rest) = elim (get_elem? h i) [
    | none ↦ none
    | some p ↦ elim (split_matching ctx h rest) [
      | none ↦ none
      | some r ↦ if p.predicate ctx then some (r.0, i ∷ r.1) else some (i ∷ r.0, r.1)
    ]
  ]

  unfoldable pub remove_partitions_matching :
      C → PredicatePartitionStrategy F C → Option (PredicatePartitionStrategy F C × List ℕ × Bool)
  unfolding split_matching
  remove_partitions_matching ctx s = elim (split_matching ctx s.heap s.partitions) [
    | none ↦ none
    | some r ↦ some (record s { partitions = r.0 }, r.1, ltb 0 (length r.1))
  ]

  -- s.partitions[idx]: an index out of range panics.
  unfoldable pub partition_at : PredicatePartitionStrategy F C → ℤ → Result (PredicatePartition F C)
  partition_at s (negsuc n) = panic
  partition_at s (pos n) = elim (get_elem? s.partitions n) [
    | none ↦ panic
    | some i ↦ elim (get_elem? s.heap i) [ none ↦ panic | some p ↦ ok p ]
  ]

  -- idx < 0 || idx-1 > len(s.partitions)
  unfoldable pub is_invalid_index : PredicatePartitionStrategy F C → ℤ → Bool
  is_invalid_index s idx =
      ltb_ℤ idx (pos 0) || ltb_ℤ (pos (length s.partitions)) (int64 (idx -ℤ pos 1))

  unfoldable pub bin_busy_count : ℤ → PredicatePartitionStrategy F C → Result ℤ
  unfolding is_invalid_index partition_at
  bin_busy_count idx s =
      if is_invalid_index s idx
      then err invalid_bin_index
      else map_result (λ p. p.busy) (partition_at s idx)

  unfoldable pub bin_limit : ℤ → PredicatePartitionStrategy F C → Result ℤ
  unfolding is_invalid_index partition_at
  bin_limit idx s =
      if is_invalid_index s idx
      then err invalid_bin_index
      else map_result (λ p. p.limit) (partition_at s idx)

module _ (fl : Float64) {C : Type 0} where
  open fl use {F, of_int, fadd, flt}

  unfoldable pub update_limits :
      ℤ → List ℕ → List (PredicatePartition F C) → Option (List (PredicatePartition F C))
  unfolding update_limit
  update_limits limit [] h = some h
  update_limits limit (i ∷ rest) h = elim (get_elem? h i) [
    | none ↦ none
    | some p ↦ update_limits limit rest (set h i (update_limit fl limit p))
  ]

  unfoldable pub set_limit :
      ℤ → PredicatePartitionStrategy F C → Option (PredicatePartitionStrategy F C)
  unfolding update_limits
  set_limit limit s =
      let l = int32 (if ltb_ℤ limit (pos 1) then pos 1 else limit) in
      if eqb_ℤ s.limit l
      then some (record s { limit = l })
      else elim (update_limits l s.partitions s.heap) [
        | none ↦ none
        | some h ↦ some (record s { limit = l; heap = h })
      ]

  -- The loop of the constructor: sum += v.Percent(); v.UpdateLimit(limit).
  unfoldable pub init_bins :
      ℤ → F → List ℕ → List (PredicatePartition F C) → Option (F × List (PredicatePartition F C))
  unfolding update_limit
  init_bins limit sum [] h = some (sum, h)
  init_bins limit sum (i ∷ rest) h = elim (get_elem? h i) [
    | none ↦ none
    | some p ↦ init_bins limit (fadd sum p.percent) rest (set h i (update_limit fl limit p))
  ]

  -- h holds the partitions that the caller has made.
  unfoldable pub new_predicate_partition_strategy :
      List (PredicatePartition F C) → List ℕ → ℤ → Result (PredicatePartitionStrategy F C)
  unfolding init_bins
  new_predicate_partition_strategy h partitions limit =
      if is_empty partitions
      then err no_partitions
      else elim (init_bins limit (of_int (pos 0)) partitions h) [
        | none ↦ panic
        | some r ↦
            if flt (of_int (pos 1)) r.0
            then err sum_of_percentages
            else ok (record { heap = r.1; partitions = partitions; busy = pos 0; limit = limit })
      ]
