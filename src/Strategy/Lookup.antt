-- ===== src/Strategy/Lookup.antt =====
-- strategy/lookup_partition.go. Partitions are shared through pointers: the map, the unknown
-- partition and the tokens all refer to them, so they stand in a heap, a list indexed by pointer. A
-- pointer outside the heap stands for nil, and a method called on it panics (none). Every method
-- runs under the strategy's mutex and is one atomic step.
pub mod Partition
pub mod Accounts
pub mod Capacity
pub mod Grants
pub mod Limits
pub mod New
pub mod Unknown
use text.Mathlib.Text.{◌==◌ as str_eq}
use Prim.Native.String.{String}
use go_concurrency_limits.Base.{
  ℕ, ◌≡◌, Bool, true, false, not, ◌&&◌, Option, none, some, List, [], ◌∷◌, ◌++◌, length, get_elem?,
  set, if◌then◌else◌,
}
use go_concurrency_limits.Base.Int.{ℤ, pos, int32, ◌+ℤ◌, ◌-ℤ◌, ltb_ℤ, leb_ℤ, eqb_ℤ}
use go_concurrency_limits.Base.Float.{Float64}
use go_concurrency_limits.Core.{
  StrategyToken, new_not_acquired_strategy_token, new_acquired_strategy_token,
}
use Partition.{
  LookupPartition, new_lookup_partition, update_limit, is_limit_exceeded, partition_acquire,
  partition_release,
}

pub data Error : Type 0 where
  no_partitions sum_of_percentages invalid_group : Error

pub record LookupPartitionStrategy (F : Type 0) : Type 0 where
  pub heap : List (LookupPartition F)
  pub partitions : List (String × ℕ)
  pub unknown_partition : ℕ
  pub busy : ℤ  -- int32
  pub limit : ℤ  -- int32

unfoldable pub lookup : String → List (String × ℕ) → Option ℕ
lookup k [] = none
lookup k ((j, p) ∷ m) = if str_eq j k then some p else lookup k m

-- delete(m, k)
unfoldable pub delete : String → List (String × ℕ) → List (String × ℕ)
delete k [] = []
delete k ((j, p) ∷ m) = if str_eq j k then delete k m else (j, p) ∷ delete k m

-- Calls a method through a pointer; none is the panic on nil.
unfoldable pub modify :
    {F : Type 0}
    → (LookupPartition F → LookupPartition F)
    → ℕ
    → List (LookupPartition F)
    → Option (List (LookupPartition F))
modify f p h = elim (get_elem? h p) [ none ↦ none | some v ↦ some (set h p (f v)) ]

-- A result of the constructor: the strategy, its error, or the panic.
pub data Result {ℓ} (A : Type ℓ) : Type ℓ where
  ok : A → Result A
  err : Error → Result A
  panic : Result A

module _ {F : Type 0} where
  -- The partition that a request goes to.
  unfoldable pub bin_of : LookupPartitionStrategy F → String → ℕ
  unfolding lookup
  bin_of s name = elim (lookup name s.partitions) [ none ↦ s.unknown_partition | some p ↦ p ]

  -- The test and the two branches of TryAcquire, with the partition looked up.
  unfoldable pub acquire_from :
      LookupPartitionStrategy F
      → ℕ
      → LookupPartition F
      → LookupPartitionStrategy F × StrategyToken ℕ × Bool
  unfolding is_limit_exceeded partition_acquire
  acquire_from s bin p =
      let n = int32 (s.busy +ℤ pos 1) in
      if leb_ℤ s.limit s.busy && is_limit_exceeded p
      then (s, new_not_acquired_strategy_token s.busy, false)
      else (
        record s { busy = n; heap = set s.heap bin (partition_acquire p) },
        new_acquired_strategy_token n bin,
        true,
      )

  -- name is s.lookupFunc(ctx).
  unfoldable pub try_acquire :
      LookupPartitionStrategy F
      → String
      → Option (LookupPartitionStrategy F × StrategyToken ℕ × Bool)
  unfolding bin_of
  try_acquire s name = elim (get_elem? s.heap (bin_of s name)) [
    | none ↦ none
    | some p ↦ some (acquire_from s (bin_of s name) p)
  ]

  -- The closure of releasePartition, with the partition that it captures.
  unfoldable pub release_partition :
      ℕ → LookupPartitionStrategy F → Option (LookupPartitionStrategy F)
  unfolding modify partition_release
  release_partition bin s = elim (modify partition_release bin s.heap) [
    | none ↦ none
    | some h ↦ some (record s { busy = int32 (s.busy -ℤ pos 1); heap = h })
  ]

  -- partition is the pointer that the caller passes.
  unfoldable pub add_partition :
      String → ℕ → LookupPartitionStrategy F → LookupPartitionStrategy F × Bool
  unfolding lookup
  add_partition name partition s = elim (lookup name s.partitions) [
    | some p ↦ (s, false)
    | none ↦ (record s { partitions = (name, partition) ∷ s.partitions }, true)
  ]

  -- The busy count of what is removed, which its tokens keep using.
  unfoldable pub remove_partition :
      String → LookupPartitionStrategy F → Option (LookupPartitionStrategy F × ℤ × Bool)
  unfolding lookup delete
  remove_partition name s = elim (lookup name s.partitions) [
    | none ↦ some (s, pos 0, false)
    | some p ↦ elim (get_elem? s.heap p) [
      | none ↦ none
      | some v ↦ some (record s { partitions = delete name s.partitions }, v.busy, true)
    ]
  ]

  unfoldable pub bin_busy_count : String → LookupPartitionStrategy F → Result ℤ
  unfolding lookup
  bin_busy_count key s = elim (lookup key s.partitions) [
    | none ↦ err invalid_group
    | some p ↦ elim (get_elem? s.heap p) [ none ↦ panic | some v ↦ ok v.busy ]
  ]

  unfoldable pub bin_limit : String → LookupPartitionStrategy F → Result ℤ
  unfolding lookup
  bin_limit key s = elim (lookup key s.partitions) [
    | none ↦ err invalid_group
    | some p ↦ elim (get_elem? s.heap p) [ none ↦ panic | some v ↦ ok v.limit ]
  ]

module _ (fl : Float64) where
  open fl use {F, of_int, fadd, flt}

  -- for _, v := range s.partitions { v.UpdateLimit(limit) }, in the order of the list.
  unfoldable pub update_limits :
      ℤ → List (String × ℕ) → List (LookupPartition F) → Option (List (LookupPartition F))
  unfolding modify update_limit
  update_limits limit [] h = some h
  update_limits limit ((k, p) ∷ m) h = elim (modify (update_limit fl limit) p h) [
    | none ↦ none
    | some h' ↦ update_limits limit m h'
  ]

  unfoldable pub set_limit : ℤ → LookupPartitionStrategy F → Option (LookupPartitionStrategy F)
  unfolding update_limits
  set_limit limit s =
      let l = int32 (if ltb_ℤ limit (pos 1) then pos 1 else limit) in
      if eqb_ℤ s.limit l then some s else elim (update_limits l s.partitions s.heap) [
        | none ↦ none
        | some h ↦ some (record s { limit = l; heap = h })
      ]

  -- The loop of the constructor: sum += v.Percent(); v.UpdateLimit(limit).
  init_bins :
      ℤ → F → List (String × ℕ) → List (LookupPartition F) → Option (F × List (LookupPartition F))
  unfolding modify update_limit
  init_bins limit sum [] h = some (sum, h)
  init_bins limit sum ((k, p) ∷ m) h = elim (get_elem? h p) [
    | none ↦ none
    | some v ↦ init_bins limit (fadd sum v.percent) m (set h p (update_limit fl limit v))
  ]

  abbrev is_empty : List (String × ℕ) → Bool
  is_empty [] = true
  is_empty (e ∷ m) = false

  finish_new :
      List (String × ℕ) → ℤ → F × List (LookupPartition F) → Result (LookupPartitionStrategy F)
  unfolding new_lookup_partition
  finish_new m limit (sum, h) =
      if flt (of_int (pos 1)) sum
      then err sum_of_percentages
      else ok (record {
        heap = h ++ (new_lookup_partition "<unknown>" (of_int (pos 0)) limit ∷ []);
        partitions = m;
        unknown_partition = length h;
        busy = pos 0;
        limit = limit;
      })

  -- h holds the partitions that the caller has made, m is its map.
  unfoldable pub new_lookup_partition_strategy :
      List (LookupPartition F) → List (String × ℕ) → ℤ → Result (LookupPartitionStrategy F)
  unfolding init_bins finish_new
  new_lookup_partition_strategy h m limit =
      if is_empty m then err no_partitions else elim (init_bins limit (of_int (pos 0)) m h) [
        | none ↦ panic
        | some r ↦ finish_new m limit r
      ]
