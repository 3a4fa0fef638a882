-- ===== src/Strategy/Predicate/Bins.antt =====
-- What BinBusyCount and BinLimit answer for an index.
use native.Mathlib.Decide.{dec_lt}
use go_concurrency_limits.Base.{
  zero, suc, get_elem?-lt, ℕ, ◌+◌, ◌≤◌, ◌<◌, ◌≡◌, refl, true, false, arith, length, get_elem?,
  get_elem?-in_range, ◌⊎◌, inl, inr, Option-cases, All-get_elem?,
}
use go_concurrency_limits.Base.Int.{ℤ, ◌<ℤ◌, ◌≤ℤ◌, pos, negsuc, int64-eq_of_Fits, two_63}
use go_concurrency_limits.Strategy.Predicate.Match.{IsClosed}
use go_concurrency_limits.Strategy.Predicate.Partition.{PredicatePartition}
use go_concurrency_limits.Strategy.Predicate.{
  PredicatePartitionStrategy, ok, err, panic, invalid_bin_index, bin_busy_count, bin_limit,
  is_invalid_index, partition_at,
}

module _ {F C : Type 0} where
  index_in :
      (s : PredicatePartitionStrategy F C) (n : ℕ)
      → n ≤ length s.partitions + 1
      → n < two_63
      → is_invalid_index s (pos n) ≡ false
  unfolding is_invalid_index
  index_in s zero h small = ground (arith, int64-eq_of_Fits (negsuc 0))
  index_in s (suc n) h small = ground (arith, int64-eq_of_Fits (pos n))

  index_out :
      (s : PredicatePartitionStrategy F C) (n : ℕ)
      → length s.partitions + 1 < n
      → n < two_63
      → is_invalid_index s (pos n) ≡ true
  unfolding is_invalid_index
  index_out s zero h small = absurd (omega arith)
  index_out s (suc n) h small = ground (arith, int64-eq_of_Fits (pos n))

  index_negative :
      (s : PredicatePartitionStrategy F C) (n : ℕ) → is_invalid_index s (negsuc n) ≡ true
  unfolding is_invalid_index
  index_negative s n = ground arith

  partition_in :
      (s : PredicatePartitionStrategy F C) (n : ℕ)
      → IsClosed s
      → n < length s.partitions
      → (p : PredicatePartition F C) × (partition_at s (pos n) ≡ ok p)
  unfolding partition_at
  partition_in s n closed h =
      let (i, e) = get_elem?-in_range s.partitions n h in
      let (p, f) =
        get_elem?-in_range s.heap i
          (All-get_elem? (λ j. j < length s.heap) s.partitions n i e closed) in
      (p, rw (e, f, partition_at) refl)

  partition_out :
      (s : PredicatePartitionStrategy F C) (n : ℕ)
      → length s.partitions ≤ n
      → partition_at s (pos n) ≡ panic
  unfolding partition_at
  partition_out s n h = elim (Option-cases (get_elem? s.partitions n)) [
    | inl e ↦ rw (e, partition_at) refl
    | inr (i, e) ↦ let lt = get_elem?-lt s.partitions n i e in absurd (omega arith)
  ]

  -- For an index that an int holds, where every partition of the list is one of the heap: from 0 to below
  -- the length, the partition is read; the index equal to the length and the next one pass the test of
  -- the range and panic; any other index, the negative ones included, is an error.
  pub bin_busy_count_cases :
      (s : PredicatePartitionStrategy F C) (idx : ℤ)
      → IsClosed s
      → idx <ℤ pos two_63
      → ((pos 0 ≤ℤ idx)
          × (idx <ℤ pos (length s.partitions))
          × (p : PredicatePartition F C) × (partition_at s idx ≡ ok p)
          × (bin_busy_count idx s ≡ ok p.busy)
          × (bin_limit idx s ≡ ok p.limit))
        ⊎ (((pos (length s.partitions) ≤ℤ idx)
              × (idx ≤ℤ pos (length s.partitions + 1))
              × (bin_busy_count idx s ≡ panic)
              × (bin_limit idx s ≡ panic))
            ⊎ (((idx <ℤ pos 0) ⊎ (pos (length s.partitions + 1) <ℤ idx))
                × (bin_busy_count idx s ≡ err invalid_bin_index)
                × (bin_limit idx s ≡ err invalid_bin_index)))
  unfolding bin_busy_count bin_limit
  bin_busy_count_cases s (negsuc n) closed small =
      let f = index_negative s n in inr (inr (inl (ground arith), rw f refl, rw f refl))
  bin_busy_count_cases s (pos n) closed small = elim (dec_lt n (length s.partitions)) [
    | yes h ↦
        let f = index_in s n (omega arith) (ground arith) in
        let (p, e) = partition_in s n closed h in
        inl (ground arith, ground arith, p, e, rw (f, e) refl, rw (f, e) refl)
    | no h ↦ elim (dec_lt (length s.partitions + 1) n) [
      | yes k ↦
          let f = index_out s n k (ground arith) in
          inr (inr (inr (ground arith), rw f refl, rw f refl))
      | no k ↦
          let f = index_in s n (omega arith) (ground arith) in
          let e = partition_out s n (omega arith) in
          inr (inl (ground arith, ground arith, rw (f, e) refl, rw (f, e) refl))
    ]
  ]
