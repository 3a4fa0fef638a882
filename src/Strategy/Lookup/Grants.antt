-- ===== src/Strategy/Lookup/Grants.antt =====
-- What TryAcquire of LookupPartitionStrategy answers, and what it counts.
use Prim.Native.String.{String}
use go_concurrency_limits.Base.{
  ℕ, ◌+◌, ◌<◌, ◌≡◌, ◌≢◌, refl, Bool, true, false, some, get_elem?, get_elem?-set_ne,
  get_elem?-in_range, inl, inr, ◌⊎◌, total,
}
use go_concurrency_limits.Base.Int.{pos, two_31, ◌≤ℤ◌, ◌<ℤ◌}
use go_concurrency_limits.Core.{StrategyToken}
use go_concurrency_limits.Strategy.Lookup.Partition.{LookupPartition, partition_acquire}
use go_concurrency_limits.Strategy.Lookup.{
  LookupPartitionStrategy, bin_of, acquire_from, try_acquire,
}
use go_concurrency_limits.Strategy.Lookup.Accounts.{
  Wf, used, bin_of_in_heap, bumped, bumped-Wf, bumped-busy, bumped-partition, acquire_from_cases,
}

module _ {F : Type 0} where
  -- Refused: nothing changes, and the strategy and the partition are both full.
  pub record IsRefused (p : LookupPartition F) (s t : LookupPartitionStrategy F) (ok : Bool)
      : Type 0 where
    pub answer : ok ≡ false
    pub same : t ≡ s
    pub full : s.limit ≤ℤ s.busy
    pub partition_full : p.limit ≤ℤ p.busy

  -- Granted: the strategy or the partition has room, and the token is counted once in the strategy and
  -- once in its partition, and in no other.
  pub record IsGranted (i : ℕ) (p : LookupPartition F) (s t : LookupPartitionStrategy F) (ok : Bool)
      : Type 0 where
    pub answer : ok ≡ true
    pub room : (s.busy <ℤ s.limit) ⊎ (p.busy <ℤ p.limit)
    pub busy : t.busy ≡ pos (total used s.heap + 1)
    pub partition :
        (p' : LookupPartition F) × (get_elem? t.heap i ≡ some p')
        × (used p' ≡ used p + 1)
        × (p'.limit ≡ p.limit)
    pub others : (j : ℕ) → i ≢ j → get_elem? t.heap j ≡ get_elem? s.heap j
    pub limit : t.limit ≡ s.limit
    pub wf : Wf t

  granted_lem :
      (s : LookupPartitionStrategy F) (i : ℕ) (p : LookupPartition F)
      → get_elem? s.heap i ≡ some p
      → Wf s
      → total used s.heap + 1 < two_31
      → (s.busy <ℤ s.limit) ⊎ (p.busy <ℤ p.limit)
      → IsGranted i p s (bumped s i p) true
  granted_lem s i p e w room less = record {
    answer = refl;
    room = less;
    busy = bumped-busy s i p e w room;
    partition = bumped-partition s i p e w room;
    others = λ j ne. get_elem?-set_ne s.heap i j (partition_acquire p) ne;
    limit = refl;
    wf = bumped-Wf s i p e w room;
  }

  -- In a well-formed strategy with fewer than 2^31 - 1 tokens out, TryAcquire does not panic. It refuses and
  -- changes nothing exactly where the strategy and the partition of the request are both full; otherwise
  -- it grants, and counts the token once in the strategy and once in that partition, and in no other.
  pub try_acquire_counts :
      (s : LookupPartitionStrategy F) (name : String)
      → Wf s
      → total used s.heap + 1 < two_31
      → (p : LookupPartition F) × (r : LookupPartitionStrategy F × StrategyToken ℕ × Bool)
        × (get_elem? s.heap (bin_of s name) ≡ some p)
        × (try_acquire s name ≡ some r)
        × (IsRefused p s r.0 r.2 ⊎ IsGranted (bin_of s name) p s r.0 r.2)
  unfolding try_acquire
  try_acquire_counts s name w room =
      let i = bin_of s name in
      let (p, e) = get_elem?-in_range s.heap i (bin_of_in_heap s name w) in
      let r = acquire_from s i p in
      (
        p,
        r,
        e,
        rw (e, try_acquire) refl,
        elim (acquire_from_cases s i p) [
          | inl (same, refusal, full, full') ↦
              inl (record { answer = refusal; same = same; full = full; partition_full = full' })
          | inr (new, grant, less) ↦ inr (rw (new, grant) (granted_lem s i p e w room less))
        ],
      )
