-- ===== src/Strategy/Lookup/Accounts.antt =====
-- The counters of LookupPartitionStrategy agree, and what TryAcquire and a release do to them.
use Prim.Native.String.{String}
use go_concurrency_limits.Base.{
  ℕ, subst, get_elem?-set_self, get_elem?-lt, ◌+◌, ◌-◌, ◌≤◌, ◌<◌, ◌≡◌, refl, true, false, some,
  List, [], ◌∷◌, arith, length, get_elem?, inl, inr, ◌⊎◌, set, total, total-set, total-ge,
  length-set, All, All-get_elem?, All-set, Option-cases,
}
use go_concurrency_limits.Base.Int.{
  pos, pos_part, two_31, int32, int32_inc, int32_dec, ◌≤ℤ◌, ◌<ℤ◌, ◌+ℤ◌, ◌-ℤ◌,
}
use go_concurrency_limits.Strategy.Lookup.Partition.{
  LookupPartition, partition_acquire, partition_release,
}
use go_concurrency_limits.Strategy.Lookup.{
  LookupPartitionStrategy, lookup, bin_of, acquire_from, release_partition,
}

-- A pointer of the map refers to a partition.
abbrev pub InHeap : ℕ → String × ℕ → Type 0
InHeap n e = e.1 < n

lookup-InHeap :
    (k : String) (m : List (String × ℕ)) (n p : ℕ) → All (InHeap n) m → lookup k m ≡ some p → p < n
unfolding lookup
lookup-InHeap k [] n p a e = absurd (ground arith)
lookup-InHeap k ((j, q) ∷ m) n p a e = ground (arith, lookup-InHeap k m n p a.1)

module _ {F : Type 0} where
  -- The tokens of a partition, its limit, and the tokens beyond the limit.
  abbrev pub used : LookupPartition F → ℕ
  used p = pos_part p.busy

  abbrev pub share : LookupPartition F → ℕ
  share p = pos_part p.limit

  abbrev pub excess : LookupPartition F → ℕ
  excess p = used p - share p

  -- The counter of a partition is a count.
  abbrev pub IsCount : LookupPartition F → Type 0
  IsCount p = p.busy ≡ pos (pos_part p.busy)

  pub record Wf (s : LookupPartitionStrategy F) : Type 0 where
    pub counted : s.busy ≡ pos (total used s.heap)
    pub counts : All IsCount s.heap
    pub small : total used s.heap < two_31
    pub known : All (InHeap (length s.heap)) s.partitions
    pub unknown : s.unknown_partition < length s.heap

  pub bin_of_in_heap :
      (s : LookupPartitionStrategy F) (name : String) → Wf s → bin_of s name < length s.heap
  unfolding bin_of
  bin_of_in_heap s name w = elim (Option-cases (lookup name s.partitions)) [
    | inl e ↦ rw (e, bin_of) w.unknown
    | inr (p, e) ↦ rw (e, bin_of) (lookup-InHeap name s.partitions _ p w.known e)
  ]

  total-excess-le : (h : List (LookupPartition F)) → total excess h ≤ total used h
  total-excess-le [] = omega arith
  total-excess-le (p ∷ h) = omega (arith, total-excess-le h)

  pub total-used-le : (h : List (LookupPartition F)) → total used h ≤ total excess h + total share h
  total-used-le [] = omega arith
  total-used-le (p ∷ h) = omega (arith, total-used-le h)

  -- The strategy after a grant.
  abbrev pub bumped : LookupPartitionStrategy F → ℕ → LookupPartition F → LookupPartitionStrategy F
  bumped s i p = record s {
    busy = int32 (s.busy +ℤ pos 1);
    heap = set s.heap i (partition_acquire p);
  }

  -- The two branches of TryAcquire.
  pub acquire_from_cases :
      (s : LookupPartitionStrategy F) (i : ℕ) (p : LookupPartition F)
      → let r = acquire_from s i p in
        ((r.0 ≡ s) × (r.2 ≡ false) × (s.limit ≤ℤ s.busy) × (p.limit ≤ℤ p.busy))
        ⊎ ((r.0 ≡ bumped s i p) × (r.2 ≡ true) × ((s.busy <ℤ s.limit) ⊎ (p.busy <ℤ p.limit)))
  unfolding acquire_from
  acquire_from_cases s i p = ground arith

  module _ (s : LookupPartitionStrategy F) (i : ℕ) (p : LookupPartition F)
      (e : get_elem? s.heap i ≡ some p) (w : Wf s) where
    abbrev grown : LookupPartition F
    grown = partition_acquire p

    grown-used : total used s.heap + 1 < two_31 → (used grown ≡ used p + 1) × IsCount grown
    unfolding partition_acquire
    grown-used room =
        let c = All-get_elem? IsCount s.heap i p e w.counts in
        let g = total-ge used s.heap i p e in ground (arith, int32_inc (used p))

    pub bumped-Wf : total used s.heap + 1 < two_31 → Wf (bumped s i p)
    bumped-Wf room =
        let (u, c) = grown-used room in
        let t = total-set used s.heap i grown p e in
        record {
          counted = ground (arith, int32_inc (total used s.heap));
          counts = All-set IsCount s.heap i grown w.counts c;
          small = omega arith;
          known = rw (length-set s.heap i grown) w.known;
          unknown = rw (length-set s.heap i grown) w.unknown;
        }

    bumped-used :
        total used s.heap + 1 < two_31 → total used (bumped s i p).heap ≡ total used s.heap + 1
    bumped-used room =
        let (u, c) = grown-used room in let t = total-set used s.heap i grown p e in omega arith

    pub bumped-partition :
        total used s.heap + 1 < two_31
        → (p' : LookupPartition F) × (get_elem? (bumped s i p).heap i ≡ some p')
          × (used p' ≡ used p + 1)
          × (p'.limit ≡ p.limit)
    unfolding partition_acquire
    bumped-partition room =
        let (u, c) = grown-used room in
        (grown, get_elem?-set_self s.heap i grown (get_elem?-lt s.heap i p e), u, refl)

    pub bumped-busy :
        total used s.heap + 1 < two_31 → (bumped s i p).busy ≡ pos (total used s.heap + 1)
    bumped-busy room =
        let c = (bumped-Wf room).counted in
        subst (λ n. (bumped s i p).busy ≡ pos n) (bumped-used room) c

    pub bumped-excess :
        total used s.heap + 1 < two_31
        → (s.busy <ℤ s.limit) ⊎ (p.busy <ℤ p.limit)
        → total excess s.heap ≤ pos_part s.limit
        → (total excess (bumped s i p).heap ≤ pos_part s.limit)
          × (total share (bumped s i p).heap ≡ total share s.heap)
    unfolding partition_acquire
    bumped-excess room less x =
        let (u, c) = grown-used room in
        let c' = All-get_elem? IsCount s.heap i p e w.counts in
        let t = total-set excess s.heap i grown p e in
        let t' = total-set share s.heap i grown p e in ground (arith, total-excess-le s.heap)

    abbrev shrunk : LookupPartition F
    shrunk = partition_release p

    -- A token of the partition is given back.
    pub dropped-Wf :
        0 < used p
        → (s' : LookupPartitionStrategy F) × (release_partition i s ≡ some s')
          × Wf s'
          × (total used s'.heap + 1 ≡ total used s.heap)
          × (total excess s'.heap ≤ total excess s.heap)
          × (total share s'.heap ≡ total share s.heap)
          × (s'.limit ≡ s.limit)
    unfolding release_partition
    dropped-Wf held =
        let c = All-get_elem? IsCount s.heap i p e w.counts in
        let g = total-ge used s.heap i p e in
        let u : (used shrunk ≡ used p - 1) × IsCount shrunk × (share shrunk ≡ share p) =
          unfold partition_release in ground (arith, int32_dec (used p) held) in
        let t = total-set used s.heap i shrunk p e in
        let t' = total-set excess s.heap i shrunk p e in
        let t'' = total-set share s.heap i shrunk p e in
        (
          record s { busy = int32 (s.busy -ℤ pos 1); heap = set s.heap i shrunk },
          ground arith,
          record {
            counted = ground (arith, int32_dec (total used s.heap));
            counts = All-set IsCount s.heap i shrunk w.counts u.1;
            small = omega arith;
            known = rw (length-set s.heap i shrunk) w.known;
            unknown = rw (length-set s.heap i shrunk) w.unknown;
          },
          omega arith,
          omega arith,
          omega arith,
          refl,
        )
