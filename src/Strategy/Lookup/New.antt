-- ===== src/Strategy/Lookup/New.antt =====
-- What NewLookupPartitionStrategyWithMetricRegistry builds.
use Prim.Native.String.{String}
use go_concurrency_limits.Base.{
  ℕ, ◌≤◌, ◌≡◌, refl, sym, ◌∙◌, ap, subst, some, List, [], ◌∷◌, ◌++◌, arith, length, get_elem?, set,
  All, All-set, All-append, All-get_elem?, get_elem?-lt, length-set, length-append, Option-cases,
  inl, inr, total,
}
use go_concurrency_limits.Base.Int.{ℤ, pos}
use go_concurrency_limits.Base.Float.{Float64}
use go_concurrency_limits.Strategy.Lookup.Partition.{
  LookupPartition, update_limit, new_lookup_partition,
}
use go_concurrency_limits.Strategy.Lookup.{
  LookupPartitionStrategy, ok, init_bins, finish_new, new_lookup_partition_strategy,
}
use go_concurrency_limits.Strategy.Lookup.Accounts.{used, excess, IsCount, InHeap}
use go_concurrency_limits.Strategy.Lookup.Capacity.{IsWithin}

-- A partition that the caller has just made.
abbrev pub IsFresh : {F : Type 0} → LookupPartition F → Type 0
IsFresh p = p.busy ≡ pos 0

module _ (fl : Float64) where
  open fl use {F, of_int, fadd}

  -- The loop keeps the heap's size and the counts, and has found every pointer of the map.
  init_bins_lem :
      (l : ℤ) (sum : F) (m : List (String × ℕ)) (h : List (LookupPartition F))
      (r : F × List (LookupPartition F))
      → init_bins fl l sum m h ≡ some r
      → All IsFresh h
      → All IsFresh r.1 × (length r.1 ≡ length h) × All (InHeap (length h)) m
  unfolding init_bins
  init_bins_lem l sum [] h r e a = ground arith
  init_bins_lem l sum ((k, i) ∷ m) h r e a = elim (Option-cases (get_elem? h i)) [
    | inl q ↦ absurd (ground arith)
    | inr (v, q) ↦
        let w = update_limit fl l v in
        let fresh : IsFresh w = unfold update_limit in All-get_elem? IsFresh h i v q a in
        let size = length-set h i w in
        let (b, c, d) =
          init_bins_lem l (fadd sum v.percent) m (set h i w) r (ground arith)
            (All-set IsFresh h i w a fresh) in
        (b, c ∙ size, (get_elem?-lt h i v q, subst (λ n. All (InHeap n) m) size d))
  ]

  -- The strategy that the constructor returns from the partitions as the loop leaves them.
  abbrev pub built : List (String × ℕ) → ℤ → List (LookupPartition F) → LookupPartitionStrategy F
  built m l h = record {
    heap = h ++ (new_lookup_partition "<unknown>" (fl.of_int (pos 0)) l ∷ []);
    partitions = m;
    unknown_partition = length h;
    busy = pos 0;
    limit = l;
  }

  finish_new_lem :
      (m : List (String × ℕ)) (l : ℤ) (r : F × List (LookupPartition F))
      {s : LookupPartitionStrategy F}
      → finish_new fl m l r ≡ ok s
      → s ≡ built m l r.1
  unfolding finish_new
  finish_new_lem m l (sum, h) e = ground arith

  pub new_lem :
      (h : List (LookupPartition F)) (m : List (String × ℕ)) (l : ℤ) {s : LookupPartitionStrategy F}
      → new_lookup_partition_strategy fl h m l ≡ ok s
      → All IsFresh h
      → (h' : List (LookupPartition F)) × (s ≡ built m l h')
        × All IsFresh h'
        × All (InHeap (length h')) m
  unfolding new_lookup_partition_strategy
  new_lem h m l e a = elim (Option-cases (init_bins fl l (fl.of_int (pos 0)) m h)) [
    | inl q ↦ absurd (ground arith)
    | inr (r, q) ↦
        let (b, c, d) = init_bins_lem l _ m h r q a in
        (r.1, finish_new_lem m l r (ground arith), b, subst (λ n. All (InHeap n) m) (sym c) d)
  ]

  InHeap-mono : (m : List (String × ℕ)) (a b : ℕ) → a ≤ b → All (InHeap a) m → All (InHeap b) m
  InHeap-mono [] a b h k = tt
  InHeap-mono (e ∷ m) a b h k = (omega arith, InHeap-mono m a b h k.1)

  IsFresh-used :
      (h : List (LookupPartition F))
      → All IsFresh h
      → (total used h ≡ 0) × All IsCount h × (total excess h ≡ 0)
  IsFresh-used [] a = (refl, tt, refl)
  IsFresh-used (p ∷ h) a = let (u, c, x) = IsFresh-used h a.1 in ground arith

  built-Wf :
      (m : List (String × ℕ)) (l : ℤ) (h : List (LookupPartition F))
      → All IsFresh h
      → All (InHeap (length h)) m
      → IsWithin (built m l h)
  unfolding new_lookup_partition
  built-Wf m l h a k =
      let u = new_lookup_partition "<unknown>" (fl.of_int (pos 0)) l in
      let fresh : All IsFresh (built m l h).heap = All-append IsFresh h (u ∷ []) a (refl, tt) in
      let (t, c, x) = IsFresh-used (built m l h).heap fresh in
      let size = length-append h (u ∷ []) in
      record {
        wf = record {
          counted = ap pos (sym t);
          counts = c;
          small = omega arith;
          known = InHeap-mono m (length h) _ (omega arith) k;
          unknown = omega arith;
        };
        over = omega arith;
      }

  -- The constructor, given partitions with no token out, establishes the invariant of the histories:
  -- the counters agree, every pointer is good, and no partition is over its limit.
  pub new_lookup_partition_strategy-IsWithin :
      (h : List (LookupPartition F)) (m : List (String × ℕ)) (l : ℤ) {s : LookupPartitionStrategy F}
      → new_lookup_partition_strategy fl h m l ≡ ok s
      → All IsFresh h
      → IsWithin s
  new_lookup_partition_strategy-IsWithin h m l e a =
      let (h', q, b, k) = new_lem h m l e a in subst IsWithin (sym q) (built-Wf m l h' b k)

-- What no acquisition or release changes: the map, and the limit of every partition.
