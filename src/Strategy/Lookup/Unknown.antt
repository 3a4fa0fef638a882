-- ===== src/Strategy/Lookup/Unknown.antt =====
-- What becomes of requests that no partition of the map claims.
use Prim.Native.String.{String}
use mathlib.Core.Option.{some-injective}
use native.Mathlib.Decide.{ℕ_discrete}
use go_concurrency_limits.Base.{
  ℕ, ◌≡◌, refl, sym, ◌∙◌, ap, subst, ◌⊎◌, Bool, true, none, some, List, [], ◌∷◌, arith, length,
  get_elem?, set, All, get_elem?-set_self, get_elem?-set_ne, get_elem?-lt, get_elem?-append_length,
  Option-cases, inl, inr,
}
use go_concurrency_limits.Base.Int.{pos, at_least_one, ◌<ℤ◌}
use go_concurrency_limits.Base.Float.{Float64}
use go_concurrency_limits.Core.{StrategyToken}
use go_concurrency_limits.Strategy.Lookup.Partition.{
  LookupPartition, new_lookup_partition, partition_acquire, partition_release,
}
use go_concurrency_limits.Strategy.Lookup.{
  LookupPartitionStrategy, ok, lookup, bin_of, acquire_from, try_acquire, release_partition,
  new_lookup_partition_strategy,
}
use go_concurrency_limits.Strategy.Lookup.Accounts.{acquire_from_cases}
use go_concurrency_limits.Strategy.Lookup.Capacity.{Call, acquires, releases, step, run}
use go_concurrency_limits.Strategy.Lookup.New.{IsFresh, built, new_lem}

module _ {F : Type 0} where
  pub record Keeps (s t : LookupPartitionStrategy F) : Type 0 where
    pub partitions : t.partitions ≡ s.partitions
    pub unknown : t.unknown_partition ≡ s.unknown_partition
    pub limits :
        (i : ℕ) (p : LookupPartition F)
        → get_elem? s.heap i ≡ some p
        → (q : LookupPartition F) × (get_elem? t.heap i ≡ some q) × (q.limit ≡ p.limit)

  Keeps-refl : (s : LookupPartitionStrategy F) → Keeps s s
  Keeps-refl s = record { partitions = refl; unknown = refl; limits = λ i p e. (p, e, refl) }

  Keeps-trans : {s t u : LookupPartitionStrategy F} → Keeps s t → Keeps t u → Keeps s u
  Keeps-trans a b = record {
    partitions = b.partitions ∙ a.partitions;
    unknown = b.unknown ∙ a.unknown;
    limits = λ i p e.
        let (q, f, g) = a.limits i p e in let (r, f', g') = b.limits i q f in (r, f', g' ∙ g);
  }

  set-limits :
      (h : List (LookupPartition F)) (i : ℕ) (v w : LookupPartition F)
      → get_elem? h i ≡ some v
      → w.limit ≡ v.limit
      → (j : ℕ) (p : LookupPartition F) → get_elem? h j ≡ some p
      → (q : LookupPartition F) × (get_elem? (set h i w) j ≡ some q) × (q.limit ≡ p.limit)
  set-limits h i v w e k j p f = elim (ℕ_discrete i j) [
    | yes same ↦
        let at = get_elem?-set_self h i w (get_elem?-lt h i v e) in
        let one = some-injective _ _ (sym (subst (λ n. get_elem? h n ≡ some v) same e) ∙ f) in
        (w, subst (λ n. get_elem? (set h i w) n ≡ some w) same at, k ∙ ap (λ x. x.limit) one)
    | no other ↦ (p, get_elem?-set_ne h i j w other ∙ f, refl)
  ]

  acquire_from-Keeps :
      (s : LookupPartitionStrategy F) (i : ℕ) (p : LookupPartition F)
      → get_elem? s.heap i ≡ some p
      → Keeps s (acquire_from s i p).0
  unfolding partition_acquire
  acquire_from-Keeps s i p e = elim (acquire_from_cases s i p) [
    | inl (q, _, _, _) ↦ subst (Keeps s) (sym q) (Keeps-refl s)
    | inr (q, _, _) ↦ subst (Keeps s) (sym q) (record {
      partitions = refl;
      unknown = refl;
      limits = set-limits s.heap i p (partition_acquire p) e refl;
    })
  ]

  acquire-Keeps :
      (s t : LookupPartitionStrategy F) (name : String)
      → step (acquires name) s ≡ some t
      → Keeps s t
  unfolding step try_acquire
  acquire-Keeps s t name e = elim (Option-cases (get_elem? s.heap (bin_of s name))) [
    | inl q ↦ absurd (ground arith)
    | inr (p, q) ↦ subst (Keeps s) (ground arith) (acquire_from-Keeps s (bin_of s name) p q)
  ]

  release-Keeps :
      (s t : LookupPartitionStrategy F) (i : ℕ) → release_partition i s ≡ some t → Keeps s t
  unfolding release_partition
  release-Keeps s t i e = elim (Option-cases (get_elem? s.heap i)) [
    | inl q ↦ absurd (ground arith)
    | inr (p, q) ↦
        let same : t.heap ≡ set s.heap i (partition_release p) = ground arith in
        record {
          partitions = ground arith;
          unknown = ground arith;
          limits = λ j v f.
              let (w, g, k) =
                set-limits s.heap i p (partition_release p) q (unfold partition_release in refl) j v
                  f in
              (w, ap (λ h. get_elem? h j) same ∙ g, k);
        }
  ]

  step-Keeps : (c : Call) (s t : LookupPartitionStrategy F) → step c s ≡ some t → Keeps s t
  step-Keeps (acquires name) s t e = acquire-Keeps s t name e
  step-Keeps (releases i) s t e =
      unfold step in
      elim (release_step s t i e) [
        | inl q ↦ subst (Keeps s) q (Keeps-refl s)
        | inr q ↦ release-Keeps s t i q
      ]
    where
      release_step :
          (s t : LookupPartitionStrategy F) (i : ℕ)
          → step (releases i) s ≡ some t
          → (s ≡ t) ⊎ (release_partition i s ≡ some t)
      release_step s t i e = unfold step in ground arith

  run-Keeps : (cs : List Call) (s t : LookupPartitionStrategy F) → run cs s ≡ some t → Keeps s t
  unfolding run
  run-Keeps [] s t e = subst (Keeps s) (some-injective _ _ e) (Keeps-refl s)
  run-Keeps (c ∷ cs) s t e = elim (Option-cases (step c s)) [
    | inl q ↦ absurd (ground arith)
    | inr (u, q) ↦ Keeps-trans (step-Keeps c s u q) (run-Keeps cs u t (ground arith))
  ]

  grant_below :
      (t : LookupPartitionStrategy F) (name : String) (p : LookupPartition F)
      → get_elem? t.heap (bin_of t name) ≡ some p
      → p.busy <ℤ p.limit
      → (r : LookupPartitionStrategy F × StrategyToken ℕ × Bool) × (try_acquire t name ≡ some r)
        × (r.2 ≡ true)
  unfolding try_acquire
  grant_below t name p e less = elim (acquire_from_cases t (bin_of t name) p) [
    | inl (_, _, _, full) ↦ absurd (omega arith)
    | inr (_, yes_, _) ↦ (acquire_from t (bin_of t name) p, ground arith, yes_)
  ]

  bin_of_unknown :
      (t : LookupPartitionStrategy F) (name : String)
      → lookup name t.partitions ≡ none
      → bin_of t name ≡ t.unknown_partition
  unfolding bin_of
  bin_of_unknown t name e = ground arith

module _ (fl : Float64) where
  open fl use {F}

  built_unknown :
      (m : List (String × ℕ)) (n : ℕ) (h : List (LookupPartition F))
      → (p : LookupPartition F) × (get_elem? (built fl m (pos n) h).heap (length h) ≡ some p)
        × (p.limit ≡ pos (at_least_one n))
  unfolding new_lookup_partition
  built_unknown m n h =
      (new_lookup_partition "<unknown>" _ (pos n), get_elem?-append_length h _, ground arith)

  -- A new strategy of limit n guarantees the whole limit to requests of no partition: after any
  -- history of acquisitions and releases such a request is granted whenever fewer than max(1, n) of
  -- its kind are in flight, however many tokens the strategy has out.
  pub unknown_guaranteed :
      (h : List (LookupPartition F)) (m : List (String × ℕ)) (n : ℕ) (cs : List Call)
      (name : String) {s t : LookupPartitionStrategy F} {p : LookupPartition F}
      → new_lookup_partition_strategy fl h m (pos n) ≡ ok s
      → All IsFresh h
      → run cs s ≡ some t
      → lookup name m ≡ none
      → get_elem? t.heap t.unknown_partition ≡ some p
      → p.busy <ℤ pos (at_least_one n)
      → (r : LookupPartitionStrategy F × StrategyToken ℕ × Bool) × (try_acquire t name ≡ some r)
        × (r.2 ≡ true)
  unknown_guaranteed h m n cs name {s} {t} {p} e a ran miss at less =
      let (h', q, _, _) = new_lem fl h m (pos n) e a in
      let keeps = subst (λ x. Keeps x t) q (run-Keeps cs s t ran) in
      let (u, f, l) = built_unknown m n h' in
      let (v, g, k) = keeps.limits (length h') u f in
      let here = ap (λ i. get_elem? t.heap i) (sym keeps.unknown) ∙ at in
      let same = some-injective _ _ (sym g ∙ here) in
      let bin = bin_of_unknown t name (ap (lookup name) keeps.partitions ∙ miss) in
      let limit : p.limit ≡ pos (at_least_one n) = ap (λ x. x.limit) (sym same) ∙ k ∙ l in
      grant_below t name p (ap (λ i. get_elem? t.heap i) bin ∙ at)
        (subst (λ z. p.busy <ℤ z) (sym limit) less)
