-- ===== src/Strategy/Predicate/Match.antt =====
-- Which partition PredicatePartitionStrategy takes a token from, and which it removes.
use mathlib.Core.Option.{some-injective}
use go_concurrency_limits.Base.{
  ℕ, ◌≡◌, refl, sym, ap, subst, Bool, true, false, some, List, [], ◌∷◌, ◌++◌, arith, All,
  get_elem?-in_range, ◌<◌, get_elem?, ltb, length, ◌⊎◌, inl, inr, Bool-cases, Option-cases,
}
use go_concurrency_limits.Core.{StrategyToken, new_not_acquired_strategy_token}
use go_concurrency_limits.Strategy.Predicate.Partition.{PredicatePartition}
use go_concurrency_limits.Strategy.Predicate.{
  PredicatePartitionStrategy, acquire_from, acquire_first, try_acquire, split_matching,
  remove_partitions_matching,
}

-- The list is an interleaving of the two others, each in its order.
pub data Merges : List ℕ → List ℕ → List ℕ → Type 0 where
  done : Merges [] [] []
  left : (i : ℕ) (l a b : List ℕ) → Merges l a b → Merges (i ∷ l) (i ∷ a) b
  right : (i : ℕ) (l a b : List ℕ) → Merges l a b → Merges (i ∷ l) a (i ∷ b)

module _ {F C : Type 0} where
  -- The partition behind a pointer, with a predicate that answers b at the context.
  abbrev pub Answers : C → List (PredicatePartition F C) → Bool → ℕ → Type 0
  Answers ctx h b i =
      (p : PredicatePartition F C) × (get_elem? h i ≡ some p) × (p.predicate ctx ≡ b)

  -- The first pointer of a list whose partition matches.
  pub record IsFirst (ctx : C) (s : PredicatePartitionStrategy F C) (l : List ℕ)
      (r : PredicatePartitionStrategy F C × StrategyToken ℕ × Bool) : Type 0 where
    pub before : List ℕ
    pub pointer : ℕ
    pub after : List ℕ
    pub partition : PredicatePartition F C
    pub split : l ≡ before ++ (pointer ∷ after)
    pub no_earlier : All (Answers ctx s.heap false) before
    pub found : get_elem? s.heap pointer ≡ some partition
    pub matches : partition.predicate ctx ≡ true
    pub outcome : r ≡ acquire_from s pointer partition

  acquire_first_cases :
      (ctx : C) (s : PredicatePartitionStrategy F C) (l : List ℕ)
      (r : PredicatePartitionStrategy F C × StrategyToken ℕ × Bool)
      → acquire_first ctx s l ≡ some r
      → (All (Answers ctx s.heap false) l
          × (r ≡ (s, new_not_acquired_strategy_token s.busy, false)))
        ⊎ IsFirst ctx s l r
  unfolding acquire_first
  acquire_first_cases ctx s [] r e = inl (tt, sym (some-injective _ _ e))
  acquire_first_cases ctx s (i ∷ rest) r e = elim (Option-cases (get_elem? s.heap i)) [
    | inl q ↦ absurd (ground arith)
    | inr (p, q) ↦ elim (Bool-cases (p.predicate ctx)) [
      | inl yes_ ↦
          let out : some (acquire_from s i p) ≡ some r = ground arith in
          inr (record {
            before = [];
            pointer = i;
            after = rest;
            partition = p;
            split = refl;
            no_earlier = tt;
            found = q;
            matches = yes_;
            outcome = sym (some-injective _ _ out);
          })
      | inr no_ ↦
          let out : acquire_first ctx s rest ≡ some r = ground arith in
          elim (acquire_first_cases ctx s rest r out) [
            | inl (a, k) ↦ inl (((p, q, no_), a), k)
            | inr f ↦ inr (record {
              before = i ∷ f.before;
              pointer = f.pointer;
              after = f.after;
              partition = f.partition;
              split = ap (λ z. i ∷ z) f.split;
              no_earlier = ((p, q, no_), f.no_earlier);
              found = f.found;
              matches = f.matches;
              outcome = f.outcome;
            })
          ]
    ]
  ]

  acquire_first_total :
      (ctx : C) (s : PredicatePartitionStrategy F C) (l : List ℕ)
      → All (λ i. i < length s.heap) l
      → (r : PredicatePartitionStrategy F C × StrategyToken ℕ × Bool) × (acquire_first ctx s l
          ≡ some r)
  unfolding acquire_first
  acquire_first_total ctx s [] a = (_, refl)
  acquire_first_total ctx s (i ∷ rest) a =
      let (p, e) = get_elem?-in_range s.heap i a.0 in
      let (r, f) = acquire_first_total ctx s rest a.1 in
      elim (Bool-cases (p.predicate ctx)) [
        | inl q ↦ (acquire_from s i p, ground arith)
        | inr q ↦ (r, ground arith)
      ]

  -- Every pointer of the slice refers to a partition.
  abbrev pub IsClosed : PredicatePartitionStrategy F C → Type 0
  IsClosed s = All (λ i. i < length s.heap) s.partitions

  -- Over valid pointers TryAcquire returns. It refuses without a change when no predicate holds, however
  -- much of the limit is free; else the first partition whose predicate holds decides alone, also when
  -- it is full and a later one with a predicate that holds is not.
  pub try_acquire_cases :
      (ctx : C) (s : PredicatePartitionStrategy F C)
      → IsClosed s
      → (r : PredicatePartitionStrategy F C × StrategyToken ℕ × Bool) × (try_acquire ctx s ≡ some r)
        × ((All (Answers ctx s.heap false) s.partitions
              × (r ≡ (s, new_not_acquired_strategy_token s.busy, false)))
            ⊎ IsFirst ctx s s.partitions r)
  unfolding try_acquire
  try_acquire_cases ctx s closed =
      let (r, e) = acquire_first_total ctx s s.partitions closed in
      (r, e, acquire_first_cases ctx s s.partitions r e)

  split_matching_total :
      (ctx : C) (h : List (PredicatePartition F C)) (l : List ℕ)
      → All (λ i. i < length h) l
      → (r : List ℕ × List ℕ) × (split_matching ctx h l ≡ some r)
  unfolding split_matching
  split_matching_total ctx h [] a = (_, refl)
  split_matching_total ctx h (i ∷ l) a =
      let (p, e) = get_elem?-in_range h i a.0 in
      let (r, f) = split_matching_total ctx h l a.1 in
      elim (Bool-cases (p.predicate ctx)) [
        | inl q ↦ ((r.0, i ∷ r.1), ground arith)
        | inr q ↦ ((i ∷ r.0, r.1), ground arith)
      ]

  split_matching_lem :
      (ctx : C) (h : List (PredicatePartition F C)) (l kept removed : List ℕ)
      → split_matching ctx h l ≡ some (kept, removed)
      → Merges l kept removed × All (Answers ctx h false) kept × All (Answers ctx h true) removed
  unfolding split_matching
  split_matching_lem ctx h [] kept removed e =
      let q = some-injective _ _ e in
      subst (λ r. Merges [] r.0 r.1 × All (Answers ctx h false) r.0 × All (Answers ctx h true) r.1)
        q (done, tt, tt)
  split_matching_lem ctx h (i ∷ l) kept removed e = elim (Option-cases (get_elem? h i)) [
    | inl q ↦ absurd (ground arith)
    | inr (p, q) ↦ elim (Option-cases (split_matching ctx h l)) [
      | inl f ↦ absurd (ground arith)
      | inr (r, f) ↦
          let (m, a, b) = split_matching_lem ctx h l r.0 r.1 f in
          elim (Bool-cases (p.predicate ctx)) [
            | inl y ↦
                let v : List ℕ × List ℕ = (r.0, i ∷ r.1) in
                let out : some v ≡ some (kept, removed) = ground arith in
                subst
                  (λ r.
                    Merges (i ∷ l) r.0 r.1
                    × All (Answers ctx h false) r.0
                    × All (Answers ctx h true) r.1)
                  (some-injective _ _ out) (right i l r.0 r.1 m, a, ((p, q, y), b))
            | inr n ↦
                let v : List ℕ × List ℕ = (i ∷ r.0, r.1) in
                let out : some v ≡ some (kept, removed) = ground arith in
                subst
                  (λ r.
                    Merges (i ∷ l) r.0 r.1
                    × All (Answers ctx h false) r.0
                    × All (Answers ctx h true) r.1)
                  (some-injective _ _ out) (left i l r.0 r.1 m, ((p, q, n), a), b)
          ]
    ]
  ]

  -- Over valid pointers RemovePartitionsMatching returns. It divides the slice into what it keeps and
  -- what it returns, each in the order of the slice: it returns exactly the partitions whose predicate
  -- holds, and says whether there is one; nothing else changes.
  pub remove_partitions_matching_lem :
      (ctx : C) (s : PredicatePartitionStrategy F C)
      → IsClosed s
      → (kept : List ℕ) × (removed : List ℕ) × (remove_partitions_matching ctx s
          ≡ some (record s { partitions = kept }, removed, ltb 0 (length removed)))
        × Merges s.partitions kept removed
        × All (Answers ctx s.heap false) kept
        × All (Answers ctx s.heap true) removed
  unfolding remove_partitions_matching
  remove_partitions_matching_lem ctx s closed =
      let (r, e) = split_matching_total ctx s.heap s.partitions closed in
      let (m, a, b) = split_matching_lem ctx s.heap s.partitions r.0 r.1 e in
      (r.0, r.1, rw (e, remove_partitions_matching) refl, m, a, b)
