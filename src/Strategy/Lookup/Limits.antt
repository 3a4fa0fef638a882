-- ===== src/Strategy/Lookup/Limits.antt =====
-- The limits that LookupPartitionStrategy gives its partitions.
use Prim.Native.String.{String}
use mathlib.Core.Option.{some-injective}
use native.Mathlib.Decide.{ℕ_discrete}
use go_concurrency_limits.Base.{
  ℕ, ◌<◌, ◌≡◌, refl, ◌∙◌, subst, ◌≢◌, some, List, [], ◌∷◌, arith, length, get_elem?, set, All,
  All-set, All-get_elem?, get_elem?-set_self, get_elem?-set_ne, get_elem?-lt, Option-cases, inl,
  inr,
}
use go_concurrency_limits.Base.Int.{
  ℤ, pos, two_31, int32-eq_of_Fits, ◌≤ℤ◌, eqb_ℤ_ne, at_least_one, int32-at_least_one,
}
use go_concurrency_limits.Base.Float.{Float64, IsIeee, Le}
use go_concurrency_limits.Strategy.Lookup.Partition.{LookupPartition, update_limit}
use go_concurrency_limits.Strategy.Lookup.{LookupPartitionStrategy, update_limits, set_limit}

module _ (fl : Float64) (ieee : IsIeee fl) where
  open fl use {F, of_int, fmax, ceil, fmul, to_int}
  open ieee use {le_trans, number_of_le, of_int_mono, max_left, max_le, mul_le, to_int_bounds}

  -- The percentage of a partition lies in [0, 1].
  abbrev pub HasPercent : LookupPartition F → Type 0
  HasPercent p = Le fl (of_int (pos 0)) p.percent × Le fl p.percent (of_int (pos 1))

  -- A partition's limit is at least 1 and, for a total limit n that is at least 1, at most n.
  abbrev pub IsShare : ℕ → LookupPartition F → Type 0
  IsShare n p = (pos 1 ≤ℤ p.limit) × (p.limit ≤ℤ pos (at_least_one n))

  update_limit-IsShare :
      (n : ℕ) (p : LookupPartition F)
      → n < two_31
      → HasPercent p
      → IsShare n (update_limit fl (pos n) p)
  unfolding update_limit
  update_limit-IsShare n p small (lo, hi) =
      let m = at_least_one n in
      let x = ceil (fmul (of_int (pos n)) p.percent) in
      let below : Le fl x (of_int (pos n)) = mul_le n p.percent small lo hi in
      let numbers = number_of_le x (of_int (pos n)) below in
      let one = number_of_le (of_int (pos 1)) (of_int (pos 1)) (of_int_mono 1 1 (omega arith)) in
      let lower = max_left (of_int (pos 1)) x one.0 numbers.0 in
      let upper =
        max_le (of_int (pos 1)) x (of_int (pos m)) (of_int_mono 1 m (ground arith))
          (le_trans x (of_int (pos n)) (of_int (pos m)) below (of_int_mono n m (ground arith))) in
      let y = to_int (fmax (of_int (pos 1)) x) in
      let (ge, le) = to_int_bounds 1 m _ (ground arith) lower upper in
      ground (arith, int32-eq_of_Fits y)

  update_limit-HasPercent :
      (l : ℤ) (p : LookupPartition F) → HasPercent p → HasPercent (update_limit fl l p)
  unfolding update_limit
  update_limit-HasPercent l p h = h

  -- The partition that a pointer refers to has a share.
  abbrev pub Shares : ℕ → List (LookupPartition F) → ℕ → Type 0
  Shares n h i = (p : LookupPartition F) × (get_elem? h i ≡ some p) × IsShare n p

  set-Shares :
      (n : ℕ) (h : List (LookupPartition F)) (i j : ℕ) (v : LookupPartition F)
      → i < length h
      → IsShare n v
      → Shares n h j
      → Shares n (set h i v) j
  set-Shares n h i j v lt s (p, e, q) = elim (ℕ_discrete i j) [
    | yes same ↦
        (v, subst (λ k. get_elem? (set h i v) k ≡ some v) same (get_elem?-set_self h i v lt), s)
    | no other ↦ (p, get_elem?-set_ne h i j v other ∙ e, q)
  ]

  -- Updating the limits through a list of pointers gives each of them its share, keeps the shares of
  -- the others, and does not touch the heap's size.
  update_limits-Shares :
      (n : ℕ) (m : List (String × ℕ)) (h h' : List (LookupPartition F))
      → n < two_31
      → All HasPercent h
      → update_limits fl (pos n) m h ≡ some h'
      → All (λ e. Shares n h' e.1) m × ((j : ℕ) → Shares n h j → Shares n h' j)
  unfolding update_limits
  update_limits-Shares n [] h h' small a e =
      (tt, λ j s. subst (λ x. Shares n x j) (some-injective _ _ e) s)
  update_limits-Shares n ((k, i) ∷ m) h h' small a e = elim (Option-cases (get_elem? h i)) [
    | inl q ↦ absurd (ground arith)
    | inr (v, q) ↦
        let w = update_limit fl (pos n) v in
        let share = update_limit-IsShare n v small (All-get_elem? HasPercent h i v q a) in
        let a' =
          All-set HasPercent h i w a
            (update_limit-HasPercent (pos n) v (All-get_elem? HasPercent h i v q a)) in
        let lt = get_elem?-lt h i v q in
        let (rest, keep) = update_limits-Shares n m (set h i w) h' small a' (ground arith) in
        (
          (keep i (w, get_elem?-set_self h i w lt, share), rest),
          λ j s. keep j (set-Shares n h i j w lt share s),
        )
  ]

  set_limit_changed :
      (n : ℕ) (s s' : LookupPartitionStrategy F)
      → n < two_31
      → s.limit ≢ pos (at_least_one n)
      → set_limit fl (pos n) s ≡ some s'
      → (h : List (LookupPartition F)) × (update_limits fl
            (pos (at_least_one n))
            s.partitions
            s.heap
          ≡ some h)
        × (s' ≡ record s { limit = pos (at_least_one n); heap = h })
  unfolding set_limit
  set_limit_changed n s s' small ne e =
      let c = int32-at_least_one n small in
      let f = eqb_ℤ_ne s.limit (pos (at_least_one n)) ne in
      elim (Option-cases (update_limits fl (pos (at_least_one n)) s.partitions s.heap)) [
        | inl q ↦ absurd (ground arith)
        | inr (h, q) ↦ (h, q, ground arith)
      ]

  -- When SetLimit changes the limit to one below 2^31, and every percentage is from 0 to 1, every partition
  -- of the map gets a limit that is at least 1 and at most the strategy's new limit.
  pub set_limit-IsShare :
      (n : ℕ) (s s' : LookupPartitionStrategy F)
      → n < two_31
      → All HasPercent s.heap
      → s.limit ≢ pos (at_least_one n)
      → set_limit fl (pos n) s ≡ some s'
      → (s'.limit ≡ pos (at_least_one n))
        × All (λ e. Shares (at_least_one n) s'.heap e.1) s'.partitions
  set_limit-IsShare n s s' small a ne e =
      let (h, q, r) = set_limit_changed n s s' small ne e in
      let m = at_least_one n in
      let shares = (update_limits-Shares m s.partitions s.heap h (ground arith) a q).0 in
      rw r (refl, shares)
