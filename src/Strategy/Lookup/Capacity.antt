-- ===== src/Strategy/Lookup/Capacity.antt =====
-- How many tokens LookupPartitionStrategy can have out.
use Prim.Native.String.{String}
use go_concurrency_limits.Base.{
  ℕ, ◌+◌, ◌≤◌, ◌<◌, ◌≡◌, refl, Bool, false, Option, none, some, List, [], ◌∷◌, arith, get_elem?,
  inl, inr, total, get_elem?-in_range, if◌then◌else◌, Option-cases, ltb, ap, ◌∙◌,
}
use native.Mathlib.Decide.{dec_lt}
use go_concurrency_limits.Base.Int.{pos, pos_part, two_31}
use go_concurrency_limits.Strategy.Lookup.Partition.{LookupPartition}
use go_concurrency_limits.Strategy.Lookup.{
  LookupPartitionStrategy, bin_of, acquire_from, try_acquire, release_partition,
}
use go_concurrency_limits.Strategy.Lookup.Accounts.{
  Wf, acquire_from_cases, bin_of_in_heap, bumped-Wf, bumped-excess, dropped-Wf, excess, share,
  total-used-le, used,
}

-- A call by a client, which gives back only a token that it has of that partition.
pub data Call : Type 0 where
  acquires : String → Call
  releases : ℕ → Call

module _ {F : Type 0} where
  abbrev holds_token : List (LookupPartition F) → ℕ → Bool
  holds_token h i = elim (get_elem? h i) [ none ↦ false | some p ↦ ltb 0 (used p) ]

  unfoldable pub step : Call → LookupPartitionStrategy F → Option (LookupPartitionStrategy F)
  step (acquires name) s = elim (try_acquire s name) [ none ↦ none | some r ↦ some r.0 ]
  step (releases i) s = if holds_token s.heap i then release_partition i s else some s

  -- none is a panic in some call.
  unfoldable pub run : List Call → LookupPartitionStrategy F → Option (LookupPartitionStrategy F)
  run [] s = some s
  run (c ∷ cs) s = elim (step c s) [ none ↦ none | some s' ↦ run cs s' ]

  -- The most tokens that can be out: the limit and the limits of all partitions.
  abbrev pub capacity : LookupPartitionStrategy F → ℕ
  capacity s = pos_part s.limit + total share s.heap

  pub record IsWithin (s : LookupPartitionStrategy F) : Type 0 where
    pub wf : Wf s
    pub over : total excess s.heap ≤ pos_part s.limit

  abbrev Stepped : LookupPartitionStrategy F → Option (LookupPartitionStrategy F) → Type 0
  Stepped s o =
      (s' : LookupPartitionStrategy F) × (o ≡ some s') × IsWithin s' × (capacity s' ≡ capacity s)

  IsWithin-le : {s : LookupPartitionStrategy F} → IsWithin s → total used s.heap ≤ capacity s
  IsWithin-le {s} x = omega (arith, x.over, total-used-le s.heap)

  step_acquires :
      (s : LookupPartitionStrategy F) (name : String) (p : LookupPartition F)
      → get_elem? s.heap (bin_of s name) ≡ some p
      → step (acquires name) s ≡ some (acquire_from s (bin_of s name) p).0
  unfolding step try_acquire
  step_acquires s name p e = ground arith

  step_releases :
      (s : LookupPartitionStrategy F) (i : ℕ) (p : LookupPartition F)
      → get_elem? s.heap i ≡ some p
      → 0 < used p
      → step (releases i) s ≡ release_partition i s
  unfolding step
  step_releases s i p e h = ground arith

  step_releases_none :
      (s : LookupPartitionStrategy F) (i : ℕ)
      → ((p : LookupPartition F) → get_elem? s.heap i ≡ some p → ¬ (0 < used p))
      → step (releases i) s ≡ some s
  unfolding step
  step_releases_none s i h = elim (Option-cases (get_elem? s.heap i)) [
    | inl e ↦ ground arith
    | inr (p, e) ↦ ground (arith, h p e)
  ]

  acquire-Stepped :
      (s : LookupPartitionStrategy F) (name : String)
      → IsWithin s
      → capacity s + 1 < two_31
      → Stepped s (step (acquires name) s)
  acquire-Stepped s name x room =
      let i = bin_of s name in
      let (p, e) = get_elem?-in_range s.heap i (bin_of_in_heap s name x.wf) in
      let small : total used s.heap + 1 < two_31 = omega (arith, IsWithin-le x) in
      elim (acquire_from_cases s i p) [
        | inl (same, _, _, _) ↦ (s, step_acquires s name p e ∙ ap some same, x, refl)
        | inr (more, _, less) ↦
            let b = bumped-excess s i p e x.wf small less x.over in
            (
              _,
              step_acquires s name p e ∙ ap some more,
              record { wf = bumped-Wf s i p e x.wf small; over = b.0 },
              ap (◌+◌ (pos_part s.limit)) b.1,
            )
      ]

  release_held-Stepped :
      (s : LookupPartitionStrategy F) (i : ℕ) (p : LookupPartition F)
      → get_elem? s.heap i ≡ some p
      → 0 < used p
      → IsWithin s
      → Stepped s (step (releases i) s)
  release_held-Stepped s i p e h x =
      let (s', q, w, u, o, t, l) = dropped-Wf s i p e x.wf h in
      (
        s',
        step_releases s i p e h ∙ q,
        record { wf = w; over = ground (arith, x.over) },
        ground arith,
      )

  release-Stepped :
      (s : LookupPartitionStrategy F) (i : ℕ) → IsWithin s → Stepped s (step (releases i) s)
  release-Stepped s i x = elim (Option-cases (get_elem? s.heap i)) [
    | inl e ↦ (s, step_releases_none s i (λ p q. absurd (ground arith)), x, refl)
    | inr (p, e) ↦ elim (dec_lt 0 (used p)) [
      | yes h ↦ release_held-Stepped s i p e h x
      | no h ↦ (s, step_releases_none s i (λ q r. ground arith), x, refl)
    ]
  ]

  step-Stepped :
      (c : Call) (s : LookupPartitionStrategy F)
      → IsWithin s
      → capacity s + 1 < two_31
      → Stepped s (step c s)
  step-Stepped (acquires name) s x room = acquire-Stepped s name x room
  step-Stepped (releases i) s x room = release-Stepped s i x

  -- From a state whose counters agree, whose tokens beyond the partitions' limits are within the
  -- strategy's limit, and whose capacity is an int32, no history of acquisitions and of releases of
  -- held tokens panics; afterwards the busy count is the sum of the partitions' counts, and it is at
  -- most the limit plus the limits of all partitions, which have not changed.
  pub run_capacity :
      (cs : List Call) (s : LookupPartitionStrategy F)
      → IsWithin s
      → capacity s + 1 < two_31
      → (s' : LookupPartitionStrategy F) × (run cs s ≡ some s')
        × (s'.busy ≡ pos (total used s'.heap))
        × (total used s'.heap ≤ capacity s)
        × (capacity s' ≡ capacity s)
  unfolding run
  run_capacity [] s x room = (s, refl, x.wf.counted, IsWithin-le x, refl)
  run_capacity (c ∷ cs) s x room =
      let (t, e, y, k) = step-Stepped c s x room in
      let (s', r, b, l, m) = run_capacity cs t y (omega arith) in
      (s', run_step c cs s t e ∙ r, b, omega arith, m ∙ k)
    where
      run_step :
          (c : Call) (cs : List Call) (s t : LookupPartitionStrategy F)
          → step c s ≡ some t
          → run (c ∷ cs) s ≡ run cs t
      run_step c cs s t e = rw (e, run)
