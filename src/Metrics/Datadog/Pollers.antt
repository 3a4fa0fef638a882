-- ===== src/Metrics/Datadog/Pollers.antt =====
-- The polling goroutines that Start makes, and what Stop does to them.
use go_concurrency_limits.Base.{ℕ, ◌+◌, ◌≡◌, refl, false, Option, some, none, List, [], ◌∷◌, arith}
use go_concurrency_limits.Base.Int.{ℤ, pos, ◌<ℤ◌, ◌≤ℤ◌}
use go_concurrency_limits.Base.Bytes.{Bytes}
use go_concurrency_limits.Metrics.Datadog.{
  MetricRegistry, Stop, returned, waiting, new_metric_registry, start, stop, leave, finish_stop,
  register_distribution, register_timing, register_count, register_gauge,
}

-- What the program and its goroutines do, one at a time under the registry's mutex.
pub data Call (S : Type 0) : Type 0 where
  starts stops leaves finishes : Call S
  registers_distribution registers_timing registers_count : Bytes → Call S
  registers_gauge : Bytes → S → List Bytes → Call S

module _ {S : Type 0} where
  abbrev pub after_stop : Stop S → MetricRegistry S
  after_stop (returned r) = r
  after_stop (waiting r) = r

  -- none is the end of the process by a panic.
  unfoldable pub step : Call S → MetricRegistry S → Option (MetricRegistry S)
  unfolding start stop leave finish_stop register_distribution register_timing register_count
      register_gauge
  step starts r = start r
  step stops r = some (after_stop (stop r))
  step leaves r = some (leave r)
  step finishes r = some (finish_stop r)
  step (registers_distribution id) r = some (register_distribution id r).0
  step (registers_timing id) r = some (register_timing id r).0
  step (registers_count id) r = some (register_count id r).0
  step (registers_gauge id supplier tags) r = some (register_gauge id supplier tags r)

  unfoldable pub run : List (Call S) → MetricRegistry S → Option (MetricRegistry S)
  run [] r = some r
  run (c ∷ cs) r = elim (step c r) [ none ↦ none | some r' ↦ run cs r' ]

  abbrev pub is_start : Call S → ℕ
  is_start starts = 1
  is_start _ = 0

  -- The calls of Start in a history.
  abbrev pub count_starts : List (Call S) → ℕ
  count_starts [] = 0
  count_starts (c ∷ cs) = count_starts cs + is_start c

  abbrev Polls : ℕ → MetricRegistry S → Type 0
  Polls n r = (r.pollers ≡ n) × (r.started ≡ false) × (r.stopper ≡ 0) × (pos 0 <ℤ r.poll_frequency)

  abbrev Goes : ℕ → Option (MetricRegistry S) → Type 0
  Goes n o = (r : MetricRegistry S) × (o ≡ some r) × Polls n r

  start-Goes : (n : ℕ) (r : MetricRegistry S) → Polls n r → Goes (1 + n) (start r)
  unfolding start
  start-Goes n r (p, f, s, h) =
      (record r { pollers = r.pollers + 1 }, ground arith, (omega arith, f, s, h))

  step-Goes :
      (c : Call S) (n : ℕ) (r : MetricRegistry S) → Polls n r → Goes (is_start c + n) (step c r)
  unfolding step stop leave finish_stop register_distribution register_timing register_count
      register_gauge
  step-Goes starts n r h = start-Goes n r h
  step-Goes stops n r h = (_, refl, ground arith)
  step-Goes leaves n r h = (_, refl, ground arith)
  step-Goes finishes n r h = (_, refl, ground arith)
  step-Goes (registers_distribution id) n r (p, f, s, h) = (_, refl, (omega arith, f, s, h))
  step-Goes (registers_timing id) n r (p, f, s, h) = (_, refl, (omega arith, f, s, h))
  step-Goes (registers_count id) n r (p, f, s, h) = (_, refl, (omega arith, f, s, h))
  step-Goes (registers_gauge id supplier tags) n r (p, f, s, h) = (_, refl, (omega arith, f, s, h))

  run-Goes :
      (cs : List (Call S)) (n : ℕ) (r : MetricRegistry S)
      → Polls n r
      → Goes (count_starts cs + n) (run cs r)
  unfolding run
  run-Goes [] n r (p, f, s, h) = (r, refl, (omega arith, f, s, h))
  run-Goes (c ∷ cs) n r h =
      let (r', e, h') = step-Goes c n r h in
      let (t, e', (p, f, u, k)) = run-Goes cs (is_start c + n) r' h' in
      (t, rw (e, run) e', (omega arith, f, u, k))

  new-Polls :
      {C : Type 0} (client : Option C) (prefix : Bytes) (frequency : ℤ) (r : MetricRegistry S)
      → new_metric_registry client prefix frequency ≡ some r
      → pos 0 ≤ℤ frequency
      → Polls 0 r
  unfolding new_metric_registry
  new-Polls none prefix frequency r e h = absurd (ground arith)
  new-Polls (some client) [] frequency r e h = ground arith
  new-Polls (some client) (b ∷ prefix) frequency r e h = ground arith

  -- From the constructor with a poll frequency that is not negative, and through any calls of the registry:
  -- nothing panics, the goroutines that poll are as many as the calls of Start, each of which made one and
  -- none of which was stopped, and no Stop sends anything.
  pub run_pollers :
      {C : Type 0} (client : Option C) (prefix : Bytes) (frequency : ℤ) (r : MetricRegistry S)
      (cs : List (Call S))
      → new_metric_registry client prefix frequency ≡ some r
      → pos 0 ≤ℤ frequency
      → (t : MetricRegistry S) × (run cs r ≡ some t)
        × (t.pollers ≡ count_starts cs)
        × (t.started ≡ false)
        × (stop t ≡ returned t)
  unfolding stop
  run_pollers client prefix frequency r cs e h =
      let (t, q, (p, f, s, k)) = run-Goes cs 0 r (new-Polls client prefix frequency r e h) in
      (t, q, omega arith, f, stop_lem t f)
    where
      stop_lem : (t : MetricRegistry S) → t.started ≡ false → stop t ≡ returned t
      stop_lem t f = ground arith
