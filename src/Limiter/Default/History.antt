-- ===== src/Limiter/Default/History.antt =====
-- A DefaultLimiter and the listeners that it has handed out, through any sequence of calls.
use mathlib.Core.Option.{some-injective}
use go_concurrency_limits.Base.{
  ℕ, zero, suc, ◌+◌, ◌≤◌, ◌<◌, ◌≡◌, refl, sym, ap, subst, ◌∙◌, List, [], ◌∷◌, Option, none, some,
  arith, length, All, if◌then◌else◌, Bool-cases, Option-cases, inl, inr, ◌⊎◌,
}
use go_concurrency_limits.Base.Int.{
  ℤ, pos, negsuc, two_31, int32, int64, int32_inc, int32_dec, int64_inc, int64_dec, ◌-ℤ◌, ltb_ℤ,
  ◌≤ℤ◌, ◌<ℤ◌,
}
use go_concurrency_limits.Core.{Strategy, IsLawful, func}
use go_concurrency_limits.Limit.Interface.{Limit}
use go_concurrency_limits.Measurements.Window.{
  ImmutableSampleWindow, candidate_rtt_nanoseconds, add_sample, add_dropped_sample,
}
use go_concurrency_limits.Limiter.Default.{
  DefaultLimiter, DefaultListener, acquire, on_success, on_ignore, on_dropped, release_slot,
  close_window, update_limit, new_default_limiter, ok,
}

-- How a request ends; the clock's readings, as in on_success.
pub data Outcome : Type 0 where
  success dropped : ℤ → ℤ → Outcome
  ignored : Outcome

-- A caller acquires, or the holder of the i-th listener reports.
pub data Call (C : Type 0) : Type 0 where
  acquires : ℤ → C → Call C
  reports : ℕ → Outcome → Call C

-- The i-th element and the others.
unfoldable pub pick {ℓ} : {A : Type ℓ} → ℕ → List A → Option (A × List A)
pick i [] = none
pick zero (x ∷ xs) = some (x, xs)
pick (suc i) (x ∷ xs) = elim (pick i xs) [ none ↦ none | some (y, ys) ↦ some (y, x ∷ ys) ]

module _ (lm : Limit) (st : Strategy) where
  pub record System : Type 0 where
    pub limiter : DefaultLimiter lm st
    pub listeners : List (DefaultListener lm st)

  unfoldable pub report :
      Outcome → DefaultListener lm st → DefaultLimiter lm st → DefaultLimiter lm st
  report (success now later) h l = on_success lm st now later h l
  report (dropped now later) h l = on_dropped lm st now later h l
  report ignored h l = on_ignore lm st h l

  abbrev add_listener :
      Option (DefaultListener lm st) → List (DefaultListener lm st) → List (DefaultListener lm st)
  add_listener none hs = hs
  add_listener (some h) hs = h ∷ hs

  unfoldable pub step : Call st.Ctx → System → System
  unfolding report pick
  step (acquires now ctx) s =
      let (l, h) = acquire lm st now ctx s.limiter in
      record { limiter = l; listeners = add_listener h s.listeners }
  step (reports i o) s = elim (pick i s.listeners) [
    | none ↦ s
    | some (h, hs) ↦ record { limiter = report o h s.limiter; listeners = hs }
  ]

  unfoldable pub run : List (Call st.Ctx) → System → System
  run [] s = s
  run (c ∷ cs) s = run cs (step c s)

  -- What every report does, whichever it is: it gives one slot back.
  module _ (law : IsLawful st) where
    open law use {busy, bound, refused, granted, released, resized}

    -- The token of a listener is one that was granted.
    abbrev pub IsGranted : DefaultListener lm st → Type 0
    IsGranted h = (k : st.Handle) × (h.token.release_func ≡ func k)

    abbrev pub clamp : ℤ → ℤ
    clamp e = int32 (if ltb_ℤ e (pos 1) then pos 1 else e)

    -- n listeners are out, each counts once in the limiter and once in the strategy, and the
    -- strategy's limit is the algorithm's estimate.
    pub record Inv (n : ℕ) (l : DefaultLimiter lm st) : Type 0 where
      pub in_flight : l.in_flight ≡ pos n
      pub busy_count : busy l.strategy ≡ pos n
      pub in_step : bound l.strategy ≡ clamp (lm.estimated_limit l.limit)

    release_slot-Inv :
        (n : ℕ) (h : DefaultListener lm st) (l : DefaultLimiter lm st)
        → suc n < two_31
        → IsGranted h
        → Inv (suc n) l
        → Inv n (release_slot lm st h l)
    unfolding release_slot
    release_slot-Inv n h l small (k, e) v =
        let (q, r) = released k l.strategy in ground (arith, int64_dec (suc n), int32_dec (suc n))

    close_window-Inv :
        (n : ℕ) (now : ℤ) (w : ImmutableSampleWindow) (l : DefaultLimiter lm st)
        → Inv n l
        → Inv n (close_window lm st now w l)
    unfolding close_window
    close_window-Inv n now w l v =
        let limit =
          lm.on_sample (pos 0) (candidate_rtt_nanoseconds w) w.max_in_flight w.did_drop l.limit in
        let (q, r) = resized (lm.estimated_limit limit) l.strategy in
        record { in_flight = v.in_flight; busy_count = q ∙ v.busy_count; in_step = r }

    update_limit-Inv :
        (n : ℕ) (now : ℤ) (w : ImmutableSampleWindow) (h : DefaultListener lm st)
        (l : DefaultLimiter lm st)
        → Inv n l
        → Inv n (update_limit lm st now w h l)
    unfolding update_limit
    update_limit-Inv n now w h l v = ground (arith, close_window-Inv n now w l v)

    -- Whatever the outcome, a report takes one listener off both counts, and the strategy's limit is
    -- still the estimate.
    pub report-Inv :
        (n : ℕ) (o : Outcome) (h : DefaultListener lm st) (l : DefaultLimiter lm st)
        → suc n < two_31
        → IsGranted h
        → Inv (suc n) l
        → Inv n (report o h l)
    unfolding report on_success on_ignore on_dropped
    report-Inv n (success now later) h l small g v =
        let l' = release_slot lm st h l in
        let v' = release_slot-Inv n h l small g v in
        let rtt = int64 (now -ℤ h.start_time) in
        let w = add_sample later (negsuc 0) rtt h.current_max_in_flight l'.sample in
        let u : Inv n (record l' { sample = w }) = record {
          in_flight = v'.in_flight;
          busy_count = v'.busy_count;
          in_step = v'.in_step;
        } in
        ground (arith, v', update_limit-Inv n now w h (record l' { sample = w }) u)
    report-Inv n ignored h l small g v = release_slot-Inv n h l small g v
    report-Inv n (dropped now later) h l small g v =
        let l' = release_slot lm st h l in
        let v' = release_slot-Inv n h l small g v in
        let w = add_dropped_sample later (negsuc 0) h.current_max_in_flight l'.sample in
        update_limit-Inv n now w h (record l' { sample = w })
          (record { in_flight = v'.in_flight; busy_count = v'.busy_count; in_step = v'.in_step })

    -- The outcome of an acquisition, by the strategy's answer.
    pub acquire-Inv :
        (n : ℕ) (now : ℤ) (ctx : st.Ctx) (l : DefaultLimiter lm st)
        → n + 1 < two_31
        → Inv n l
        → let r = acquire lm st now ctx l in
          ((r.1 ≡ none) × Inv n r.0)
          ⊎ ((h : DefaultListener lm st) × (r.1 ≡ some h) × IsGranted h × Inv (suc n) r.0)
    unfolding acquire
    acquire-Inv n now ctx l small v = elim (Bool-cases (st.try_acquire ctx l.strategy).2) [
      | inl e ↦
          let (q, r, k, f) = granted ctx l.strategy e in
          rw e (inr (_, refl, (k, f), ground (arith, int64_inc n, int32_inc n)))
      | inr e ↦ let q = refused ctx l.strategy e in rw e (inl (refl, ground arith))
    ]

    pick-IsGranted :
        (i : ℕ) (hs : List (DefaultListener lm st)) (h : DefaultListener lm st)
        (rest : List (DefaultListener lm st))
        → pick i hs ≡ some (h, rest)
        → All IsGranted hs
        → IsGranted h × All IsGranted rest × (length hs ≡ suc (length rest))
    unfolding pick
    pick-IsGranted i [] h rest e a = absurd (ground arith)
    pick-IsGranted zero (x ∷ xs) h rest e a =
        let q = some-injective _ _ e in
        (
          subst IsGranted (ap (λ p. p.0) q) a.0,
          subst (All IsGranted) (ap (λ p. p.1) q) a.1,
          ap (λ p. suc (length p.1)) q,
        )
    pick-IsGranted (suc i) (x ∷ xs) h rest e a = elim (Option-cases (pick i xs)) [
      | inl q ↦ absurd (ground arith)
      | inr (r, q) ↦
          let (g, b, k) = pick-IsGranted i xs r.0 r.1 q a.1 in
          let found : DefaultListener lm st × List (DefaultListener lm st) = (r.0, x ∷ r.1) in
          let t : some found ≡ some (h, rest) = ground arith in
          let u = some-injective _ _ t in
          (
            subst IsGranted (ap (λ p. p.0) u) g,
            subst (All IsGranted) (ap (λ p. p.1) u) (a.0, b),
            ap suc k ∙ ap (λ p. suc (length p.1)) u,
          )
    ]

    pub record SystemInv (s : System) : Type 0 where
      pub counts : Inv (length s.listeners) s.limiter
      pub tokens : All IsGranted s.listeners

    abbrev Next : System → System → Type 0
    Next s t = SystemInv t × (length t.listeners ≤ length s.listeners + 1)

    -- Every call keeps the accounts.
    pub step-SystemInv :
        (c : Call st.Ctx) (s : System)
        → length s.listeners + 1 < two_31
        → SystemInv s
        → Next s (step c s)
    unfolding step
    step-SystemInv (acquires now ctx) s small v =
        elim (acquire-Inv (length s.listeners) now ctx s.limiter small v.counts) [
          | inl (e, w) ↦ rw e (record { counts = w; tokens = v.tokens }, omega arith)
          | inr (h, e, g, w) ↦ rw e (record { counts = w; tokens = (g, v.tokens) }, omega arith)
        ]
    step-SystemInv (reports i o) s small v = elim (Option-cases (pick i s.listeners)) [
      | inl e ↦
          let q : step (reports i o) s ≡ s = rw (e, step) in subst (Next s) (sym q) (v, omega arith)
      | inr (r, e) ↦
          let (g, b, k) = pick-IsGranted i s.listeners r.0 r.1 e v.tokens in
          let w =
            report-Inv (length r.1) o r.0 s.limiter (omega arith) g
              (subst (λ n. Inv n s.limiter) k v.counts) in
          let t : System = record { limiter = report o r.0 s.limiter; listeners = r.1 } in
          let q : step (reports i o) s ≡ t = rw (e, step) in
          subst (Next s) (sym q) (record { counts = w; tokens = b }, omega arith)
    ]

    -- From a state where what follows holds (as after the constructor) and after any sequence of
    -- acquisitions and reports, with fewer than 2^31 calls and listeners, the limiter's in-flight
    -- count and the strategy's busy count are both the number of listeners that are out, and the
    -- strategy's limit is the algorithm's current estimate raised to at least 1 and converted to an int32.
    pub run-SystemInv :
        (cs : List (Call st.Ctx)) (s : System)
        → length s.listeners + length cs < two_31
        → SystemInv s
        → let t = run cs s in
          (t.limiter.in_flight ≡ pos (length t.listeners))
          × (busy t.limiter.strategy ≡ pos (length t.listeners))
          × (bound t.limiter.strategy ≡ clamp (lm.estimated_limit t.limiter.limit))
    unfolding run
    run-SystemInv [] s small v = (v.counts.in_flight, v.counts.busy_count, v.counts.in_step)
    run-SystemInv (c ∷ cs) s small v =
        let (w, k) = step-SystemInv c s (omega arith) v in
        run-SystemInv cs (step c s) (omega arith) w

    -- The constructor's result is such a state, if the strategy has no token out.
    pub new_default_limiter-SystemInv :
        (now : ℤ) (l : lm.State) (min_w max_w threshold size : ℤ) (s : st.State)
        (d : DefaultLimiter lm st)
        → new_default_limiter lm st now (some l) min_w max_w threshold size (some s) ≡ ok d
        → busy s ≡ pos 0
        → SystemInv (record { limiter = d; listeners = [] })
          × (pos 0 <ℤ d.min_window_time)
          × (d.min_window_time ≤ℤ d.max_window_time)
          × (pos 10 ≤ℤ d.window_size)
    unfolding new_default_limiter
    new_default_limiter-SystemInv now l min_w max_w threshold size s d e free =
        let (q, r) = resized (lm.estimated_limit l) s in
        (
          record {
            counts = record {
              in_flight = ground arith;
              busy_count = ground arith;
              in_step = ground arith;
            };
            tokens = tt;
          },
          ground arith,
          ground arith,
          ground arith,
        )
