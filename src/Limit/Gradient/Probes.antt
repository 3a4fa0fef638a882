-- ===== src/Limit/Gradient/Probes.antt =====
-- How often GradientLimit probes.
use go_concurrency_limits.Base.{
  ℕ, suc, ◌<◌, ◌≡◌, refl, sym, ap, subst, ◌∙◌, Bool, true, false, Bool-cases, some, List, [], ◌∷◌,
  ◌++◌, arith, length, inl, inr, ◌⊎◌, none, Option-cases,
}
use go_concurrency_limits.Base.Int.{ℤ, pos, int64, int64-eq_of_Fits, ◌-ℤ◌, ◌+ℤ◌, eqb_ℤ, two_63}
use go_concurrency_limits.Base.Float.{Float64}
use go_concurrency_limits.Measurements.Averages.{minimum_reset}
use go_concurrency_limits.Limit.Gradient.{
  GradientLimit, observe, probe, next_probe_countdown, probe_disabled,
}
use go_concurrency_limits.Limit.Gradient.Steps.{
  Sample, step, run, IsKept, counted, step_due, step_early,
}

pred_lem : (n : ℕ) → pos (suc (suc n)) -ℤ pos 1 ≡ pos (suc n)
pred_lem n = ground arith

module _ (fl : Float64) where
  open fl use {F, of_int, to_int, fmax, fdiv, flt}

  enabled_lem :
      (k : ℕ) (l : GradientLimit fl)
      → l.probe_interval ≡ pos (suc k)
      → eqb_ℤ l.probe_interval probe_disabled ≡ false
  enabled_lem k l p = rw p (ground arith)

  observe-IsKept :
      (q rtt in_flight : ℤ) (d : Bool) (l : GradientLimit fl)
      → IsKept fl l (observe fl q rtt in_flight d l)
        × ((observe fl q rtt in_flight d l).reset_rtt_counter ≡ l.reset_rtt_counter)
  unfolding observe
  observe-IsKept q rtt in_flight true l =
      (record { interval = refl; queue = refl; most = refl; least = refl }, refl)
  observe-IsKept q rtt in_flight false l =
      elim (Bool-cases (flt (of_int in_flight) (fdiv l.estimated_limit (of_int (pos 2))))) [
        | inl e ↦ rw e (record { interval = refl; queue = refl; most = refl; least = refl }, refl)
        | inr e ↦ rw e (record { interval = refl; queue = refl; most = refl; least = refl }, refl)
      ]

  -- None of the samples probes: each is observed, with the queue size of its limit, and only counted.
  abbrev pub Observed : List Sample → GradientLimit fl → GradientLimit fl → Type 0
  Observed [] l before = before ≡ l
  Observed (y ∷ ys) l before =
      (q : ℤ) × (l.queue_size_func (to_int l.estimated_limit) ≡ some q)
      × Observed ys (observe fl q y.rtt y.in_flight y.did_drop (counted fl l)) before

  -- After a probe: the RTT without load is forgotten, the estimate is the greater of the least limit and
  -- the queue size of the limit before, and the counter is drawn again.
  pub record IsProbed (x : Sample) (l l' : GradientLimit fl) : Type 0 where
    pub forgotten : l'.rtt_no_load_measurement.value ≡ of_int (pos 0)
    pub estimate :
        (q : ℤ) × (l.queue_size_func (to_int l.estimated_limit) ≡ some q)
        × (l'.estimated_limit ≡ fmax (of_int l.min_limit) (of_int q))
    pub counter : l'.reset_rtt_counter ≡ int64 (l.probe_interval +ℤ x.intn l.probe_interval)

  next_lem :
      (k : ℕ) (intn : ℤ → ℤ) (z : ℤ)
      → z ≡ pos (suc k)
      → next_probe_countdown intn z ≡ some (int64 (z +ℤ intn z))
  unfolding next_probe_countdown
  next_lem k intn z e =
      subst (λ z'. next_probe_countdown intn z' ≡ some (int64 (z' +ℤ intn z'))) (sym e)
        (ground arith)

  due_lem :
      (k : ℕ) (x : Sample) (q : ℤ) (l : GradientLimit fl)
      → l.queue_size_func (to_int l.estimated_limit) ≡ some q
      → l.probe_interval ≡ pos (suc k)
      → l.reset_rtt_counter ≡ pos 1
      → (l' : GradientLimit fl) × (step fl x l ≡ some l') × IsProbed x l l'
  unfolding probe minimum_reset int64
  due_lem k x q l f p e =
      let l' : GradientLimit fl = record (counted fl l) {
        reset_rtt_counter = int64 (l.probe_interval +ℤ x.intn l.probe_interval);
        estimated_limit = fmax (of_int l.min_limit) (of_int q);
        rtt_no_load_measurement = record { value = of_int (pos 0) };
      } in
      let drawn : probe fl x.intn q (counted fl l) ≡ some l' =
        rw (next_lem k x.intn l.probe_interval p, probe) refl in
      (
        l',
        step_due fl x q l f (enabled_lem k l p) (rw e refl) ∙ drawn,
        record { forgotten = refl; estimate = (q, f, refl); counter = refl },
      )

  -- At one of the samples, after those before it, the queue size function panics.
  abbrev pub Panicked : List Sample → GradientLimit fl → Type 0
  Panicked xs l =
      (ys : List Sample) × (z : Sample) × (zs : List Sample) × (b : GradientLimit fl) × (xs
        ≡ ys ++ (z ∷ zs))
      × (run fl ys l ≡ some b)
      × (b.queue_size_func (to_int b.estimated_limit) ≡ none)

  -- The first samples are observed, and the last one is a probe.
  abbrev pub ProbesLast : List Sample → Sample → GradientLimit fl → Type 0
  ProbesLast xs x l =
      (before after : GradientLimit fl) × (run fl xs l ≡ some before)
      × (run fl (xs ++ (x ∷ [])) l ≡ some after)
      × (before.reset_rtt_counter ≡ pos 1)
      × Observed xs l before
      × IsProbed x before after

  -- An algorithm with a positive interval, whose counter is one more than the number of some samples, fewer
  -- than 2^63, observes each of these and probes at the sample that follows them: then it forgets the RTT
  -- without load, takes the greater of the least limit and the queue size as its estimate, and draws its
  -- counter again; unless at one of these samples the queue size function panics.
  pub probe_in_time :
      (xs : List Sample) (x : Sample) (k : ℕ) (l : GradientLimit fl)
      → l.probe_interval ≡ pos (suc k)
      → l.reset_rtt_counter ≡ pos (suc (length xs))
      → length xs < two_63
      → ProbesLast xs x l ⊎ Panicked (xs ++ (x ∷ [])) l
  unfolding run
  probe_in_time [] x k l p e small =
      elim (Option-cases (l.queue_size_func (to_int l.estimated_limit))) [
        | inl f ↦ inr ([], x, [], l, refl, refl, f)
        | inr (q, f) ↦
            let (l', s, h) = due_lem k x q l f p e in
            inl (l, l', refl, rw (s, run) refl, e, refl, h)
      ]
  probe_in_time (y ∷ xs) x k l p e small =
      elim (Option-cases (l.queue_size_func (to_int l.estimated_limit))) [
        | inl f ↦ inr ([], y, xs ++ (x ∷ []), l, refl, refl, f)
        | inr (q, f) ↦
            let tick : (counted fl l).reset_rtt_counter ≡ pos (suc (length xs)) =
              ap (λ z. int64 (z -ℤ pos 1)) e
              ∙ ap int64 (pred_lem (length xs))
              ∙ int64-eq_of_Fits (pos (suc (length xs))) (omega arith, omega arith) in
            let l' = observe fl q y.rtt y.in_flight y.did_drop (counted fl l) in
            let s = step_early fl y q l f (enabled_lem k l p) (rw tick (ground arith)) in
            let (kept, same) = observe-IsKept q y.rtt y.in_flight y.did_drop (counted fl l) in
            elim (probe_in_time xs x k l' (kept.interval ∙ p) (same ∙ tick) (omega arith)) [
              | inl (before, after, b, a, c, o, h) ↦
                  inl (before, after, rw (s, run) b, rw (s, run) a, c, (q, f, o), h)
              | inr (ys, z, zs, b, u, r, n) ↦
                  inr (y ∷ ys, z, zs, b, ap (λ us. y ∷ us) u, rw (s, run) r, n)
            ]
      ]
