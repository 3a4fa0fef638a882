-- ===== src/Limit/Gradient/Range.antt =====
-- The range of GradientLimit's estimate.
use go_concurrency_limits.Base.{
  ℕ, ◌<◌, ◌++◌, ap, ◌≡◌, refl, sym, subst, ◌∙◌, Bool, true, false, Bool-cases, some, List, [], ◌∷◌,
  ◌⊎◌, inl, inr, arith, not, ◌||◌,
}
use go_concurrency_limits.Base.Int.{ℤ, pos, two_31, ◌≤ℤ◌, leb_ℤ, eqb_ℤ}
use go_concurrency_limits.Base.Float.{Float64, IsIeee, Le, IsNan, clamp_range}
use go_concurrency_limits.Limit.Gradient.{
  GradientLimit, bounded, observe, probe, on_sample, next_probe_countdown, probe_disabled,
}
use go_concurrency_limits.Limit.Gradient.Steps.{
  Sample, step, run, IsKept, counted, step_due, step_early,
}

module _ (fl : Float64) where
  open fl use {F, of_int, to_int, fmax, fadd, fmul, fdiv, flt}

  -- The configuration: the interval of probes is one that the algorithm can draw from; the limits are at
  -- most top, and for a limit from lo to top the queue size is from lo to top.
  pub record IsBounded (lo top : ℕ) (l : GradientLimit fl) : Type 0 where
    pub drawable :
        eqb_ℤ l.probe_interval probe_disabled || not (leb_ℤ l.probe_interval (pos 0)) ≡ true
    pub queue :
        (n : ℤ)
        → pos lo ≤ℤ n
        → n ≤ℤ pos top
        → (q : ℤ) × (l.queue_size_func n ≡ some q)
          × Le fl (of_int (pos lo)) (of_int q)
          × Le fl (of_int q) (of_int (pos top))
    pub most : Le fl (of_int l.max_limit) (of_int (pos top))
    pub least : Le fl (of_int l.min_limit) (of_int (pos top))
    pub small : top < two_31

  abbrev pub Within : ℕ → ℕ → F → Type 0
  Within lo top x = Le fl (of_int (pos lo)) x × Le fl x (of_int (pos top))

  abbrev InRange : ℕ → ℕ → F → Type 0
  InRange lo top x = IsNan fl x ⊎ Within lo top x

  kept-IsBounded :
      (lo top : ℕ) (l l' : GradientLimit fl)
      → IsKept fl l l'
      → IsBounded lo top l
      → IsBounded lo top l'
  kept-IsBounded lo top l l' k b = record {
    drawable =
        subst (λ z. eqb_ℤ z probe_disabled || not (leb_ℤ z (pos 0)) ≡ true) (sym k.interval)
          b.drawable;
    queue =
        subst
          (λ f.
            (n : ℤ)
            → pos lo ≤ℤ n
            → n ≤ℤ pos top
            → (q : ℤ) × (f n ≡ some q)
              × Le fl (of_int (pos lo)) (of_int q)
              × Le fl (of_int q) (of_int (pos top)))
          (sym k.queue) b.queue;
    most = subst (λ z. Le fl (of_int z) (of_int (pos top))) (sym k.most) b.most;
    least = subst (λ z. Le fl (of_int z) (of_int (pos top))) (sym k.least) b.least;
    small = b.small;
  }

  next_cases :
      (intn : ℤ → ℤ) (z : ℤ)
      → eqb_ℤ z probe_disabled || not (leb_ℤ z (pos 0)) ≡ true
      → (n : ℤ) × (next_probe_countdown intn z ≡ some n)
  unfolding next_probe_countdown
  next_cases intn z h = elim (Bool-cases (eqb_ℤ z probe_disabled)) [
    | inl e ↦ rw e (probe_disabled, refl)
    | inr e ↦ elim (Bool-cases (leb_ℤ z (pos 0))) [
      | inl f ↦ absurd (ground arith)
      | inr f ↦ rw (e, f) (_, refl)
    ]
  ]

  module _ (ieee : IsIeee fl) where
    open ieee use {le_trans, number_of_le, max_right, max_le, to_int_bounds}

    bounded-InRange :
        (lo top : ℕ) (q : ℤ) (new : F) (l : GradientLimit fl)
        → IsBounded lo top l
        → Le fl (of_int (pos lo)) (of_int q)
        → Le fl (of_int q) (of_int (pos top))
        → InRange lo top (bounded fl q new l)
    unfolding bounded
    bounded-InRange lo top q new l b h k =
        elim (clamp_range fl ieee q l.max_limit (of_int (pos top)) _ k b.most) [
          | inl nan ↦ inl nan
          | inr (a, c) ↦ inr (le_trans _ (of_int q) _ h a, c)
        ]

    -- What a sample may come to.
    abbrev Outcome : ℕ → ℕ → GradientLimit fl → GradientLimit fl → Type 0
    Outcome lo top l l' = IsKept fl l l' × InRange lo top l'.estimated_limit

    observe-Outcome :
        (lo top : ℕ) (q rtt in_flight : ℤ) (d : Bool) (l : GradientLimit fl)
        → IsBounded lo top l
        → Le fl (of_int (pos lo)) (of_int q)
        → Le fl (of_int q) (of_int (pos top))
        → InRange lo top l.estimated_limit
        → Outcome lo top l (observe fl q rtt in_flight d l)
    unfolding observe
    observe-Outcome lo top q rtt in_flight true l b h k r = (
      record { interval = refl; queue = refl; most = refl; least = refl },
      bounded-InRange lo top q _ l b h k,
    )
    observe-Outcome lo top q rtt in_flight false l b h k r =
        elim (Bool-cases (flt (of_int in_flight) (fdiv l.estimated_limit (of_int (pos 2))))) [
          | inl e ↦ rw e (record { interval = refl; queue = refl; most = refl; least = refl }, r)
          | inr e ↦ rw e (
            record { interval = refl; queue = refl; most = refl; least = refl },
            bounded-InRange lo top q _ l b h k,
          )
        ]

    start-InRange :
        (lo top : ℕ) (q : ℤ) (l : GradientLimit fl)
        → IsBounded lo top l
        → Le fl (of_int (pos lo)) (of_int q)
        → Le fl (of_int q) (of_int (pos top))
        → InRange lo top (fmax (of_int l.min_limit) (of_int q))
    start-InRange lo top q l b h k =
        let a = (number_of_le _ _ b.least).0 in
        let c = (number_of_le _ _ k).0 in
        inr (
          le_trans _ (of_int q) _ h (max_right (of_int l.min_limit) (of_int q) a c),
          max_le _ _ (of_int (pos top)) b.least k,
        )

    probe-Outcome :
        (intn : ℤ → ℤ) (lo top : ℕ) (q : ℤ) (l : GradientLimit fl)
        → IsBounded lo top l
        → Le fl (of_int (pos lo)) (of_int q)
        → Le fl (of_int q) (of_int (pos top))
        → (l' : GradientLimit fl) × (probe fl intn q l ≡ some l') × Outcome lo top l l'
    unfolding probe
    probe-Outcome intn lo top q l b h k =
        let (n, e) = next_cases intn l.probe_interval b.drawable in
        let start = start-InRange lo top q l b h k in
        rw (e, probe)
          (_, refl, (record { interval = refl; queue = refl; most = refl; least = refl }, start))

    step-Outcome :
        (x : Sample) (lo top : ℕ) (l : GradientLimit fl)
        → IsBounded lo top l
        → Within lo top l.estimated_limit
        → (l' : GradientLimit fl) × (step fl x l ≡ some l') × Outcome lo top l l'
    unfolding step on_sample
    step-Outcome x lo top l b r =
        let (above, below) = to_int_bounds lo top l.estimated_limit b.small r.0 r.1 in
        let (q, e, h, k) = b.queue (to_int l.estimated_limit) above below in
        elim (Bool-cases (eqb_ℤ l.probe_interval probe_disabled)) [
          | inl disabled ↦
              rw (e, disabled)
                (_, refl, observe-Outcome lo top q x.rtt x.in_flight x.did_drop l b h k (inr r))
          | inr enabled ↦
              let b' =
                kept-IsBounded lo top l (counted fl l)
                  (record { interval = refl; queue = refl; most = refl; least = refl }) b in
              elim (Bool-cases (leb_ℤ (counted fl l).reset_rtt_counter (pos 0))) [
                | inl due ↦
                    let (l', p, (o, i)) = probe-Outcome x.intn lo top q (counted fl l) b' h k in
                    (
                      l',
                      step_due fl x q l e enabled due ∙ p,
                      (
                        record {
                          interval = o.interval;
                          queue = o.queue;
                          most = o.most;
                          least = o.least;
                        },
                        i,
                      ),
                    )
                | inr early ↦
                    let (o, i) =
                      observe-Outcome lo top q x.rtt x.in_flight x.did_drop (counted fl l) b' h k
                        (inr r) in
                    (
                      _,
                      step_early fl x q l e enabled early,
                      (
                        record {
                          interval = o.interval;
                          queue = o.queue;
                          most = o.most;
                          least = o.least;
                        },
                        i,
                      ),
                    )
              ]
        ]

    -- After some of the samples, with no panic, the estimate is NaN.
    abbrev pub Poisoned : List Sample → GradientLimit fl → Type 0
    Poisoned xs l =
        (ys zs : List Sample) × (l' : GradientLimit fl) × (xs ≡ ys ++ zs)
        × (run fl ys l ≡ some l')
        × IsNan fl l'.estimated_limit

    -- From an estimate between two bounds below 2^31, where the limits are at most the upper one, the
    -- queue sizes for limits between the bounds lie between them, and the interval of probes can be drawn
    -- from: through any samples the algorithm does not panic and the estimate stays between the bounds,
    -- unless after some of the samples the estimate is NaN.
    pub samples-InBounds :
        (xs : List Sample) (lo top : ℕ) (l : GradientLimit fl)
        → IsBounded lo top l
        → Within lo top l.estimated_limit
        → ((l' : GradientLimit fl) × (run fl xs l ≡ some l') × Within lo top l'.estimated_limit)
          ⊎ Poisoned xs l
    unfolding run
    samples-InBounds [] lo top l b r = inl (l, refl, r)
    samples-InBounds (x ∷ xs) lo top l b r =
        let (l', e, (k, o)) = step-Outcome x lo top l b r in
        elim o [
          | inl nan ↦ inr (x ∷ [], xs, l', refl, rw (e, run) refl, nan)
          | inr r' ↦ elim (samples-InBounds xs lo top l' (kept-IsBounded lo top l l' k b) r') [
            | inl (l'', f, w) ↦ inl (l'', rw (e, run) f, w)
            | inr (ys, zs, l'', q, f, nan) ↦
                inr (x ∷ ys, zs, l'', ap (λ us. x ∷ us) q, rw (e, run) f, nan)
          ]
        ]
