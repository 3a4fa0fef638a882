-- ===== src/Limit/Vegas/Samples.antt =====
-- What samples do to VegasLimit.
use go_concurrency_limits.Base.{
  ℕ, ◌<◌, ◌++◌, Option, none, some, true, false, if◌then◌else◌, ◌>>=◌, ◌≤◌, ◌≡◌, refl, sym, ap,
  subst, ◌∙◌, Bool, List, [], ◌∷◌, ◌⊎◌, inl, inr, Bool-cases, ◌||◌,
}
use go_concurrency_limits.Base.Int.{ℤ, pos, int64, ◌+ℤ◌, two_31, ◌≤ℤ◌}
use go_concurrency_limits.Base.Float.{Float64, IsIeee, Le, IsNan, clamp_range}
use go_concurrency_limits.Measurements.Averages.{MinimumMeasurement}
use go_concurrency_limits.Limit.Vegas.{
  updated, VegasLimit, on_sample, should_probe, probe, observe, target, update_estimated_limit,
  clamp, smooth,
}

pub record Sample (F : Type 0) : Type 0 where
  pub jitter : F
  pub start_time : ℤ
  pub rtt : ℤ
  pub in_flight : ℤ
  pub did_drop : Bool

module _ (fl : Float64) where
  open fl use {F, of_int, to_int, flt, feq, fle, fmax, fmin, fadd, fsub, fmul}

  unfoldable pub step : Sample F → VegasLimit fl → Option (VegasLimit fl)
  step x l = on_sample fl x.jitter x.start_time x.rtt x.in_flight x.did_drop l

  unfoldable pub run : List (Sample F) → VegasLimit fl → Option (VegasLimit fl)
  run [] l = some l
  run (x ∷ xs) l = elim (step x l) [ none ↦ none | some l' ↦ run xs l' ]

  abbrev counted : VegasLimit fl → VegasLimit fl
  counted l = record l { probe_count = int64 (l.probe_count +ℤ pos 1) }

  -- The limit is from 1 to n.
  abbrev pub Within : ℕ → F → Type 0
  Within n x = Le fl (of_int (pos 1)) x × Le fl x (of_int (pos n))

  -- The configuration: the maximum is n, the smoothing is 1, and the functions do not panic on a limit
  -- from 1 to n.
  pub record IsConfigured (n : ℕ) (l : VegasLimit fl) : Type 0 where
    pub max_limit : l.max_limit ≡ pos n
    pub smoothing : l.smoothing ≡ of_int (pos 1)
    pub alpha : (m : ℤ) → pos 1 ≤ℤ m → m ≤ℤ pos n → (v : ℤ) × (l.alpha_func m ≡ some v)
    pub beta : (m : ℤ) → pos 1 ≤ℤ m → m ≤ℤ pos n → (v : ℤ) × (l.beta_func m ≡ some v)
    pub threshold : (m : ℤ) → pos 1 ≤ℤ m → m ≤ℤ pos n → (v : ℤ) × (l.threshold_func m ≡ some v)
    pub increase : (x : F) → Within n x → (y : F) × (l.increase_func x ≡ some y)
    pub decrease : (x : F) → Within n x → (y : F) × (l.decrease_func x ≡ some y)

  -- A limit whose integer is from 1 to n.
  record IsReady (n : ℕ) (l : VegasLimit fl) : Type 0 where
    configured : IsConfigured n l
    within : Within n l.estimated_limit
    above : pos 1 ≤ℤ to_int l.estimated_limit
    below : to_int l.estimated_limit ≤ℤ pos n

  counted-IsReady : (n : ℕ) (l : VegasLimit fl) → IsReady n l → IsReady n (counted l)
  counted-IsReady n l r =
      let c = r.configured in
      record {
        configured = record {
          max_limit = c.max_limit;
          smoothing = c.smoothing;
          alpha = c.alpha;
          beta = c.beta;
          threshold = c.threshold;
          increase = c.increase;
          decrease = c.decrease;
        };
        within = r.within;
        above = r.above;
        below = r.below;
      }

  increase_lem :
      (n : ℕ) (l : VegasLimit fl)
      → IsReady n l
      → (t : Option F) × ((l.increase_func l.estimated_limit >>= (λ x. some (some x))) ≡ some t)
  increase_lem n l r =
      let (x, e) = r.configured.increase l.estimated_limit r.within in (some x, rw e refl)

  decrease_lem :
      (n : ℕ) (l : VegasLimit fl)
      → IsReady n l
      → (t : Option F) × ((l.decrease_func l.estimated_limit >>= (λ x. some (some x))) ≡ some t)
  decrease_lem n l r =
      let (x, e) = r.configured.decrease l.estimated_limit r.within in (some x, rw e refl)

  choice :
      {A : Type 0} (c : Bool) (x y : Option A)
      → (t : A) × (x ≡ some t)
      → (t : A) × (y ≡ some t)
      → (t : A) × ((if c then x else y) ≡ some t)
  choice true x y p q = p
  choice false x y p q = q

  target-some :
      (n : ℕ) (rtt in_flight : ℤ) (d : Bool) (l : VegasLimit fl)
      → IsReady n l
      → (t : Option F) × (target fl rtt in_flight d l ≡ some t)
  unfolding target
  target-some n rtt in_flight true l r = decrease_lem n l r
  target-some n rtt in_flight false l r =
      let m = to_int l.estimated_limit in
      let (a, p) = r.configured.alpha m r.above r.below in
      let (b, q) = r.configured.beta m r.above r.below in
      let (c, u) = r.configured.threshold m r.above r.below in
      rw (p, q, u)
        (choice _ _ _ (none, refl)
          (choice _ _ _ (some _, refl)
            (choice _ _ _ (increase_lem n l r) (choice _ _ _ (decrease_lem n l r) (none, refl)))))

  -- The estimate stays, or it is smoothed with a clamped target; nothing of the configuration changes.
  Moved : VegasLimit fl → VegasLimit fl → Type 0
  Moved l l' =
      (l'.estimated_limit ≡ l.estimated_limit)
      ⊎ ((new : F) × (l'.estimated_limit ≡ smooth fl (clamp fl new l) l))

  record Outcome (n : ℕ) (l : VegasLimit fl) (o : Option (VegasLimit fl)) : Type 0 where
    after : VegasLimit fl
    result : o ≡ some after
    configured : IsConfigured n after
    moved : Moved l after

  IsConfigured-same :
      (n : ℕ) (x : F) (c : ℤ) (j : F) (m : MinimumMeasurement fl) (l : VegasLimit fl)
      → IsConfigured n l
      → IsConfigured n
          (record l { estimated_limit = x; probe_count = c; probe_jitter = j; rtt_no_load = m })
  IsConfigured-same n x c j m l k = record {
    max_limit = k.max_limit;
    smoothing = k.smoothing;
    alpha = k.alpha;
    beta = k.beta;
    threshold = k.threshold;
    increase = k.increase;
    decrease = k.decrease;
  }

  updated-Moved :
      (n : ℕ) (t : Option F) (l : VegasLimit fl)
      → IsConfigured n l
      → IsConfigured n (updated fl t (counted l)) × Moved l (updated fl t (counted l))
  unfolding Moved clamp smooth
  updated-Moved n none l k = (IsConfigured-same n _ _ _ _ l k, inl refl)
  updated-Moved n (some x) l k = (IsConfigured-same n _ _ _ _ l k, inr (x, refl))

  update-Outcome :
      (n : ℕ) (rtt in_flight : ℤ) (d : Bool) (l : VegasLimit fl)
      → IsReady n l
      → Outcome n l (update_estimated_limit fl rtt in_flight d (counted l))
  unfolding update_estimated_limit
  update-Outcome n rtt in_flight d l r =
      let (t, e) = target-some n rtt in_flight d (counted l) (counted-IsReady n l r) in
      let (k, m) = updated-Moved n t l r.configured in
      record {
        after = updated fl t (counted l);
        result = rw (e, update_estimated_limit) refl;
        configured = k;
        moved = m;
      }

  step-Outcome : (n : ℕ) (x : Sample F) (l : VegasLimit fl) → IsReady n l → Outcome n l (step x l)
  unfolding step on_sample observe probe Moved
  step-Outcome n x l r = elim (Bool-cases (should_probe fl (counted l))) [
    | inl e ↦ rw e (record {
      after = _;
      result = refl;
      configured = IsConfigured-same n _ _ _ _ l r.configured;
      moved = inl refl;
    })
    | inr e ↦
        elim (Bool-cases
          (feq l.rtt_no_load.value (of_int (pos 0)) || flt (of_int x.rtt) l.rtt_no_load.value)) [
            | inl f ↦
                rw (e, f)
                  (record {
                    after = _;
                    result = refl;
                    configured = IsConfigured-same n _ _ _ _ l r.configured;
                    moved = inl refl;
                  })
            | inr f ↦ rw (e, f) (update-Outcome n x.rtt x.in_flight x.did_drop l r)
          ]
  ]

  abbrev InRange : ℕ → F → Type 0
  InRange n x = IsNan fl x ⊎ Within n x

  module _ (ieee : IsIeee fl) where
    open ieee use {
      number_of_le, of_int_mono, max_left, max_le, min_left, max_nan, min_nan, add_nan_left,
      add_nan_right, mul_nan_right, one_sub_one, zero_mul, one_mul, zero_add, to_int_bounds,
    }

    clamp_lem :
        (n : ℕ) (x : F) (l : VegasLimit fl) → 1 ≤ n → l.max_limit ≡ pos n → InRange n (clamp fl x l)
    unfolding clamp
    clamp_lem n x l one e =
        let le = of_int_mono 1 n one in
        rw e (clamp_range fl ieee (pos 1) (pos n) (of_int (pos n)) x le (number_of_le _ _ le).1)

    -- Without smoothing the clamped target is the estimate.
    smooth_lem :
        (n : ℕ) (x : F) (l : VegasLimit fl)
        → l.smoothing ≡ of_int (pos 1)
        → Within n l.estimated_limit
        → InRange n x
        → InRange n (smooth fl x l)
    unfolding smooth
    smooth_lem n x l s r (inl nan) = inl (add_nan_right _ _ (mul_nan_right _ _ nan))
    smooth_lem n x l s r (inr c) =
        let zero_part =
          ap (λ z. fmul (fsub (of_int (pos 1)) z) l.estimated_limit) s
          ∙ ap (λ z. fmul z l.estimated_limit) one_sub_one
          ∙ zero_mul n l.estimated_limit r.0 r.1 in
        let one_part = ap (λ z. fmul z x) s ∙ one_mul x (number_of_le _ _ c.0).1 in
        let e : smooth fl x l ≡ x =
          ap (λ z. fadd z (fmul l.smoothing x)) zero_part
          ∙ ap (fadd (of_int (pos 0))) one_part
          ∙ zero_add x c.0 in
        inr (subst (λ z. Le fl (of_int (pos 1)) z × Le fl z (of_int (pos n))) (sym e) c)

    step-InRange :
        (n : ℕ) (x : Sample F) (l : VegasLimit fl)
        → 1 ≤ n
        → n < two_31
        → IsConfigured n l
        → Within n l.estimated_limit
        → (l' : VegasLimit fl) × (step x l ≡ some l')
          × IsConfigured n l'
          × InRange n l'.estimated_limit
    unfolding Moved
    step-InRange n x l one small c r =
        let (above, below) = to_int_bounds 1 n l.estimated_limit small r.0 r.1 in
        let o =
          step-Outcome n x l
            (record { configured = c; within = r; above = above; below = below }) in
        (
          o.after,
          o.result,
          o.configured,
          elim o.moved [
            | inl e ↦ inr (subst (Within n) (sym e) r)
            | inr (new, e) ↦
                subst (InRange n) (sym e) (
                  smooth_lem n (clamp fl new l) l c.smoothing r (clamp_lem n new l one c.max_limit))
          ],
        )

    -- After some of the samples, with no panic, the estimate is NaN.
    abbrev pub Poisoned : List (Sample F) → VegasLimit fl → Type 0
    Poisoned xs l =
        (ys zs : List (Sample F)) × (l' : VegasLimit fl) × (xs ≡ ys ++ zs)
        × (run ys l ≡ some l')
        × IsNan fl l'.estimated_limit

    -- From an estimate between 1 and the maximum n, which is below 2^31, with the smoothing of 1 and with
    -- functions that do not panic on limits from 1 to n: through any samples, probes included, nothing
    -- panics and the estimate stays between 1 and n, unless after some of the samples it is NaN.
    pub samples-InRange :
        (xs : List (Sample F)) (n : ℕ) (l : VegasLimit fl)
        → 1 ≤ n
        → n < two_31
        → IsConfigured n l
        → Within n l.estimated_limit
        → ((l' : VegasLimit fl) × (run xs l ≡ some l') × Within n l'.estimated_limit)
          ⊎ Poisoned xs l
    unfolding run
    samples-InRange [] n l one small c r = inl (l, refl, r)
    samples-InRange (x ∷ xs) n l one small c r =
        let (l', e, c', o) = step-InRange n x l one small c r in
        elim o [
          | inl nan ↦ inr (x ∷ [], xs, l', refl, rw (e, run) refl, nan)
          | inr r' ↦ elim (samples-InRange xs n l' one small c' r') [
            | inl (l'', f, w) ↦ inl (l'', rw (e, run) f, w)
            | inr (ys, zs, l'', q, f, nan) ↦
                inr (x ∷ ys, zs, l'', ap (λ us. x ∷ us) q, rw (e, run) f, nan)
          ]
        ]
