-- ===== src/Limit/Windowed/Steps.antt =====
-- What one sample does to WindowedLimit: it is kept, or the window is handed to the delegate.
use go_concurrency_limits.Base.{
  ℕ, ◌+◌, ◌≤◌, ◌<◌, ◌≡◌, refl, sym, ap, subst, ◌∙◌, Bool, true, false, List, [], ◌∷◌, arith, ◌⊎◌,
  inl, inr, Bool-cases, ◌&&◌,
}
use go_concurrency_limits.Base.Int.{
  ℤ, pos, negsuc, int32, int64, int64-eq_of_Fits, two_63, ◌+ℤ◌, ◌≤ℤ◌, ◌<ℤ◌, ltb_ℤ, +ℤ_pos,
}
use go_concurrency_limits.Limit.Interface.{Limit}
use go_concurrency_limits.Measurements.Window.{
  ImmutableSampleWindow, max_int64, candidate_rtt_nanoseconds, average_rtt_nanoseconds,
  new_default_immutable_sample_window,
}
use go_concurrency_limits.Limit.Windowed.{
  WindowedLimit, on_sample, collect, hand_over, is_window_ready, min_int64, max_int64_of,
}

-- The arguments of OnSample, with the clock's readings.
pub record Sample : Type 0 where
  pub now : ℤ
  pub later : ℤ
  pub start_time : ℕ
  pub rtt : ℕ
  pub in_flight : ℤ
  pub did_drop : Bool

module _ (lm : Limit) where
  unfoldable pub step : Sample → WindowedLimit lm → WindowedLimit lm
  step x l = on_sample lm x.now x.later (pos x.start_time) (pos x.rtt) x.in_flight x.did_drop l

  unfoldable pub run : List Sample → WindowedLimit lm → WindowedLimit lm
  run [] l = l
  run (x ∷ xs) l = run xs (step x l)

  pub record IsConfigured (l : WindowedLimit lm) (a b : ℕ) : Type 0 where
    pub min_window : l.min_window_time ≡ pos a
    pub max_window : l.max_window_time ≡ pos b
    pub ordered : a ≤ b

  -- The window with x has been handed over.
  pub record IsHandedOver (a b : ℕ) (x : Sample) (l l' : WindowedLimit lm) : Type 0 where
    pub due : l.next_update_time <ℤ pos (x.start_time + x.rtt)
    pub slow : l.min_rtt_threshold ≤ℤ pos x.rtt
    pub busy : l.window_size <ℤ int32 x.in_flight
    pub end : ℕ
    pub next_update_time : l'.next_update_time ≡ pos end
    pub not_early : x.start_time + x.rtt + a ≤ end
    pub not_late : end ≤ x.start_time + x.rtt + b
    pub delegate :
        let w = collect lm x.now (pos x.rtt) x.in_flight x.did_drop l.sample in
        l'.delegate
        ≡ lm.on_sample
            (pos x.start_time)
            (average_rtt_nanoseconds w)
            w.max_in_flight
            x.did_drop
            l.delegate
    pub sample : l'.sample ≡ new_default_immutable_sample_window x.later
    pub configured : IsConfigured l' a b

  abbrev end_of : Sample → ℤ
  end_of x = int64 (pos x.start_time +ℤ pos x.rtt)

  abbrev window_of : Sample → WindowedLimit lm → ImmutableSampleWindow
  window_of x l = collect lm x.now (pos x.rtt) x.in_flight x.did_drop l.sample

  abbrev is_due : Sample → WindowedLimit lm → Bool
  is_due x l = ltb_ℤ l.next_update_time (end_of x) && is_window_ready lm (pos x.rtt) x.in_flight l

  end_of_lem : (x : Sample) → x.start_time + x.rtt < two_63 → end_of x ≡ pos (x.start_time + x.rtt)
  end_of_lem x small =
      ap int64 (+ℤ_pos x.start_time x.rtt)
      ∙ int64-eq_of_Fits (pos (x.start_time + x.rtt)) (omega arith)

  step_fast :
      (x : Sample) (l : WindowedLimit lm)
      → ltb_ℤ (pos x.rtt) l.min_rtt_threshold ≡ true
      → step x l ≡ l
  unfolding step on_sample
  step_fast x l e = rw e refl

  step_early :
      (x : Sample) (l : WindowedLimit lm)
      → ltb_ℤ (pos x.rtt) l.min_rtt_threshold ≡ false
      → is_due x l ≡ false
      → step x l ≡ record l { sample = window_of x l }
  unfolding step on_sample
  step_early x l e f = rw (e, f) refl

  step_due :
      (x : Sample) (l : WindowedLimit lm)
      → ltb_ℤ (pos x.rtt) l.min_rtt_threshold ≡ false
      → is_due x l ≡ true
      → step x l
        ≡ hand_over lm x.later
            (pos x.start_time)
            (end_of x)
            x.did_drop
            (window_of x l)
            (record l { sample = window_of x l })
  unfolding step on_sample
  step_due x l e f = rw (e, f) refl

  -- The next window is as long as configured, also where twice the candidate overflows.
  next_window_bounds :
      (t : ℤ) (n a b : ℕ)
      → a ≤ b
      → n + b < two_63
      → let e = int64 (pos n +ℤ min_int64 (max_int64_of t (pos a)) (pos b)) in
        (k : ℕ) × (e ≡ pos k) × (n + a ≤ k) × (k ≤ n + b)
  unfolding min_int64 max_int64_of
  next_window_bounds t n a b h small =
      let z = min_int64 (max_int64_of t (pos a)) (pos b) in go z (ground arith) (ground arith)
    where
      go :
          (z : ℤ)
          → pos a ≤ℤ z
          → z ≤ℤ pos b
          → (k : ℕ) × (int64 (pos n +ℤ z) ≡ pos k) × (n + a ≤ k) × (k ≤ n + b)
      go (pos k) lo hi = (
        n + k,
        ap int64 (+ℤ_pos n k) ∙ int64-eq_of_Fits (pos (n + k)) (omega arith),
        omega arith,
        omega arith,
      )
      go (negsuc k) lo hi = absurd (omega arith)

  -- Nothing is handed over: the delegate and the end of the window stay.
  pub record IsKept (a b : ℕ) (l l' : WindowedLimit lm) : Type 0 where
    pub delegate : l'.delegate ≡ l.delegate
    pub next_update_time : l'.next_update_time ≡ l.next_update_time
    pub window_size : l'.window_size ≡ l.window_size
    pub configured : IsConfigured l' a b

  handed_over :
      (a b : ℕ) (x : Sample) (l : WindowedLimit lm)
      → IsConfigured l a b
      → x.start_time + x.rtt + b < two_63
      → ltb_ℤ (pos x.rtt) l.min_rtt_threshold ≡ false
      → is_due x l ≡ true
      → IsHandedOver a b x l (
          hand_over lm x.later
            (pos x.start_time)
            (end_of x)
            x.did_drop
            (window_of x l)
            (record l { sample = window_of x l }))
  unfolding hand_over is_window_ready
  handed_over a b x l c small e f =
      let t = candidate_rtt_nanoseconds (window_of x l) in
      let n = x.start_time + x.rtt in
      let (k, q, lo, hi) = next_window_bounds (int64 (t +ℤ t)) n a b c.ordered small in
      let z = end_of_lem x (omega arith) in
      let due : (l.next_update_time <ℤ end_of x) × (l.window_size <ℤ int32 x.in_flight) =
        due_of l.next_update_time (end_of x) (pos x.rtt) l.window_size (int32 x.in_flight) f in
      record {
        due = subst (λ y. l.next_update_time <ℤ y) z due.0;
        slow = ground arith;
        busy = due.1;
        end = k;
        next_update_time =
            subst3_lem l.min_window_time l.max_window_time (end_of x) (pos a) (pos b) (pos n)
              (λ u v w. int64 (w +ℤ min_int64 (max_int64_of (int64 (t +ℤ t)) u) v) ≡ pos k)
              c.min_window c.max_window z q;
        not_early = lo;
        not_late = hi;
        delegate = refl;
        sample = refl;
        configured = record {
          min_window = c.min_window;
          max_window = c.max_window;
          ordered = c.ordered;
        };
      }
    where
      due_of :
          (n e r w i : ℤ)
          → (ltb_ℤ n e && (ltb_ℤ r max_int64 && ltb_ℤ w i)) ≡ true
          → (n <ℤ e) × (w <ℤ i)
      due_of n e r w i f = ground arith

      subst3_lem :
          (u v w u' v' w' : ℤ) (P : ℤ → ℤ → ℤ → Type 0)
          → u ≡ u'
          → v ≡ v'
          → w ≡ w'
          → P u' v' w'
          → P u v w
      subst3_lem u v w u' v' w' P p q r h =
          subst (λ k. P k v w) (sym p)
            (subst (λ k. P u' k w) (sym q) (subst (λ k. P u' v' k) (sym r) h))

  -- OnSample either leaves the delegate and the window's end as they are, or it hands the window over:
  -- the sample ends after the window, its RTT reaches the threshold, its count in flight is above the
  -- window size, and the next window ends between minWindowTime and maxWindowTime after the sample.
  pub step_cases :
      (a b : ℕ) (x : Sample) (l : WindowedLimit lm)
      → IsConfigured l a b
      → x.start_time + x.rtt + b < two_63
      → IsKept a b l (step x l) ⊎ IsHandedOver a b x l (step x l)
  step_cases a b x l c small = elim (Bool-cases (ltb_ℤ (pos x.rtt) l.min_rtt_threshold)) [
    | inl e ↦
        subst (λ t. IsKept a b l t ⊎ IsHandedOver a b x l t) (sym (step_fast x l e))
          (inl (record {
            delegate = refl;
            next_update_time = refl;
            window_size = refl;
            configured = c;
          }))
    | inr e ↦ elim (Bool-cases (is_due x l)) [
      | inr f ↦
          subst (λ t. IsKept a b l t ⊎ IsHandedOver a b x l t) (sym (step_early x l e f))
            (inl (record {
              delegate = refl;
              next_update_time = refl;
              window_size = refl;
              configured = record {
                min_window = c.min_window;
                max_window = c.max_window;
                ordered = c.ordered;
              };
            }))
      | inl f ↦
          subst (λ t. IsKept a b l t ⊎ IsHandedOver a b x l t) (sym (step_due x l e f))
            (inr (handed_over a b x l c small e f))
    ]
  ]
