-- ===== src/Limiter/Default/Windows.antt =====
-- When a DefaultLimiter hands a sample window to its limit algorithm.
use go_concurrency_limits.Base.{
  ℕ, ◌+◌, ◌≤◌, ◌<◌, ◌≡◌, refl, Bool, arith, if◌then◌else◌, ◌⊎◌, inl, inr, ◌&&◌, Bool-cases, ap,
  subst, sym, ◌≢◌, ◌∙◌,
}
use go_concurrency_limits.Base.Int.{
  ℤ, pos, negsuc, int64, int64-eq_of_Fits, two_63, ◌≤ℤ◌, ◌<ℤ◌, ltb_ℤ, ◌+ℤ◌, +ℤ_pos,
}
use go_concurrency_limits.Core.{Strategy}
use go_concurrency_limits.Limit.Interface.{Limit}
use go_concurrency_limits.Measurements.Window.{ImmutableSampleWindow, candidate_rtt_nanoseconds}
use go_concurrency_limits.Measurements.Window.History.{reset_window}
use go_concurrency_limits.Limiter.Default.{
  DefaultLimiter, DefaultListener, next_window, close_window, update_limit, is_window_ready,
}

module _ (lm : Limit) (st : Strategy) where
  -- The next window is as long as configured, also where twice the candidate overflows.
  next_window_bounds :
      (w : ImmutableSampleWindow) (l : DefaultLimiter lm st)
      → l.min_window_time ≤ℤ l.max_window_time
      → (l.min_window_time ≤ℤ next_window lm st w l) × (next_window lm st w l ≤ℤ l.max_window_time)
  unfolding next_window
  next_window_bounds w l h =
      let twice = int64 (candidate_rtt_nanoseconds w +ℤ candidate_rtt_nanoseconds w) in
      bounds twice l.min_window_time l.max_window_time h
    where
      bounds :
          (t a b : ℤ)
          → a ≤ℤ b
          → let m = if ltb_ℤ t a then a else t in
            (a ≤ℤ (if ltb_ℤ m b then m else b)) × ((if ltb_ℤ m b then m else b) ≤ℤ b)
      bounds t a b h = ground arith

  -- The configured range of the window time.
  pub record IsConfigured (l : DefaultLimiter lm st) (a b : ℕ) : Type 0 where
    pub min_window : l.min_window_time ≡ pos a
    pub max_window : l.max_window_time ≡ pos b
    pub ordered : a ≤ b

  end_of_window :
      (w : ImmutableSampleWindow) (l : DefaultLimiter lm st) (a b t : ℕ)
      → IsConfigured l a b
      → t + b < two_63
      → (n : ℕ) × (int64 (pos t +ℤ next_window lm st w l) ≡ pos n) × (t + a ≤ n) × (n ≤ t + b)
  end_of_window w l a b t c small =
      let (lo, hi) = next_window_bounds w l (ground (arith, c.ordered)) in
      go (next_window lm st w l) (ground arith) (ground arith)
    where
      go :
          (z : ℤ)
          → pos a ≤ℤ z
          → z ≤ℤ pos b
          → (n : ℕ) × (int64 (pos t +ℤ z) ≡ pos n) × (t + a ≤ n) × (n ≤ t + b)
      go (pos k) lo hi = (
        t + k,
        ap int64 (+ℤ_pos t k) ∙ int64-eq_of_Fits (pos (t + k)) (omega arith),
        omega arith,
        omega arith,
      )
      go (negsuc k) lo hi = absurd (omega arith)

  -- From l to l' at time t, window w has been handed to the algorithm.
  pub record IsClosed (t a b : ℕ) (w : ImmutableSampleWindow) (l l' : DefaultLimiter lm st)
      : Type 0 where
    pub due : l.next_update_time <ℤ pos t
    pub enough : l.window_size <ℤ w.sample_count
    pub end : ℕ
    pub next_update_time : l'.next_update_time ≡ pos end
    pub not_early : t + a ≤ end
    pub not_late : end ≤ t + b
    pub limit : l'.limit ≡ lm.on_sample (pos 0) w.min_rtt w.max_in_flight w.did_drop l.limit
    pub strategy : l'.strategy ≡ st.set_limit (lm.estimated_limit l'.limit) l.strategy
    pub sample : l'.sample ≡ reset_window
    pub configured : IsConfigured l' a b

  -- updateLimit either changes nothing, or it closes the window: then the clock has passed the end of
  -- the window, more samples than the window size have been measured, and the next window ends
  -- between minWindowTime and maxWindowTime from now. The algorithm is given one sample, the strategy
  -- its new estimate, and the sample window starts over.
  pub update_limit_cases :
      (t a b : ℕ) (w : ImmutableSampleWindow) (h : DefaultListener lm st) (l : DefaultLimiter lm st)
      → IsConfigured l a b
      → t + b < two_63
      → (update_limit lm st (pos t) w h l ≡ l)
        ⊎ IsClosed t a b w l (update_limit lm st (pos t) w h l)
  unfolding update_limit
  update_limit_cases t a b w h l c small = elim (Bool-cases test) [
    | inl e ↦
        let (n, q, lo, hi) = end_of_window w l a b t c small in
        let e' : update_limit lm st (pos t) w h l ≡ close_window lm st (pos t) w l = ground arith in
        inr (
          subst (IsClosed t a b w l) (sym e') (
            unfold close_window in
            record {
              due = ground arith;
              enough = ground arith;
              end = n;
              next_update_time = q;
              not_early = lo;
              not_late = hi;
              limit = refl;
              strategy = refl;
              sample = refl;
              configured = record {
                min_window = c.min_window;
                max_window = c.max_window;
                ordered = c.ordered;
              };
            }))
    | inr e ↦ inl (ground arith)
  ]
    where
      test : Bool
      test =
          ltb_ℤ h.next_update_time (pos t)
          && (ltb_ℤ l.next_update_time (pos t) && is_window_ready lm st w l)

  changed-IsClosed :
      (t a b : ℕ) (w : ImmutableSampleWindow) (h : DefaultListener lm st)
      (l l' : DefaultLimiter lm st)
      → IsConfigured l a b
      → t + b < two_63
      → update_limit lm st (pos t) w h l ≡ l'
      → l' ≢ l
      → IsClosed t a b w l l'
  changed-IsClosed t a b w h l l' c s e ne = elim (update_limit_cases t a b w h l c s) [
    | inl same ↦ absurd (ne (sym e ∙ same))
    | inr closed ↦ subst (IsClosed t a b w l) e closed
  ]

  -- If two updates, one on the result of the other, both change the limiter, the second comes more
  -- than minWindowTime after the first.
  pub update_limit_spacing :
      (t t' a b : ℕ) (w w' : ImmutableSampleWindow) (h h' : DefaultListener lm st)
      (l l' l'' : DefaultLimiter lm st)
      → IsConfigured l a b
      → t + b < two_63
      → t' + b < two_63
      → update_limit lm st (pos t) w h l ≡ l'
      → l' ≢ l
      → update_limit lm st (pos t') w' h' l' ≡ l''
      → l'' ≢ l'
      → t + a < t'
  update_limit_spacing t t' a b w w' h h' l l' l'' c s s' e ne e' ne' =
      let x = changed-IsClosed t a b w h l l' c s e ne in
      let y = changed-IsClosed t' a b w' h' l' l'' x.configured s' e' ne' in
      go x.end x.not_early (subst (λ z. z <ℤ pos t') x.next_update_time y.due)
    where
      go : (n : ℕ) → t + a ≤ n → pos n <ℤ pos t' → t + a < t'
      go n p q = omega arith
