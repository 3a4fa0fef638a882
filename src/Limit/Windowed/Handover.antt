-- ===== src/Limit/Windowed/Handover.antt =====
-- When WindowedLimit hands its window to the delegate.
use go_concurrency_limits.Base.{
  ℕ, ◌+◌, ◌≤◌, ◌<◌, ◌≡◌, ◌≢◌, refl, sym, subst, ◌∙◌, List, [], ◌∷◌, arith, All, inl, inr,
}
use go_concurrency_limits.Base.Int.{pos, int32, two_63, ◌≤ℤ◌, ◌<ℤ◌}
use go_concurrency_limits.Limit.Interface.{Limit}
use go_concurrency_limits.Limit.Windowed.{WindowedLimit}
use go_concurrency_limits.Limit.Windowed.Steps.{Sample, step, run, IsConfigured, step_cases}

module _ (lm : Limit) where
  -- The sample's times do not overflow.
  abbrev pub IsTimely : ℕ → Sample → Type 0
  IsTimely b x = x.start_time + x.rtt + b < two_63

  -- The window's end only moves forward.
  run_later :
      (a b n : ℕ) (xs : List Sample) (l : WindowedLimit lm)
      → IsConfigured lm l a b
      → l.next_update_time ≡ pos n
      → All (IsTimely b) xs
      → (m : ℕ) × ((run lm xs l).next_update_time ≡ pos m)
        × (n ≤ m)
        × IsConfigured lm (run lm xs l) a b
  unfolding run
  run_later a b n [] l c e t = (n, e, omega arith, c)
  run_later a b n (x ∷ xs) l c e t = elim (step_cases lm a b x l c t.0) [
    | inl k ↦ run_later a b n xs (step lm x l) k.configured (k.next_update_time ∙ e) t.1
    | inr h ↦
        let due = subst (λ z. z <ℤ pos (x.start_time + x.rtt)) e h.due in
        let early = h.not_early in
        let (m, q, le, d) =
          run_later a b h.end xs (step lm x l) h.configured h.next_update_time t.1 in
        (m, q, omega arith, d)
  ]

  -- Where minWindowTime is at most maxWindowTime, which the constructor does not check, and the times do
  -- not overflow: when the delegate's state changes at a sample, and again at a later one, whatever
  -- samples come in between, the second sample ends more than minWindowTime after the first.
  pub handover_spacing :
      (a b : ℕ) (x y : Sample) (xs : List Sample) (l : WindowedLimit lm)
      → IsConfigured lm l a b
      → IsTimely b x
      → IsTimely b y
      → All (IsTimely b) xs
      → (step lm x l).delegate ≢ l.delegate
      → (step lm y (run lm xs (step lm x l))).delegate ≢ (run lm xs (step lm x l)).delegate
      → x.start_time + x.rtt + a < y.start_time + y.rtt
  handover_spacing a b x y xs l c tx ty t ne ne' = elim (step_cases lm a b x l c tx) [
    | inl k ↦ absurd (ne k.delegate)
    | inr h ↦
        let early = h.not_early in
        let (m, q, le, d) =
          run_later a b h.end xs (step lm x l) h.configured h.next_update_time t in
        elim (step_cases lm a b y (run lm xs (step lm x l)) d ty) [
          | inl k ↦ absurd (ne' k.delegate)
          | inr h' ↦ let due = subst (λ z. z <ℤ pos (y.start_time + y.rtt)) q h'.due in omega arith
        ]
  ]

  -- However many samples come: as long as no sample has more requests in flight than the window size,
  -- the delegate is never told of any of them.
  pub never_handed_over :
      (a b : ℕ) (xs : List Sample) (l : WindowedLimit lm)
      → IsConfigured lm l a b
      → All (λ x. IsTimely b x × (int32 x.in_flight ≤ℤ l.window_size)) xs
      → (run lm xs l).delegate ≡ l.delegate
  unfolding run
  never_handed_over a b [] l c t = refl
  never_handed_over a b (x ∷ xs) l c t = elim (step_cases lm a b x l c t.0.0) [
    | inl k ↦
        never_handed_over a b xs (step lm x l) k.configured (
          subst (λ w. All (λ x. IsTimely b x × (int32 x.in_flight ≤ℤ w)) xs) (sym k.window_size)
            t.1)
        ∙ k.delegate
    | inr h ↦ let busy = h.busy in let idle = t.0.1 in absurd (omega arith)
  ]
