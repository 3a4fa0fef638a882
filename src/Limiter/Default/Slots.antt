-- ===== src/Limiter/Default/Slots.antt =====
-- DefaultLimiter over PreciseStrategy and any limit algorithm is a limiter that others can wrap: its
-- in-flight count is the number of its listeners that are out.
use mathlib.Core.Option.{some-injective}
use go_concurrency_limits.Base.{
  ℕ, suc, ◌+◌, ◌-◌, ◌<◌, ◌≡◌, refl, sym, ap, subst, ◌∙◌, true, false, none, some, arith, inl, inr,
  ◌⊎◌, if◌then◌else◌, Bool-cases,
}
use go_concurrency_limits.Base.Int.{ℤ, pos, pos_part, int32-Fits, two_31, ◌<ℤ◌, ltb_ℤ}
use go_concurrency_limits.Limit.Interface.{Limit}
use go_concurrency_limits.Strategy.Precise.{try_acquire}
use go_concurrency_limits.Strategy.Precise.Lawful.{
  precise_strategy, precise_laws, try_acquire_below, try_acquire_refused,
}
use go_concurrency_limits.Limiter.Interface.{Limiter, CountsSlots}
use go_concurrency_limits.Limiter.Default.{
  DefaultLimiter, DefaultListener, acquire, on_success, on_ignore, on_dropped,
}
use go_concurrency_limits.Limiter.Default.History.{
  Outcome, success, dropped, ignored, report, Inv, IsGranted, report-Inv, acquire-Inv,
}

module _ (lm : Limit) where
  -- The clock is read once when a listener is made, and up to twice in a report.
  abbrev pub default_limiter : Limiter
  default_limiter = record {
    State = DefaultLimiter lm precise_strategy;
    Ctx = Unit {0};
    Listener = DefaultListener lm precise_strategy;
    Clock = ℤ × ℤ;
    acquire = λ c x l. acquire lm precise_strategy c.0 x l;
    on_success = λ c h l. on_success lm precise_strategy c.0 c.1 h l;
    on_ignore = λ c h l. on_ignore lm precise_strategy h l;
    on_dropped = λ c h l. on_dropped lm precise_strategy c.0 c.1 h l;
  }

  abbrev Accounts : ℕ → DefaultLimiter lm precise_strategy → Type 0
  Accounts = Inv lm precise_strategy precise_laws

  -- The counts agree on an int32.
  abbrev pub GoodLimiter : DefaultLimiter lm precise_strategy → Type 0
  GoodLimiter l = Accounts (pos_part l.in_flight) l × (pos_part l.in_flight < two_31)

  good_of :
      (n : ℕ) (l : DefaultLimiter lm precise_strategy)
      → n < two_31
      → Accounts n l
      → GoodLimiter l × (pos_part l.in_flight ≡ n)
  good_of n l h v =
      let e : pos_part l.in_flight ≡ n = ap pos_part v.in_flight in
      (subst (λ k. Accounts k l × (k < two_31)) (sym e) (v, h), e)

  -- A grant means that the count was below an int32 limit.
  granted_below :
      (l : DefaultLimiter lm precise_strategy)
      → GoodLimiter l
      → (try_acquire l.strategy).2 ≡ true
      → pos_part l.in_flight + 1 < two_31
  granted_below l (v, h) e =
      let e' = lm.estimated_limit l.limit in
      let below = try_acquire_below l.strategy e in
      let f = int32-Fits (if ltb_ℤ e' (pos 1) then pos 1 else e') in
      below_bound (pos_part l.in_flight) _ _ v.busy_count
        (subst (λ z. pos_part z < two_31) (sym v.in_step) f.0) below
    where
      below_bound : (n : ℕ) (b c : ℤ) → b ≡ pos n → pos_part c < two_31 → b <ℤ c → n + 1 < two_31
      below_bound n b c p q r = ground arith

  -- Where the strategy refuses there is no listener, and the counts stay.
  pub acquire_refused :
      (c : ℤ) (l : DefaultLimiter lm precise_strategy)
      → GoodLimiter l
      → (try_acquire l.strategy).2 ≡ false
      → let r = acquire lm precise_strategy c tt l in
        (r.1 ≡ none) × GoodLimiter r.0 × (pos_part r.0.in_flight ≡ pos_part l.in_flight)
  unfolding acquire
  acquire_refused c l (v, small) e =
      let q = try_acquire_refused l.strategy e in
      rw e (
        refl,
        (
          record { in_flight = v.in_flight; busy_count = ground arith; in_step = ground arith },
          small,
        ),
        refl,
      )

  acquired_slots :
      (c : ℤ) (l : DefaultLimiter lm precise_strategy)
      → GoodLimiter l
      → let r = acquire lm precise_strategy c tt l in
        ((r.1 ≡ none) × GoodLimiter r.0 × (pos_part r.0.in_flight ≡ pos_part l.in_flight))
        ⊎ ((h : DefaultListener lm precise_strategy) × (r.1 ≡ some h)
            × IsGranted lm precise_strategy precise_laws h
            × GoodLimiter r.0
            × (pos_part r.0.in_flight ≡ pos_part l.in_flight + 1))
  acquired_slots c l g = elim (Bool-cases (try_acquire l.strategy).2) [
    | inl e ↦
        let small = granted_below l g e in
        let n = pos_part l.in_flight in
        let l' = (acquire lm precise_strategy c tt l).0 in
        elim (acquire-Inv lm precise_strategy precise_laws n c tt l small g.0) [
          | inl (q, w) ↦ let (good, k) = good_of n l' g.1 w in inl (q, good, k)
          | inr (h, q, t, w) ↦
              let (good, k) = good_of (suc n) l' (omega arith) w in inr (h, q, t, good, omega arith)
        ]
    | inr e ↦ inl (acquire_refused c l g e)
  ]

  reported_slots :
      (o : Outcome) (h : DefaultListener lm precise_strategy)
      (l : DefaultLimiter lm precise_strategy)
      → GoodLimiter l
      → IsGranted lm precise_strategy precise_laws h
      → 0 < pos_part l.in_flight
      → GoodLimiter (report lm precise_strategy o h l)
        × (pos_part (report lm precise_strategy o h l).in_flight + 1 ≡ pos_part l.in_flight)
  reported_slots o h l (v, small) g held =
      let n = pos_part l.in_flight in
      let e : n ≡ suc (n - 1) = omega arith in
      let w =
        report-Inv lm precise_strategy precise_laws (n - 1) o h l (omega arith) g
          (subst (λ k. Accounts k l) e v) in
      let (good, k) = good_of (n - 1) _ (omega arith) w in (good, omega arith)

  pub acquired_none :
      (c : ℤ) (l : DefaultLimiter lm precise_strategy)
      → GoodLimiter l
      → (acquire lm precise_strategy c tt l).1 ≡ none
      → let r = acquire lm precise_strategy c tt l in
        GoodLimiter r.0 × (pos_part r.0.in_flight ≡ pos_part l.in_flight)
  acquired_none c l g e = elim (acquired_slots c l g) [
    | inl (q, good, k) ↦ (good, k)
    | inr (h, q, t, good, k) ↦ absurd (ground arith)
  ]

  pub acquired_some :
      (c : ℤ) (l : DefaultLimiter lm precise_strategy) (h : DefaultListener lm precise_strategy)
      → GoodLimiter l
      → (acquire lm precise_strategy c tt l).1 ≡ some h
      → let r = acquire lm precise_strategy c tt l in
        GoodLimiter r.0
        × (pos_part r.0.in_flight ≡ pos_part l.in_flight + 1)
        × IsGranted lm precise_strategy precise_laws h
  acquired_some c l h g e = elim (acquired_slots c l g) [
    | inl (q, good, k) ↦ absurd (ground arith)
    | inr (h', q, t, good, k) ↦ (
      good,
      k,
      subst (IsGranted lm precise_strategy precise_laws) (some-injective _ _ (sym q ∙ e)) t,
    )
  ]

  pub success_slots :
      (c : ℤ × ℤ) (h : DefaultListener lm precise_strategy) (l : DefaultLimiter lm precise_strategy)
      → GoodLimiter l
      → IsGranted lm precise_strategy precise_laws h
      → 0 < pos_part l.in_flight
      → GoodLimiter (on_success lm precise_strategy c.0 c.1 h l)
        × (pos_part (on_success lm precise_strategy c.0 c.1 h l).in_flight + 1
            ≡ pos_part l.in_flight)
  unfolding report
  success_slots c h l = reported_slots (success c.0 c.1) h l

  pub ignore_slots :
      (h : DefaultListener lm precise_strategy) (l : DefaultLimiter lm precise_strategy)
      → GoodLimiter l
      → IsGranted lm precise_strategy precise_laws h
      → 0 < pos_part l.in_flight
      → GoodLimiter (on_ignore lm precise_strategy h l)
        × (pos_part (on_ignore lm precise_strategy h l).in_flight + 1 ≡ pos_part l.in_flight)
  unfolding report
  ignore_slots h l = reported_slots (ignored) h l

  pub dropped_slots :
      (c : ℤ × ℤ) (h : DefaultListener lm precise_strategy) (l : DefaultLimiter lm precise_strategy)
      → GoodLimiter l
      → IsGranted lm precise_strategy precise_laws h
      → 0 < pos_part l.in_flight
      → GoodLimiter (on_dropped lm precise_strategy c.0 c.1 h l)
        × (pos_part (on_dropped lm precise_strategy c.0 c.1 h l).in_flight + 1
            ≡ pos_part l.in_flight)
  unfolding report
  dropped_slots c h l = reported_slots (dropped c.0 c.1) h l

  abbrev pub default_limiter-CountsSlots : CountsSlots default_limiter
  default_limiter-CountsSlots = record {
    slots = λ l. pos_part l.in_flight;
    Good = GoodLimiter;
    Granted = IsGranted lm precise_strategy precise_laws;
    acquire_none = λ c x l. acquired_none c.0 l;
    acquire_some = λ c x l h. acquired_some c.0 l h;
    success_slots = success_slots;
    ignore_slots = λ c. ignore_slots;
    dropped_slots = dropped_slots;
  }
