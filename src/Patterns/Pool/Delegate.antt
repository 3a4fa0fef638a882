-- ===== src/Patterns/Pool/Delegate.antt =====
-- The default limiter over FixedLimit and PreciseStrategy, which FixedPool builds, as a delegate that
-- never has more listeners out than its limit allows.
use go_concurrency_limits.Base.{
  ℕ, ◌+◌, ◌≤◌, ◌≡◌, refl, ap, ◌∙◌, Bool, true, false, Bool-cases, none, some, inl, inr, arith,
  if◌then◌else◌,
}
use go_concurrency_limits.Base.Int.{ℤ, pos, negsuc, int64, ◌-ℤ◌, pos_part, ltb_ℤ, int32, ◌<ℤ◌}
use go_concurrency_limits.Limit.Fixed.{fixed_limit}
use go_concurrency_limits.Strategy.Precise.{try_acquire}
use go_concurrency_limits.Strategy.Precise.Lawful.{
  precise_strategy, precise_laws, try_acquire_below,
}
use go_concurrency_limits.Measurements.Window.{
  ImmutableSampleWindow, add_sample, add_dropped_sample,
}
use go_concurrency_limits.Limiter.Interface.{CountsSlots}
use go_concurrency_limits.Limiter.Default.{
  DefaultLimiter, DefaultListener, acquire, on_success, on_ignore, on_dropped, release_slot,
  update_limit, close_window,
}
use go_concurrency_limits.Limiter.Default.History.{IsGranted}
use go_concurrency_limits.Limiter.Default.Slots.{
  default_limiter, default_limiter-CountsSlots, GoodLimiter, acquire_refused, acquired_none,
  acquired_some,
}

-- The bound that the pool puts on the listeners, for a FixedLimit.
abbrev pub bound_of : ℤ → ℕ
bound_of limit = pos_part (int32 (if ltb_ℤ limit (pos 1) then pos 1 else limit))

abbrev pub Delegate : Type 0
Delegate = DefaultLimiter fixed_limit precise_strategy

-- A good limiter whose FixedLimit is the given one, with no more listeners out than it allows.
pub record IsCapped (limit : ℤ) (l : Delegate) : Type 0 where
  pub good : GoodLimiter fixed_limit l
  pub limit_same : l.limit.limit ≡ limit
  pub capped : pos_part l.in_flight ≤ bound_of limit

if-limit :
    (b : Bool) (x y l : Delegate)
    → x.limit ≡ l.limit
    → y.limit ≡ l.limit
    → (if b then x else y).limit ≡ l.limit
if-limit true x y l p q = p
if-limit false x y l p q = q

update_limit-limit :
    (end_time : ℤ) (w : ImmutableSampleWindow) (h : DefaultListener fixed_limit precise_strategy)
    (l : Delegate)
    → (update_limit fixed_limit precise_strategy end_time w h l).limit ≡ l.limit
unfolding update_limit close_window
update_limit-limit end_time w h l = if-limit _ _ l l refl refl

pub on_success-limit :
    (now later : ℤ) (h : DefaultListener fixed_limit precise_strategy) (l : Delegate)
    → (on_success fixed_limit precise_strategy now later h l).limit ≡ l.limit
unfolding on_success release_slot
on_success-limit now later h l =
    let l' = release_slot fixed_limit precise_strategy h l in
    let w =
      add_sample later (negsuc 0) (int64 (now -ℤ h.start_time)) h.current_max_in_flight l'.sample in
    let sampled = record l' { sample = w } in
    if-limit (ltb_ℤ (int64 (now -ℤ h.start_time)) h.min_rtt_threshold) l'
      (update_limit fixed_limit precise_strategy now w h sampled) l refl
      (update_limit-limit now w h sampled)

pub on_dropped-limit :
    (now later : ℤ) (h : DefaultListener fixed_limit precise_strategy) (l : Delegate)
    → (on_dropped fixed_limit precise_strategy now later h l).limit ≡ l.limit
unfolding on_dropped release_slot
on_dropped-limit now later h l =
    let l' = release_slot fixed_limit precise_strategy h l in
    let w = add_dropped_sample later (negsuc 0) h.current_max_in_flight l'.sample in
    update_limit-limit now w h (record l' { sample = w })

acquire-limit :
    (now : ℤ) (l : Delegate) → (acquire fixed_limit precise_strategy now tt l).0.limit ≡ l.limit
unfolding acquire
acquire-limit now l = elim (Bool-cases (try_acquire l.strategy).2) [
  | inl e ↦ rw e refl
  | inr e ↦ rw e refl
]

-- A listener that is granted was below the bound.
granted_capped :
    (now : ℤ) (limit : ℤ) (l : Delegate) (h : DefaultListener fixed_limit precise_strategy)
    → IsCapped limit l
    → (acquire fixed_limit precise_strategy now tt l).1 ≡ some h
    → pos_part l.in_flight + 1 ≤ bound_of limit
granted_capped now limit l h k e = elim (Bool-cases (try_acquire l.strategy).2) [
  | inl y ↦
      let below = try_acquire_below l.strategy y in
      at_most (pos_part l.in_flight) _ _ _ k.good.0.busy_count
        (k.good.0.in_step ∙ ap (λ z. int32 (if ltb_ℤ z (pos 1) then pos 1 else z)) k.limit_same)
        below
  | inr n ↦ let (q, r, same) = acquire_refused fixed_limit now l k.good n in absurd (ground arith)
]
  where
    at_most : (n : ℕ) (b c c' : ℤ) → b ≡ pos n → c ≡ c' → b <ℤ c → n + 1 ≤ pos_part c'
    at_most n b c c' p q r = ground arith

pub on_ignore-limit :
    (h : DefaultListener fixed_limit precise_strategy) (l : Delegate)
    → (on_ignore fixed_limit precise_strategy h l).limit ≡ l.limit
unfolding on_ignore release_slot
on_ignore-limit h l = refl

pub refused-IsCapped :
    (now limit : ℤ) (l : Delegate)
    → IsCapped limit l
    → (acquire fixed_limit precise_strategy now tt l).1 ≡ none
    → let t = (acquire fixed_limit precise_strategy now tt l).0 in
      IsCapped limit t × (pos_part t.in_flight ≡ pos_part l.in_flight)
refused-IsCapped now limit l k e =
    let (g, n) = acquired_none fixed_limit now l k.good e in
    let c = k.capped in
    (
      record {
        good = g;
        limit_same = ap (λ z. z.limit) (acquire-limit now l) ∙ k.limit_same;
        capped = omega arith;
      },
      n,
    )

pub acquired-IsCapped :
    (now limit : ℤ) (l : Delegate) (h : DefaultListener fixed_limit precise_strategy)
    → IsCapped limit l
    → (acquire fixed_limit precise_strategy now tt l).1 ≡ some h
    → let t = (acquire fixed_limit precise_strategy now tt l).0 in
      IsCapped limit t
      × (pos_part t.in_flight ≡ pos_part l.in_flight + 1)
      × IsGranted fixed_limit precise_strategy precise_laws h
acquired-IsCapped now limit l h k e =
    let (g, n, granted) = acquired_some fixed_limit now l h k.good e in
    let c = granted_capped now limit l h k e in
    (
      record {
        good = g;
        limit_same = ap (λ z. z.limit) (acquire-limit now l) ∙ k.limit_same;
        capped = omega arith;
      },
      n,
      granted,
    )

pub reported-IsCapped :
    (limit : ℤ) (l t : Delegate)
    → IsCapped limit l
    → t.limit ≡ l.limit
    → GoodLimiter fixed_limit t × (pos_part t.in_flight + 1 ≡ pos_part l.in_flight)
    → IsCapped limit t × (pos_part t.in_flight + 1 ≡ pos_part l.in_flight)
reported-IsCapped limit l t k e (g, n) =
    let c = k.capped in
    (record { good = g; limit_same = ap (λ z. z.limit) e ∙ k.limit_same; capped = omega arith }, n)

abbrev pub laws : CountsSlots (default_limiter fixed_limit)
laws = default_limiter-CountsSlots fixed_limit

-- The default limiter under FixedLimit counts its slots, and never passes the bound.
abbrev pub capped_laws : (limit : ℤ) → CountsSlots (default_limiter fixed_limit)
capped_laws limit = record {
  slots = λ l. pos_part l.in_flight;
  Good = IsCapped limit;
  Granted = IsGranted fixed_limit precise_strategy precise_laws;
  acquire_none = λ c x l k e. refused-IsCapped c.0 limit l k e;
  acquire_some = λ c x l h k e. acquired-IsCapped c.0 limit l h k e;
  success_slots = λ c h l k g held.
      reported-IsCapped limit l _ k (on_success-limit c.0 c.1 h l)
        (laws.success_slots c h l k.good g held);
  ignore_slots = λ c h l k g held.
      reported-IsCapped limit l _ k (on_ignore-limit h l) (laws.ignore_slots c h l k.good g held);
  dropped_slots = λ c h l k g held.
      reported-IsCapped limit l _ k (on_dropped-limit c.0 c.1 h l)
        (laws.dropped_slots c h l k.good g held);
}
