-- ===== src/Middleware.antt =====
-- What http/ and grpc/ do alike with a limiter: a token is asked for, the wrapped call runs, its
-- outcome is classified, and the switch on the classification reports to the token.
pub mod Http
pub mod Grpc
pub mod Options
use go_concurrency_limits.Base.{
  ℕ, ◌+◌, ◌<◌, ◌≡◌, Option, none, some, ◌⊎◌, inl, inr, Option-cases, arith, sym, ap, subst, ◌∙◌,
  Bool, true, false, Bool-cases, refl,
}
use go_concurrency_limits.Limiter.Interface.{Limiter, CountsSlots}

-- The int type ResponseType: its three constants, and any other value of a custom classifier.
pub data ResponseType : Type 0 where
  success ignore dropped other : ResponseType

abbrev pub is_known : ResponseType → Bool
is_known other = false
is_known _ = true

-- How a call that the middleware wraps ends: it returns a value, or it panics. Neither package defers
-- the report, so a panic passes it by.
pub data End (R : Type 0) : Type 0 where
  returns : R → End R
  panics : End R

-- Whether the token is reported to.
abbrev pub is_settled : {R : Type 0} → (R → ResponseType) → End R → Bool
is_settled classify (returns r) = is_known (classify r)
is_settled classify panics = false

module _ (d : Limiter) where
  open d use {State, Ctx, Listener, Clock}

  -- switch respType
  unfoldable pub report : Clock → ResponseType → Listener → State → State
  report c success h s = d.on_success c h s
  report c ignore h s = d.on_ignore c h s
  report c dropped h s = d.on_dropped c h s
  report c other h s = s

  -- What is left of the limiter after the wrapped call: a report if it returned, else nothing.
  unfoldable pub settle :
      {R : Type 0} → Clock → (R → ResponseType) → End R → Listener → State → State
  unfolding report
  settle c classify (returns r) h s = report c (classify r) h s
  settle c classify panics h s = s

  module _ (law : CountsSlots d) where
    open law use {
      slots, Good, Granted, acquire_none, acquire_some, success_slots, ignore_slots, dropped_slots,
    }

    -- The slot of a token after the call, from the state before the token was asked for: given back if
    -- the call's outcome is reported, and taken for good otherwise.
    abbrev pub SlotAfter : {R : Type 0} → (R → ResponseType) → End R → State → State → Type 0
    SlotAfter classify e s t =
        ((is_settled classify e ≡ true) × (slots t ≡ slots s))
        ⊎ ((is_settled classify e ≡ false) × (slots t ≡ slots s + 1))

    abbrev Freed : State → State → Type 0
    Freed s t = Good t × (slots t + 1 ≡ slots s)

    report-Freed :
        (c : Clock) (r : ResponseType) (h : Listener) (s : State)
        → is_known r ≡ true
        → Good s
        → Granted h
        → 0 < slots s
        → Freed s (report c r h s)
    unfolding report
    report-Freed c success h s k = success_slots c h s
    report-Freed c ignore h s k = ignore_slots c h s
    report-Freed c dropped h s k = dropped_slots c h s
    report-Freed c other h s k = absurd (ground arith)

    settle_cases :
        {R : Type 0} (c : Clock) (classify : R → ResponseType) (e : End R) (h : Listener)
        (s : State)
        → Good s
        → Granted h
        → 0 < slots s
        → ((is_settled classify e ≡ true) × Freed s (settle c classify e h s))
          ⊎ ((is_settled classify e ≡ false) × (settle c classify e h s ≡ s))
    unfolding settle report
    settle_cases c classify (returns r) h s good g held =
        elim (Bool-cases (is_known (classify r))) [
          | inl k ↦ inl (k, report-Freed c (classify r) h s k good g held)
          | inr k ↦ inr (k, unknown (classify r) k)
        ]
      where
        unknown : (r : ResponseType) → is_known r ≡ false → report c r h s ≡ s
        unknown other k = refl
        unknown success k = absurd (ground arith)
        unknown ignore k = absurd (ground arith)
        unknown dropped k = absurd (ground arith)
    settle_cases c classify panics h s good g held = inr (refl, refl)

    pub settle-acquire :
        {R : Type 0} (c c' : Clock) (classify : R → ResponseType) (e : End R) (x : Ctx) (s : State)
        (h : Listener)
        → Good s
        → (d.acquire c x s).1 ≡ some h
        → let t = settle c' classify e h (d.acquire c x s).0 in Good t × SlotAfter classify e s t
    settle-acquire c c' classify e x s h good q =
        let (g, k, granted) = acquire_some c x s h good q in
        elim (settle_cases c' classify e h (d.acquire c x s).0 g granted (omega arith)) [
          | inl (y, (t, f)) ↦ (t, inl (y, omega arith))
          | inr (n, f) ↦ (subst Good (sym f) g, inr (n, ap slots f ∙ k))
        ]

  -- A call under a token: refused is how it ends without one, call how it ends with one.
  unfoldable pub guarded :
      {R : Type 0}
      → Clock
      → Clock
      → (R → ResponseType)
      → End R
      → End R
      → Ctx
      → State
      → State × End R
  unfolding settle
  guarded c c' classify refused call x s =
      let (t, r) = d.acquire c x s in
      elim r [ none ↦ (t, refused) | some token ↦ (settle c' classify call token t, call) ]

  module _ (law : CountsSlots d) where
    open law use {slots, Good, acquire_none}

    -- Without a token the call is refused and no slot is taken; with one it is made, and the slot is
    -- given back if its outcome is reported.
    abbrev pub IsGuarded :
        {R : Type 0}
        → Clock
        → (R → ResponseType)
        → End R
        → End R
        → Ctx
        → State
        → State × End R
        → Type 0
    IsGuarded c classify refused call x s r =
        Good r.0
        × ((((d.acquire c x s).1 ≡ none) × (r.1 ≡ refused) × (slots r.0 ≡ slots s))
            ⊎ (((h : Listener) × ((d.acquire c x s).1 ≡ some h))
                × (r.1 ≡ call)
                × SlotAfter law classify call s r.0))

    pub guarded-IsGuarded :
        {R : Type 0} (c c' : Clock) (classify : R → ResponseType) (refused call : End R) (x : Ctx)
        (s : State)
        → Good s
        → IsGuarded c classify refused call x s (guarded c c' classify refused call x s)
    unfolding guarded
    guarded-IsGuarded c c' classify refused call x s good =
        elim (Option-cases (d.acquire c x s).1) [
          | inl e ↦
              let (g, k) = acquire_none c x s good e in rw (e, guarded) (g, inl (refl, refl, k))
          | inr (h, e) ↦
              let (g, k) = settle-acquire law c c' classify call x s h good e in
              rw (e, guarded) (g, inr ((h, refl), refl, k))
        ]

    -- A call whose outcome is reported leaves as many slots taken as it found.
    pub guarded-reported :
        {R : Type 0} (c c' : Clock) (classify : R → ResponseType) (refused call : End R) (x : Ctx)
        (s : State)
        → Good s
        → is_settled classify call ≡ true
        → let t = (guarded c c' classify refused call x s).0 in Good t × (slots t ≡ slots s)
    guarded-reported c c' classify refused call x s good k =
        let (g, o) = guarded-IsGuarded c c' classify refused call x s good in
        (
          g,
          elim o [
            | inl (n, e, same) ↦ same
            | inr (h, e, inl (y, same)) ↦ same
            | inr (h, e, inr (n, more)) ↦ absurd (ground arith)
          ],
        )
