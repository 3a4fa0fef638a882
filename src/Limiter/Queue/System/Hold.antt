-- ===== src/Limiter/Queue/System/Hold.antt =====
-- The element that unblock has at hand, while other goroutines go on.
use go_concurrency_limits.Base.{
  ℕ, ◌≡◌, ◌≢◌, refl, sym, subst, ◌∙◌, Bool, true, false, inl, inr, some, List, arith, length,
  get_elem?, Option-cases, get_elem?-set_self, get_elem?-set_ne, get_elem?-lt, Bool-cases, leb, ◌<◌,
  set,
}
use native.Mathlib.Decide.{ℕ_discrete}
use mathlib.Core.Option.{some-injective}
use go_concurrency_limits.Limiter.Interface.{Limiter}
use go_concurrency_limits.Limiter.Queue.{
  QueueBlockingLimiter, Status, absent, trying, arriving, received, refused, set_status,
  try_delegate, try_push, give_up, push,
}
use go_concurrency_limits.Limiter.Queue.Backlog.{NotIn, evict-All}
use go_concurrency_limits.Limiter.Queue.System.{Holder, idle, peeked, granted, evicted, declined}

module _ (d : Limiter) where
  open d use {State, Ctx, Listener, Clock}

  -- The listener that unblock has for an element.
  abbrev pub in_hand : Holder Ctx Listener → ℕ
  in_hand idle = 0
  in_hand (peeked e) = 0
  in_hand (granted i h) = 1
  in_hand (evicted i h) = 1
  in_hand (declined h) = 1

  -- The goroutine has pushed, or will not.
  abbrev pub is_past : Status Ctx Listener → Bool
  is_past absent = false
  is_past (trying c) = false
  is_past _ = true

  abbrev pub Past : List (Status Ctx Listener) → ℕ → Type 0
  Past st i = (x : Status Ctx Listener) × (get_elem? st i ≡ some x) × (is_past x ≡ true)

  set-Past :
      (st : List (Status Ctx Listener)) (i j : ℕ) (y : Status Ctx Listener)
      → is_past y ≡ true
      → Past st j
      → Past (set st i y) j
  set-Past st i j y w (x, e, k) = elim (ℕ_discrete i j) [
    | yes h ↦
        let at =
          get_elem?-set_self st i y (subst (λ n. n < length st) (sym h) (get_elem?-lt st j x e)) in
        (y, subst (λ n. get_elem? (set st i y) n ≡ some y) h at, w)
    | no h ↦ (x, get_elem?-set_ne st i j y h ∙ e, k)
  ]

  Past-ne :
      (st : List (Status Ctx Listener)) (i j : ℕ) (x : Status Ctx Listener)
      → get_elem? st i ≡ some x
      → is_past x ≡ false
      → Past st j
      → i ≢ j
  Past-ne st i j x e n (y, k, w) h =
      let same = some-injective _ _ (sym e ∙ subst (λ m. get_elem? st m ≡ some y) (sym h) k) in
      ground arith

  -- A step keeps the goroutines that have pushed, and does not bring an element of theirs back.
  abbrev pub Keeps : QueueBlockingLimiter d → QueueBlockingLimiter d → Type 0
  Keeps q q' =
      ((j : ℕ) → Past q.status j → Past q'.status j)
      × ((j : ℕ) → Past q.status j → NotIn j q.backlog → NotIn j q'.backlog)

  pub past-Keeps :
      (i : ℕ) (y : Status Ctx Listener) (q : QueueBlockingLimiter d)
      → is_past y ≡ true
      → Keeps q (set_status d i y q)
  past-Keeps i y q w = (λ j p. set-Past q.status i j y w p, λ j p n. n)

  pub try_delegate-Keeps :
      (c : Clock) (i : ℕ) (ctx : Ctx) (q : QueueBlockingLimiter d)
      → get_elem? q.status i ≡ some absent
      → Keeps q (try_delegate d c i ctx q)
  unfolding try_delegate
  try_delegate-Keeps c i ctx q e = elim (Option-cases (d.acquire c ctx q.delegate).1) [
    | inl f ↦ rw (f, try_delegate) (λ j p. other (trying ctx) j p, λ j p n. n)
    | inr (h, f) ↦ rw (f, try_delegate) (λ j p. other (received h) j p, λ j p n. n)
  ]
    where
      other : (y : Status Ctx Listener) (j : ℕ) → Past q.status j → Past (set q.status i y) j
      other y j (x, k, w) =
          let ne = Past-ne q.status i j absent e refl (x, k, w) in
          (x, get_elem?-set_ne q.status i j y ne ∙ k, w)

  pub try_push-Keeps :
      (i : ℕ) (ctx : Ctx) (q : QueueBlockingLimiter d)
      → get_elem? q.status i ≡ some (trying ctx)
      → Keeps q (try_push d i ctx q)
  unfolding try_push push
  try_push-Keeps i ctx q e = elim (Bool-cases (leb q.max_backlog_size (length q.backlog))) [
    | inl full ↦ rw (full, try_push) (past-Keeps i refused q refl)
    | inr free ↦
        rw (free, try_push)
          (
            λ j p. set-Past q.status i j arriving refl p,
            λ j p n. (Past-ne q.status i j (trying ctx) e refl p, n),
          )
  ]

  pub give_up-Keeps : (i : ℕ) (q : QueueBlockingLimiter d) → Keeps q (give_up d i q)
  unfolding give_up
  give_up-Keeps i q = (
    λ j p. set-Past q.status i j refused refl p,
    λ j p n. evict-All (λ e. e.id ≢ j) i q.backlog n,
  )
