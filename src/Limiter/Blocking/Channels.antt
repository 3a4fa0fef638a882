-- ===== src/Limiter/Blocking/Channels.antt =====
-- The channels of a BlockingLimiter or a DeadlineLimiter: which are closed, and who has captured which.
use native.Mathlib.Decide.{dec_lt}
use go_concurrency_limits.Base.{
  ℕ, ◌+◌, ◌≤◌, ◌<◌, ◌≡◌, refl, sym, subst, Bool, true, false, ◌==◌, List, [], ◌∷◌, some, arith,
  get_elem?, total, total-set, All, All-set, All-get_elem?, ◌⊎◌, inl, inr, if◌then◌else◌,
  Bool-cases, Option-cases,
}
use go_concurrency_limits.Base.Int.{ℤ, leb_ℤ}
use go_concurrency_limits.Limiter.Interface.{Limiter}
use go_concurrency_limits.Limiter.Blocking.{
  BlockingLimiter, Status, Report, looping, captured, blocked, holding, reported, closing, returned,
  set_status, begin, begin_before, attempt, attempt_before, report, exchange, close,
}
use go_concurrency_limits.Limiter.Blocking.System.{
  Wait, Step, begins, begins_before, attempts, attempts_before, wakes, times_out, is_late, cancels,
  reports, exchanges, closes, Reach, here, next,
}

module _ (d : Limiter) where
  open d use {State, Ctx, Listener, Clock}

  abbrev pub is_reported : Status Ctx Listener → ℕ
  is_reported reported = 1
  is_reported _ = 0

  abbrev pub is_closing : ℕ → Status Ctx Listener → ℕ
  is_closing g (closing k) = if k == g then 1 else 0
  is_closing g _ = 0

  -- A report that has not finished its broadcast.
  abbrev pub unfinished : Status Ctx Listener → ℕ
  unfinished reported = 1
  unfinished (closing k) = 1
  unfinished _ = 0

  -- A channel is captured when it is the current one, and before the attempt.
  abbrev pub Behind : ℕ → Status Ctx Listener → Type 0
  Behind n (captured ctx g) = g ≤ n
  Behind n (blocked ctx g seen) = g ≤ seen
  Behind n _ = Unit

  pub record Inv (s : BlockingLimiter d) : Type 0 where
    pub counted : s.reports ≡ s.notify + total is_reported s.status
    pub behind : All (Behind s.notify) s.status
    pub old_closed :
        (g : ℕ) → g < s.notify → (s.closed g ≡ true) ⊎ (0 < total (is_closing g) s.status)

  Behind-mono :
      (n : ℕ) (xs : List (Status Ctx Listener)) → All (Behind n) xs → All (Behind (n + 1)) xs
  Behind-mono n [] a = tt
  Behind-mono n (captured ctx g ∷ xs) a = (omega arith, Behind-mono n xs a.1)
  Behind-mono n (blocked ctx g seen ∷ xs) a = (a.0, Behind-mono n xs a.1)
  Behind-mono n (looping ctx ∷ xs) a = (tt, Behind-mono n xs a.1)
  Behind-mono n (holding h ∷ xs) a = (tt, Behind-mono n xs a.1)
  Behind-mono n (reported ∷ xs) a = (tt, Behind-mono n xs a.1)
  Behind-mono n (closing k ∷ xs) a = (tt, Behind-mono n xs a.1)
  Behind-mono n (returned ∷ xs) a = (tt, Behind-mono n xs a.1)

  unfinished_bounds :
      (g : ℕ) (x : Status Ctx Listener)
      → (is_reported x ≤ unfinished x) × (is_closing g x ≤ unfinished x)
  unfinished_bounds g (captured ctx k) = (omega arith, omega arith)
  unfinished_bounds g (blocked ctx k seen) = (omega arith, omega arith)
  unfinished_bounds g (looping ctx) = (omega arith, omega arith)
  unfinished_bounds g (holding h) = (omega arith, omega arith)
  unfinished_bounds g reported = (omega arith, omega arith)
  unfinished_bounds g (closing k) = ground arith
  unfinished_bounds g returned = (omega arith, omega arith)

  pub unfinished-le :
      (g : ℕ) (xs : List (Status Ctx Listener))
      → (total is_reported xs ≤ total unfinished xs)
        × (total (is_closing g) xs ≤ total unfinished xs)
  unfinished-le g [] = (omega arith, omega arith)
  unfinished-le g (x ∷ xs) =
      let (a, b) = unfinished-le g xs in
      let (p, q) = unfinished_bounds g x in (omega arith, omega arith)

  -- A goroutine that is in no report changes its status, and the delegate may change.
  plain-Inv :
      (i : ℕ) (x y : Status Ctx Listener) (t : State) (s : BlockingLimiter d)
      → get_elem? s.status i ≡ some x
      → unfinished x ≡ 0
      → is_reported y ≡ 0
      → Behind s.notify y
      → Inv s
      → Inv (set_status d i y (record s { delegate = t }))
  plain-Inv i x y t s e u r b v =
      let k = total-set is_reported s.status i y x e in
      let p = unfinished_bounds 0 x in
      record {
        counted = omega (arith, v.counted);
        behind = All-set (Behind s.notify) s.status i y v.behind b;
        old_closed = λ g h. elim (v.old_closed g h) [
          | inl c ↦ inl c
          | inr c ↦
              let q = total-set (is_closing g) s.status i y x e in
              let z = unfinished_bounds g x in inr (omega arith)
        ];
      }

  begin-Inv :
      (i : ℕ) (ctx : Ctx) (cancelled : Bool) (s : BlockingLimiter d)
      → get_elem? s.status i ≡ some (looping ctx)
      → Inv s
      → Inv (begin d i ctx cancelled s)
  unfolding begin
  begin-Inv i ctx true s e v = plain-Inv i (looping ctx) returned s.delegate s e refl refl tt v
  begin-Inv i ctx false s e v =
      plain-Inv i (looping ctx) (captured ctx s.notify) s.delegate s e refl refl (omega arith) v

  begin_before-Inv :
      (deadline now : ℤ) (i : ℕ) (ctx : Ctx) (cancelled : Bool) (s : BlockingLimiter d)
      → get_elem? s.status i ≡ some (looping ctx)
      → Inv s
      → Inv (begin_before d deadline now i ctx cancelled s)
  unfolding begin_before begin
  begin_before-Inv deadline now i ctx true s e v =
      plain-Inv i (looping ctx) returned s.delegate s e refl refl tt v
  begin_before-Inv deadline now i ctx false s e v = elim (Bool-cases (leb_ℤ deadline now)) [
    | inl f ↦ rw f (plain-Inv i (looping ctx) returned s.delegate s e refl refl tt v)
    | inr f ↦ rw f (begin-Inv i ctx false s e v)
  ]

  refused_at :
      (i : ℕ) (ctx : Ctx) (g : ℕ) (t : State) (s : BlockingLimiter d)
      → get_elem? s.status i ≡ some (captured ctx g)
      → Inv s
      → Inv (set_status d i (blocked ctx g s.reports) (record s { delegate = t }))
  refused_at i ctx g t s e v =
      let b = All-get_elem? (Behind s.notify) s.status i (captured ctx g) e v.behind in
      plain-Inv i (captured ctx g) (blocked ctx g s.reports) t s e refl refl
        (omega (arith, v.counted)) v

  attempt-Inv :
      (c : Clock) (i : ℕ) (ctx : Ctx) (g : ℕ) (s : BlockingLimiter d)
      → get_elem? s.status i ≡ some (captured ctx g)
      → Inv s
      → Inv (attempt d c i ctx g s)
  unfolding attempt
  attempt-Inv c i ctx g s e v = elim (Option-cases (d.acquire c ctx s.delegate).1) [
    | inl f ↦ rw (f, attempt) (refused_at i ctx g _ s e v)
    | inr (h, f) ↦ rw (f, attempt) (plain-Inv i (captured ctx g) (holding h) _ s e refl refl tt v)
  ]

  attempt_before-Inv :
      (deadline now : ℤ) (c : Clock) (i : ℕ) (ctx : Ctx) (g : ℕ) (s : BlockingLimiter d)
      → get_elem? s.status i ≡ some (captured ctx g)
      → Inv s
      → Inv (attempt_before d deadline now c i ctx g s)
  unfolding attempt_before
  attempt_before-Inv deadline now c i ctx g s e v =
      elim (Option-cases (d.acquire c ctx s.delegate).1) [
        | inl f ↦ elim (Bool-cases (leb_ℤ deadline now)) [
          | inl k ↦
              rw (f, k, attempt_before) (plain-Inv i (captured ctx g) returned _ s e refl refl tt v)
          | inr k ↦ rw (f, k, attempt_before) (refused_at i ctx g _ s e v)
        ]
        | inr (h, f) ↦
            rw (f, attempt_before) (plain-Inv i (captured ctx g) (holding h) _ s e refl refl tt v)
      ]

  report-Inv :
      (r : Report) (c : Clock) (i : ℕ) (h : Listener) (s : BlockingLimiter d)
      → get_elem? s.status i ≡ some (holding h)
      → Inv s
      → Inv (report d r c i h s)
  unfolding report
  report-Inv r c i h s e v =
      let k = total-set is_reported s.status i reported (holding h) e in
      record {
        counted = omega (arith, v.counted);
        behind = All-set (Behind s.notify) s.status i reported v.behind tt;
        old_closed = λ g l. elim (v.old_closed g l) [
          | inl q ↦ inl q
          | inr q ↦
              let z = total-set (is_closing g) s.status i reported (holding h) e in
              inr (omega arith)
        ];
      }

  exchange-Inv :
      (i : ℕ) (s : BlockingLimiter d)
      → get_elem? s.status i ≡ some reported
      → Inv s
      → Inv (exchange d i s)
  unfolding exchange
  exchange-Inv i s e v =
      let k = total-set is_reported s.status i (closing s.notify) reported e in
      record {
        counted = omega (arith, v.counted);
        behind =
            All-set (Behind (s.notify + 1)) s.status i (closing s.notify)
              (Behind-mono s.notify s.status v.behind) tt;
        old_closed = λ g l.
            let z = total-set (is_closing g) s.status i (closing s.notify) reported e in
            elim (dec_lt g s.notify) [
              | yes lt ↦ elim (v.old_closed g lt) [ inl q ↦ inl q | inr q ↦ inr (omega arith) ]
              | no ge ↦ inr (ground arith)
            ];
      }

  close-Inv :
      (i k : ℕ) (s : BlockingLimiter d)
      → get_elem? s.status i ≡ some (closing k)
      → Inv s
      → Inv (close d i k s)
  unfolding close
  close-Inv i k s e v =
      let n = total-set is_reported s.status i returned (closing k) e in
      record {
        counted = omega (arith, v.counted);
        behind = All-set (Behind s.notify) s.status i returned v.behind tt;
        old_closed = λ g l.
            let z = total-set (is_closing g) s.status i returned (closing k) e in
            elim (v.old_closed g l) [
              | inl q ↦ inl (ground arith)
              | inr q ↦ elim (Bool-cases (g == k)) [
                | inl f ↦ inl (ground arith)
                | inr f ↦ inr (ground arith)
              ]
            ];
      }

  Step-Inv : {w : Wait} {s t : BlockingLimiter d} → Step d w s t → Inv s → Inv t
  Step-Inv (begins {s = s} i ctx cancelled e q) v =
      subst Inv (sym q) (begin-Inv i ctx cancelled s e v)
  Step-Inv (begins_before {w = w} {s = s} now i ctx cancelled e q) v =
      subst Inv (sym q) (begin_before-Inv w now i ctx cancelled s e v)
  Step-Inv (attempts {s = s} c i ctx g e q) v = subst Inv (sym q) (attempt-Inv c i ctx g s e v)
  Step-Inv (attempts_before {w = w} {s = s} now c i ctx g e q) v =
      subst Inv (sym q) (attempt_before-Inv w now c i ctx g s e v)
  Step-Inv (wakes {s = s} i ctx g seen e f q) v =
      subst Inv (sym q)
        (plain-Inv i (blocked ctx g seen) (looping ctx) s.delegate s e refl refl tt v)
  Step-Inv (times_out {s = s} i ctx g seen e f q) v =
      subst Inv (sym q)
        (plain-Inv i (blocked ctx g seen) (looping ctx) s.delegate s e refl refl tt v)
  Step-Inv (is_late {s = s} i ctx g seen e q) v =
      subst Inv (sym q) (plain-Inv i (blocked ctx g seen) returned s.delegate s e refl refl tt v)
  Step-Inv (cancels {s = s} i ctx g seen e q) v =
      subst Inv (sym q) (plain-Inv i (blocked ctx g seen) returned s.delegate s e refl refl tt v)
  Step-Inv (reports {s = s} r c i h e q) v = subst Inv (sym q) (report-Inv r c i h s e v)
  Step-Inv (exchanges {s = s} i e q) v = subst Inv (sym q) (exchange-Inv i s e v)
  Step-Inv (closes {s = s} i g e q) v = subst Inv (sym q) (close-Inv i g s e v)

  pub Reach-Inv : {w : Wait} {s t : BlockingLimiter d} → Reach d w s t → Inv s → Inv t
  Reach-Inv here v = v
  Reach-Inv (next r x) v = Step-Inv x (Reach-Inv r v)
