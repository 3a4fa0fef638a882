-- ===== src/Limiter/Blocking/System.antt =====
-- The goroutines of a BlockingLimiter or of a DeadlineLimiter, in any interleaving.
use go_concurrency_limits.Base.{ℕ, ◌≡◌, Bool, true, some, get_elem?}
use go_concurrency_limits.Base.Int.{ℤ, pos, ltb_ℤ}
use go_concurrency_limits.Limiter.Interface.{Limiter}
use go_concurrency_limits.Limiter.Blocking.{
  BlockingLimiter, Report, looping, captured, blocked, holding, reported, closing, returned,
  set_status, begin, begin_before, attempt, attempt_before, report, exchange, close,
}

-- The field that differs: BlockingLimiter's timeout, or DeadlineLimiter's deadline.
pub data Wait : Type 0 where
  with_timeout with_deadline : ℤ → Wait

module _ (d : Limiter) where
  open d use {Ctx, Listener, Clock}

  -- BlockingLimiter's timer only starts the loop again, and only with a positive timeout there is one;
  -- DeadlineLimiter's timer ends it.
  pub data Step : Wait → BlockingLimiter d → BlockingLimiter d → Type 0 where
    begins :
        {w : ℤ} {s t : BlockingLimiter d} (i : ℕ) (ctx : Ctx) (cancelled : Bool)
        → get_elem? s.status i ≡ some (looping ctx)
        → t ≡ begin d i ctx cancelled s
        → Step (with_timeout w) s t
    begins_before :
        {w : ℤ} {s t : BlockingLimiter d} (now : ℤ) (i : ℕ) (ctx : Ctx) (cancelled : Bool)
        → get_elem? s.status i ≡ some (looping ctx)
        → t ≡ begin_before d w now i ctx cancelled s
        → Step (with_deadline w) s t
    attempts :
        {w : ℤ} {s t : BlockingLimiter d} (c : Clock) (i : ℕ) (ctx : Ctx) (g : ℕ)
        → get_elem? s.status i ≡ some (captured ctx g)
        → t ≡ attempt d c i ctx g s
        → Step (with_timeout w) s t
    attempts_before :
        {w : ℤ} {s t : BlockingLimiter d} (now : ℤ) (c : Clock) (i : ℕ) (ctx : Ctx) (g : ℕ)
        → get_elem? s.status i ≡ some (captured ctx g)
        → t ≡ attempt_before d w now c i ctx g s
        → Step (with_deadline w) s t
    wakes :
        {w : Wait} {s t : BlockingLimiter d} (i : ℕ) (ctx : Ctx) (g seen : ℕ)
        → get_elem? s.status i ≡ some (blocked ctx g seen)
        → s.closed g ≡ true
        → t ≡ set_status d i (looping ctx) s
        → Step w s t
    times_out :
        {w : ℤ} {s t : BlockingLimiter d} (i : ℕ) (ctx : Ctx) (g seen : ℕ)
        → get_elem? s.status i ≡ some (blocked ctx g seen)
        → ltb_ℤ (pos 0) w ≡ true
        → t ≡ set_status d i (looping ctx) s
        → Step (with_timeout w) s t
    is_late :
        {w : ℤ} {s t : BlockingLimiter d} (i : ℕ) (ctx : Ctx) (g seen : ℕ)
        → get_elem? s.status i ≡ some (blocked ctx g seen)
        → t ≡ set_status d i returned s
        → Step (with_deadline w) s t
    cancels :
        {w : Wait} {s t : BlockingLimiter d} (i : ℕ) (ctx : Ctx) (g seen : ℕ)
        → get_elem? s.status i ≡ some (blocked ctx g seen)
        → t ≡ set_status d i returned s
        → Step w s t
    reports :
        {w : Wait} {s t : BlockingLimiter d} (r : Report) (c : Clock) (i : ℕ) (h : Listener)
        → get_elem? s.status i ≡ some (holding h)
        → t ≡ report d r c i h s
        → Step w s t
    exchanges :
        {w : Wait} {s t : BlockingLimiter d} (i : ℕ)
        → get_elem? s.status i ≡ some reported
        → t ≡ exchange d i s
        → Step w s t
    closes :
        {w : Wait} {s t : BlockingLimiter d} (i g : ℕ)
        → get_elem? s.status i ≡ some (closing g)
        → t ≡ close d i g s
        → Step w s t

  pub data Reach (w : Wait) (s : BlockingLimiter d) : BlockingLimiter d → Type 0 where
    here : Reach w s s
    next : {t u : BlockingLimiter d} → Reach w s t → Step w t u → Reach w s u
