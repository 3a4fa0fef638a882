-- ===== src/Limiter/Blocking.antt =====
-- limiter/blocking.go, limiter/deadline.go and the callback of limiter/delegate_listener.go, over any
-- delegate limiter. The notify channels are numbered in the order in which they are made. A goroutine
-- has a status, which says where it stands; a function is what it does between two points where
-- others may run. The two limiters differ in what their loops do with the clock.
pub mod System
pub mod Channels
pub mod Wakeup
use go_concurrency_limits.Base.{
  map, ℕ, suc, ◌+◌, Bool, true, false, ◌||◌, Option, none, some, List, ◌==◌, if◌then◌else◌, set,
}
use go_concurrency_limits.Base.Int.{ℤ, pos, leb_ℤ, ltb_ℤ}
use go_concurrency_limits.Limiter.Interface.{Limiter}

-- At the top of the loop; with the channel that currentNotify returned; in the select on it, refused
-- when so many reports had been made; with a listener; between the delegate's report and
-- broadcastRelease; between the exchange and close(old); returned without a listener or after a report.
pub data Status (C L : Type 0) : Type 0 where
  looping : C → Status C L
  captured : C → ℕ → Status C L
  blocked : C → ℕ → ℕ → Status C L
  holding : L → Status C L
  reported : Status C L
  closing : ℕ → Status C L
  returned : Status C L

pub data Report : Type 0 where
  success ignore dropped : Report

module _ (d : Limiter) where
  open d use {State, Ctx, Listener, Clock}

  -- reports counts the reports that the delegate has been given; no code reads it.
  pub record BlockingLimiter : Type 0 where
    pub delegate : State
    pub notify : ℕ
    pub closed : ℕ → Bool
    pub status : List (Status Ctx Listener)
    pub reports : ℕ

  -- The limiter for goroutines that call Acquire with the contexts; the timeout is a choice of the steps.
  unfoldable pub new_blocking_limiter : List Ctx → State → BlockingLimiter
  new_blocking_limiter ctxs delegate = record {
    delegate = delegate;
    notify = 0;
    closed = λ k. false;
    status = map (λ ctx. looping ctx) ctxs;
    reports = 0;
  }

  abbrev pub set_status : ℕ → Status Ctx Listener → BlockingLimiter → BlockingLimiter
  set_status i x s = record s { status = set s.status i x }

  -- The top of BlockingLimiter's loop: ctx.Err(), then currentNotify.
  unfoldable pub begin : ℕ → Ctx → Bool → BlockingLimiter → BlockingLimiter
  begin i ctx cancelled s =
      if cancelled then set_status i returned s else set_status i (captured ctx s.notify) s

  -- DeadlineLimiter's: ctx.Err(), time.Until(l.deadline), then currentNotify.
  unfoldable pub begin_before : ℤ → ℤ → ℕ → Ctx → Bool → BlockingLimiter → BlockingLimiter
  begin_before deadline now i ctx cancelled s =
      if cancelled
      then set_status i returned s
      else if leb_ℤ deadline now
      then set_status i returned s
      else set_status i (captured ctx s.notify) s

  -- The delegate is asked; a refused goroutine goes into its select.
  unfoldable pub attempt : Clock → ℕ → Ctx → ℕ → BlockingLimiter → BlockingLimiter
  attempt c i ctx g s =
      let (t, r) = d.acquire c ctx s.delegate in
      elim r [
        | none ↦ set_status i (blocked ctx g s.reports) (record s { delegate = t })
        | some h ↦ set_status i (holding h) (record s { delegate = t })
      ]

  -- The same in DeadlineLimiter, which returns if the deadline has passed meanwhile.
  unfoldable pub attempt_before : ℤ → ℤ → Clock → ℕ → Ctx → ℕ → BlockingLimiter → BlockingLimiter
  attempt_before deadline now c i ctx g s =
      let (t, r) = d.acquire c ctx s.delegate in
      elim r [
        | none ↦
            if leb_ℤ deadline now
            then set_status i returned (record s { delegate = t })
            else set_status i (blocked ctx g s.reports) (record s { delegate = t })
        | some h ↦ set_status i (holding h) (record s { delegate = t })
      ]

  -- What a report does to the delegate.
  unfoldable pub delegate_report : Report → Clock → Listener → State → State
  delegate_report success c h s = d.on_success c h s
  delegate_report ignore c h s = d.on_ignore c h s
  delegate_report dropped c h s = d.on_dropped c h s

  -- OnSuccess, OnIgnore and OnDropped of a DelegateListener, up to the call of onRelease.
  unfoldable pub report : Report → Clock → ℕ → Listener → BlockingLimiter → BlockingLimiter
  unfolding delegate_report
  report r c i h s =
      set_status i reported
        (record s { delegate = delegate_report r c h s.delegate; reports = s.reports + 1 })

  -- broadcastRelease: under the mutex a new channel replaces the old one, which is closed after it.
  unfoldable pub exchange : ℕ → BlockingLimiter → BlockingLimiter
  exchange i s = set_status i (closing s.notify) (record s { notify = s.notify + 1 })

  unfoldable pub close : ℕ → ℕ → BlockingLimiter → BlockingLimiter
  close i g s = set_status i returned (record s { closed = λ k. k == g || s.closed k })
