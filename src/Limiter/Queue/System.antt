-- ===== src/Limiter/Queue/System.antt =====
-- A QueueBlockingLimiter with any number of goroutines, in any interleaving. What one lock protects is
-- a step: a push and an eviction (the queue's mutex), each call of the delegate, the entry into the
-- select, a timeout, a send on the channel. A report is a call of the delegate, after which unblock is
-- due; unblock holds the limiter's mutex, so that one runs at a time, but other steps come between its own.
pub mod Invariant
pub mod Goroutine
pub mod Hold
pub mod Moves
pub mod Alone
use go_concurrency_limits.Base.{ℕ, suc, ◌≡◌, none, some, get_elem?, if◌then◌else◌}
use go_concurrency_limits.Limiter.Interface.{Limiter}
use go_concurrency_limits.Limiter.Queue.{
  QueueBlockingLimiter, QueueElement, Status, absent, trying, arriving, selecting, leaving,
  received, refused, set_status, set_listener, try_delegate, try_push, give_up, peek, evict,
}

-- Where the unblock stands that holds the limiter's mutex: none runs; it has peeked an element; the
-- delegate has granted it a listener for one; it has evicted that element; the send has failed.
pub data Holder (C L : Type 0) : Type 0 where
  idle : Holder C L
  peeked : QueueElement C → Holder C L
  granted : ℕ → L → Holder C L
  evicted : ℕ → L → Holder C L
  declined : L → Holder C L

pub data Report : Type 0 where
  success ignore dropped : Report

module _ (d : Limiter) where
  open d use {State, Ctx, Listener, Clock}

  -- due counts the listeners that have reported to the delegate and not yet locked the mutex.
  pub record System : Type 0 where
    pub limiter : QueueBlockingLimiter d
    pub holder : Holder Ctx Listener
    pub due : ℕ

  -- No goroutine is in unblock.
  abbrev pub calm : QueueBlockingLimiter d → System
  calm q = record { limiter = q; holder = idle; due = 0 }

  abbrev pub reported : Report → Clock → Listener → State → State
  reported success = d.on_success
  reported ignore = d.on_ignore
  reported dropped = d.on_dropped

  -- The delegate's part of OnSuccess, OnIgnore or OnDropped of the listener that goroutine i received.
  unfoldable pub report : Report → Clock → ℕ → Listener → System → System
  report r c i h s =
      let l = set_status d i refused s.limiter in
      record s { limiter = record l { delegate = reported r c h l.delegate }; due = suc s.due }

  -- unblock up to peek, which returns nil on an empty queue.
  unfoldable pub look : ℕ → System → System
  unfolding peek
  look due s = elim (peek s.limiter.ordering s.limiter.backlog) [
    | none ↦ record s { due = due }
    | some e ↦ record s { due = due; holder = peeked e }
  ]

  -- Its call of the delegate's Acquire.
  unfoldable pub ask : Clock → QueueElement Ctx → System → System
  ask c e s =
      let (t, r) = d.acquire c e.ctx s.limiter.delegate in
      let l = record s.limiter { delegate = t } in
      elim r [
        | none ↦ record s { limiter = l; holder = idle }
        | some h ↦ record s { limiter = l; holder = granted e.id h }
      ]

  -- Its evict().
  unfoldable pub remove : ℕ → Listener → System → System
  unfolding evict
  remove i h s = record s {
    limiter = record s.limiter { backlog = evict i s.limiter.backlog };
    holder = evicted i h;
  }

  -- Its setListener.
  unfoldable pub send : ℕ → Listener → System → System
  unfolding set_listener
  send i h s =
      let (l, accepted) = set_listener d i h s.limiter in
      record s { limiter = l; holder = if accepted then idle else declined h }

  -- Its OnIgnore of a listener that was not accepted.
  unfoldable pub give_back : Clock → Listener → System → System
  give_back c h s = record s {
    limiter = record s.limiter { delegate = d.on_ignore c h s.limiter.delegate };
    holder = idle;
  }

  pub data Step (s t : System) : Type 0 where
    tries :
        (c : Clock) (i : ℕ) (ctx : Ctx)
        → get_elem? s.limiter.status i ≡ some absent
        → t ≡ record s { limiter = try_delegate d c i ctx s.limiter }
        → Step s t
    pushes :
        (i : ℕ) (ctx : Ctx)
        → get_elem? s.limiter.status i ≡ some (trying ctx)
        → t ≡ record s { limiter = try_push d i ctx s.limiter }
        → Step s t
    selects :
        (i : ℕ)
        → get_elem? s.limiter.status i ≡ some arriving
        → t ≡ record s { limiter = set_status d i selecting s.limiter }
        → Step s t
    expires :
        (i : ℕ)
        → get_elem? s.limiter.status i ≡ some selecting
        → t ≡ record s { limiter = set_status d i leaving s.limiter }
        → Step s t
    gives_up :
        (i : ℕ)
        → get_elem? s.limiter.status i ≡ some leaving
        → t ≡ record s { limiter = give_up d i s.limiter }
        → Step s t
    reports :
        (r : Report) (c : Clock) (i : ℕ) (h : Listener)
        → get_elem? s.limiter.status i ≡ some (received h)
        → t ≡ report r c i h s
        → Step s t
    looks : (n : ℕ) → s.due ≡ suc n → s.holder ≡ idle → t ≡ look n s → Step s t
    asks : (c : Clock) (e : QueueElement Ctx) → s.holder ≡ peeked e → t ≡ ask c e s → Step s t
    removes : (i : ℕ) (h : Listener) → s.holder ≡ granted i h → t ≡ remove i h s → Step s t
    sends : (i : ℕ) (h : Listener) → s.holder ≡ evicted i h → t ≡ send i h s → Step s t
    gives_back : (c : Clock) (h : Listener) → s.holder ≡ declined h → t ≡ give_back c h s → Step s t

  pub data Reach (s : System) : System → Type 0 where
    here : Reach s s
    next : {t u : System} → Reach s t → Step t u → Reach s u
