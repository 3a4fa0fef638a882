-- ===== src/Limiter/Queue.antt =====
-- limiter/queue_blocking.go: the backlog and the QueueBlockingLimiter over any delegate limiter.
-- An element of the backlog is named by a number, for the pointer *list.Element. The goroutine that
-- waits for an element has a status (goroutine i has the i-th, and pushes the element i); the send in setListener succeeds only if it is in its select.
pub mod Config
pub mod Backlog
pub mod Order
pub mod System
pub mod Safety
pub mod Wakeup
use go_concurrency_limits.Base.{
  ℕ, ◌+◌, Bool, true, false, not, Option, none, some, List, [], ◌∷◌, leb, ◌==◌, if◌then◌else◌,
  length, get_elem?, set,
}
use go_concurrency_limits.Limiter.Interface.{Limiter}

-- The string type QueueOrdering: its two constants, and any other string.
pub data QueueOrdering : Type 0 where
  fifo lifo unordered : QueueOrdering

pub record QueueElement (C : Type 0) : Type 0 where
  pub id : ℕ
  pub ctx : C

module _ {C : Type 0} where
  -- list.Remove(e), which leaves the list alone if e is not in it.
  unfoldable pub evict : ℕ → List (QueueElement C) → List (QueueElement C)
  evict i [] = []
  evict i (e ∷ q) = if e.id == i then q else e ∷ evict i q

  -- PushFront: the front is the newest.
  unfoldable pub push : ℕ → C → List (QueueElement C) → List (QueueElement C)
  push i ctx q = record { id = i; ctx = ctx } ∷ q

  -- none is errQueueIsFull.
  unfoldable pub push_with_capacity :
      ℕ → C → ℕ → List (QueueElement C) → Option (List (QueueElement C))
  unfolding push
  push_with_capacity i ctx capacity q =
      if leb capacity (length q) then none else some (push i ctx q)

  unfoldable pub front : List (QueueElement C) → Option (QueueElement C)
  front [] = none
  front (e ∷ q) = some e

  unfoldable pub back : List (QueueElement C) → Option (QueueElement C)
  back [] = none
  back (e ∷ []) = some e
  back (e ∷ f ∷ q) = back (f ∷ q)

  unfoldable pub peek : QueueOrdering → List (QueueElement C) → Option (QueueElement C)
  unfolding front back
  peek fifo q = back q
  peek lifo q = front q
  peek unordered q = none

  unfoldable pub pop :
      QueueOrdering → List (QueueElement C) → List (QueueElement C) × Option (QueueElement C)
  unfolding peek evict
  pop o q = elim (peek o q) [ none ↦ (q, none) | some e ↦ (evict e.id q, some e) ]

-- Where the goroutine of an element stands in tryAcquire: not begun, before the push, before the
-- select, in the select, past it with a listener, past it by a timeout or a cancelled context and
-- before its evict, returned with nothing (or done with its listener).
pub data Status (C L : Type 0) : Type 0 where
  absent : Status C L
  trying : C → Status C L
  arriving selecting leaving : Status C L
  received : L → Status C L
  refused : Status C L

module _ (d : Limiter) where
  open d use {State, Ctx, Listener, Clock}

  pub record QueueBlockingLimiter : Type 0 where
    pub delegate : State
    pub max_backlog_size : ℕ
    pub ordering : QueueOrdering
    pub backlog : List (QueueElement Ctx)
    pub status : List (Status Ctx Listener)

  abbrev pub set_status : ℕ → Status Ctx Listener → QueueBlockingLimiter → QueueBlockingLimiter
  set_status i x s = record s { status = set s.status i x }

  abbrev is_selecting : Option (Status Ctx Listener) → Bool
  is_selecting (some selecting) = true
  is_selecting _ = false

  -- The send: accepted if the receiver is in its select, which then returns the listener.
  unfoldable pub set_listener : ℕ → Listener → QueueBlockingLimiter → QueueBlockingLimiter × Bool
  set_listener i h s =
      if is_selecting (get_elem? s.status i)
      then (set_status i (received h) s, true)
      else (s, false)

  -- The end of unblock, once the delegate has granted a listener for the element.
  unfoldable pub hand_over : Clock → ℕ → Listener → QueueBlockingLimiter → QueueBlockingLimiter
  unfolding set_listener evict
  hand_over c i h s =
      let (s', accepted) = set_listener i h (record s { backlog = evict i s.backlog }) in
      if accepted then s' else record s' { delegate = d.on_ignore c h s'.delegate }

  unfoldable pub unblock : Clock → QueueBlockingLimiter → QueueBlockingLimiter
  unfolding peek hand_over
  unblock c s = elim (peek s.ordering s.backlog) [
    | none ↦ s
    | some e ↦
        let (t, r) = d.acquire c e.ctx s.delegate in
        elim r [
          | none ↦ record s { delegate = t }
          | some h ↦ hand_over c e.id h (record s { delegate = t })
        ]
  ]

  -- The methods of QueueBlockingListener.
  unfoldable pub on_success : Clock → Listener → QueueBlockingLimiter → QueueBlockingLimiter
  unfolding unblock
  on_success c h s = unblock c (record s { delegate = d.on_success c h s.delegate })

  unfoldable pub on_ignore : Clock → Listener → QueueBlockingLimiter → QueueBlockingLimiter
  unfolding unblock
  on_ignore c h s = unblock c (record s { delegate = d.on_ignore c h s.delegate })

  unfoldable pub on_dropped : Clock → Listener → QueueBlockingLimiter → QueueBlockingLimiter
  unfolding unblock
  on_dropped c h s = unblock c (record s { delegate = d.on_dropped c h s.delegate })

  -- tryAcquire of goroutine i, up to each point at which others may run. First the delegate.
  unfoldable pub try_delegate : Clock → ℕ → Ctx → QueueBlockingLimiter → QueueBlockingLimiter
  try_delegate c i ctx s =
      let (t, r) = d.acquire c ctx s.delegate in
      elim r [
        | none ↦ set_status i (trying ctx) (record s { delegate = t })
        | some h ↦ set_status i (received h) (record s { delegate = t })
      ]

  -- Then the push, or errQueueIsFull.
  unfoldable pub try_push : ℕ → Ctx → QueueBlockingLimiter → QueueBlockingLimiter
  unfolding push_with_capacity
  try_push i ctx s = elim (push_with_capacity i ctx s.max_backlog_size s.backlog) [
    | none ↦ set_status i refused s
    | some q ↦ set_status i arriving (record s { backlog = q })
  ]

  -- Last, in the branches of the timeout and of the cancelled context, evict() and return nil.
  unfoldable pub give_up : ℕ → QueueBlockingLimiter → QueueBlockingLimiter
  unfolding evict
  give_up i s = set_status i refused (record s { backlog = evict i s.backlog })
