-- ===== src/Limiter/Queue/System/Invariant.antt =====
-- What holds of a queue's limiter while n listeners are out that no goroutine has received.
use go_concurrency_limits.Base.{
  ℕ, suc, ◌+◌, ◌≤◌, ◌<◌, ◌≡◌, refl, ◌⊎◌, inl, inr, true, false, some, arith, length, All, get_elem?,
  total, total-set, total-ge, All-set, All-get_elem?, Option-cases,
}
use go_concurrency_limits.Limiter.Interface.{Limiter, CountsSlots}
use go_concurrency_limits.Limiter.Queue.{
  QueueBlockingLimiter, QueueElement, Status, selecting, received, set_status, set_listener,
  hand_over, unblock, peek, evict,
}
use go_concurrency_limits.Limiter.Queue.Backlog.{
  NotIn, Distinct, evict-All, evict-Distinct, length-evict, is_waiting, Waits, set-Waits_all,
  set-Waits_others,
}

module _ (d : Limiter) where
  open d use {State, Ctx, Listener, Clock}

  abbrev pub is_received : Status Ctx Listener → ℕ
  is_received (received h) = 1
  is_received _ = 0

  module _ (law : CountsSlots d) where
    open law use {slots, Good, Granted}

    abbrev pub IsGood : Status Ctx Listener → Type 0
    IsGood (received h) = Granted h
    IsGood _ = Unit

    -- extra listeners are out that no goroutine has received.
    pub record Inv (extra : ℕ) (s : QueueBlockingLimiter d) : Type 0 where
      pub good : Good s.delegate
      pub counted : slots s.delegate ≡ extra + total is_received s.status
      pub granted : All IsGood s.status
      pub capacity : length s.backlog ≤ s.max_backlog_size
      pub distinct : Distinct s.backlog
      pub waiting : All (λ e. Waits s.status e.id) s.backlog

    -- A goroutine with no listener changes to another such status, staying in the backlog or not in it.
    pub quiet-Inv :
        (n i : ℕ) (x y : Status Ctx Listener) (s : QueueBlockingLimiter d)
        → get_elem? s.status i ≡ some x
        → is_received x ≡ 0
        → is_received y ≡ 0
        → IsGood y
        → (is_waiting y ≡ true) ⊎ NotIn i s.backlog
        → Inv n s
        → Inv n (set_status d i y s)
    quiet-Inv n i x y s e a b g w v =
        let t = total-set is_received s.status i y x e in
        record {
          good = v.good;
          counted = omega (arith, v.counted);
          granted = All-set IsGood s.status i y v.granted g;
          capacity = v.capacity;
          distinct = v.distinct;
          waiting = elim w [
            | inl k ↦ set-Waits_all s.status i y s.backlog k v.waiting
            | inr k ↦ set-Waits_others s.status i y s.backlog k v.waiting
          ];
        }

    -- One that receives a listener takes over one of the extra ones.
    pub receive-Inv :
        (n i : ℕ) (x : Status Ctx Listener) (h : Listener) (s : QueueBlockingLimiter d)
        → get_elem? s.status i ≡ some x
        → is_received x ≡ 0
        → Granted h
        → NotIn i s.backlog
        → Inv (suc n) s
        → Inv n (set_status d i (received h) s)
    receive-Inv n i x h s e a g w v =
        let t = total-set is_received s.status i (received h) x e in
        record {
          good = v.good;
          counted = omega (arith, v.counted);
          granted = All-set IsGood s.status i (received h) v.granted g;
          capacity = v.capacity;
          distinct = v.distinct;
          waiting = set-Waits_others s.status i (received h) s.backlog w v.waiting;
        }

    pub evict-Inv :
        (n i : ℕ) (s : QueueBlockingLimiter d)
        → Inv n s
        → Inv n (record s { backlog = evict i s.backlog })
    evict-Inv n i s v = record {
      good = v.good;
      counted = v.counted;
      granted = v.granted;
      capacity = omega (arith, length-evict i s.backlog, v.capacity);
      distinct = evict-Distinct i s.backlog v.distinct;
      waiting = evict-All (λ e. Waits s.status e.id) i s.backlog v.waiting;
    }

    -- The delegate moves to a good state with other slots.
    pub delegate-Inv :
        (n m : ℕ) (t : State) (s : QueueBlockingLimiter d)
        → Good t
        → slots t + n ≡ slots s.delegate + m
        → Inv n s
        → Inv m (record s { delegate = t })
    delegate-Inv n m t s g e v = record {
      good = g;
      counted = omega (arith, v.counted);
      granted = v.granted;
      capacity = v.capacity;
      distinct = v.distinct;
      waiting = v.waiting;
    }

    -- setListener accepts exactly where the goroutine is in its select.
    pub set_listener_cases :
        (i : ℕ) (h : Listener) (s : QueueBlockingLimiter d)
        → ((get_elem? s.status i ≡ some selecting)
            × (set_listener d i h s ≡ (set_status d i (received h) s, true)))
          ⊎ (set_listener d i h s ≡ (s, false))
    unfolding set_listener
    set_listener_cases i h s = elim (Option-cases (get_elem? s.status i)) [
      | inl e ↦ inr (ground arith)
      | inr (x, e) ↦ by_status x e
    ]
      where
        by_status :
            (x : Status Ctx Listener)
            → get_elem? s.status i ≡ some x
            → ((get_elem? s.status i ≡ some selecting)
                × (set_listener d i h s ≡ (set_status d i (received h) s, true)))
              ⊎ (set_listener d i h s ≡ (s, false))
        by_status selecting e = inl (e, ground arith)
        by_status _ e = inr (ground arith)

    pub hand_over_refused :
        (c : Clock) (i : ℕ) (h : Listener) (s : QueueBlockingLimiter d)
        → let s' = record s { backlog = evict i s.backlog } in
          set_listener d i h s' ≡ (s', false)
          → hand_over d c i h s ≡ record s' { delegate = d.on_ignore c h s'.delegate }
    unfolding hand_over
    hand_over_refused c i h s e = rw e refl

    pub unblock_serves :
        (c : Clock) (s : QueueBlockingLimiter d) (e : QueueElement Ctx) (h : Listener)
        → peek s.ordering s.backlog ≡ some e
        → (d.acquire c e.ctx s.delegate).1 ≡ some h
        → unblock d c s
          ≡ hand_over d c e.id h (record s { delegate = (d.acquire c e.ctx s.delegate).0 })
    unfolding unblock
    unblock_serves c s e h k f = ground arith

    pub held_slot :
        (n i : ℕ) (h : Listener) (s : QueueBlockingLimiter d)
        → get_elem? s.status i ≡ some (received h)
        → Inv n s
        → Granted h × (0 < slots s.delegate)
    held_slot n i h s e v = (
      All-get_elem? IsGood s.status i (received h) e v.granted,
      omega (arith, v.counted, total-ge is_received s.status i (received h) e),
    )
