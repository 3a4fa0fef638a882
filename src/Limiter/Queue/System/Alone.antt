-- ===== src/Limiter/Queue/System/Alone.antt =====
-- unblock as a function is what the steps of unblock come to where no others come between them.
use go_concurrency_limits.Base.{◌≡◌, refl, sym, subst, some, inl, inr, Option-cases}
use go_concurrency_limits.Limiter.Interface.{Limiter, CountsSlots}
use go_concurrency_limits.Limiter.Queue.{
  QueueBlockingLimiter, QueueElement, peek, evict, unblock, hand_over,
}
use go_concurrency_limits.Limiter.Queue.System.{
  System, looks, asks, removes, sends, gives_back, Reach, here, next, calm, peeked, granted,
  declined, look, ask, remove, send, give_back,
}
use go_concurrency_limits.Limiter.Queue.System.Invariant.{set_listener_cases, unblock_serves}

module _ (d : Limiter) (law : CountsSlots d) where
  open d use {State, Ctx, Listener, Clock}

  -- One goroutine has reported and not yet locked the mutex.
  abbrev pub pending : QueueBlockingLimiter d → System d
  pending q = record (calm d q) { due = 1 }

  look_lem :
      (q : QueueBlockingLimiter d) (e : QueueElement Ctx)
      → peek q.ordering q.backlog ≡ some e
      → record (calm d q) { holder = peeked e } ≡ look d 0 (pending q)
  unfolding look
  look_lem q e k = rw (k, look) refl

  handing :
      (c : Clock) (q : QueueBlockingLimiter d) (e : QueueElement Ctx) (h : Listener) (s0 : System d)
      → Reach d s0 (record (calm d q) { holder = granted e.id h })
      → Reach d s0 (calm d (hand_over d c e.id h q))
  unfolding hand_over remove send give_back
  handing c q e h s0 r =
      let q' : QueueBlockingLimiter d = record q { backlog = evict e.id q.backlog } in
      let r' = next r (removes e.id h refl refl) in
      elim (set_listener_cases d law e.id h q') [
        | inl (s, k) ↦ next r' (sends e.id h refl (rw (k, send, hand_over) refl))
        | inr k ↦
            let r'' : Reach d s0 (record (calm d q') { holder = declined h }) =
              next r' (sends e.id h refl (rw (k, send) refl)) in
            next r'' (gives_back c h refl (rw (k, hand_over) refl))
      ]

  -- From a state in which one unblock is due, the steps of that unblock and no others lead to what the
  -- function unblock makes.
  pub unblock-Reach :
      (c : Clock) (q : QueueBlockingLimiter d) → Reach d (pending q) (calm d (unblock d c q))
  unfolding unblock look ask
  unblock-Reach c q = elim (Option-cases (peek q.ordering q.backlog)) [
    | inl e ↦ next here (looks 0 refl refl (rw (e, unblock, look) refl))
    | inr (e, k) ↦
        let r : Reach d (pending q) (record (calm d q) { holder = peeked e }) =
          next here (looks 0 refl refl (look_lem q e k)) in
        elim (Option-cases (d.acquire c e.ctx q.delegate).1) [
          | inl f ↦ next r (asks c e refl (rw (k, f, unblock, ask) refl))
          | inr (h, f) ↦
              let q' : QueueBlockingLimiter d = record q {
                delegate = (d.acquire c e.ctx q.delegate).0;
              } in
              let r' : Reach d (pending q) (record (calm d q') { holder = granted e.id h }) =
                next r (asks c e refl (rw (f, ask) refl)) in
              subst (λ t. Reach d (pending q) (calm d t)) (sym (unblock_serves d law c q e h k f))
                (handing c q' e h (pending q) r')
        ]
  ]
