-- ===== src/Limiter/Queue/Wakeup.antt =====
-- unblock, where the goroutine that it picks may not be in its select.
use go_concurrency_limits.Base.{◌≡◌, ◌≢◌, ap, ◌∙◌, inl, inr, some, arith, get_elem?}
use go_concurrency_limits.Limiter.Interface.{Limiter, CountsSlots}
use go_concurrency_limits.Limiter.Queue.{
  QueueBlockingLimiter, QueueElement, selecting, peek, unblock, evict,
}
use go_concurrency_limits.Limiter.Queue.System.Invariant.{
  unblock_serves, hand_over_refused, set_listener_cases,
}

module _ (d : Limiter) (law : CountsSlots d) where
  open d use {Ctx, Listener, Clock}
  open law use {slots, Good, acquire_some, ignore_slots}

  -- When the element that unblock picks belongs to a goroutine that is not in its select (it has pushed
  -- and not yet reached it, or its timeout has fired), and the delegate has a free slot, then the
  -- element is evicted, the slot goes back unused, and no other goroutine is woken: every status is as
  -- before, and the delegate has as many slots in use as before.
  pub unblock_lost :
      (c : Clock) (s : QueueBlockingLimiter d) (e : QueueElement Ctx) (h : Listener)
      → Good s.delegate
      → peek s.ordering s.backlog ≡ some e
      → (d.acquire c e.ctx s.delegate).1 ≡ some h
      → get_elem? s.status e.id ≢ some selecting
      → ((unblock d c s).backlog ≡ evict e.id s.backlog)
        × ((unblock d c s).status ≡ s.status)
        × (slots (unblock d c s).delegate ≡ slots s.delegate)
  unblock_lost c s e h good k f ne =
      let t = (d.acquire c e.ctx s.delegate).0 in
      let (g, q, r) = acquire_some c e.ctx s.delegate h good f in
      let s' : QueueBlockingLimiter d = record s { delegate = t; backlog = evict e.id s.backlog } in
      elim (set_listener_cases d law e.id h s') [
        | inl (x, _) ↦ absurd (ne x)
        | inr x ↦
            let p =
              unblock_serves d law c s e h k f
              ∙ hand_over_refused d law c e.id h (record s { delegate = t }) x in
            let (g', q') = ignore_slots c h t g r (omega arith) in
            (
              ap (λ u. u.backlog) p,
              ap (λ u. u.status) p,
              ap (λ u. slots u.delegate) p ∙ omega arith,
            )
      ]
