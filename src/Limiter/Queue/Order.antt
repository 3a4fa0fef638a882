-- ===== src/Limiter/Queue/Order.antt =====
-- In which order the backlog is served.
use go_concurrency_limits.Base.{ℕ, ◌≡◌, refl, ap, ◌≢◌, some, List, [], ◌∷◌, ◌++◌, arith, All}
use go_concurrency_limits.Limiter.Queue.{
  QueueElement, fifo, lifo, evict, front, back, peek, pop, push,
}
use go_concurrency_limits.Limiter.Queue.Backlog.{Distinct}

module _ {C : Type 0} where
  evict-append_last :
      (q : List (QueueElement C)) (e : QueueElement C)
      → Distinct (q ++ (e ∷ []))
      → evict e.id (q ++ (e ∷ [])) ≡ q
  unfolding evict
  evict-append_last [] e d = ground arith
  evict-append_last (x ∷ q) e d =
      ground (arith, evict-append_last q e d.1, All-last q e (λ f. f.id ≢ x.id) d.0)
    where
      All-last :
          (q : List (QueueElement C)) (e : QueueElement C) (P : QueueElement C → Type 0)
          → All P (q ++ (e ∷ []))
          → P e
      All-last [] e P a = a.0
      All-last (x ∷ q) e P a = All-last q e P a.1

  back-append_last :
      (q : List (QueueElement C)) (e : QueueElement C) → back (q ++ (e ∷ [])) ≡ some e
  unfolding back
  back-append_last [] e = refl
  back-append_last (x ∷ []) e = refl
  back-append_last (x ∷ y ∷ q) e = back-append_last (y ∷ q) e

  -- A backlog with distinct elements whose oldest is e: under FIFO ordering pop takes e and leaves the
  -- others in order; under LIFO ordering it takes the element pushed last and leaves what was there
  -- before the push.
  pub pop_order :
      (q : List (QueueElement C)) (e : QueueElement C) (i : ℕ) (ctx : C)
      → Distinct (push i ctx (q ++ (e ∷ [])))
      → (pop fifo (push i ctx (q ++ (e ∷ []))) ≡ (push i ctx q, some e))
        × (pop lifo (push i ctx (q ++ (e ∷ [])))
            ≡ (q ++ (e ∷ []), some (record { id = i; ctx = ctx })))
  unfolding pop peek push evict front
  pop_order q e i ctx d =
      let new : QueueElement C = record { id = i; ctx = ctx } in
      let b = back-append_last (new ∷ q) e in
      let v = evict-append_last (new ∷ q) e d in
      (rw (b, pop) (ap (λ z. (z, some e)) v), ground arith)
