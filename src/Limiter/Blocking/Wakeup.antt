-- ===== src/Limiter/Blocking/Wakeup.antt =====
-- Goroutines in the select of a BlockingLimiter or a DeadlineLimiter, and the channels that they wait for.
use go_concurrency_limits.Base.{
  ℕ, ◌<◌, ◌≡◌, refl, sym, subst, true, List, [], ◌∷◌, some, arith, get_elem?, total, All,
  All-get_elem?, inl, inr,
}
use go_concurrency_limits.Limiter.Interface.{Limiter}
use go_concurrency_limits.Limiter.Blocking.{BlockingLimiter, Status, looping, blocked}
use go_concurrency_limits.Limiter.Blocking.System.{Wait, Reach}
use go_concurrency_limits.Limiter.Blocking.Channels.{
  is_reported, unfinished, Behind, Inv, Reach-Inv, unfinished-le,
}

module _ (d : Limiter) where
  open d use {State, Ctx, Listener, Clock}

  -- All goroutines are at the top of their loop, and nothing has been reported.
  pub record IsNew (s : BlockingLimiter d) : Type 0 where
    pub at_start : All (λ x. (ctx : Ctx) × (x ≡ looping ctx)) s.status
    pub no_reports : s.reports ≡ 0
    pub first_channel : s.notify ≡ 0

  at_start_lem :
      (xs : List (Status Ctx Listener))
      → All (λ x. (ctx : Ctx) × (x ≡ looping ctx)) xs
      → (total (is_reported d) xs ≡ 0) × All (Behind d 0) xs
  at_start_lem [] a = (refl, tt)
  at_start_lem (x ∷ xs) a =
      let (r, b) = at_start_lem xs a.1 in
      let (ctx, q) = a.0 in (rw q (omega arith), (subst (Behind d 0) (sym q) tt, b))

  IsNew-Inv : {s : BlockingLimiter d} → IsNew s → Inv d s
  IsNew-Inv {s} n =
      let (r, b) = at_start_lem s.status n.at_start in
      record {
        counted = omega (arith, n.no_reports, n.first_channel);
        behind = subst (λ k. All (Behind d k) s.status) (sym n.first_channel) b;
        old_closed = λ g l. absurd (omega (arith, n.first_channel));
      }

  -- In either limiter and any interleaving: a goroutine that the delegate has refused, and that is in
  -- its select while a report has been made since, has a closed channel, so that it tries again, as
  -- soon as no report is between the delegate and the end of its broadcast.
  pub no_lost_wakeup :
      {w : Wait} {s t : BlockingLimiter d} (i : ℕ) (ctx : Ctx) (g seen : ℕ)
      → IsNew s
      → Reach d w s t
      → get_elem? t.status i ≡ some (blocked ctx g seen)
      → seen < t.reports
      → total (unfinished d) t.status ≡ 0
      → t.closed g ≡ true
  no_lost_wakeup {w} {s} {t} i ctx g seen n r e later quiet =
      let v = Reach-Inv d r (IsNew-Inv n) in
      let b = All-get_elem? (Behind d t.notify) t.status i (blocked ctx g seen) e v.behind in
      let (p, q) = unfinished-le d g t.status in
      elim (v.old_closed g (omega (arith, v.counted))) [ inl c ↦ c | inr c ↦ absurd (omega arith) ]
