-- ===== src/Limiter/Queue/System/Goroutine.antt =====
-- Every step of a goroutine that is not in unblock keeps the limiter's invariant.
use go_concurrency_limits.Base.{
  ℕ, suc, ◌<◌, ◌≡◌, ◌≢◌, refl, sym, subst, inl, inr, false, some, arith, length, All, get_elem?,
  total-set, All-set, leb, Option-cases, Bool-cases, get_elem?-set_self, get_elem?-lt,
}
use go_concurrency_limits.Limiter.Interface.{Limiter, CountsSlots}
use go_concurrency_limits.Limiter.Queue.{
  QueueBlockingLimiter, Status, absent, trying, arriving, leaving, received, refused, set_status,
  try_delegate, try_push, give_up, push, evict,
}
use go_concurrency_limits.Limiter.Queue.Backlog.{
  evict-NotIn, Waits-NotIn, set-Waits_all, is_waiting,
}
use go_concurrency_limits.Limiter.Queue.System.Invariant.{
  is_received, Inv, IsGood, quiet-Inv, receive-Inv, evict-Inv, delegate-Inv,
}

module _ (d : Limiter) (law : CountsSlots d) where
  open d use {State, Ctx, Listener, Clock}
  open law use {
    slots, Good, Granted, acquire_none, acquire_some, success_slots, ignore_slots, dropped_slots,
  }

  not_waiting_out :
      (n : ℕ) (i : ℕ) (x : Status Ctx Listener) (s : QueueBlockingLimiter d)
      → get_elem? s.status i ≡ some x
      → is_waiting x ≡ false
      → Inv d law n s
      → All (λ e. e.id ≢ i) s.backlog
  not_waiting_out n i x s e k v = Waits-NotIn s.status i x s.backlog e k v.waiting

  pub try_delegate-Inv :
      (n : ℕ) (c : Clock) (i : ℕ) (ctx : Ctx) (s : QueueBlockingLimiter d)
      → get_elem? s.status i ≡ some absent
      → Inv d law n s
      → Inv d law n (try_delegate d c i ctx s)
  unfolding try_delegate
  try_delegate-Inv n c i ctx s e v =
      let t = (d.acquire c ctx s.delegate).0 in
      let out = not_waiting_out n i absent s e refl v in
      elim (Option-cases (d.acquire c ctx s.delegate).1) [
        | inl f ↦
            let (g, q) = acquire_none c ctx s.delegate v.good f in
            let q' : try_delegate d c i ctx s
                ≡ set_status d i (trying ctx) (record s { delegate = t }) =
              ground arith in
            subst (Inv d law n) (sym q') (
              quiet-Inv d law n i absent (trying ctx) _ e refl refl tt (inr out)
                (delegate-Inv d law n n t s g (omega arith) v))
        | inr (h, f) ↦
            let (g, q, r) = acquire_some c ctx s.delegate h v.good f in
            let q' : try_delegate d c i ctx s
                ≡ set_status d i (received h) (record s { delegate = t }) =
              ground arith in
            subst (Inv d law n) (sym q') (
              receive-Inv d law n i absent h _ e refl r out
                (delegate-Inv d law n (suc n) t s g (omega arith) v))
      ]

  pushed-Inv :
      (n : ℕ) (i : ℕ) (ctx : Ctx) (s : QueueBlockingLimiter d)
      → get_elem? s.status i ≡ some (trying ctx)
      → length s.backlog < s.max_backlog_size
      → Inv d law n s
      → Inv d law n (set_status d i arriving (record s { backlog = push i ctx s.backlog }))
  unfolding push
  pushed-Inv n i ctx s e room v =
      let t = total-set (is_received d) s.status i arriving (trying ctx) e in
      let out = not_waiting_out n i (trying ctx) s e refl v in
      record {
        good = v.good;
        counted = omega (arith, v.counted);
        granted = All-set (IsGood d law) s.status i arriving v.granted tt;
        capacity = omega arith;
        distinct = (out, v.distinct);
        waiting = (
          (
            arriving,
            get_elem?-set_self s.status i arriving (get_elem?-lt s.status i (trying ctx) e),
            refl,
          ),
          set-Waits_all s.status i arriving s.backlog refl v.waiting,
        );
      }

  pub try_push-Inv :
      (n : ℕ) (i : ℕ) (ctx : Ctx) (s : QueueBlockingLimiter d)
      → get_elem? s.status i ≡ some (trying ctx)
      → Inv d law n s
      → Inv d law n (try_push d i ctx s)
  unfolding try_push
  try_push-Inv n i ctx s e v = elim (Bool-cases (leb s.max_backlog_size (length s.backlog))) [
    | inl full ↦
        let q : try_push d i ctx s ≡ set_status d i refused s = ground arith in
        subst (Inv d law n) (sym q) (
          quiet-Inv d law n i (trying ctx) refused s e refl refl tt
            (inr (not_waiting_out n i (trying ctx) s e refl v)) v)
    | inr free ↦
        let q : try_push d i ctx s
            ≡ set_status d i arriving (record s { backlog = push i ctx s.backlog }) =
          ground arith in
        subst (Inv d law n) (sym q) (pushed-Inv n i ctx s e (ground arith) v)
  ]

  pub give_up-Inv :
      (n : ℕ) (i : ℕ) (s : QueueBlockingLimiter d)
      → get_elem? s.status i ≡ some leaving
      → Inv d law n s
      → Inv d law n (give_up d i s)
  unfolding give_up
  give_up-Inv n i s e v =
      quiet-Inv d law n i leaving refused (record s { backlog = evict i s.backlog }) e refl refl tt
        (inr (evict-NotIn i s.backlog v.distinct)) (evict-Inv d law n i s v)
