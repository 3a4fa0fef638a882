-- ===== src/Limiter/Queue/System/Moves.antt =====
-- Every step of a QueueBlockingLimiter's system keeps its invariant.
use go_concurrency_limits.Base.{
  ℕ, ◌+◌, ◌<◌, ◌≡◌, refl, sym, subst, true, inl, inr, some, List, arith, get_elem?, set, total-set,
  All-set, Option-cases,
}
use go_concurrency_limits.Limiter.Interface.{Limiter, CountsSlots}
use go_concurrency_limits.Limiter.Queue.{
  QueueBlockingLimiter, QueueElement, Status, absent, trying, arriving, selecting, leaving,
  received, refused, peek,
}
use go_concurrency_limits.Limiter.Queue.Backlog.{
  NotIn, Waits, is_waiting, peek-All, evict-NotIn, set-Waits_others, Waits-NotIn,
}
use go_concurrency_limits.Limiter.Queue.System.{
  System, Step, tries, pushes, selects, expires, gives_up, reports, looks, asks, removes, sends,
  gives_back, Holder, idle, peeked, granted, evicted, declined, Report, success, ignore, dropped,
  reported, report, look, ask, remove, send, give_back,
}
use go_concurrency_limits.Limiter.Queue.System.Invariant.{
  is_received, Inv, IsGood, receive-Inv, evict-Inv, delegate-Inv, held_slot, set_listener_cases,
  quiet-Inv,
}
use go_concurrency_limits.Limiter.Queue.System.Goroutine.{
  try_delegate-Inv, try_push-Inv, give_up-Inv,
}
use go_concurrency_limits.Limiter.Queue.System.Hold.{
  in_hand, is_past, Past, Keeps, past-Keeps, try_delegate-Keeps, try_push-Keeps, give_up-Keeps,
}

module _ (d : Limiter) (law : CountsSlots d) where
  open d use {State, Ctx, Listener, Clock}
  open law use {
    slots, Good, Granted, acquire_none, acquire_some, success_slots, ignore_slots, dropped_slots,
  }

  -- What the unblock that runs knows of the element that it has peeked.
  abbrev pub Held : Holder Ctx Listener → QueueBlockingLimiter d → Type 0
  Held idle q = Unit
  Held (peeked e) q = Past d q.status e.id
  Held (granted i h) q = Granted h × Past d q.status i
  Held (evicted i h) q = Granted h × Past d q.status i × NotIn i q.backlog
  Held (declined h) q = Granted h

  keep-Held :
      (x : Holder Ctx Listener) (q q' : QueueBlockingLimiter d)
      → Keeps d q q'
      → Held x q
      → Held x q'
  keep-Held idle q q' k v = tt
  keep-Held (peeked e) q q' k v = k.0 e.id v
  keep-Held (granted i h) q q' k (g, p) = (g, k.0 i p)
  keep-Held (evicted i h) q q' k (g, p, n) = (g, k.0 i p, k.1 i p n)
  keep-Held (declined h) q q' k v = v

  pub record SystemInv (s : System d) : Type 0 where
    pub limiter : Inv d law (in_hand d s.holder) s.limiter
    pub held : Held s.holder s.limiter

  at :
      (x : Holder Ctx Listener) (s : System d)
      → s.holder ≡ x
      → SystemInv s
      → Inv d law (in_hand d x) s.limiter × Held x s.limiter
  at x s e v =
      subst (λ y. Inv d law (in_hand d y) s.limiter × Held y s.limiter) e (v.limiter, v.held)

  Waits-Past : (st : List (Status Ctx Listener)) (i : ℕ) → Waits st i → Past d st i
  Waits-Past st i (x, e, w) = (x, e, past x w)
    where
      past : (x : Status Ctx Listener) → is_waiting x ≡ true → is_past d x ≡ true
      past arriving w = refl
      past selecting w = refl
      past leaving w = refl
      past absent w = absurd (ground arith)
      past (trying c) w = absurd (ground arith)
      past (received h) w = refl
      past refused w = refl

  -- A goroutine that is not in unblock moves.
  move-SystemInv :
      (s : System d) (q : QueueBlockingLimiter d)
      → Inv d law (in_hand d s.holder) q
      → Keeps d s.limiter q
      → SystemInv s
      → SystemInv (record s { limiter = q })
  move-SystemInv s q i k v = record { limiter = i; held = keep-Held s.holder s.limiter q k v.held }

  reported_slots :
      (r : Report) (c : Clock) (h : Listener) (t : State)
      → Good t
      → Granted h
      → 0 < slots t
      → Good (reported d r c h t) × (slots (reported d r c h t) + 1 ≡ slots t)
  reported_slots success c h t = success_slots c h t
  reported_slots ignore c h t = ignore_slots c h t
  reported_slots dropped c h t = dropped_slots c h t

  report-SystemInv :
      (r : Report) (c : Clock) (i : ℕ) (h : Listener) (s : System d)
      → get_elem? s.limiter.status i ≡ some (received h)
      → SystemInv s
      → SystemInv (report d r c i h s)
  unfolding report
  report-SystemInv r c i h s e v =
      let q = s.limiter in
      let (g, p) = held_slot d law (in_hand d s.holder) i h q e v.limiter in
      let (good, k) = reported_slots r c h q.delegate v.limiter.good g p in
      let n = total-set (is_received d) q.status i refused (received h) e in
      let out = Waits-NotIn q.status i (received h) q.backlog e refl v.limiter.waiting in
      record {
        limiter = record {
          good = good;
          counted = omega (arith, v.limiter.counted);
          granted = All-set (IsGood d law) q.status i refused v.limiter.granted tt;
          capacity = v.limiter.capacity;
          distinct = v.limiter.distinct;
          waiting = set-Waits_others q.status i refused q.backlog out v.limiter.waiting;
        };
        held =
            keep-Held s.holder q
              (record q { status = set q.status i refused; delegate = reported d r c h q.delegate })
              (past-Keeps d i refused q refl) v.held;
      }

  look-SystemInv : (n : ℕ) (s : System d) → s.holder ≡ idle → SystemInv s → SystemInv (look d n s)
  unfolding look
  look-SystemInv n s e v = elim (Option-cases (peek s.limiter.ordering s.limiter.backlog)) [
    | inl k ↦ rw (k, look) (record { limiter = v.limiter; held = v.held })
    | inr (x, k) ↦
        let w =
          peek-All (λ y. Waits s.limiter.status y.id) s.limiter.ordering s.limiter.backlog x k
            v.limiter.waiting in
        rw (k, look)
          (record { limiter = (at idle s e v).0; held = Waits-Past s.limiter.status x.id w })
  ]

  ask-SystemInv :
      (c : Clock) (x : QueueElement Ctx) (s : System d)
      → s.holder ≡ peeked x
      → SystemInv s
      → SystemInv (ask d c x s)
  unfolding ask
  ask-SystemInv c x s e v =
      let q = s.limiter in
      let t = (d.acquire c x.ctx q.delegate).0 in
      let (i, past) = at (peeked x) s e v in
      elim (Option-cases (d.acquire c x.ctx q.delegate).1) [
        | inl f ↦
            let (g, k) = acquire_none c x.ctx q.delegate i.good f in
            rw (f, ask)
              (record { limiter = delegate-Inv d law 0 0 t q g (omega arith) i; held = tt })
        | inr (h, f) ↦
            let (g, k, r) = acquire_some c x.ctx q.delegate h i.good f in
            rw (f, ask)
              (record { limiter = delegate-Inv d law 0 1 t q g (omega arith) i; held = (r, past) })
      ]

  send-SystemInv :
      (i : ℕ) (h : Listener) (s : System d)
      → s.holder ≡ evicted i h
      → SystemInv s
      → SystemInv (send d i h s)
  unfolding send
  send-SystemInv i h s e v =
      let q = s.limiter in
      let (inv, (g, past, out)) = at (evicted i h) s e v in
      elim (set_listener_cases d law i h q) [
        | inl (k, f) ↦
            rw (f, send)
              (record { limiter = receive-Inv d law 0 i selecting h q k refl g out inv; held = tt })
        | inr f ↦ rw (f, send) (record { limiter = inv; held = g })
      ]

  pub Step-SystemInv : {s t : System d} → Step d s t → SystemInv s → SystemInv t
  unfolding remove give_back
  Step-SystemInv {s} (tries c i ctx e q) v = subst SystemInv (sym q) (
      move-SystemInv s _ (try_delegate-Inv d law _ c i ctx s.limiter e v.limiter)
        (try_delegate-Keeps d c i ctx s.limiter e) v)
  Step-SystemInv {s} (pushes i ctx e q) v = subst SystemInv (sym q) (
      move-SystemInv s _ (try_push-Inv d law _ i ctx s.limiter e v.limiter)
        (try_push-Keeps d i ctx s.limiter e) v)
  Step-SystemInv {s} (selects i e q) v = subst SystemInv (sym q) (
      move-SystemInv s _
        (quiet-Inv d law _ i arriving selecting s.limiter e refl refl tt (inl refl) v.limiter)
        (past-Keeps d i selecting s.limiter refl) v)
  Step-SystemInv {s} (expires i e q) v = subst SystemInv (sym q) (
      move-SystemInv s _
        (quiet-Inv d law _ i selecting leaving s.limiter e refl refl tt (inl refl) v.limiter)
        (past-Keeps d i leaving s.limiter refl) v)
  Step-SystemInv {s} (gives_up i e q) v = subst SystemInv (sym q) (
      move-SystemInv s _ (give_up-Inv d law _ i s.limiter e v.limiter) (give_up-Keeps d i s.limiter)
        v)
  Step-SystemInv {s} (reports r c i h e q) v =
      subst SystemInv (sym q) (report-SystemInv r c i h s e v)
  Step-SystemInv {s} (looks n e k q) v = subst SystemInv (sym q) (look-SystemInv n s k v)
  Step-SystemInv {s} (asks c x e q) v = subst SystemInv (sym q) (ask-SystemInv c x s e v)
  Step-SystemInv {s} (removes i h e q) v =
      let (inv, (g, past)) = at (granted i h) s e v in
      subst SystemInv (sym q) (record {
        limiter = evict-Inv d law 1 i s.limiter inv;
        held = (g, past, evict-NotIn i s.limiter.backlog inv.distinct);
      })
  Step-SystemInv {s} (sends i h e q) v = subst SystemInv (sym q) (send-SystemInv i h s e v)
  Step-SystemInv {s} (gives_back c h e q) v =
      let (inv, g) = at (declined h) s e v in
      let (good, k) = ignore_slots c h s.limiter.delegate inv.good g (omega (arith, inv.counted)) in
      subst SystemInv (sym q)
        (record { limiter = delegate-Inv d law 1 0 _ s.limiter good (omega arith) inv; held = tt })
