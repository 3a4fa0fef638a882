-- ===== src/Limiter/Queue/Safety.antt =====
-- What holds of a QueueBlockingLimiter in every state that its goroutines can reach.
use go_concurrency_limits.Base.{
  ◌+◌, ◌≤◌, ◌≡◌, refl, sym, subst, List, [], ◌∷◌, arith, length, All, total,
}
use go_concurrency_limits.Limiter.Interface.{Limiter, CountsSlots}
use go_concurrency_limits.Limiter.Queue.{QueueBlockingLimiter, Status, absent}
use go_concurrency_limits.Limiter.Queue.Backlog.{Distinct, Waits}
use go_concurrency_limits.Limiter.Queue.System.{System, Reach, here, next, calm}
use go_concurrency_limits.Limiter.Queue.System.Invariant.{is_received, IsGood}
use go_concurrency_limits.Limiter.Queue.System.Hold.{in_hand}
use go_concurrency_limits.Limiter.Queue.System.Moves.{SystemInv, Step-SystemInv}

module _ (d : Limiter) (law : CountsSlots d) where
  open d use {State, Ctx, Listener, Clock}
  open law use {slots, Good}

  Reach-SystemInv : {s t : System d} → Reach d s t → SystemInv d law s → SystemInv d law t
  Reach-SystemInv here v = v
  Reach-SystemInv (next r st) v = Step-SystemInv d law st (Reach-SystemInv r v)

  -- A limiter that no goroutine has used yet, over a good delegate with no listener out.
  pub record IsNew (s : QueueBlockingLimiter d) : Type 0 where
    pub good : Good s.delegate
    pub free : slots s.delegate ≡ 0
    pub unused : All (λ x. x ≡ absent) s.status
    pub empty : s.backlog ≡ []

  unused-received :
      (st : List (Status Ctx Listener))
      → All (λ x. x ≡ absent) st
      → (total (is_received d) st ≡ 0) × All (IsGood d law) st
  unused-received [] a = (refl, tt)
  unused-received (x ∷ st) a =
      let (t, g) = unused-received st a.1 in
      (rw a.0 (ground arith), (subst (IsGood d law) (sym a.0) tt, g))

  calm-SystemInv : {q : QueueBlockingLimiter d} → IsNew q → SystemInv d law (calm d q)
  calm-SystemInv {q} n =
      let (t, g) = unused-received q.status n.unused in
      record {
        limiter = record {
          good = n.good;
          counted = omega (arith, n.free);
          granted = g;
          capacity = rw n.empty (omega arith);
          distinct = rw n.empty tt;
          waiting = rw n.empty tt;
        };
        held = tt;
      }

  -- A limiter that starts unused, over a delegate whose calls are single steps and count slots. Whatever
  -- its goroutines do and in whatever order, a running unblock interrupted between any two of its
  -- calls included: the delegate's listeners that are out are those that goroutines hold, and the one, if
  -- any, that the running unblock has in hand, so that none is lost and none given twice; the backlog
  -- stays within its size, has no element twice, and holds only elements of goroutines that are still
  -- waiting.
  pub Reach-safe :
      {q : QueueBlockingLimiter d} {t : System d}
      → IsNew q
      → Reach d (calm d q) t
      → (slots t.limiter.delegate ≡ in_hand d t.holder + total (is_received d) t.limiter.status)
        × (length t.limiter.backlog ≤ t.limiter.max_backlog_size)
        × Distinct t.limiter.backlog
        × All (λ e. Waits t.limiter.status e.id) t.limiter.backlog
  Reach-safe n r =
      let v = (Reach-SystemInv r (calm-SystemInv n)).limiter in
      (v.counted, v.capacity, v.distinct, v.waiting)

  -- The delegate stays good, and its listeners that are out are those that goroutines or unblock hold.
  pub Reach-Good :
      {q : QueueBlockingLimiter d} {t : System d}
      → IsNew q
      → Reach d (calm d q) t
      → Good t.limiter.delegate
        × (slots t.limiter.delegate ≡ in_hand d t.holder + total (is_received d) t.limiter.status)
  Reach-Good n r = let v = (Reach-SystemInv r (calm-SystemInv n)).limiter in (v.good, v.counted)
