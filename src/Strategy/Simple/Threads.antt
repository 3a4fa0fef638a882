-- ===== src/Strategy/Simple/Threads.antt =====
-- SimpleStrategy under concurrent calls: each atomic access is one step, in any interleaving.
use go_concurrency_limits.Base.{
  ℕ, zero, suc, ◌+◌, ◌-◌, ◌≤◌, ◌<◌, ◌≡◌, refl, ap, true, false, List, [], ◌∷◌, some, arith,
  if◌then◌else◌, length, get_elem?, set, total, total-set, length-set,
}
use go_concurrency_limits.Base.Int.{
  ℤ, pos, two_31, int32_inc, int32_dec, int32-eq_of_Fits, leb_ℤ, ◌≤ℤ◌,
}
use go_concurrency_limits.Strategy.Simple.{
  SimpleStrategy, new_simple_strategy, add_in_flight, is_full, release_func, set_limit,
  get_busy_count,
}

-- Where a call of TryAcquire stands: not begun, after the first load, after the test has passed.
pub data Pc : Type 0 where
  idle : Pc
  loaded : ℤ → Pc
  passed : Pc

pub record System : Type 0 where
  pub strategy : SimpleStrategy
  pub callers : List Pc
  pub tokens : ℕ  -- granted and not yet released

-- cap bounds the limits that SetLimit stores.
pub data Step (cap : ℕ) (s t : System) : Type 0 where
  load :
      (i : ℕ)
      → get_elem? s.callers i ≡ some idle
      → t ≡ record s { callers = set s.callers i (loaded s.strategy.in_flight) }
      → Step cap s t
  refuse :
      (i : ℕ) (v : ℤ)
      → get_elem? s.callers i ≡ some (loaded v)
      → is_full v s.strategy.limit ≡ true
      → t ≡ record s { callers = set s.callers i idle }
      → Step cap s t
  pass :
      (i : ℕ) (v : ℤ)
      → get_elem? s.callers i ≡ some (loaded v)
      → is_full v s.strategy.limit ≡ false
      → t ≡ record s { callers = set s.callers i passed }
      → Step cap s t
  add :
      (i : ℕ)
      → get_elem? s.callers i ≡ some passed
      → t ≡ record {
        strategy = (add_in_flight (pos 1) s.strategy).0;
        callers = set s.callers i idle;
        tokens = s.tokens + 1;
      }
      → Step cap s t
  give_back :
      0 < s.tokens
      → t ≡ record s { strategy = release_func s.strategy; tokens = s.tokens - 1 }
      → Step cap s t
  resize :
      (l : ℤ)
      → (set_limit l s.strategy).limit ≤ℤ pos cap
      → t ≡ record s { strategy = set_limit l s.strategy }
      → Step cap s t

pub data Reach (cap : ℕ) (s : System) : System → Type 0 where
  here : Reach cap s s
  next : {t u : System} → Reach cap s t → Step cap t u → Reach cap s u

-- A call that has read a count below the cap may still add one.
abbrev pending : ℕ → Pc → ℕ
pending cap idle = 0
pending cap (loaded v) = if leb_ℤ (pos cap) v then 0 else 1
pending cap passed = 1

pending-le : (cap : ℕ) (xs : List Pc) → total (pending cap) xs ≤ length xs
pending-le cap [] = omega arith
pending-le cap (idle ∷ xs) = omega (arith, pending-le cap xs)
pending-le cap (loaded v ∷ xs) = ground (arith, pending-le cap xs)
pending-le cap (passed ∷ xs) = omega (arith, pending-le cap xs)

pub record Inv (cap n : ℕ) (s : System) : Type 0 where
  pub callers : length s.callers ≡ n
  pub counted : s.strategy.in_flight ≡ pos s.tokens
  pub limited : s.strategy.limit ≤ℤ pos cap
  pub bounded : s.tokens + total (pending cap) s.callers + 1 ≤ cap + n

module _ (cap n : ℕ) (one : 1 ≤ cap) (small : cap + n ≤ two_31) where
  -- Every access by any goroutine keeps the invariant.
  pub Step-Inv : {s t : System} → Inv cap n s → Step cap s t → Inv cap n t
  unfolding add_in_flight release_func set_limit is_full
  Step-Inv {s} inv (load i e q) =
      let old = total-set (pending cap) s.callers i (loaded s.strategy.in_flight) idle e in
      ground (
        arith,
        pending-le cap s.callers,
        pending-le cap (set s.callers i (loaded s.strategy.in_flight)),
        length-set s.callers i (loaded s.strategy.in_flight),
      )
  Step-Inv {s} inv (refuse i v e f q) =
      let old = total-set (pending cap) s.callers i idle (loaded v) e in
      ground (arith, length-set s.callers i idle)
  Step-Inv {s} inv (pass i v e f q) =
      let old = total-set (pending cap) s.callers i passed (loaded v) e in
      ground (arith, length-set s.callers i passed)
  Step-Inv {s} inv (add i e q) =
      let old = total-set (pending cap) s.callers i idle passed e in
      ground (arith, length-set s.callers i idle, int32_inc s.tokens)
  Step-Inv {s} inv (give_back h q) = ground (arith, int32_dec s.tokens h)
  Step-Inv inv (resize l h q) = ground arith

  pub Reach-Inv : {s t : System} → Inv cap n s → Reach cap s t → Inv cap n t
  Reach-Inv inv here = inv
  Reach-Inv inv (next r st) = Step-Inv (Reach-Inv inv r) st

-- All n goroutines are outside TryAcquire.
abbrev pub idle_callers : ℕ → List Pc
idle_callers zero = []
idle_callers (suc n) = idle ∷ idle_callers n

abbrev pub init : ℕ → ℕ → System
init l n = record { strategy = new_simple_strategy (pos l); callers = idle_callers n; tokens = 0 }

length-idle_callers : (n : ℕ) → length (idle_callers n) ≡ n
length-idle_callers zero = refl
length-idle_callers (suc n) = ap suc (length-idle_callers n)

total-idle_callers : (cap n : ℕ) → total (pending cap) (idle_callers n) ≡ 0
total-idle_callers cap zero = refl
total-idle_callers cap (suc n) = omega (arith, total-idle_callers cap n)

init-Inv : (cap l n : ℕ) → 1 ≤ cap → cap + n ≤ two_31 → 1 ≤ n → l ≤ cap → Inv cap n (init l n)
unfolding new_simple_strategy
init-Inv cap l n one small some_caller h = ground (
  arith,
  length-idle_callers n,
  total-idle_callers cap n,
  int32-eq_of_Fits (pos 1),
  int32-eq_of_Fits (pos l),
)

-- With n goroutines that call TryAcquire at any time, in any interleaving of their accesses, and no
-- limit above cap, the count in flight is the number of tokens granted and not yet released, and it
-- passes the cap by n - 1 at most. (cap + n at most 2^31, so that the counter does not wrap.)
pub overshoot_bounded :
    (cap l n : ℕ)
    → 1 ≤ cap
    → cap + n ≤ two_31
    → 1 ≤ n
    → l ≤ cap
    → {s : System} → Reach cap (init l n) s
    → (get_busy_count s.strategy ≡ pos s.tokens) × (s.tokens + 1 ≤ cap + n)
unfolding get_busy_count
overshoot_bounded cap l n one small some_caller h r =
    let inv = Reach-Inv cap n one small (init-Inv cap l n one small some_caller h) r in
    (inv.counted, omega (arith, inv.bounded))
