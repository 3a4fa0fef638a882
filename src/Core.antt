-- ===== src/Core.antt =====
-- core/strategy.go: the tokens of a strategy and the interface that a limiter sees of a strategy.
-- A release function is a Go closure; it stands here for what the closure captures (a handle), and
-- the strategy says what running it does.
use go_concurrency_limits.Base.{◌≡◌, Bool, true, false, if◌then◌else◌}
use go_concurrency_limits.Base.Int.{ℤ, int32, ◌+ℤ◌, ◌-ℤ◌, pos, ltb_ℤ}

-- nothing is the nil function; noop is the function with an empty body.
pub data ReleaseFunc (H : Type 0) : Type 0 where
  nothing : ReleaseFunc H
  noop : ReleaseFunc H
  func : H → ReleaseFunc H

pub record StrategyToken (H : Type 0) : Type 0 where
  pub acquired : Bool
  pub in_flight_count : ℤ
  pub release_func : ReleaseFunc H

abbrev pub is_acquired : {H : Type 0} → StrategyToken H → Bool
is_acquired t = t.acquired

abbrev pub in_flight_count : {H : Type 0} → StrategyToken H → ℤ
in_flight_count t = t.in_flight_count

-- What calling the function does to the strategy's state.
abbrev call_release : {H S : Type 0} → (H → S → S) → ReleaseFunc H → S → S
call_release run nothing s = s
call_release run noop s = s
call_release run (func h) s = run h s

abbrev pub release : {H S : Type 0} → (H → S → S) → StrategyToken H → S → S
release run t s = call_release run t.release_func s

abbrev pub new_not_acquired_strategy_token : {H : Type 0} → ℤ → StrategyToken H
new_not_acquired_strategy_token n = record {
  acquired = false;
  in_flight_count = n;
  release_func = noop;
}

abbrev pub new_acquired_strategy_token : {H : Type 0} → ℤ → H → StrategyToken H
new_acquired_strategy_token n h = record {
  acquired = true;
  in_flight_count = n;
  release_func = func h;
}

-- The interface core.Strategy, with the handles of its release functions.
pub record Strategy : Type 1 where
  pub State : Type 0
  pub Ctx : Type 0
  pub Handle : Type 0
  pub try_acquire : Ctx → State → State × StrategyToken Handle × Bool
  pub run_release : Handle → State → State
  pub set_limit : ℤ → State → State

-- What a limiter relies on: a refusal changes nothing, a token counts one busy slot until it is
-- released, and only SetLimit changes the bound, to the new limit or 1. Counters are int32.
pub record IsLawful (c : Strategy) : Type 0 where
  pub busy : c.State → ℤ
  pub bound : c.State → ℤ
  pub refused :
      (x : c.Ctx) (s : c.State) → (c.try_acquire x s).2 ≡ false → (c.try_acquire x s).0 ≡ s
  pub granted :
      (x : c.Ctx) (s : c.State)
      → (c.try_acquire x s).2 ≡ true
      → (busy (c.try_acquire x s).0 ≡ int32 (busy s +ℤ pos 1))
        × (bound (c.try_acquire x s).0 ≡ bound s)
        × (h : c.Handle) × ((c.try_acquire x s).1.release_func ≡ func h)
  pub released :
      (h : c.Handle) (s : c.State)
      → (busy (c.run_release h s) ≡ int32 (busy s -ℤ pos 1)) × (bound (c.run_release h s) ≡ bound s)
  pub resized :
      (l : ℤ) (s : c.State)
      → (busy (c.set_limit l s) ≡ busy s)
        × (bound (c.set_limit l s) ≡ int32 (if ltb_ℤ l (pos 1) then pos 1 else l))
