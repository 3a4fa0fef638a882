-- ===== src/Strategy/Precise/Lawful.antt =====
-- PreciseStrategy fills the interface that a limiter uses.
use go_concurrency_limits.Base.{◌≡◌, refl, true, false, arith, if◌then◌else◌}
use go_concurrency_limits.Base.Int.{ℤ, pos, int32, ltb_ℤ, ◌+ℤ◌, ◌-ℤ◌, ◌<ℤ◌}
use go_concurrency_limits.Core.{func, Strategy, IsLawful}
use go_concurrency_limits.Strategy.Precise.{
  PreciseStrategy, try_acquire, release_handler, set_limit, get_busy_count, get_limit,
}

-- The request's context is not looked at.
abbrev pub precise_strategy : Strategy
precise_strategy = record {
  State = PreciseStrategy;
  Ctx = Unit {0};
  Handle = Unit {0};
  try_acquire = λ ctx. try_acquire;
  run_release = λ h. release_handler;
  set_limit = set_limit;
}

-- A refusal changes nothing.
pub try_acquire_refused : (s : PreciseStrategy) → (try_acquire s).2 ≡ false → (try_acquire s).0 ≡ s
unfolding try_acquire
try_acquire_refused s e = ground arith

-- A token counts one busy slot until its release, and leaves the limit alone.
pub try_acquire_granted :
    (s : PreciseStrategy)
    → (try_acquire s).2 ≡ true
    → (get_busy_count (try_acquire s).0 ≡ int32 (get_busy_count s +ℤ pos 1))
      × (get_limit (try_acquire s).0 ≡ get_limit s)
      × (h : Unit {0}) × ((try_acquire s).1.release_func ≡ func h)
unfolding try_acquire get_busy_count get_limit
try_acquire_granted s e = (ground arith, ground arith, tt, ground arith)

pub release_handler_laws :
    (s : PreciseStrategy)
    → (get_busy_count (release_handler s) ≡ int32 (get_busy_count s -ℤ pos 1))
      × (get_limit (release_handler s) ≡ get_limit s)
unfolding release_handler get_busy_count get_limit
release_handler_laws s = (refl, refl)

-- SetLimit stores the limit, or 1 where it is smaller, as an int32.
pub set_limit_laws :
    (l : ℤ) (s : PreciseStrategy)
    → (get_busy_count (set_limit l s) ≡ get_busy_count s)
      × (get_limit (set_limit l s) ≡ int32 (if ltb_ℤ l (pos 1) then pos 1 else l))
unfolding set_limit get_busy_count get_limit
set_limit_laws l s = (refl, refl)

abbrev pub precise_laws : IsLawful precise_strategy
precise_laws = record {
  busy = get_busy_count;
  bound = get_limit;
  refused = λ x. try_acquire_refused;
  granted = λ x. try_acquire_granted;
  released = λ h. release_handler_laws;
  resized = set_limit_laws;
}

pub try_acquire_below :
    (s : PreciseStrategy) → (try_acquire s).2 ≡ true → get_busy_count s <ℤ get_limit s
unfolding try_acquire get_busy_count get_limit
try_acquire_below s e = ground arith
