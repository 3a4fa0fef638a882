-- ===== src/Strategy/Simple/Lawful.antt =====
-- SimpleStrategy, with no other goroutine inside its methods: it fills the interface that a limiter
-- uses, and it answers as PreciseStrategy does.
use go_concurrency_limits.Base.{◌≡◌, refl, true, false, arith, if◌then◌else◌}
use go_concurrency_limits.Base.Int.{ℤ, pos, int32, ltb_ℤ, ◌+ℤ◌, ◌-ℤ◌}
use go_concurrency_limits.Core.{func, Strategy, IsLawful}
use go_concurrency_limits.Strategy.Simple.{
  SimpleStrategy, try_acquire, release_func, set_limit, get_busy_count, get_limit,
}

abbrev pub simple_strategy : Strategy
simple_strategy = record {
  State = SimpleStrategy;
  Ctx = Unit {0};
  Handle = Unit {0};
  try_acquire = λ ctx. try_acquire;
  run_release = λ h. release_func;
  set_limit = set_limit;
}

-- A refusal changes nothing.
pub try_acquire_refused : (s : SimpleStrategy) → (try_acquire s).2 ≡ false → (try_acquire s).0 ≡ s
unfolding try_acquire
try_acquire_refused s e = ground arith

-- A token counts one busy slot until its release, and leaves the limit alone.
pub try_acquire_granted :
    (s : SimpleStrategy)
    → (try_acquire s).2 ≡ true
    → (get_busy_count (try_acquire s).0 ≡ int32 (get_busy_count s +ℤ pos 1))
      × (get_limit (try_acquire s).0 ≡ get_limit s)
      × (h : Unit {0}) × ((try_acquire s).1.release_func ≡ func h)
unfolding try_acquire get_busy_count get_limit
try_acquire_granted s e = (ground arith, ground arith, tt, ground arith)

pub release_func_laws :
    (s : SimpleStrategy)
    → (get_busy_count (release_func s) ≡ int32 (get_busy_count s -ℤ pos 1))
      × (get_limit (release_func s) ≡ get_limit s)
unfolding release_func get_busy_count get_limit
release_func_laws s = (refl, refl)

-- SetLimit stores the limit, or 1 where it is smaller, as an int32.
pub set_limit_laws :
    (l : ℤ) (s : SimpleStrategy)
    → (get_busy_count (set_limit l s) ≡ get_busy_count s)
      × (get_limit (set_limit l s) ≡ int32 (if ltb_ℤ l (pos 1) then pos 1 else l))
unfolding set_limit get_busy_count get_limit
set_limit_laws l s = (refl, refl)

abbrev pub simple_laws : IsLawful simple_strategy
simple_laws = record {
  busy = get_busy_count;
  bound = get_limit;
  refused = λ x. try_acquire_refused;
  granted = λ x. try_acquire_granted;
  released = λ h. release_func_laws;
  resized = set_limit_laws;
}
