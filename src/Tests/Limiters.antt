-- ===== src/Tests/Limiters.antt =====
-- DefaultLimiter over FixedLimit and PreciseStrategy at concrete calls.
use go_concurrency_limits.Base.{
  ℕ, ◌+◌, ◌<◌, ◌≡◌, refl, false, some, List, [], ◌∷◌, arith, length, ◌⊎◌, ap,
}
use go_concurrency_limits.Base.Int.{pos, negsuc, int32, int64}
use go_concurrency_limits.Core.{new_acquired_strategy_token}
use go_concurrency_limits.Limit.Fixed.{fixed_limit}
use go_concurrency_limits.Strategy.Precise
use go_concurrency_limits.Strategy.Precise.Lawful.{precise_strategy, precise_laws}
use go_concurrency_limits.Measurements.Window as Window
use go_concurrency_limits.Limiter.Default
use go_concurrency_limits.Limiter.Default.History
use go_concurrency_limits.Limiter.Default.Windows

abbrev pub DefaultLimiter : Type 0
DefaultLimiter = Default.DefaultLimiter fixed_limit precise_strategy

abbrev pub limiter : DefaultLimiter
limiter = record {
  limit = record { limit = pos 2 };
  strategy = record { in_flight = pos 0; limit = pos 2 };
  min_window_time = pos 100;
  max_window_time = pos 500;
  window_size = pos 10;
  min_rtt_threshold = pos 0;
  sample = record {
    start_time = pos 1;
    min_rtt = pos 9223372036854775807;
    max_in_flight = pos 0;
    sample_count = pos 0;
    sum = pos 0;
    did_drop = false;
  };
  in_flight = pos 0;
  next_update_time = pos 0;
}

limiter_lem :
    Default.new_default_limiter fixed_limit precise_strategy
      (pos 1)
      (some (record { limit = pos 2 }))
      (pos 100)
      (pos 500)
      (pos 0)
      (pos 10)
      (some (Precise.new_precise_strategy (pos 7)))
    ≡ Default.ok limiter
unfolding Default.new_default_limiter Precise.new_precise_strategy int32 Precise.set_limit
    Window.new_default_immutable_sample_window
limiter_lem = refl

abbrev calls : List (History.Call (Unit {0}))
calls =
    History.acquires (pos 5) tt
    ∷ History.acquires (pos 6) tt
    ∷ History.acquires (pos 7) tt
    ∷ History.reports 0 (History.success (pos 60) (pos 61))
    ∷ []

run-SystemInv_example :
    let t =
      History.run fixed_limit precise_strategy calls
        (record { limiter = limiter; listeners = [] }) in
    (t.limiter.in_flight ≡ pos (length t.listeners))
    × (Precise.get_busy_count t.limiter.strategy ≡ pos (length t.listeners))
    × (Precise.get_limit t.limiter.strategy
        ≡ History.clamp fixed_limit precise_strategy precise_laws t.limiter.limit.limit)
run-SystemInv_example =
    History.run-SystemInv fixed_limit precise_strategy precise_laws calls
      (record { limiter = limiter; listeners = [] }) (omega arith)
      (record {
        counts = record {
          in_flight = refl;
          busy_count = unfold Precise.get_busy_count in refl;
          in_step = unfold Precise.get_limit int32 in refl;
        };
        tokens = tt;
      })

-- A window with eleven samples, and a listener of a request from time 5 on.
abbrev window : Window.ImmutableSampleWindow
window = record {
  start_time = pos 1;
  min_rtt = pos 80;
  max_in_flight = pos 2;
  sample_count = pos 11;
  sum = pos 990;
  did_drop = false;
}

abbrev listener : Default.DefaultListener fixed_limit precise_strategy
listener = record {
  current_max_in_flight = pos 1;
  token = new_acquired_strategy_token (pos 1) tt;
  start_time = pos 5;
  min_rtt_threshold = pos 0;
  next_update_time = pos 0;
}

limiter-IsConfigured : Windows.IsConfigured fixed_limit precise_strategy limiter 100 500
limiter-IsConfigured = record { min_window = refl; max_window = refl; ordered = omega arith }

update_limit_cases_example :
    (Default.update_limit fixed_limit precise_strategy (pos 60) window listener limiter ≡ limiter)
    ⊎ Windows.IsClosed fixed_limit precise_strategy 60 100 500 window limiter
        (Default.update_limit fixed_limit precise_strategy (pos 60) window listener limiter)
update_limit_cases_example =
    Windows.update_limit_cases fixed_limit precise_strategy 60 100 500 window listener limiter
      limiter-IsConfigured (omega arith)

-- The limiter after an update at time 60 (the next window is 160 long) and one at time 221.
abbrev updated : ℕ → DefaultLimiter
updated n = record limiter {
  sample = record {
    start_time = negsuc 0;
    min_rtt = pos 9223372036854775807;
    max_in_flight = pos 0;
    sample_count = pos 0;
    sum = pos 0;
    did_drop = false;
  };
  next_update_time = pos n;
}

updated_220 :
    Default.update_limit fixed_limit precise_strategy (pos 60) window listener limiter ≡ updated 220
unfolding Default.update_limit Default.close_window Precise.set_limit int32 int64
updated_220 = refl

updated_381 :
    Default.update_limit fixed_limit precise_strategy (pos 221) window listener (updated 220)
    ≡ updated 381
unfolding Default.update_limit Default.close_window Precise.set_limit int32 int64
updated_381 = refl

update_limit_spacing_example : 60 + 100 < 221
update_limit_spacing_example =
    Windows.update_limit_spacing fixed_limit precise_strategy 60 221 100 500 window window listener
      listener limiter (updated 220) (updated 381) limiter-IsConfigured (omega arith) (omega arith)
      updated_220 (λ q. absurd (go 220 0 (ap (λ l. l.next_update_time) q) (omega arith)))
      updated_381 (λ q. absurd (go 381 220 (ap (λ l. l.next_update_time) q) (omega arith)))
  where
    go : (m n : ℕ) → pos m ≡ pos n → n < m → ⊥
    go m n e h = ground arith
