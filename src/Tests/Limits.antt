-- ===== src/Tests/Limits.antt =====
-- The limit algorithms at concrete samples.
use go_concurrency_limits.Base.{
  ℕ, ◌+◌, ◌<◌, ◌≡◌, ◌⊎◌, refl, sym, ap, ◌∙◌, true, false, none, some, [], ◌∷◌, arith,
}
use go_concurrency_limits.Base.Float.{IsNan}
use go_concurrency_limits.Base.Int.{int32, int64, pos, ◌≤ℤ◌}
use go_concurrency_limits.Tests.Floats.{thousandths, thousandths-IsIeee}
use go_concurrency_limits.Limit.Aimd
use go_concurrency_limits.Limit.Windowed
use go_concurrency_limits.Limit.Windowed.Handover
use go_concurrency_limits.Limit.Windowed.Steps
use go_concurrency_limits.Limit.Vegas
use go_concurrency_limits.Limit.Vegas.Samples
use go_concurrency_limits.Limit.Gradient2
use go_concurrency_limits.Limit.Gradient2.Range
use go_concurrency_limits.Measurements.Window as Window
use go_concurrency_limits.Limit.Aimd.Bounds

abbrev aimd : Aimd.AimdLimit thousandths
aimd = record { limit = pos 3; increase_by = pos 1; back_off_ratio = some 900 }

abbrev full : Bounds.Sample
full = record { rtt = pos 50; in_flight = pos 3; did_drop = false }

abbrev drop : Bounds.Sample
drop = record { rtt = pos 50; in_flight = pos 3; did_drop = true }

ratio_lem : Bounds.IsRatio thousandths thousandths-IsIeee (some 900)
ratio_lem n small = ground arith

run_bounds_example :
    let l = Bounds.run thousandths (full ∷ drop ∷ []) aimd in
    (pos 1 ≤ℤ l.limit) × (l.limit ≤ℤ pos 4)
run_bounds_example =
    Bounds.run_bounds thousandths thousandths-IsIeee (full ∷ drop ∷ []) 3 1 aimd refl refl
      (omega arith) (omega arith) ratio_lem

drops_collapse_example : (Bounds.run thousandths (drop ∷ drop ∷ []) aimd).limit ≡ pos 1
drops_collapse_example =
    Bounds.drops_collapse thousandths thousandths-IsIeee (drop ∷ drop ∷ []) 3 1 aimd refl refl
      (omega arith) (omega arith) ratio_lem (refl, (refl, tt)) (omega arith)

-- WindowedLimit over AIMDLimit, with a window size of 10.
abbrev windowed : Windowed.WindowedLimit (Aimd.aimd_limit thousandths)
windowed = record {
  min_window_time = pos 100000000;
  max_window_time = pos 200000000;
  next_update_time = pos 0;
  window_size = pos 10;
  min_rtt_threshold = pos 1;
  delegate = aimd;
  sample = record {
    start_time = pos 0;
    min_rtt = pos 9223372036854775807;
    max_in_flight = pos 0;
    sample_count = pos 0;
    sum = pos 0;
    did_drop = false;
  };
}

abbrev sample_at : ℕ → ℕ → Steps.Sample
sample_at t n = record {
  now = pos 1;
  later = pos 1;
  start_time = t;
  rtt = 50;
  in_flight = pos n;
  did_drop = false;
}

windowed-IsConfigured :
    Steps.IsConfigured (Aimd.aimd_limit thousandths) windowed 100000000 200000000
windowed-IsConfigured = record { min_window = refl; max_window = refl; ordered = omega arith }

never_handed_over_example :
    (Steps.run
      (Aimd.aimd_limit thousandths)
      (sample_at 5 9 ∷ sample_at 6 10 ∷ [])
      windowed).delegate
    ≡ aimd
unfolding int32
never_handed_over_example =
    Handover.never_handed_over (Aimd.aimd_limit thousandths) 100000000 200000000
      (sample_at 5 9 ∷ sample_at 6 10 ∷ []) windowed windowed-IsConfigured
      ((omega arith, omega arith), ((omega arith, omega arith), tt))

-- The limits after the first and the second window.
first_window :
    (Steps.step (Aimd.aimd_limit thousandths) (sample_at 5 11) windowed).delegate
    ≡ record aimd { limit = pos 4 }
unfolding Steps.step Windowed.on_sample Aimd.on_sample int32 int64 Window.add_sample
first_window = refl

second_window :
    (Steps.step (Aimd.aimd_limit thousandths) (sample_at 200000000 12) (
      Steps.run
        (Aimd.aimd_limit thousandths)
        (sample_at 7 11 ∷ [])
        (Steps.step (Aimd.aimd_limit thousandths) (sample_at 5 11) windowed))).delegate
    ≡ record aimd { limit = pos 5 }
unfolding Steps.step Steps.run Windowed.on_sample Aimd.on_sample int32 int64 Window.add_sample
    Window.new_default_immutable_sample_window
second_window = refl

between :
    (Steps.run
      (Aimd.aimd_limit thousandths)
      (sample_at 7 11 ∷ [])
      (Steps.step (Aimd.aimd_limit thousandths) (sample_at 5 11) windowed)).delegate
    ≡ record aimd { limit = pos 4 }
unfolding Steps.step Steps.run Windowed.on_sample Aimd.on_sample int32 int64 Window.add_sample
    Window.new_default_immutable_sample_window
between = refl

handover_spacing_example : 5 + 50 + 100000000 < 200000000 + 50
handover_spacing_example =
    Handover.handover_spacing (Aimd.aimd_limit thousandths) 100000000 200000000 (sample_at 5 11)
      (sample_at 200000000 12) (sample_at 7 11 ∷ []) windowed windowed-IsConfigured (omega arith)
      (omega arith) (omega arith, tt)
      (λ q. other 4 3 (ap (λ l. l.limit) (sym first_window ∙ q)) (omega arith))
      (λ q. other 5 4 (ap (λ l. l.limit) (sym second_window ∙ q ∙ between)) (omega arith))
  where
    other : (m n : ℕ) → pos m ≡ pos n → n < m → ⊥
    other m n e h = ground arith

abbrev gradient2 : Gradient2.Gradient2Limit thousandths
gradient2 = record {
  estimated_limit = some 20000;
  max_limit = pos 200;
  min_limit = pos 20;
  queue_size_func = λ limit. pos 4;
  smoothing = some 200;
  short_rtt = record { value = some 0 };
  long_rtt = record {
    value = some 0;
    sum = some 0;
    window = pos 600;
    warmup_window = pos 10;
    count = pos 0;
  };
}

gradient2_lem :
    Gradient2.new_gradient2_limit thousandths (pos 20) (pos 200) (pos 20) none (some 200) (pos 600)
    ≡ some gradient2
unfolding Gradient2.new_gradient2_limit
gradient2_lem = refl

abbrev fast : Range.Sample
fast = record { start_time = pos 0; rtt = pos 0; in_flight = pos 15; did_drop = false }

abbrev slow : Range.Sample
slow = record { start_time = pos 0; rtt = pos 80; in_flight = pos 15; did_drop = false }

zero_rtt_poisons_example :
    IsNan thousandths (Range.run thousandths (fast ∷ slow ∷ []) gradient2).estimated_limit
zero_rtt_poisons_example =
    Range.zero_rtt_poisons thousandths thousandths-IsIeee fast (slow ∷ []) (pos 20) (pos 200)
      (pos 20) (pos 600) none (some 200) gradient2 gradient2_lem refl refl

abbrev vegas : Vegas.VegasLimit thousandths
vegas = record {
  estimated_limit = some 20000;
  max_limit = pos 22;
  rtt_no_load = record { value = some 50000 };
  smoothing = some 1000;
  alpha_func = λ n. some (pos 3);
  beta_func = λ n. some (pos 6);
  threshold_func = λ n. some (pos 1);
  increase_func = λ x. some (thousandths.fadd (some 1000) x);
  decrease_func = λ x. some (thousandths.fsub x (some 1000));
  probe_multiplier = pos 30;
  probe_jitter = some 500;
  probe_count = pos 0;
}

abbrev vegas_sample : Samples.Sample thousandths.F
vegas_sample = record {
  jitter = some 700;
  start_time = pos 0;
  rtt = pos 50;
  in_flight = pos 15;
  did_drop = false;
}

vegas_lem :
    Samples.step thousandths vegas_sample vegas
    ≡ some (record vegas { estimated_limit = some 22000; probe_count = pos 1 })
unfolding Samples.step Vegas.on_sample int64
vegas_lem = refl

vegas-IsConfigured : Samples.IsConfigured thousandths 22 vegas
vegas-IsConfigured = record {
  max_limit = refl;
  smoothing = refl;
  alpha = λ m a b. (pos 3, refl);
  beta = λ m a b. (pos 6, refl);
  threshold = λ m a b. (pos 1, refl);
  increase = λ x w. (_, refl);
  decrease = λ x w. (_, refl);
}

samples-InRange_example :
    ((l' : Vegas.VegasLimit thousandths) × (Samples.run thousandths
          (vegas_sample ∷ vegas_sample ∷ [])
          vegas
        ≡ some l')
      × Samples.Within thousandths 22 l'.estimated_limit)
    ⊎ Samples.Poisoned thousandths thousandths-IsIeee (vegas_sample ∷ vegas_sample ∷ []) vegas
samples-InRange_example =
    Samples.samples-InRange thousandths thousandths-IsIeee (vegas_sample ∷ vegas_sample ∷ []) 22
      vegas (omega arith) (omega arith) vegas-IsConfigured (refl, refl)
