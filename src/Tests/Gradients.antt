-- ===== src/Tests/Gradients.antt =====
-- GradientLimit, and the functions of the limit, at concrete samples.
use go_concurrency_limits.Base.{
  ℕ, zero, suc, ◌+◌, ◌*◌, ◌≡◌, ◌⊎◌, refl, false, Option, none, some, [], ◌∷◌, arith, leb,
  if◌then◌else◌,
}
use Prim.Native.Nat.{◌/◌}
use go_concurrency_limits.Base.Int.{ℤ, pos, negsuc, int64}
use go_concurrency_limits.Base.Bytes.{Bytes}
use go_concurrency_limits.Tests.Floats.{thousandths, thousandths-IsIeee}
use go_concurrency_limits.Limit.Gradient
use go_concurrency_limits.Limit.Gradient.Range
use go_concurrency_limits.Limit.Gradient.Steps
use go_concurrency_limits.Limit.Gradient.Probes
use go_concurrency_limits.Limit.Functions
use go_concurrency_limits.Limit.Functions.Tables

abbrev four : ℤ → Option ℤ
four limit = some (pos 4)

-- rand.Intn gives 0, and probes are every 2 samples.
abbrev zero_draw : ℤ → ℤ
zero_draw n = pos 0

abbrev gradient : Gradient.GradientLimit thousandths
gradient = record {
  estimated_limit = some 20000;
  max_limit = pos 100;
  min_limit = pos 1;
  queue_size_func = four;
  smoothing = some 200;
  rtt_tolerance = some 2000;
  probe_interval = pos 2;
  reset_rtt_counter = pos 2;
  rtt_no_load_measurement = record { value = some 0 };
}

gradient_lem :
    Gradient.new_gradient_limit thousandths zero_draw four
      (pos 20)
      (pos 1)
      (pos 100)
      (some 200)
      none
      (some 2000)
      (pos 2)
    ≡ some gradient
unfolding Gradient.new_gradient_limit int64
gradient_lem = refl

abbrev busy : Steps.Sample
busy = record {
  intn = zero_draw;
  start_time = pos 0;
  rtt = pos 80;
  in_flight = pos 15;
  did_drop = false;
}

abbrev bounds : Range.IsBounded thousandths 1 100 gradient
bounds = record {
  drawable = refl;
  queue = λ n a b. (pos 4, refl, refl, refl);
  most = refl;
  least = refl;
  small = omega arith;
}

samples-InBounds_example :
    ((l' : Gradient.GradientLimit thousandths) × (Steps.run thousandths
          (busy ∷ busy ∷ busy ∷ [])
          gradient
        ≡ some l')
      × Range.Within thousandths 1 100 l'.estimated_limit)
    ⊎ Range.Poisoned thousandths thousandths-IsIeee (busy ∷ busy ∷ busy ∷ []) gradient
samples-InBounds_example =
    Range.samples-InBounds thousandths thousandths-IsIeee (busy ∷ busy ∷ busy ∷ []) 1 100 gradient
      bounds (refl, refl)

probe_in_time_example :
    Probes.ProbesLast thousandths (busy ∷ []) busy gradient
    ⊎ Probes.Panicked thousandths (busy ∷ busy ∷ []) gradient
probe_in_time_example =
    Probes.probe_in_time thousandths (busy ∷ []) busy 1 gradient refl refl (omega arith)

isqrt : ℕ → ℕ
isqrt zero = 0
isqrt (suc n) = let r = isqrt n in if leb ((r + 1) * (r + 1)) (suc n) then r + 1 else r

abbrev sqrt : Option ℕ → Option ℕ
sqrt none = none
sqrt (some a) = some (isqrt (a / 1000) * 1000)

div_lem : (k : ℕ) → k * 1000 / 1000 ≡ k
div_lem k = omega arith

exact_lem :
    (k : ℕ)
    → thousandths.to_int (thousandths.fmax (some 1000) (some (k * 1000)))
      ≡ Functions.max (pos 1) (pos k)
unfolding Functions.max
exact_lem k = ground arith

sqrt-IsExact : Tables.IsExact thousandths sqrt
sqrt-IsExact i = rw (div_lem (isqrt (i * 1000 / 1000))) (exact_lem (isqrt (i * 1000 / 1000)))

abbrev no_number : Bytes → Option ℤ
no_number text = none

sqrt_root_function_lem_example :
    let table = Functions.init_table thousandths sqrt no_number none in
    (Functions.sqrt_root_function thousandths sqrt table (pos 4) (pos 50)
      ≡ some (Functions.max (pos 4) (thousandths.to_int (sqrt (thousandths.of_int (pos 50))))))
    × (Functions.sqrt_root_function thousandths sqrt table (pos 4) (negsuc 50) ≡ none)
sqrt_root_function_lem_example =
    Tables.sqrt_root_function_lem thousandths sqrt no_number none (pos 4) 50 sqrt-IsExact
      (omega arith)
