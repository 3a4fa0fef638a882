-- ===== src/Measurements/Window/History.antt =====
-- What a sample window holds after any samples: the minimum, the sum and the number of the RTTs, the
-- maximum in flight, and whether anything was dropped.
use Prim.Native.Nat.{min, max}
use go_concurrency_limits.Base.{
  ℕ, ◌+◌, ◌*◌, ◌/◌, ◌≤◌, ◌<◌, ◌≡◌, refl, Bool, true, false, ◌||◌, List, [], ◌∷◌, arith, total, All,
}
use go_concurrency_limits.Base.Int.{ℤ, pos, negsuc, two_63, int64-eq_of_Fits, ◌≤ℤ◌}
use go_concurrency_limits.Measurements.Window.{
  ImmutableSampleWindow, new_immutable_sample_window, add_sample, add_dropped_sample,
  average_rtt_nanoseconds, candidate_rtt_nanoseconds,
}

-- A request that succeeded with an RTT, or was dropped; the count in flight when it began.
pub data Sample : Type 0 where
  measured : ℕ → ℕ → Sample
  dropped : ℕ → Sample

-- The window with one more sample, as the listeners add it (the start time is read from the clock).
unfoldable pub add : ℤ → Sample → ImmutableSampleWindow → ImmutableSampleWindow
unfolding add_sample add_dropped_sample
add now (measured rtt n) w = add_sample now (negsuc 0) (pos rtt) (pos n) w
add now (dropped n) w = add_dropped_sample now (negsuc 0) (pos n) w

unfoldable pub add_all : ℤ → List Sample → ImmutableSampleWindow → ImmutableSampleWindow
unfolding add
add_all now [] w = w
add_all now (x ∷ xs) w = add_all now xs (add now x w)

abbrev pub rtt_of : Sample → ℕ
rtt_of (measured rtt n) = rtt
rtt_of (dropped n) = 0

abbrev pub measured_one : Sample → ℕ
measured_one (measured rtt n) = 1
measured_one (dropped n) = 0

-- The least RTT of the samples, or top where there is none.
abbrev pub least : ℕ → List Sample → ℕ
least top [] = top
least top (measured rtt n ∷ xs) = min rtt (least top xs)
least top (dropped n ∷ xs) = least top xs

abbrev pub greatest : List Sample → ℕ
greatest [] = 0
greatest (measured rtt n ∷ xs) = max n (greatest xs)
greatest (dropped n ∷ xs) = max n (greatest xs)

abbrev pub some_dropped : List Sample → Bool
some_dropped [] = false
some_dropped (measured rtt n ∷ xs) = some_dropped xs
some_dropped (dropped n ∷ xs) = true

-- A clock's difference that is not 0.
abbrev pub IsPositive : Sample → Type 0
IsPositive (measured rtt n) = 0 < rtt
IsPositive (dropped n) = Unit

pub record Holds (w : ImmutableSampleWindow) (m s c f : ℕ) (d : Bool) : Type 0 where
  pub min_rtt : w.min_rtt ≡ pos m
  pub sum : w.sum ≡ pos s
  pub sample_count : w.sample_count ≡ pos c
  pub max_in_flight : w.max_in_flight ≡ pos f
  pub did_drop : w.did_drop ≡ d

add_measured-Holds :
    (now : ℤ) (rtt n : ℕ) (w : ImmutableSampleWindow) {m s c f : ℕ} {d : Bool}
    → Holds w m s c f d
    → 0 < rtt
    → 0 < m
    → s + rtt < two_63
    → c + 1 < two_63
    → Holds (add now (measured rtt n) w) (min rtt m) (s + rtt) (c + 1) (max n f) d
unfolding add new_immutable_sample_window
add_measured-Holds now rtt n w {m} {s} {c} {f} h p q a b =
    ground (arith, int64-eq_of_Fits (pos (s + rtt)), int64-eq_of_Fits (pos (c + 1)))

add_dropped-Holds :
    (now : ℤ) (n : ℕ) (w : ImmutableSampleWindow) {m s c f : ℕ} {d : Bool}
    → Holds w m s c f d
    → 0 < m
    → Holds (add now (dropped n) w) m s c (max n f) true
unfolding add new_immutable_sample_window
add_dropped-Holds now n w h q = ground arith

least-min : (r m : ℕ) (xs : List Sample) → least (min r m) xs ≡ min r (least m xs)
least-min r m [] = refl
least-min r m (measured rtt n ∷ xs) = omega (arith, least-min r m xs)
least-min r m (dropped n ∷ xs) = least-min r m xs

add_all-Holds :
    (now : ℤ) (xs : List Sample) (w : ImmutableSampleWindow) (m s c f : ℕ) (d : Bool)
    → Holds w m s c f d
    → 0 < m
    → All IsPositive xs
    → s + total rtt_of xs < two_63
    → c + total measured_one xs < two_63
    → Holds
        (add_all now xs w)
        (least m xs)
        (s + total rtt_of xs)
        (c + total measured_one xs)
        (max f (greatest xs))
        (d || some_dropped xs)
unfolding add_all
add_all-Holds now [] w m s c f d h q a b k = ground arith
add_all-Holds now (measured rtt n ∷ xs) w m s c f d h q a b k =
    let g =
      add_all-Holds now xs (add now (measured rtt n) w) (min rtt m) (s + rtt) (c + 1) (max n f) d
        (add_measured-Holds now rtt n w h a.0 q (omega arith) (omega arith)) (omega arith) a.1
        (omega arith) (omega arith) in
    ground (arith, least-min rtt m xs)
add_all-Holds now (dropped n ∷ xs) w m s c f d h q a b k =
    let g =
      add_all-Holds now xs (add now (dropped n) w) m s c (max n f) true
        (add_dropped-Holds now n w h q) q a.1 (omega arith) (omega arith) in
    ground arith

-- The window that the limiter starts over with.
abbrev pub reset_window : ImmutableSampleWindow
unfolding new_immutable_sample_window
reset_window = new_immutable_sample_window (negsuc 0) (pos 0) (pos 0) (pos 0) (pos 0) false

abbrev pub max_rtt : ℕ
max_rtt = 9223372036854775807

reset_window-Holds : Holds reset_window max_rtt 0 0 0 false
unfolding new_immutable_sample_window
reset_window-Holds = record {
  min_rtt = refl;
  sum = refl;
  sample_count = refl;
  max_in_flight = refl;
  did_drop = refl;
}

-- From an empty window, samples with a positive RTT, whose sum and number are int64, leave the least
-- RTT (the largest int64 if there is none), the sum, the number of measured samples, the greatest
-- count in flight, and the drop flag exactly when one of them was dropped.
pub add_all_summary :
    (now : ℤ) (xs : List Sample)
    → All IsPositive xs
    → total rtt_of xs < two_63
    → total measured_one xs < two_63
    → Holds
        (add_all now xs reset_window)
        (least max_rtt xs)
        (total rtt_of xs)
        (total measured_one xs)
        (greatest xs)
        (some_dropped xs)
add_all_summary now xs a b k =
    let h =
      add_all-Holds now xs reset_window max_rtt 0 0 0 false reset_window-Holds (omega arith) a
        (omega arith) (omega arith) in
    ground arith

least-mul : (top : ℕ) (xs : List Sample) → least top xs * total measured_one xs ≤ total rtt_of xs
least-mul top [] = omega arith
least-mul top (measured rtt n ∷ xs) = grind (arith, least-mul top xs)
least-mul top (dropped n ∷ xs) = omega (arith, least-mul top xs)

-- After such samples, one of them measured, the candidate (the least RTT) is at most the average.
pub candidate-le-average :
    (now : ℤ) (xs : List Sample)
    → All IsPositive xs
    → total rtt_of xs < two_63
    → total measured_one xs < two_63
    → 0 < total measured_one xs
    → let w = add_all now xs reset_window in
      candidate_rtt_nanoseconds w ≤ℤ average_rtt_nanoseconds w
unfolding average_rtt_nanoseconds
candidate-le-average now xs a b k some_measured =
    let h = add_all_summary now xs a b k in
    let q = total rtt_of xs / total measured_one xs in
    let le : least max_rtt xs ≤ q = grind (arith, least-mul max_rtt xs) in
    let small : q < two_63 = grind arith in ground (arith, int64-eq_of_Fits (pos q))
