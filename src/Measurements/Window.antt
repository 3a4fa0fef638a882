-- ===== src/Measurements/Window.antt =====
-- measurements/immutable_sample_window.go. Times and RTTs are int64, counts are int. now is what
-- time.Now().UnixNano() returns, an argument of each function that reads the clock.
pub mod History
use go_concurrency_limits.Base.{ℕ, suc, ◌-◌, ◌/◌, Bool, true, false, leb, if◌then◌else◌}
use go_concurrency_limits.Base.Int.{ℤ, pos, negsuc, int64, ◌+ℤ◌, ltb_ℤ, eqb_ℤ}

abbrev pub max_int64 : ℤ
max_int64 = pos 9223372036854775807

pub record ImmutableSampleWindow : Type 0 where
  pub start_time : ℤ
  pub min_rtt : ℤ
  pub max_in_flight : ℤ
  pub sample_count : ℤ
  pub sum : ℤ
  pub did_drop : Bool

unfoldable pub new_immutable_sample_window : ℤ → ℤ → ℤ → ℤ → ℤ → Bool → ImmutableSampleWindow
new_immutable_sample_window start_time min_rtt sum max_in_flight sample_count did_drop = record {
  start_time = start_time;
  min_rtt = if eqb_ℤ min_rtt (pos 0) then max_int64 else min_rtt;
  max_in_flight = max_in_flight;
  sample_count = sample_count;
  sum = sum;
  did_drop = did_drop;
}

unfoldable pub new_default_immutable_sample_window : ℤ → ImmutableSampleWindow
unfolding new_immutable_sample_window
new_default_immutable_sample_window now =
    new_immutable_sample_window now max_int64 (pos 0) (pos 0) (pos 0) false

unfoldable pub add_sample : ℤ → ℤ → ℤ → ℤ → ImmutableSampleWindow → ImmutableSampleWindow
unfolding new_immutable_sample_window
add_sample now start_time rtt max_in_flight s =
    new_immutable_sample_window (if ltb_ℤ start_time (pos 0) then now else start_time)
      (if ltb_ℤ rtt s.min_rtt then rtt else s.min_rtt) (int64 (s.sum +ℤ rtt))
      (if ltb_ℤ max_in_flight s.max_in_flight then s.max_in_flight else max_in_flight)
      (int64 (s.sample_count +ℤ pos 1)) s.did_drop

unfoldable pub add_dropped_sample : ℤ → ℤ → ℤ → ImmutableSampleWindow → ImmutableSampleWindow
unfolding new_immutable_sample_window
add_dropped_sample now start_time max_in_flight s =
    new_immutable_sample_window (if ltb_ℤ start_time (pos 0) then now else start_time) s.min_rtt
      s.sum (if ltb_ℤ max_in_flight s.max_in_flight then s.max_in_flight else max_in_flight)
      s.sample_count true

abbrev pub candidate_rtt_nanoseconds : ImmutableSampleWindow → ℤ
candidate_rtt_nanoseconds s = s.min_rtt

abbrev neg : ℕ → ℤ
neg n = if leb n 0 then pos 0 else negsuc (n - 1)

-- Go's division of integers rounds towards zero.
abbrev pub quot_ℤ : ℤ → ℤ → ℤ
quot_ℤ (pos a) (pos b) = pos (a / b)
quot_ℤ (negsuc a) (pos b) = neg (suc a / b)
quot_ℤ (pos a) (negsuc b) = neg (a / suc b)
quot_ℤ (negsuc a) (negsuc b) = pos (suc a / suc b)

unfoldable pub average_rtt_nanoseconds : ImmutableSampleWindow → ℤ
average_rtt_nanoseconds s =
    if eqb_ℤ s.sample_count (pos 0) then pos 0 else int64 (quot_ℤ s.sum s.sample_count)
