-- ===== src/Limit/Windowed.antt =====
-- limit/windowed.go: WindowedLimit, which collects samples in a window for another algorithm. OnSample
-- runs under a mutex; the clock that the sample windows read is an argument.
pub mod Steps
pub mod Handover
use go_concurrency_limits.Base.{Bool, true, false, ◌&&◌, Option, none, some, if◌then◌else◌}
use go_concurrency_limits.Base.Int.{ℤ, pos, negsuc, int32, int64, ◌+ℤ◌, ltb_ℤ}
use go_concurrency_limits.Limit.Interface.{Limit}
use go_concurrency_limits.Measurements.Window.{
  ImmutableSampleWindow, max_int64, new_default_immutable_sample_window, add_sample,
  add_dropped_sample, candidate_rtt_nanoseconds, average_rtt_nanoseconds,
}

-- The errors of the constructor, in the order of the checks.
pub data Error : Type 0 where
  min_window_small max_window_small window_size_small no_delegate : Error

pub data Result (A : Type 0) : Type 0 where
  ok : A → Result A
  err : Error → Result A

abbrev hundred_ms : ℤ
hundred_ms = pos 100000000

unfoldable pub min_int64 : ℤ → ℤ → ℤ
min_int64 a b = if ltb_ℤ a b then a else b

unfoldable pub max_int64_of : ℤ → ℤ → ℤ
max_int64_of a b = if ltb_ℤ b a then a else b

module _ (lm : Limit) where
  pub record WindowedLimit : Type 0 where
    pub min_window_time : ℤ
    pub max_window_time : ℤ
    pub next_update_time : ℤ
    pub window_size : ℤ  -- int32
    pub min_rtt_threshold : ℤ
    pub delegate : lm.State
    pub sample : ImmutableSampleWindow

  unfoldable pub new_windowed_limit : ℤ → ℤ → ℤ → ℤ → ℤ → Option lm.State → Result WindowedLimit
  new_windowed_limit now min_w max_w size threshold none =
      if ltb_ℤ min_w hundred_ms
      then err min_window_small
      else if ltb_ℤ max_w hundred_ms
      then err max_window_small
      else if ltb_ℤ size (pos 10)
      then err window_size_small
      else err no_delegate
  new_windowed_limit now min_w max_w size threshold (some delegate) =
      if ltb_ℤ min_w hundred_ms
      then err min_window_small
      else if ltb_ℤ max_w hundred_ms
      then err max_window_small
      else if ltb_ℤ size (pos 10)
      then err window_size_small
      else ok (record {
        min_window_time = min_w;
        max_window_time = max_w;
        next_update_time = pos 0;
        window_size = size;
        min_rtt_threshold = threshold;
        delegate = delegate;
        sample = new_default_immutable_sample_window now;
      })

  unfoldable pub estimated_limit : WindowedLimit → ℤ
  estimated_limit l = lm.estimated_limit l.delegate

  unfoldable pub is_window_ready : ℤ → ℤ → WindowedLimit → Bool
  is_window_ready rtt in_flight l = ltb_ℤ rtt max_int64 && ltb_ℤ l.window_size (int32 in_flight)

  -- The window with the new sample.
  unfoldable pub collect : ℤ → ℤ → ℤ → Bool → ImmutableSampleWindow → ImmutableSampleWindow
  collect now rtt in_flight true w = add_dropped_sample now (negsuc 0) in_flight w
  collect now rtt in_flight false w = add_sample now (negsuc 0) rtt in_flight w

  -- The body of the last if: the delegate gets the averages, and a new window begins.
  unfoldable pub hand_over :
      ℤ → ℤ → ℤ → Bool → ImmutableSampleWindow → WindowedLimit → WindowedLimit
  unfolding min_int64 max_int64_of
  hand_over now start_time end_time did_drop current l =
      let candidate = candidate_rtt_nanoseconds current in
      let twice = int64 (candidate +ℤ candidate) in
      record l {
        sample = new_default_immutable_sample_window now;
        next_update_time =
            int64 (end_time +ℤ min_int64 (max_int64_of twice l.min_window_time) l.max_window_time);
        delegate =
            lm.on_sample start_time (average_rtt_nanoseconds current) current.max_in_flight did_drop
              l.delegate;
      }

  -- now is the clock's reading in AddSample, later the one in the new window.
  unfoldable pub on_sample : ℤ → ℤ → ℤ → ℤ → ℤ → Bool → WindowedLimit → WindowedLimit
  unfolding collect is_window_ready hand_over
  on_sample now later start_time rtt in_flight did_drop l =
      let end_time = int64 (start_time +ℤ rtt) in
      let w = collect now rtt in_flight did_drop l.sample in
      if ltb_ℤ rtt l.min_rtt_threshold
      then l
      else if ltb_ℤ l.next_update_time end_time && is_window_ready rtt in_flight l
      then hand_over later start_time end_time did_drop w (record l { sample = w })
      else record l { sample = w }
