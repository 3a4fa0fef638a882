-- ===== src/Limiter/Default.antt =====
-- limiter/default.go: DefaultLimiter and DefaultListener, over any limit algorithm and any strategy.
-- A method that changes shared state returns the new state; the clock's readings are arguments.
-- Each method is given as the code runs it with no other goroutine in between.
pub mod History
pub mod Windows
pub mod Slots
use go_concurrency_limits.Base.{
  Bool, true, false, not, ◌||◌, ◌&&◌, Option, none, some, if◌then◌else◌,
}
use go_concurrency_limits.Base.Int.{ℤ, pos, negsuc, int64, ◌+ℤ◌, ◌-ℤ◌, ltb_ℤ, leb_ℤ}
use go_concurrency_limits.Core.{Strategy, StrategyToken, release}
use go_concurrency_limits.Limit.Interface.{Limit}
use go_concurrency_limits.Measurements.Window.{
  ImmutableSampleWindow, max_int64, new_immutable_sample_window,
  new_default_immutable_sample_window, add_sample, add_dropped_sample, candidate_rtt_nanoseconds,
}

-- The errors of the constructors, in the order of the checks.
pub data Error : Type 0 where
  no_limit no_strategy min_window_not_positive max_window_not_positive : Error
  min_above_max window_size_small no_factory : Error

pub data Result (A : Type 0) : Type 0 where
  ok : A → Result A
  err : Error → Result A

module _ (lm : Limit) (st : Strategy) where
  pub record DefaultLimiter : Type 0 where
    pub limit : lm.State
    pub strategy : st.State
    pub min_window_time : ℤ
    pub max_window_time : ℤ
    pub window_size : ℤ
    pub min_rtt_threshold : ℤ
    pub sample : ImmutableSampleWindow
    pub in_flight : ℤ
    pub next_update_time : ℤ

  -- The pointers to the limiter and to its counter are the state that the methods are given.
  pub record DefaultListener : Type 0 where
    pub current_max_in_flight : ℤ
    pub token : StrategyToken st.Handle
    pub start_time : ℤ
    pub min_rtt_threshold : ℤ
    pub next_update_time : ℤ

  unfoldable pub new_default_limiter :
      ℤ → Option lm.State → ℤ → ℤ → ℤ → ℤ → Option st.State → Result DefaultLimiter
  new_default_limiter now none min_w max_w threshold size strategy = err no_limit
  new_default_limiter now (some l) min_w max_w threshold size none = err no_strategy
  new_default_limiter now (some l) min_w max_w threshold size (some s) =
      if leb_ℤ min_w (pos 0)
      then err min_window_not_positive
      else if leb_ℤ max_w (pos 0)
      then err max_window_not_positive
      else if ltb_ℤ max_w min_w
      then err min_above_max
      else if ltb_ℤ size (pos 10)
      then err window_size_small
      else ok (record {
        limit = l;
        strategy = st.set_limit (lm.estimated_limit l) s;
        min_window_time = min_w;
        max_window_time = max_w;
        min_rtt_threshold = threshold;
        window_size = size;
        in_flight = pos 0;
        sample = new_default_immutable_sample_window now;
        next_update_time = pos 0;
      })

  -- The factory is called with the limit's estimate.
  unfoldable pub new_default_limiter_with_factory :
      ℤ → Option lm.State → ℤ → ℤ → ℤ → ℤ → Option (ℤ → st.State) → Result DefaultLimiter
  unfolding new_default_limiter
  new_default_limiter_with_factory now none min_w max_w threshold size factory = err no_limit
  new_default_limiter_with_factory now (some l) min_w max_w threshold size none = err no_factory
  new_default_limiter_with_factory now (some l) min_w max_w threshold size (some factory) =
      new_default_limiter now (some l) min_w max_w threshold size
        (some (factory (lm.estimated_limit l)))

  unfoldable pub acquire : ℤ → st.Ctx → DefaultLimiter → DefaultLimiter × Option DefaultListener
  acquire now ctx l =
      let (s, token, granted) = st.try_acquire ctx l.strategy in
      let n = int64 (l.in_flight +ℤ pos 1) in
      if not granted then (record l { strategy = s }, none) else (
        record l { strategy = s; in_flight = n },
        some (record {
          current_max_in_flight = n;
          token = token;
          start_time = now;
          min_rtt_threshold = l.min_rtt_threshold;
          next_update_time = l.next_update_time;
        }),
      )

  unfoldable pub is_window_ready : ImmutableSampleWindow → DefaultLimiter → Bool
  is_window_ready w l =
      ltb_ℤ (candidate_rtt_nanoseconds w) max_int64 && ltb_ℤ l.window_size w.sample_count

  -- The length of the next window: twice the candidate, brought into the configured range.
  unfoldable pub next_window : ImmutableSampleWindow → DefaultLimiter → ℤ
  next_window current l =
      let twice = int64 (candidate_rtt_nanoseconds current +ℤ candidate_rtt_nanoseconds current) in
      let min_w = if ltb_ℤ twice l.min_window_time then l.min_window_time else twice in
      if ltb_ℤ min_w l.max_window_time then min_w else l.max_window_time

  -- The body of updateLimit under its three tests.
  unfoldable pub close_window : ℤ → ImmutableSampleWindow → DefaultLimiter → DefaultLimiter
  unfolding next_window new_immutable_sample_window
  close_window end_time current l =
      let limit =
        lm.on_sample (pos 0) (candidate_rtt_nanoseconds current) current.max_in_flight
          current.did_drop l.limit in
      record l {
        sample = new_immutable_sample_window (negsuc 0) (pos 0) (pos 0) (pos 0) (pos 0) false;
        next_update_time = int64 (end_time +ℤ next_window current l);
        limit = limit;
        strategy = st.set_limit (lm.estimated_limit limit) l.strategy;
      }

  unfoldable pub update_limit :
      ℤ → ImmutableSampleWindow → DefaultListener → DefaultLimiter → DefaultLimiter
  unfolding is_window_ready close_window
  update_limit end_time current h l =
      if ltb_ℤ h.next_update_time end_time
        && (ltb_ℤ l.next_update_time end_time && is_window_ready current l)
      then close_window end_time current l
      else l

  -- atomic.AddInt64(l.inFlight, -1); l.token.Release()
  unfoldable pub release_slot : DefaultListener → DefaultLimiter → DefaultLimiter
  release_slot h l = record l {
    in_flight = int64 (l.in_flight -ℤ pos 1);
    strategy = release st.run_release h.token l.strategy;
  }

  -- now is the reading of the clock that ends the RTT, later the one inside AddSample.
  unfoldable pub on_success : ℤ → ℤ → DefaultListener → DefaultLimiter → DefaultLimiter
  unfolding release_slot update_limit add_sample
  on_success now later h l =
      let l' = release_slot h l in
      let rtt = int64 (now -ℤ h.start_time) in
      let w = add_sample later (negsuc 0) rtt h.current_max_in_flight l'.sample in
      if ltb_ℤ rtt h.min_rtt_threshold then l' else update_limit now w h (record l' { sample = w })

  unfoldable pub on_ignore : DefaultListener → DefaultLimiter → DefaultLimiter
  unfolding release_slot
  on_ignore h l = release_slot h l

  unfoldable pub on_dropped : ℤ → ℤ → DefaultListener → DefaultLimiter → DefaultLimiter
  unfolding release_slot update_limit add_dropped_sample
  on_dropped now later h l =
      let l' = release_slot h l in
      let w = add_dropped_sample later (negsuc 0) h.current_max_in_flight l'.sample in
      update_limit now w h (record l' { sample = w })

  unfoldable pub estimated_limit : DefaultLimiter → ℤ
  estimated_limit l = lm.estimated_limit l.limit
