-- ===== src/Metrics/Datadog.antt =====
-- metric_registry/datadog/registry.go. The dogstatsd client is the caller's: what is sent to it is a
-- value. Suppliers are handles, whose readings are an argument of a poll. Times are in nanoseconds.
pub mod Pollers
pub mod Listeners
use go_concurrency_limits.Base.{
  ℕ, ◌+◌, ◌-◌, Bool, true, false, Option, none, some, List, [], ◌∷◌, ◌++◌, if◌then◌else◌, ◌==◌, not,
  ltb,
}
use go_concurrency_limits.Base.Int.{ℤ, pos, eqb_ℤ, leb_ℤ}
use go_concurrency_limits.Base.Bytes.{Bytes, dot, trim_dot, ends_in_dot}
use go_concurrency_limits.Base.Float.{Float64}
use go_concurrency_limits.Metrics.Table.{find, find_or_add}

-- The bytes of "limiter.".
abbrev pub default_metric_prefix : Bytes
default_metric_prefix = 108 ∷ 105 ∷ 109 ∷ 105 ∷ 116 ∷ 101 ∷ 114 ∷ 46 ∷ []

abbrev pub default_poll_frequency : ℤ
default_poll_frequency = pos 5000000000

pub record MetricSampleListener : Type 0 where
  pub id : Bytes
  pub metric_type : ℕ

pub record MetricPoller (S : Type 0) : Type 0 where
  pub supplier : S
  pub id : Bytes
  pub tags : List Bytes

module _ (fl : Float64) where
  open fl use {F, to_int}

  -- The calls of the client, each with rate 1.0.
  pub data Sent : Type 0 where
    distribution : Bytes → F → List Bytes → Sent
    time_in_milliseconds : Bytes → F → List Bytes → Sent
    count : Bytes → ℤ → List Bytes → Sent
    gauge : Bytes → F → List Bytes → Sent

  -- none: an unsupported type sends nothing.
  unfoldable pub add_sample : F → List Bytes → MetricSampleListener → Option Sent
  add_sample value tags l =
      if l.metric_type == 0
      then some (distribution l.id value tags)
      else if l.metric_type == 1
      then some (time_in_milliseconds l.id value tags)
      else if l.metric_type == 2
      then some (count l.id (to_int value) tags)
      else none

  abbrev pub poll : {S : Type 0} → (S → F × Bool) → MetricPoller S → Bytes × F × List Bytes × Bool
  poll read p = let (value, ok) = read p.supplier in (p.id, value, p.tags, ok)

  -- case <-ticker.C in run
  unfoldable pub poll_gauges :
      {S : Type 0} → (S → F × Bool) → Bytes → List (Bytes × MetricPoller S) → List Sent
  poll_gauges read prefix [] = []
  poll_gauges read prefix ((k, p) ∷ gauges) =
      let (suffix, value, tags, ok) = poll read p in
      let rest = poll_gauges read prefix gauges in
      if ok then gauge (prefix ++ suffix) value tags ∷ rest else rest

-- stopper is the number of tokens in the channel of capacity 1, pollers the number of goroutines in
-- run, which the wait group counts.
pub record MetricRegistry (S : Type 0) : Type 0 where
  pub prefix : Bytes
  pub poll_frequency : ℤ
  pub registered_gauges : List (Bytes × MetricPoller S)
  pub registered_listeners : List (Bytes × MetricSampleListener)
  pub started : Bool
  pub stopper : ℕ
  pub pollers : ℕ

-- What Stop comes to: it returns, or it has sent to the stopper and waits for the wait group.
pub data Stop (S : Type 0) : Type 0 where
  returned : MetricRegistry S → Stop S
  waiting : MetricRegistry S → Stop S

abbrev with_dot : Bytes → Bytes
with_dot prefix = if ends_in_dot prefix then prefix else prefix ++ (dot ∷ [])

module _ {S : Type 0} where
  abbrev empty_registry : Bytes → ℤ → MetricRegistry S
  empty_registry prefix frequency = record {
    prefix = prefix;
    poll_frequency = if eqb_ℤ frequency (pos 0) then default_poll_frequency else frequency;
    registered_gauges = [];
    registered_listeners = [];
    started = false;
    stopper = 0;
    pollers = 0;
  }

  -- client is the result of dogstatsd.New for the address; none is its error.
  unfoldable pub new_metric_registry :
      {C : Type 0} → Option C → Bytes → ℤ → Option (MetricRegistry S)
  new_metric_registry none prefix frequency = none
  new_metric_registry (some client) [] frequency =
      some (empty_registry default_metric_prefix frequency)
  new_metric_registry (some client) (b ∷ prefix) frequency =
      some (empty_registry (with_dot (b ∷ prefix)) frequency)

  -- none is the error that the client is nil.
  unfoldable pub new_metric_registry_with_client :
      {C : Type 0} → Option C → Bytes → ℤ → Option (MetricRegistry S)
  new_metric_registry_with_client none prefix frequency = none
  new_metric_registry_with_client (some client) prefix frequency =
      some (empty_registry (with_dot prefix) frequency)

  -- The goroutine that Start makes begins with time.NewTicker; none is the panic of that for a poll
  -- frequency that is not positive, which ends the process.
  unfoldable pub start : MetricRegistry S → Option (MetricRegistry S)
  start r =
      if r.started
      then some r
      else if leb_ℤ r.poll_frequency (pos 0)
      then none
      else some (record r { pollers = r.pollers + 1 })

  unfoldable pub stop : MetricRegistry S → Stop S
  stop r = if not r.started then returned r else waiting (record r { stopper = r.stopper + 1 })

  -- case <-r.stopper in run, of a goroutine that finds a token.
  unfoldable pub leave : MetricRegistry S → MetricRegistry S
  leave r =
      if ltb 0 r.stopper then record r { stopper = r.stopper - 1; pollers = r.pollers - 1 } else r

  -- r.wg.Wait() and what follows, once no goroutine is left.
  unfoldable pub finish_stop : MetricRegistry S → MetricRegistry S
  finish_stop r = if r.pollers == 0 then record r { started = false } else r

  abbrev pub register : ℕ → Bytes → MetricRegistry S → MetricRegistry S × MetricSampleListener
  register metric_type ID r =
      let id = trim_dot ID in
      let (table, l) =
        find_or_add id (record { id = r.prefix ++ id; metric_type = metric_type })
          r.registered_listeners in
      (record r { registered_listeners = table }, l)

  unfoldable pub register_distribution :
      Bytes → MetricRegistry S → MetricRegistry S × MetricSampleListener
  register_distribution = register 0

  unfoldable pub register_timing :
      Bytes → MetricRegistry S → MetricRegistry S × MetricSampleListener
  register_timing = register 1

  unfoldable pub register_count : Bytes → MetricRegistry S → MetricRegistry S × MetricSampleListener
  register_count = register 2

  unfoldable pub register_gauge : Bytes → S → List Bytes → MetricRegistry S → MetricRegistry S
  register_gauge ID supplier tags r =
      let id = trim_dot ID in
      let table =
        find_or_add id (record { supplier = supplier; id = id; tags = tags }) r.registered_gauges in
      record r { registered_gauges = table.0 }
