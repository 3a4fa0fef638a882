-- ===== src/Metrics/Gometrics.antt =====
-- metric_registry/gometrics/registry.go. The go-metrics registry R is the caller's: get_or_register is
-- what GetOrRegister of a metric type and a name makes of it, update_gauge what GetOrRegisterGaugeFloat64
-- and Update do, and none is a panic. The other fields, Start, Stop and the select of run have the text of
-- metric_registry/datadog/registry.go, and are its model.
use mathlib.Core.Option.{some-injective}
use go_concurrency_limits.Base.{
  ℕ, ◌≡◌, ap, Bool, true, false, Option, none, some, List, [], ◌∷◌, ◌++◌, arith, if◌then◌else◌,
  ◌==◌, ◌>>=◌,
}
use go_concurrency_limits.Base.Int.{ℤ, int64, times}
use go_concurrency_limits.Base.Bytes.{Bytes, trim_dot}
use go_concurrency_limits.Base.Float.{Float64}
use go_concurrency_limits.Metrics.Table.{find}
use go_concurrency_limits.Metrics.Datadog
use go_concurrency_limits.Metrics.Datadog.{
  MetricSampleListener, MetricPoller, poll, returned, waiting,
}

module _ (fl : Float64) where
  open fl use {F, to_int}

  -- What a listener does to its metric, which go-metrics finds by the name.
  pub data Sent : Type 0 where
    update_distribution : Bytes → ℤ → Sent
    update_timer : Bytes → ℤ → Sent
    inc_counter : Bytes → ℤ → Sent

  unfoldable pub add_sample : F → MetricSampleListener → Option Sent
  add_sample value l =
      if l.metric_type == 0
      then some (update_distribution l.id (to_int value))
      else if l.metric_type == 1
      then some (update_timer l.id (int64 (times 1000000 (to_int value))))
      else if l.metric_type == 2
      then some (inc_counter l.id (to_int value))
      else none

pub record MetricRegistry (R S : Type 0) : Type 0 where
  pub registry : R
  pub common : Datadog.MetricRegistry S

module _ {R S : Type 0} where
  -- addr is not used; none is the error that the registry is nil.
  unfoldable pub new_go_metrics_metric_registry : Option R → Bytes → ℤ → Option (MetricRegistry R S)
  unfolding Datadog.new_metric_registry
  new_go_metrics_metric_registry registry prefix frequency = do
    g ← registry
    common ← Datadog.new_metric_registry registry prefix frequency
    some (record { registry = g; common = common })

  -- none as in Datadog.start.
  unfoldable pub start : MetricRegistry R S → Option (MetricRegistry R S)
  unfolding Datadog.start
  start r = do common ← Datadog.start r.common; some (record r { common = common })

  -- The second result says that Stop returned.
  unfoldable pub stop : MetricRegistry R S → MetricRegistry R S × Bool
  unfolding Datadog.stop
  stop r = elim (Datadog.stop r.common) [
    | returned c ↦ (record r { common = c }, true)
    | waiting c ↦ (record r { common = c }, false)
  ]

  unfoldable pub register_gauge : Bytes → S → List Bytes → MetricRegistry R S → MetricRegistry R S
  unfolding Datadog.register_gauge
  register_gauge ID supplier tags r = record r {
    common = Datadog.register_gauge ID supplier tags r.common;
  }

  -- case <-ticker.C in run
  unfoldable pub poll_gauges :
      (fl : Float64)
      → (Bytes → fl.F → R → Option R)
      → (S → fl.F × Bool)
      → Bytes
      → List (Bytes × MetricPoller S)
      → R
      → Option R
  poll_gauges fl update_gauge read prefix [] g = some g
  poll_gauges fl update_gauge read prefix ((k, p) ∷ gauges) g =
      let (suffix, value, tags, ok) = poll fl read p in
      (if ok then update_gauge (prefix ++ suffix) value g else some g)
      >>= (λ g'. poll_gauges fl update_gauge read prefix gauges g')

  module _ (get_or_register : ℕ → Bytes → R → Option R) where
    abbrev register :
        ℕ → Bytes → MetricRegistry R S → Option (MetricRegistry R S × MetricSampleListener)
    register metric_type ID r =
        let id = trim_dot ID in
        let name = r.common.prefix ++ id in
        let l : MetricSampleListener = record { id = name; metric_type = metric_type } in
        elim (find id r.common.registered_listeners) [
          | some old ↦ some (r, old)
          | none ↦ get_or_register metric_type name r.registry >>= (λ g. some (
            record {
              registry = g;
              common = record r.common {
                registered_listeners = (id, l) ∷ r.common.registered_listeners;
              };
            },
            l,
          ))
        ]

    unfoldable pub register_distribution :
        Bytes → MetricRegistry R S → Option (MetricRegistry R S × MetricSampleListener)
    register_distribution = register 0

    unfoldable pub register_timing :
        Bytes → MetricRegistry R S → Option (MetricRegistry R S × MetricSampleListener)
    register_timing = register 1

    unfoldable pub register_count :
        Bytes → MetricRegistry R S → Option (MetricRegistry R S × MetricSampleListener)
    register_count = register 2

    abbrev outcome :
        Datadog.MetricRegistry S
        → Bytes
        → MetricSampleListener
        → Option MetricSampleListener
        → Datadog.MetricRegistry S × MetricSampleListener
    outcome c id l old =
        let p : List (Bytes × MetricSampleListener) × MetricSampleListener = elim old [
          | some v ↦ (c.registered_listeners, v)
          | none ↦ ((id, l) ∷ c.registered_listeners, l)
        ] in
        (record c { registered_listeners = p.0 }, p.1)

    abbrev attempt :
        Datadog.MetricRegistry S
        → Option R
        → Bytes
        → R
        → MetricSampleListener
        → Option MetricSampleListener
        → Option (MetricRegistry R S × MetricSampleListener)
    attempt c made id g l old = elim old [
      | some v ↦ some (record { registry = g; common = c }, v)
      | none ↦ made >>= (λ g'. some (
        record {
          registry = g';
          common = record c { registered_listeners = (id, l) ∷ c.registered_listeners };
        },
        l,
      ))
    ]

    shared :
        (c : Datadog.MetricRegistry S) (old : Option MetricSampleListener) (made : Option R)
        (id : Bytes) (g : R) (l : MetricSampleListener) (t : MetricRegistry R S)
        (m : MetricSampleListener)
        → attempt c made id g l old ≡ some (t, m)
        → outcome c id l old ≡ (t.common, m)
    shared c (some v) made id g l t m e = ap (λ p. (p.0.common, p.1)) (some-injective _ _ e)
    shared c none (some g') id g l t m e = ap (λ p. (p.0.common, p.1)) (some-injective _ _ e)
    shared c none none id g l t m e = absurd (ground arith)

    -- A registration that go-metrics accepts does to the common fields what that of the datadog registry
    -- does, and returns the same listener.
    pub register-common :
        (metric_type : ℕ) (ID : Bytes) (r t : MetricRegistry R S) (l : MetricSampleListener)
        → register metric_type ID r ≡ some (t, l)
        → Datadog.register metric_type ID r.common ≡ (t.common, l)
    register-common metric_type ID r t l e =
        let id = trim_dot ID in
        let name = r.common.prefix ++ id in
        shared r.common (find id r.common.registered_listeners)
          (get_or_register metric_type name r.registry) id r.registry
          (record { id = name; metric_type = metric_type }) t l e
