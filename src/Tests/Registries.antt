-- ===== src/Tests/Registries.antt =====
-- The metric registries at concrete calls. Suppliers are numbers.
use go_concurrency_limits.Base.{arith, ℕ, ◌≡◌, refl, false, some, List, [], ◌∷◌, map}
use go_concurrency_limits.Base.Int.{pos}
use go_concurrency_limits.Base.Bytes.{Bytes}
use go_concurrency_limits.Metrics.Datadog
use go_concurrency_limits.Metrics.Datadog.Listeners
use go_concurrency_limits.Metrics.Datadog.Pollers
use go_concurrency_limits.Metrics.Prometheus
use go_concurrency_limits.Metrics.Prometheus.Tags

-- The prefix "a".
abbrev registry : Datadog.MetricRegistry ℕ
registry = record {
  prefix = 97 ∷ 46 ∷ [];
  poll_frequency = pos 5000000000;
  registered_gauges = [];
  registered_listeners = [];
  started = false;
  stopper = 0;
  pollers = 0;
}

registry_lem : Datadog.new_metric_registry {C = ℕ} (some 0) (97 ∷ []) (pos 0) ≡ some registry
unfolding Datadog.new_metric_registry
registry_lem = refl

abbrev calls : List (Pollers.Call ℕ)
calls =
    Pollers.starts
    ∷ Pollers.registers_gauge (98 ∷ []) 7 []
    ∷ Pollers.stops
    ∷ Pollers.starts
    ∷ Pollers.leaves
    ∷ Pollers.stops
    ∷ []

run_pollers_example :
    (t : Datadog.MetricRegistry ℕ) × (Pollers.run calls registry ≡ some t)
    × (t.pollers ≡ 2)
    × (t.started ≡ false)
    × (Datadog.stop t ≡ Datadog.returned t)
run_pollers_example =
    Pollers.run_pollers (some 0) (97 ∷ []) (pos 0) registry calls registry_lem (omega arith)

-- ".b" as a timing, then "b" as a count.
abbrev timed : List (Listeners.Kind × Bytes)
timed = (Listeners.timing, 46 ∷ 98 ∷ []) ∷ (Listeners.distribution, 99 ∷ []) ∷ []

register-first_example :
    (Listeners.register Listeners.count (98 ∷ []) (Listeners.register_all timed registry)).1
    ≡ record { id = 97 ∷ 46 ∷ 98 ∷ []; metric_type = 1 }
register-first_example =
    Listeners.register-first (some 0) (97 ∷ []) (pos 0) registry timed Listeners.count (98 ∷ [])
      registry_lem

-- "a:1:2" and "b:"
abbrev labels : List (Bytes × Bytes)
labels = (97 ∷ [], 49 ∷ 58 ∷ 50 ∷ []) ∷ (98 ∷ [], []) ∷ []

parse_tags-print_example : Prometheus.parse_tags (map Tags.print labels) ≡ labels
parse_tags-print_example =
    Tags.parse_tags-print labels ((refl, tt), ((refl, tt), tt)) ((refl, tt), (tt, tt))
