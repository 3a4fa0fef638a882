-- ===== src/Metrics/Prometheus.antt =====
-- metric_registry/prometheus/registry.go. The registerer and the metrics of the Prometheus client are the
-- caller's: must_register is what MustRegister makes of the registerer, and none is its panic.
pub mod Tags
use go_concurrency_limits.Base.{
  ℕ, Bool, true, false, Option, none, some, List, [], ◌∷◌, ◌++◌, if◌then◌else◌, ◌==◌, ◌>>=◌,
}
use go_concurrency_limits.Base.Bytes.{Bytes, bytes_eq, dot, trim_dot, replace_all}
use go_concurrency_limits.Base.Float.{Float64}
use go_concurrency_limits.Base.Int.{ℤ, pos}
use go_concurrency_limits.Metrics.Table.{find}

abbrev pub colon : ℕ
colon = 58

abbrev pub underscore : ℕ
underscore = 95

unfoldable pub sanitize_name : Bytes → Bytes
sanitize_name id = replace_all dot underscore (trim_dot id)

-- strings.SplitN(t, ":", 2), where it has two parts.
abbrev pub split : Bytes → Option (Bytes × Bytes)
split [] = none
split (b ∷ t) =
    let rest = split t in
    if b == colon then some ([], t) else elim rest [ none ↦ none | some (k, v) ↦ some (b ∷ k, v) ]

-- labels[key] = value
abbrev pub assign : Bytes → Bytes → List (Bytes × Bytes) → List (Bytes × Bytes)
assign key value [] = (key, value) ∷ []
assign key value ((k, v) ∷ labels) =
    let rest = assign key value labels in
    if bytes_eq key k then (k, value) ∷ labels else (k, v) ∷ rest

-- The loop, with the labels so far.
unfoldable pub parse_tags_from : List (Bytes × Bytes) → List Bytes → List (Bytes × Bytes)
parse_tags_from labels [] = labels
parse_tags_from labels (t ∷ tags) = elim (split t) [
  | none ↦ parse_tags_from labels tags
  | some (k, v) ↦ parse_tags_from (assign k v labels) tags
]

unfoldable pub parse_tags : List Bytes → List (Bytes × Bytes)
unfolding parse_tags_from
parse_tags tags = parse_tags_from [] tags

pub data Metric (S : Type 0) : Type 0 where
  summary counter : Metric S
  gauge_func : S → Metric S

pub record Collector (S : Type 0) : Type 0 where
  pub metric : Metric S
  pub namespace : Bytes
  pub name : Bytes
  pub labels : List (Bytes × Bytes)

pub record MetricSampleListener (S : Type 0) : Type 0 where
  pub collector : Collector S
  pub metric_type : ℕ

pub data Sent (S F : Type 0) : Type 0 where
  observe : Collector S → F → Sent S F
  add : Collector S → F → Sent S F

unfoldable pub add_sample : {S F : Type 0} → F → MetricSampleListener S → Option (Sent S F)
add_sample value l =
    if l.metric_type == 0
    then some (observe l.collector value)
    else if l.metric_type == 1
    then some (observe l.collector value)
    else if l.metric_type == 2
    then some (add l.collector value)
    else none

pub record MetricRegistry (S R : Type 0) : Type 0 where
  pub registerer : R
  pub namespace : Bytes
  pub registered_listeners : List (Bytes × MetricSampleListener S)
  pub registered_gauges : List (Bytes × Collector S)

-- The bytes of "limiter".
abbrev pub default_metric_namespace : Bytes
default_metric_namespace = 108 ∷ 105 ∷ 109 ∷ 105 ∷ 116 ∷ 101 ∷ 114 ∷ []

abbrev namespace_or_default : Bytes → Bytes
namespace_or_default [] = default_metric_namespace
namespace_or_default (b ∷ namespace) = b ∷ namespace

module _ {S R : Type 0} where
  -- default_registerer is the package's; none is a nil registerer.
  unfoldable pub new_metric_registry_with_registerer : R → Bytes → Option R → MetricRegistry S R
  new_metric_registry_with_registerer default_registerer namespace registerer = record {
    registerer = elim registerer [ none ↦ default_registerer | some r ↦ r ];
    namespace = namespace_or_default namespace;
    registered_listeners = [];
    registered_gauges = [];
  }

  unfoldable pub new_metric_registry : R → Bytes → MetricRegistry S R
  unfolding new_metric_registry_with_registerer
  new_metric_registry default_registerer namespace =
      new_metric_registry_with_registerer default_registerer namespace (some default_registerer)

  module _ (must_register : Collector S → R → Option R) where
    -- The three registrations of a listener, by the metric, the end of the name and the type.
    abbrev register :
        Metric S
        → Bytes
        → ℕ
        → Bytes
        → List Bytes
        → MetricRegistry S R
        → Option (MetricRegistry S R × MetricSampleListener S)
    register metric suffix metric_type ID tags r = elim (find ID r.registered_listeners) [
      | some l ↦ some (r, l)
      | none ↦
          let c : Collector S = record {
            metric = metric;
            namespace = r.namespace;
            name = sanitize_name ID ++ suffix;
            labels = parse_tags tags;
          } in
          let l : MetricSampleListener S = record { collector = c; metric_type = metric_type } in
          must_register c r.registerer >>= (λ registerer. some (
            record r {
              registerer = registerer;
              registered_listeners = (ID, l) ∷ r.registered_listeners;
            },
            l,
          ))
    ]

    unfoldable pub register_distribution :
        Bytes
        → List Bytes
        → MetricRegistry S R
        → Option (MetricRegistry S R × MetricSampleListener S)
    unfolding sanitize_name parse_tags
    register_distribution = register summary [] 0

    -- The suffix is "_ms".
    unfoldable pub register_timing :
        Bytes
        → List Bytes
        → MetricRegistry S R
        → Option (MetricRegistry S R × MetricSampleListener S)
    unfolding sanitize_name parse_tags
    register_timing = register summary (95 ∷ 109 ∷ 115 ∷ []) 1

    -- The suffix is "_total".
    unfoldable pub register_count :
        Bytes
        → List Bytes
        → MetricRegistry S R
        → Option (MetricRegistry S R × MetricSampleListener S)
    unfolding sanitize_name parse_tags
    register_count = register counter (95 ∷ 116 ∷ 111 ∷ 116 ∷ 97 ∷ 108 ∷ []) 2

    unfoldable pub register_gauge :
        Bytes → S → List Bytes → MetricRegistry S R → Option (MetricRegistry S R)
    unfolding sanitize_name parse_tags
    register_gauge ID supplier tags r = elim (find ID r.registered_gauges) [
      | some c ↦ some r
      | none ↦
          let c : Collector S = record {
            metric = gauge_func supplier;
            namespace = r.namespace;
            name = sanitize_name ID;
            labels = parse_tags tags;
          } in
          must_register c r.registerer >>= (λ registerer. some (record r {
            registerer = registerer;
            registered_gauges = (ID, c) ∷ r.registered_gauges;
          }))
    ]

-- What a gauge gives when it is scraped: 0 where the supplier has no value.
abbrev pub scrape : (fl : Float64) {S : Type 0} → (S → fl.F × Bool) → S → fl.F
scrape fl read supplier = let (value, ok) = read supplier in if ok then value else fl.of_int (pos 0)
