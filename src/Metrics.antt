-- ===== src/Metrics.antt =====
-- core/metric_registry.go and metric_registry/: what is measured, and the registries that report it.
pub mod Table
pub mod Datadog
pub mod Gometrics
pub mod Prometheus
