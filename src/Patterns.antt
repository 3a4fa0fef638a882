-- ===== src/Patterns.antt =====
-- patterns/: pools, which put a blocking limiter over another.
pub mod Pool
