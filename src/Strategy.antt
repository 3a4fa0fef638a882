-- ===== src/Strategy.antt =====
-- strategy/: how a limit is enforced.
pub mod Matchers
pub mod Precise
pub mod Simple
pub mod Lookup
pub mod Predicate
