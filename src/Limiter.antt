-- ===== src/Limiter.antt =====
-- limiter/: the limiters that callers use.
pub mod Interface
pub mod Default
pub mod Queue
pub mod Blocking
