-- ===== src/Tests.antt =====
-- Concrete inputs: runs of the code and applications of the theorems.
pub mod Middleware
pub mod Registries
pub mod Pools
pub mod Gradients
pub mod Floats
pub mod Strategies
pub mod Windows
pub mod Limits
pub mod Limiters
pub mod Queues
pub mod Blocking
pub mod Predicates
