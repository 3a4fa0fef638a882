-- ===== src/Limit.antt =====
-- limit/: the limit algorithms.
pub mod Interface
pub mod Fixed
pub mod Aimd
pub mod Windowed
pub mod Functions
pub mod Gradient
pub mod Gradient2
pub mod Vegas
