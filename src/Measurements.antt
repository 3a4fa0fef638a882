-- ===== src/Measurements.antt =====
-- measurements/: the sample window and the measurements that the limits keep.
pub mod Window
pub mod Averages
pub mod Moving
