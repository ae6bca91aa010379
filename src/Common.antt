-- ===== src/Common.antt =====
-- src/common: the utilities and guards that the feature modules share.
pub mod CircuitBreaker
pub mod Zones
pub mod BranchDay
pub mod WorkingWindow
pub mod BookingSettings
