-- ===== src/Monitor.antt =====
-- crates/argus-monitor: the monitors in service and what is derived from them.
pub mod Assets
pub mod Interests
pub mod Manager
pub mod Templates
pub mod Validator
pub mod Persistence
mod Samples
