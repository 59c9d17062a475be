-- ===== src/Core.antt =====
-- crates/argus-core: the data models, the error types and the interest registry.
pub mod Chain
pub mod Config
pub mod Errors
pub mod Registry
pub mod Actions
pub mod Matches
pub mod Payload
pub mod Repository
