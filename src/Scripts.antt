-- ===== src/Scripts.antt =====
-- crates/argus-rhai: what scripts see of the chain.
pub mod Conversions
pub mod Proxies
pub mod Validator
pub mod Compiler
