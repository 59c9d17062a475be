-- ===== src/Abi.antt =====
-- crates/argus-abi: values, contracts, and the service that decodes logs and calls by them.
pub mod Values
pub mod Contracts
pub mod Service
pub mod Calls
