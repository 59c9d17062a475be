-- ===== src/Core/Errors.antt =====
-- The error types of crates/argus-core (persistence/error.rs, providers/traits.rs). The texts that
-- the errors carry are left out, except the names that the code itself collects.
use argus_rs.Base.{ℕ, String, List}

pub data PersistenceError : Type 0 where
  operation_failed not_found serialization_error migration_error invalid_input : PersistenceError
  abi_in_use : List String → PersistenceError

pub data DataSourceError : Type 0 where
  url_parse provider channel_closed : DataSourceError
  block_not_found : ℕ → DataSourceError
  state_repository : PersistenceError → DataSourceError
