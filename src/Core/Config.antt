-- ===== src/Core/Config.antt =====
-- The settings that the modelled services read (crates/argus-core/src/config). Durations are
-- counted in nanoseconds.
use argus_rs.Base.{ℕ, String, Option}

pub record AppConfig : Type 0 where
  pub network_id : String
  pub block_chunk_size : ℕ
  pub log_chunk_size : ℕ
  pub concurrency : ℕ
  pub polling_interval_ms : ℕ
  pub expected_block_time_ms : Option ℕ
  pub confirmation_blocks : ℕ

-- `OutboxConfig`: the settings of the outbox processor.
pub record OutboxConfig : Type 0 where
  pub batch_size : ℕ
  pub concurrency : ℕ
