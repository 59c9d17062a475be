-- ===== src/Providers/Source.antt =====
-- The `DataSource` trait (crates/argus-core/src/providers/traits.rs), as a snapshot of what the
-- node answers while one range is fetched.
use argus_rs.Base.{ℕ, List, HashMap, Result}
use argus_rs.Core.Chain.{Block, Log, Receipt}
use argus_rs.Core.Errors.{DataSourceError}

pub record DataSource : Type 0 where
  pub fetch_block_only : ℕ → Result DataSourceError Block
  pub fetch_logs_for_range : ℕ → ℕ → Result DataSourceError (List Log)
  pub fetch_receipts : List ℕ → Result DataSourceError (HashMap ℕ Receipt)
