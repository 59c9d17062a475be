-- ===== src/Context.antt =====
-- src/context/mod.rs and crates/argus-core/src/config/initial_start_block.rs: where the processing
-- of a network starts when the database has no mark for it.
pub mod Start
mod Samples
use argus_rs.Base.{
  ℤ, pos, negsuc, Exec, Option, Result, String, err, min, nat_key, none, ok, pure, some, string_key,
  suc, zero, ℕ, ◌+◌, ◌-◌, ◌>>=◌, ◌^◌,
}
use argus_rs.Core.Errors.{PersistenceError, DataSourceError}
use argus_rs.Store.Transactions.{Faults}
use argus_rs.Store.Progress.{BlockDatabase, get_last_processed_block, set_last_processed_block}

pub data InitialStartBlock : Type 0 where
  absolute : ℕ → InitialStartBlock
  offset : ℤ → InitialStartBlock
  latest : InitialStartBlock

pub data InitializationError : Type 0 where
  monitor_load : InitializationError
  action_load : InitializationError
  abi_load : InitializationError
  block_state_initialization : InitializationError
  alert_manager_initialization : InitializationError

abbrev pub default_start_block : InitialStartBlock
default_start_block = offset (negsuc 99)

-- `visit_i64`
unfoldable pub visit_i64 : ℤ → InitialStartBlock
visit_i64 (pos zero) = default_start_block
visit_i64 (pos (suc n)) = absolute (suc n)
visit_i64 (negsuc n) = offset (negsuc n)

-- `u64::saturating_add_signed`
unfoldable pub saturating_add_signed : ℕ → ℤ → ℕ
saturating_add_signed a (pos n) = min (a + n) (2 ^ 64 - 1)
saturating_add_signed a (negsuc n) = a - suc n

unfoldable pub target_block : InitialStartBlock → ℕ → ℕ
unfolding saturating_add_signed
target_block latest head = head
target_block (absolute n) head = n
target_block (offset o) head = saturating_add_signed head o

-- The block to start from: not past the safe head.
abbrev pub final_start_block : InitialStartBlock → ℕ → ℕ → ℕ
final_start_block start confirmation_blocks head =
    min (target_block start head) (head - confirmation_blocks)

-- `map_err`
abbrev pub as_initialization :
    {A : Type 0} → Exec BlockDatabase PersistenceError A → Exec BlockDatabase InitializationError A
as_initialization op db = elim (op db).0 [
  | ok a ↦ (ok a, (op db).1)
  | err e ↦ (err block_state_initialization, (op db).1)
]

abbrev pub block_number : Result DataSourceError ℕ → Exec BlockDatabase InitializationError ℕ
block_number (ok n) db = (ok n, db)
block_number (err e) db = (err block_state_initialization, db)

-- What follows the read of the mark.
unfoldable pub start_if_unset :
    Faults
    → String
    → InitialStartBlock
    → ℕ
    → Result DataSourceError ℕ
    → Option ℕ
    → Exec BlockDatabase InitializationError (Unit {0})
start_if_unset fails network_id start confirmation_blocks head (some n) = pure tt
start_if_unset fails network_id start confirmation_blocks head none =
    block_number head >>= λ latest_block_number. as_initialization (
      set_last_processed_block fails network_id
        (final_start_block start confirmation_blocks latest_block_number - 1))

unfoldable pub initialize_block_state :
    Faults
    → String
    → InitialStartBlock
    → ℕ
    → Result DataSourceError ℕ
    → Exec BlockDatabase InitializationError (Unit {0})
unfolding start_if_unset
initialize_block_state fails network_id start confirmation_blocks head =
    as_initialization (get_last_processed_block fails network_id)
    >>= start_if_unset fails network_id start confirmation_blocks head
