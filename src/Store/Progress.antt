-- ===== src/Store/Progress.antt =====
-- The processed blocks of crates/argus-store/src/app_repository.rs. The column is a signed number of
-- 64 bits.
pub mod Restored
use argus_rs.Base.{
  ℤ, pos, negsuc, Exec, HashMap, Option, Result, String, err, get, if◌then◌else◌, insert, ltb,
  nat_key, none, ok, raise, some, string_key, ℕ, ◌+◌, ◌>>◌, ◌^◌,
}
use argus_rs.Core.Errors.{PersistenceError, operation_failed, invalid_input}
use argus_rs.Store.Transactions.{Faults}

pub record BlockDatabase : Type 0 where
  pub processed_blocks : HashMap String ℤ
  pub statements : ℕ

-- A statement, which may fail.
abbrev pub execute :
    Faults → (HashMap String ℤ → HashMap String ℤ) → Exec BlockDatabase PersistenceError (Unit {0})
execute fails update db =
    if fails db.statements
    then (err operation_failed, record db { statements = db.statements + 1 })
    else (
      ok tt,
      record db { processed_blocks = update db.processed_blocks; statements = db.statements + 1 },
    )

-- `block_number.try_into()` of the row, if there is one.
unfoldable pub to_block_number : Option ℤ → Result PersistenceError (Option ℕ)
to_block_number none = ok none
to_block_number (some (pos n)) = ok (some n)
to_block_number (some (negsuc n)) = err operation_failed

unfoldable pub get_last_processed_block :
    Faults → String → Exec BlockDatabase PersistenceError (Option ℕ)
unfolding to_block_number
get_last_processed_block fails network_id =
    execute fails (λ m. m) >> λ db. (to_block_number (get db.processed_blocks network_id), db)

-- `INSERT OR REPLACE`, for a number that `i64::try_from` takes.
unfoldable pub set_last_processed_block :
    Faults → String → ℕ → Exec BlockDatabase PersistenceError (Unit {0})
set_last_processed_block fails network_id block_number =
    if ltb block_number (2 ^ 63)
    then execute fails (λ m. insert m network_id (pos block_number))
    else raise invalid_input

-- `PRAGMA synchronous = FULL`, the checkpoint, `PRAGMA synchronous = NORMAL`: none changes a row.
unfoldable pub flush_wal : Faults → Exec BlockDatabase PersistenceError (Unit {0})
flush_wal fails = execute fails (λ m. m) >> execute fails (λ m. m) >> execute fails (λ m. m)

unfoldable pub save_emergency_state :
    Faults → String → ℕ → Exec BlockDatabase PersistenceError (Unit {0})
unfolding set_last_processed_block flush_wal
save_emergency_state fails network_id block_number =
    set_last_processed_block fails network_id block_number >> flush_wal fails
