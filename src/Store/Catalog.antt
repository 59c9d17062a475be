-- ===== src/Store/Catalog.antt =====
-- The ABIs and the monitors of crates/argus-store/src/app_repository.rs, over their tables
-- (migrations/20251029120000_create_abis_table, 20251029120100_recreate_monitors_table_with_abi_fk and
-- 20251031120000_add_monitor_constraints_and_status) with the constraints that SQLite enforces. An
-- identifier is the number that its text spells.
pub mod Monitors
pub mod Lookup
pub mod Actions
pub mod Sparing
pub mod Failures
pub mod Statements
pub mod Inserted
pub mod Stored
pub mod InUse
mod Samples
use argus_rs.Base.{
  Bool, Exec, HashMap, List, Option, String, [], any, err, false, get, if◌then◌else◌, insert, keep,
  map, nat_key, none, ok, pair_key, pure, raise, remove, some, string_key, true, ℕ, ◌&&◌, ◌+◌, ◌==◌,
  ◌>>=◌, ◌∷◌,
}
use argus_rs.Core.Errors.{
  PersistenceError, operation_failed, not_found, serialization_error, invalid_input, abi_in_use,
}
use argus_rs.Abi.Service.{is_some}
use argus_rs.Store.Transactions.{Faults}
use argus_rs.Monitor.Assets.{Monitor, MonitorStatus}

pub record MonitorRow : Type 0 where
  pub monitor_id : ℕ
  pub name : String
  pub network : String
  pub address : Option String
  pub abi_name : Option String
  pub filter_script : String
  pub actions : String
  pub status : MonitorStatus

pub record ActionRow : Type 0 where
  pub action_id : ℕ
  pub name : String
  pub network_id : String
  pub config : String

-- The tables, with the identifiers of the next rows.
pub record Catalog : Type 0 where
  pub abis : HashMap String String
  pub monitors : List MonitorRow
  pub next_id : ℕ
  pub actions : List ActionRow
  pub next_action_id : ℕ

pub record CatalogDatabase : Type 0 where
  pub catalog : Catalog
  pub statements : ℕ

-- A statement, which may fail or violate a constraint: the tables that it leaves, and what it yields.
unfoldable pub execute :
    {A : Type 0}
    → Faults
    → (Catalog → Option (A × Catalog))
    → Exec CatalogDatabase PersistenceError A
execute fails run_on db =
    let counted = record db { statements = db.statements + 1 } in
    if fails db.statements then (err operation_failed, counted) else elim (run_on db.catalog) [
      | none ↦ (err operation_failed, counted)
      | some (a, after) ↦ (ok a, record counted { catalog = after })
    ]

-- `FOREIGN KEY(abi_name) REFERENCES abis(name)`
abbrev pub refers : HashMap String String → Option String → Bool
refers abis none = true
refers abis (some name) = is_some (get abis name)

abbrev pub uses : String → MonitorRow → Bool
uses name row = elim row.abi_name [ none ↦ false | some n ↦ name == n ]

abbrev pub is_named : String → String → MonitorRow → Bool
is_named network name row = row.network == network && row.name == name

abbrev pub is_monitor : String → ℕ → MonitorRow → Bool
is_monitor network monitor_id row = row.network == network && row.monitor_id == monitor_id

-- Create an ABI of a new name.
unfoldable pub create_abi :
    Faults → String → String → Exec CatalogDatabase PersistenceError (Unit {0})
create_abi fails name abi = execute fails (λ c.
    if is_some (get c.abis name)
    then none
    else some (tt, record c { abis = insert c.abis name abi }))

unfoldable pub get_stored_abi :
    Faults → String → Exec CatalogDatabase PersistenceError (Option String)
get_stored_abi fails name = execute fails (λ c. some (get c.abis name, c))

-- The order of the rows is SQLite's, and an argument.
unfoldable pub list_abis :
    (List String → List String) → Faults → Exec CatalogDatabase PersistenceError (List String)
list_abis scan fails =
    execute fails (λ c. some (scan (map (λ (e : String × String). e.0) c.abis), c))

unfoldable pub get_all_abis :
    Faults → Exec CatalogDatabase PersistenceError (List (String × String))
get_all_abis fails = execute fails (λ c. some (c.abis, c))

-- The error for a statement that found no row.
abbrev pub found_one : Bool → Exec CatalogDatabase PersistenceError (Unit {0})
found_one true = pure tt
found_one false = raise not_found

abbrev pub delete_row : String → Catalog → Option (Bool × Catalog)
delete_row name c =
    if any (uses name) c.monitors
    then none
    else some (is_some (get c.abis name), record c { abis = remove c.abis name })

abbrev pub unless_used :
    Faults → String → List String → Exec CatalogDatabase PersistenceError (Unit {0})
unless_used fails name [] = execute fails (delete_row name) >>= found_one
unless_used fails name (m ∷ ms) = raise (abi_in_use (m ∷ ms))

-- An ABI that monitors use stays.
unfoldable pub delete_abi : Faults → String → Exec CatalogDatabase PersistenceError (Unit {0})
unfolding execute
delete_abi fails name =
    execute fails
      (λ c. some (map (λ (row : MonitorRow). row.name) (keep (uses name) c.monitors), c))
    >>= unless_used fails name
