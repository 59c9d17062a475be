-- ===== src/Store/Catalog/Failures.antt =====
-- The operations of crates/argus-store/src/app_repository.rs that end in an error, and the tables
-- that they leave.
use argus_rs.Base.{
  List, Option, String, err, get, if◌then◌else◌, insert, keep, nat_key, none, not, pair_key, some,
  string_key, ℕ, ◌==◌, ◌≡◌,
}
use argus_rs.Core.Errors.{PersistenceError}
use argus_rs.Store.Transactions.{Faults}
use argus_rs.Abi.Service.{is_some}
use argus_rs.Monitor.Assets.{Monitor, MonitorStatus}
use argus_rs.Core.Actions.{ActionConfig}
use argus_rs.Store.Catalog.{MonitorRow, ActionRow, CatalogDatabase, create_abi, delete_abi}
use argus_rs.Store.Catalog.Monitors.{
  add_monitors, clear_monitors, delete_monitor, update_monitor, update_monitor_status,
}
use argus_rs.Store.Catalog.Actions.{create_action, clear_actions, update_action, delete_action}
use argus_rs.Store.Catalog.Sparing.{execute-Spares}
use argus_rs.Store.Catalog.Sparing.Monitors.{
  delete_abi-Spares, add_monitors-Spares, delete_monitor-Spares, update_monitor-Spares,
  update_monitor_status-Spares,
}
use argus_rs.Store.Catalog.Sparing.Actions.{
  create_action-Spares, update_action-Spares, delete_action-Spares,
}

-- An operation that changes the tables and ends in an error, with the tables before and after it.
pub data Failed (monitor_text : List String → Option String)
    (action_text : ActionConfig → Option String) (fails : Faults) (db : CatalogDatabase)
    : CatalogDatabase → Type 0 where
  created :
      (name abi : String) {e : PersistenceError}
      → (create_abi fails name abi db).0 ≡ err e
      → Failed monitor_text action_text fails db (create_abi fails name abi db).1
  deleted :
      (name : String) {e : PersistenceError}
      → (delete_abi fails name db).0 ≡ err e
      → Failed monitor_text action_text fails db (delete_abi fails name db).1
  monitors_added :
      (network_id : String) (monitors : List Monitor) {e : PersistenceError}
      → (add_monitors monitor_text fails network_id monitors db).0 ≡ err e
      → Failed monitor_text action_text fails db
          (add_monitors monitor_text fails network_id monitors db).1
  monitors_cleared :
      (network_id : String) {e : PersistenceError}
      → (clear_monitors fails network_id db).0 ≡ err e
      → Failed monitor_text action_text fails db (clear_monitors fails network_id db).1
  monitor_deleted :
      (network_id : String) (monitor_id : ℕ) {e : PersistenceError}
      → (delete_monitor fails network_id monitor_id db).0 ≡ err e
      → Failed monitor_text action_text fails db (delete_monitor fails network_id monitor_id db).1
  monitor_updated :
      (network_id : String) (monitor_id : ℕ) (m : Monitor) {e : PersistenceError}
      → (update_monitor monitor_text fails network_id monitor_id m db).0 ≡ err e
      → Failed monitor_text action_text fails db
          (update_monitor monitor_text fails network_id monitor_id m db).1
  status_updated :
      (network_id : String) (monitor_id : ℕ) (status : MonitorStatus) {e : PersistenceError}
      → (update_monitor_status fails network_id monitor_id status db).0 ≡ err e
      → Failed monitor_text action_text fails db
          (update_monitor_status fails network_id monitor_id status db).1
  action_created :
      (network_id : String) (action : ActionConfig) {e : PersistenceError}
      → (create_action action_text fails network_id action db).0 ≡ err e
      → Failed monitor_text action_text fails db
          (create_action action_text fails network_id action db).1
  actions_cleared :
      (network_id : String) {e : PersistenceError}
      → (clear_actions fails network_id db).0 ≡ err e
      → Failed monitor_text action_text fails db (clear_actions fails network_id db).1
  action_updated :
      (network_id : String) (action : ActionConfig) {e : PersistenceError}
      → (update_action action_text fails network_id action db).0 ≡ err e
      → Failed monitor_text action_text fails db
          (update_action action_text fails network_id action db).1
  action_deleted :
      (network_id : String) (action_id : ℕ) {e : PersistenceError}
      → (delete_action fails network_id action_id db).0 ≡ err e
      → Failed monitor_text action_text fails db (delete_action fails network_id action_id db).1

-- Where an operation that creates, adds, updates, deletes or clears ABIs, monitors or actions returns an
-- error, whichever of its statements fail and wherever they fail, every table is as it was before it:
-- the monitors that were added first are rolled back, and an operation that finds no row changes none.
-- A statement by itself takes effect or fails as a whole, a rollback succeeds, and the constraints of the
-- tables are part of the statements.
pub errors_change_nothing :
    (monitor_text : List String → Option String) (action_text : ActionConfig → Option String)
    (fails : Faults) {db after : CatalogDatabase}
    → Failed monitor_text action_text fails db after
    → after.catalog ≡ db.catalog
unfolding create_abi clear_monitors clear_actions
errors_change_nothing monitor_text action_text fails {db} (created name abi {e} h) =
    execute-Spares fails
      (λ c.
        if is_some (get c.abis name)
        then none
        else some (tt, record c { abis = insert c.abis name abi }))
      db e h
errors_change_nothing monitor_text action_text fails {db} (deleted name {e} h) =
    delete_abi-Spares fails name db e h
errors_change_nothing monitor_text action_text fails {db}
      (monitors_added network_id monitors {e} h) =
    add_monitors-Spares monitor_text fails network_id monitors db e h
errors_change_nothing monitor_text action_text fails {db} (monitors_cleared network_id {e} h) =
    execute-Spares fails
      (λ c. some (
        tt,
        record c {
          monitors = keep (λ (row : MonitorRow). not (row.network == network_id)) c.monitors;
        },
      ))
      db e h
errors_change_nothing monitor_text action_text fails {db}
      (monitor_deleted network_id monitor_id {e} h) =
    delete_monitor-Spares fails network_id monitor_id db e h
errors_change_nothing monitor_text action_text fails {db}
      (monitor_updated network_id monitor_id m {e} h) =
    update_monitor-Spares monitor_text fails network_id monitor_id m db e h
errors_change_nothing monitor_text action_text fails {db}
      (status_updated network_id monitor_id status {e} h) =
    update_monitor_status-Spares fails network_id monitor_id status db e h
errors_change_nothing monitor_text action_text fails {db} (action_created network_id action {e} h) =
    create_action-Spares action_text fails network_id action db e h
errors_change_nothing monitor_text action_text fails {db} (actions_cleared network_id {e} h) =
    execute-Spares fails
      (λ c. some (
        tt,
        record c {
          actions = keep (λ (row : ActionRow). not (row.network_id == network_id)) c.actions;
        },
      ))
      db e h
errors_change_nothing monitor_text action_text fails {db} (action_updated network_id action {e} h) =
    update_action-Spares action_text fails network_id action db e h
errors_change_nothing monitor_text action_text fails {db}
      (action_deleted network_id action_id {e} h) =
    delete_action-Spares fails network_id action_id db e h
