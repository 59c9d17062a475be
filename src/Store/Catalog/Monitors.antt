-- ===== src/Store/Catalog/Monitors.antt =====
-- The monitors of crates/argus-store/src/app_repository.rs: what adds, clears, deletes, changes and
-- reads them.
use argus_rs.Base.{
  Bool, Exec, List, Option, Result, String, [], any, err, false, if◌then◌else◌, keep, map, nat_key,
  none, not, ok, pair_key, pure, raise, some, string_key, true, ℕ, ◌++◌, ◌+◌, ◌==◌, ◌>>=◌, ◌>>◌,
  ◌∷◌,
}
use argus_rs.Core.Errors.{PersistenceError, serialization_error, invalid_input}
use argus_rs.Store.Transactions.{Faults}
use argus_rs.Monitor.Assets.{Monitor, MonitorStatus}
use argus_rs.Store.Catalog.{
  MonitorRow, Catalog, CatalogDatabase, execute, refers, is_named, is_monitor, found_one,
}

abbrev pub row_of : ℕ → Monitor → String → MonitorRow
row_of id m actions = record {
  monitor_id = id;
  name = m.name;
  network = m.network;
  address = m.address;
  abi_name = m.abi_name;
  filter_script = m.filter_script;
  actions = actions;
  status = m.status;
}

unfoldable pub insert_monitor : Monitor → String → Catalog → Option (Unit {0} × Catalog)
insert_monitor m actions c =
    if any (is_named m.network m.name) c.monitors
    then none
    else if refers c.abis m.abi_name
    then some (
      tt,
      record c {
        monitors = c.monitors ++ row_of c.next_id m actions ∷ [];
        next_id = c.next_id + 1;
      },
    )
    else none

unfoldable pub insert_monitors :
    (List String → Option String)
    → Faults
    → List Monitor
    → Exec CatalogDatabase PersistenceError (Unit {0})
unfolding execute insert_monitor
insert_monitors to_text fails [] = pure tt
insert_monitors to_text fails (m ∷ ms) = elim (to_text m.actions) [
  | none ↦ raise serialization_error
  | some actions ↦ execute fails (insert_monitor m actions) >> insert_monitors to_text fails ms
]

abbrev pub or_rolled_back :
    CatalogDatabase
    → Result PersistenceError (Unit {0}) × CatalogDatabase
    → Result PersistenceError (Unit {0}) × CatalogDatabase
or_rolled_back db (ok u, after) = (ok u, after)
or_rolled_back db (err e, after) = (err e, record db { statements = after.statements })

abbrev pub no_change : Catalog → Option (Unit {0} × Catalog)
no_change c = some (tt, c)

-- All of them, or none, between `begin` and `commit`.
unfoldable pub add_monitors :
    (List String → Option String)
    → Faults
    → String
    → List Monitor
    → Exec CatalogDatabase PersistenceError (Unit {0})
unfolding insert_monitors
add_monitors to_text fails network_id monitors db =
    if any (λ (m : Monitor). not (m.network == network_id)) monitors
    then (err invalid_input, db)
    else or_rolled_back db (
        (execute fails no_change
            >> insert_monitors to_text fails monitors
            >> execute fails no_change)
          db)

unfoldable pub clear_monitors : Faults → String → Exec CatalogDatabase PersistenceError (Unit {0})
clear_monitors fails network_id = execute fails (λ c. some (
  tt,
  record c { monitors = keep (λ (row : MonitorRow). not (row.network == network_id)) c.monitors },
))

unfoldable pub delete_monitor :
    Faults → String → ℕ → Exec CatalogDatabase PersistenceError (Unit {0})
unfolding execute
delete_monitor fails network_id monitor_id =
    execute fails (λ c. some (
      any (is_monitor network_id monitor_id) c.monitors,
      record c { monitors = keep (λ row. not (is_monitor network_id monitor_id row)) c.monitors },
    ))
    >>= found_one

abbrev pub changed :
    (MonitorRow → Bool) → (MonitorRow → MonitorRow) → List MonitorRow → List MonitorRow
changed is_meant change rows = map (λ row. if is_meant row then change row else row) rows

abbrev pub updated_row : Monitor → String → MonitorRow → MonitorRow
updated_row m actions row = record row {
  address = m.address;
  abi_name = m.abi_name;
  filter_script = m.filter_script;
  actions = actions;
}

-- The name and the status stay.
unfoldable pub update_rows : String → ℕ → Monitor → String → Catalog → Option (Bool × Catalog)
update_rows network_id monitor_id m actions c =
    if any (is_monitor network_id monitor_id) c.monitors
    then (if refers c.abis m.abi_name
        then some (
          true,
          record c {
            monitors =
                changed (is_monitor network_id monitor_id) (updated_row m actions) c.monitors;
          },
        )
        else none)
    else some (false, c)

unfoldable pub update_monitor :
    (List String → Option String)
    → Faults
    → String
    → ℕ
    → Monitor
    → Exec CatalogDatabase PersistenceError (Unit {0})
unfolding execute update_rows
update_monitor to_text fails network_id monitor_id m = elim (to_text m.actions) [
  | none ↦ raise serialization_error
  | some actions ↦ execute fails (update_rows network_id monitor_id m actions) >>= found_one
]

unfoldable pub update_monitor_status :
    Faults → String → ℕ → MonitorStatus → Exec CatalogDatabase PersistenceError (Unit {0})
unfolding execute
update_monitor_status fails network_id monitor_id status =
    execute fails (λ c. some (
      any (is_monitor network_id monitor_id) c.monitors,
      record c {
        monitors =
            changed (is_monitor network_id monitor_id) (λ row. record row { status = status })
              c.monitors;
      },
    ))
    >>= found_one

abbrev pub monitor_of : MonitorRow → List String → Monitor
monitor_of row actions = record {
  id = row.monitor_id;
  name = row.name;
  network = row.network;
  address = row.address;
  abi_name = row.abi_name;
  filter_script = row.filter_script;
  actions = actions;
  status = row.status;
}

-- `collect`: the first row whose actions do not parse is the error of all.
unfoldable pub read_monitors :
    (String → Option (List String)) → List MonitorRow → Result PersistenceError (List Monitor)
read_monitors from_text [] = ok []
read_monitors from_text (row ∷ rows) = elim (from_text row.actions) [
  | none ↦ err serialization_error
  | some actions ↦ elim (read_monitors from_text rows) [
    | err e ↦ err e
    | ok ms ↦ ok (monitor_of row actions ∷ ms)
  ]
]

unfoldable pub get_monitors :
    (String → Option (List String))
    → Faults
    → String
    → Exec CatalogDatabase PersistenceError (List Monitor)
unfolding execute read_monitors
get_monitors from_text fails network_id =
    execute fails (λ c. some (keep (λ (row : MonitorRow). row.network == network_id) c.monitors, c))
    >>= λ rows db. (read_monitors from_text rows, db)
