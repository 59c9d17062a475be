-- ===== src/Store/Catalog/Actions.antt =====
-- The actions of crates/argus-store/src/app_repository.rs over their table
-- (migrations/20251007030154_add_id_to_actions_table), and the monitors that an action has. How serde
-- prints and parses a configuration is an argument.
use argus_rs.Base.{
  Bool, Exec, List, Option, Result, String, [], any, err, false, if◌then◌else◌, keep, map, nat_key,
  none, not, ok, pair_key, pure, raise, some, string_key, true, ℕ, ◌&&◌, ◌++◌, ◌+◌, ◌==◌, ◌>>=◌,
  ◌>>◌, ◌||◌, ◌∷◌,
}
use argus_rs.Core.Errors.{PersistenceError, not_found, serialization_error, invalid_input}
use argus_rs.Core.Actions.{ActionConfig}
use argus_rs.Core.Payload.{codes}
use argus_rs.Monitor.Assets.{Monitor}
use argus_rs.Store.Transactions.{Faults}
use argus_rs.Store.KeyValue.{lowered, some_suffix}
use argus_rs.Store.Catalog.{ActionRow, MonitorRow, Catalog, CatalogDatabase, execute, found_one}
use argus_rs.Store.Catalog.Monitors.{monitor_of}
use argus_rs.Store.Catalog.Lookup.{first_that}

abbrev pub is_action : String → ℕ → ActionRow → Bool
is_action network_id action_id row = row.network_id == network_id && row.action_id == action_id

-- The index idx_actions_name_network_id lets a name stand once in a network.
abbrev pub is_action_named : String → String → ActionRow → Bool
is_action_named network_id name row = row.network_id == network_id && row.name == name

abbrev pub with_row : ActionRow → Option ActionConfig → Result PersistenceError ActionConfig
with_row row none = err serialization_error
with_row row (some action) = ok (record action { id = some row.action_id; name = row.name })

unfoldable pub read_actions :
    (String → Option ActionConfig) → List ActionRow → Result PersistenceError (List ActionConfig)
read_actions from_text [] = ok []
read_actions from_text (row ∷ rows) = elim (with_row row (from_text row.config)) [
  | err e ↦ err e
  | ok action ↦ elim (read_actions from_text rows) [
    | err e ↦ err e
    | ok actions ↦ ok (action ∷ actions)
  ]
]

abbrev pub as_found :
    Result PersistenceError ActionConfig → Result PersistenceError (Option ActionConfig)
as_found (err e) = err e
as_found (ok action) = ok (some action)

abbrev pub read_action :
    (String → Option ActionConfig)
    → Option ActionRow
    → Result PersistenceError (Option ActionConfig)
read_action from_text none = ok none
read_action from_text (some row) = as_found (with_row row (from_text row.config))

unfoldable pub get_actions :
    (String → Option ActionConfig)
    → Faults
    → String
    → Exec CatalogDatabase PersistenceError (List ActionConfig)
unfolding read_actions execute
get_actions from_text fails network_id =
    execute fails
      (λ c. some (keep (λ (row : ActionRow). row.network_id == network_id) c.actions, c))
    >>= λ rows db. (read_actions from_text rows, db)

unfoldable pub get_action_by_id :
    (String → Option ActionConfig)
    → Faults
    → String
    → ℕ
    → Exec CatalogDatabase PersistenceError (Option ActionConfig)
unfolding first_that execute
get_action_by_id from_text fails network_id action_id =
    execute fails (λ c. some (first_that (is_action network_id action_id) c.actions, c))
    >>= λ row db. (read_action from_text row, db)

unfoldable pub get_action_by_name :
    (String → Option ActionConfig)
    → Faults
    → String
    → String
    → Exec CatalogDatabase PersistenceError (Option ActionConfig)
unfolding first_that execute
get_action_by_name from_text fails network_id name =
    execute fails (λ c. some (first_that (is_action_named network_id name) c.actions, c))
    >>= λ row db. (read_action from_text row, db)

abbrev pub insert_action : String → String → String → Catalog → Option (ℕ × Catalog)
insert_action network_id name config c =
    if any (is_action_named network_id name) c.actions
    then none
    else some (
      c.next_action_id,
      record c {
        actions =
            c.actions
            ++ record {
              action_id = c.next_action_id;
              name = name;
              network_id = network_id;
              config = config;
            }
              ∷ [];
        next_action_id = c.next_action_id + 1;
      },
    )

unfoldable pub create_action :
    (ActionConfig → Option String)
    → Faults
    → String
    → ActionConfig
    → Exec CatalogDatabase PersistenceError ActionConfig
unfolding execute
create_action to_text fails network_id action = elim (to_text action) [
  | none ↦ raise serialization_error
  | some config ↦ execute fails (insert_action network_id action.name config) >>= λ new_id.
      pure (record action { id = some new_id })
]

unfoldable pub clear_actions : Faults → String → Exec CatalogDatabase PersistenceError (Unit {0})
clear_actions fails network_id = execute fails (λ c. some (
  tt,
  record c { actions = keep (λ (row : ActionRow). not (row.network_id == network_id)) c.actions },
))

abbrev pub changed_action : String → ℕ → String → String → ActionRow → ActionRow
changed_action network_id action_id name config row =
    if is_action network_id action_id row then record row { name = name; config = config } else row

-- An update to the name of another action violates the index.
abbrev pub update_actions : String → ℕ → String → String → Catalog → Option (Bool × Catalog)
update_actions network_id action_id name config c =
    let is_other : ActionRow → Bool =
      λ row. is_action_named network_id name row && not (row.action_id == action_id) in
    if any (is_action network_id action_id) c.actions
    then (if any is_other c.actions
        then none
        else some (
          true,
          record c { actions = map (changed_action network_id action_id name config) c.actions },
        ))
    else some (false, c)

unfoldable pub update_action :
    (ActionConfig → Option String)
    → Faults
    → String
    → ActionConfig
    → Exec CatalogDatabase PersistenceError ActionConfig
unfolding execute
update_action to_text fails network_id action = elim action.id [
  | none ↦ raise invalid_input
  | some action_id ↦ elim (to_text action) [
    | none ↦ raise serialization_error
    | some config ↦
        execute fails (update_actions network_id action_id action.name config)
        >>= found_one
        >> pure action
  ]
]

unfoldable pub delete_action :
    Faults → String → ℕ → Exec CatalogDatabase PersistenceError (Unit {0})
unfolding execute
delete_action fails network_id action_id =
    execute fails (λ c. some (
      any (is_action network_id action_id) c.actions,
      record c { actions = keep (λ row. not (is_action network_id action_id row)) c.actions },
    ))
    >>= found_one

-- SQLite's `LIKE` with an escape character, the backslash; the flag says that it was read.
unfoldable pub like_escaped : Bool → List ℕ → List ℕ → Bool
like_escaped true [] cs = false
like_escaped true (p ∷ ps) [] = false
like_escaped true (p ∷ ps) (c ∷ cs) = (lowered p == lowered c) && like_escaped false ps cs
like_escaped false [] [] = true
like_escaped false [] (c ∷ cs) = false
like_escaped false (p ∷ ps) [] = (p == 37) && like_escaped false ps []
like_escaped false (p ∷ ps) (c ∷ cs) =
    if p == 37
    then some_suffix (like_escaped false ps) (c ∷ cs)
    else if p == 92
    then like_escaped true ps (c ∷ cs)
    else ((p == 95) || (lowered p == lowered c)) && like_escaped false ps cs

unfoldable pub escaped : List ℕ → List ℕ
escaped [] = []
escaped (c ∷ cs) = let rest = escaped cs in if c == 37 || c == 95 then 92 ∷ c ∷ rest else c ∷ rest

-- The name in quotes, with any text around it.
abbrev pub like_clause : String → List ℕ
like_clause action_name = 37 ∷ 34 ∷ escaped (codes action_name) ++ 34 ∷ 37 ∷ []

abbrev pub is_monitor_with : String → String → MonitorRow → Bool
is_monitor_with network_id action_name row =
    row.network == network_id && like_escaped false (like_clause action_name) (codes row.actions)

-- A `MonitorConfig` has no identifier: it is 0.
unfoldable pub read_configs :
    (String → Option (List String)) → List MonitorRow → Result PersistenceError (List Monitor)
read_configs from_text [] = ok []
read_configs from_text (row ∷ rows) = elim (from_text row.actions) [
  | none ↦ err serialization_error
  | some actions ↦ elim (read_configs from_text rows) [
    | err e ↦ err e
    | ok configs ↦ ok (record (monitor_of row actions) { id = 0 } ∷ configs)
  ]
]

unfoldable pub monitors_with :
    (String → Option (List String))
    → Faults
    → String
    → Option ActionConfig
    → Exec CatalogDatabase PersistenceError (List Monitor)
unfolding execute read_configs like_escaped escaped
monitors_with from_text fails network_id none = raise not_found
monitors_with from_text fails network_id (some action) =
    execute fails (λ c. some (keep (is_monitor_with network_id action.name) c.monitors, c))
    >>= λ rows db. (read_configs from_text rows, db)

unfoldable pub get_monitors_by_action_id :
    (String → Option ActionConfig)
    → (String → Option (List String))
    → Faults
    → String
    → ℕ
    → Exec CatalogDatabase PersistenceError (List Monitor)
unfolding get_action_by_id monitors_with
get_monitors_by_action_id parse_action from_text fails network_id action_id =
    get_action_by_id parse_action fails network_id action_id
    >>= monitors_with from_text fails network_id
