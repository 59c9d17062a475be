-- ===== src/Store/Catalog/Samples.antt =====
-- An ABI with a monitor that uses it.
use argus_rs.Base.{
  ◌≢◌, Result, if◌then◌else◌, ◌==◌, none-ne-some, some_inj, ok, sym, ap, List, Option, String, [],
  any, err, false, get, insert, keep, map, nat_key, none, pair_key, refl, some, string_key, ◌∷◌,
  ◌≡◌,
}
use argus_rs.Core.Errors.{invalid_input, PersistenceError, abi_in_use, operation_failed}
use argus_rs.Store.Transactions.{Faults}
use argus_rs.Monitor.Assets.{Monitor, active}
use argus_rs.Store.Catalog.{MonitorRow, CatalogDatabase, create_abi, delete_abi}
use argus_rs.Store.Catalog.Monitors.{
  row_of, get_monitors, read_monitors, add_monitors, update_monitor,
}
use argus_rs.Store.Catalog.Lookup.{first_that}
use argus_rs.Store.Catalog.Stored.{add_then_get}
use argus_rs.Store.Catalog.Statements.{numbered}
use argus_rs.Store.Catalog.Actions.{create_action, update_action, get_monitors_by_action_id}
use argus_rs.Store.Catalog.Lookup.{get_monitor_by_id, parse_i64}
use argus_rs.Store.Catalog.InUse.{action_in_use_is_seen}
use argus_rs.Core.Actions.{ActionConfig}
use argus_rs.Store.Catalog.Failures.{monitors_added, errors_change_nothing}

abbrev sound : Faults
sound k = false

abbrev to_text : List String → Option String
to_text actions = some "[]"

abbrev empty : CatalogDatabase
empty = record {
  catalog = record { abis = []; monitors = []; next_id = 1; actions = []; next_action_id = 1 };
  statements = 0;
}

abbrev monitor : String → Monitor
monitor name = record {
  id = 0;
  name = name;
  network = "mainnet";
  address = none;
  abi_name = some "erc20";
  filter_script = "true";
  actions = [];
  status = active;
}

abbrev with_abi : CatalogDatabase
with_abi = (create_abi sound "erc20" "[]" empty).1

abbrev with_monitor : CatalogDatabase
with_monitor = (add_monitors to_text sound "mainnet" (monitor "m" ∷ []) with_abi).1

used_abi_stays : (delete_abi sound "erc20" with_monitor).0 ≡ err (abi_in_use ("m" ∷ []))
unfolding delete_abi keep add_monitors any create_abi get insert
used_abi_stays = refl

unknown_abi_is_refused :
    (add_monitors to_text sound "mainnet" (monitor "m" ∷ []) empty).0 ≡ err operation_failed
unfolding add_monitors any get
unknown_abi_is_refused = refl

-- The name of an update is not stored.
name_stays :
    map
      (λ (row : MonitorRow). row.name)
      (update_monitor to_text sound "mainnet" 1 (monitor "renamed") with_monitor).1.catalog.monitors
    ≡ "m" ∷ []
unfolding update_monitor any add_monitors create_abi get insert
name_stays = refl

abbrev print : List String → Option String
print [] = some "[]"
print (name ∷ names) = none

abbrev parse : String → Option (List String)
parse text = if text == "[]" then some [] else none

print_round_trips :
    (names : List String) (text : String) → print names ≡ some text → parse text ≡ some names
print_round_trips [] text e = ap parse (sym (some_inj e))
print_round_trips (name ∷ names) text e = absurd (none-ne-some e)

add_then_get_example :
    (get_monitors parse sound "mainnet"
      (add_monitors print sound "mainnet" (monitor "m" ∷ monitor "n" ∷ []) with_abi).1).0
    ≡ ok (numbered 1 (monitor "m" ∷ monitor "n" ∷ []))
unfolding add_monitors create_abi any get insert read_monitors keep
add_then_get_example =
    add_then_get print parse sound "mainnet" print_round_trips (monitor "m" ∷ monitor "n" ∷ []) []
      "mainnet" with_abi refl refl refl

abbrev action : String → ActionConfig
action name = record { id = none; name = name; policy = none }

abbrev print_action : ActionConfig → Option String
print_action a = some "{}"

abbrev parse_action : String → Option ActionConfig
parse_action text = some (action "")

abbrev print_one : List String → Option String
print_one names = some "[\"mail\"]"

abbrev parse_one : String → Option (List String)
parse_one text = some ("mail" ∷ [])

abbrev with_action : CatalogDatabase
with_action =
    (create_action print_action sound "mainnet" (action "mail")
      (add_monitors print_one sound "mainnet" (monitor "m" ∷ []) with_abi).1).1

action_in_use_is_seen_example :
    (get_monitors_by_action_id parse_action parse_one sound "mainnet" 1 with_action).0 ≢ ok []
unfolding create_action add_monitors create_abi any get insert first_that
action_in_use_is_seen_example =
    action_in_use_is_seen parse_action parse_one sound "mainnet" 1 with_action
      (record { action_id = 1; name = "mail"; network_id = "mainnet"; config = "{}" })
      (row_of 1 (monitor "m") "[\"mail\"]") [] [] refl refl refl (refl, (refl, (refl, (refl, tt))))
      (91 ∷ [], 93 ∷ [], refl)

abbrev or_no_monitors : Result PersistenceError (List Monitor) → List Monitor
or_no_monitors (ok ms) = ms
or_no_monitors (err e) = []

-- An action of another case is taken for the one that the monitor names.
case_is_ignored :
    map
      (λ (m : Monitor). m.name)
      (or_no_monitors
        (get_monitors_by_action_id parse_action parse_one sound "mainnet" 2
          (create_action print_action sound "mainnet" (action "MAIL") with_action).1).0)
    ≡ "m" ∷ []
unfolding create_action add_monitors create_abi any get insert first_that get_monitors_by_action_id
    keep
case_is_ignored = refl

-- A rename leaves the monitor with the old name.
rename_leaves_monitors :
    map
      (λ (row : MonitorRow). row.actions)
      (update_action print_action sound "mainnet"
        (record (action "post") { id = some 1 })
        with_action).1.catalog.monitors
    ≡ "[\"mail\"]" ∷ []
unfolding create_action add_monitors create_abi any get insert update_action
rename_leaves_monitors = refl

-- The name of an action with a backslash, as JSON writes it.
abbrev print_other : List String → Option String
print_other names = some "[\"a\\\\b\"]"

-- A monitor that names such an action is not seen.
backslash_is_missed :
    (get_monitors_by_action_id parse_action parse_one sound "mainnet" 1
      (create_action print_action sound "mainnet"
        (action "a\\b")
        (add_monitors print_other sound "mainnet" (monitor "m" ∷ []) with_abi).1).1).0
    ≡ ok []
unfolding create_action add_monitors create_abi any get insert first_that get_monitors_by_action_id
    keep
backslash_is_missed = refl

-- The second monitor violates the index, when the first one is in the table.
errors_change_nothing_example :
    (add_monitors to_text sound "mainnet" (monitor "m" ∷ monitor "m" ∷ []) with_abi).1.catalog
    ≡ with_abi.catalog
unfolding add_monitors create_abi any get insert
errors_change_nothing_example =
    errors_change_nothing to_text print_action sound {db = with_abi}
      (monitors_added "mainnet" (monitor "m" ∷ monitor "m" ∷ []) {e = operation_failed} refl)

abbrev looked_up : String → Result PersistenceError (Option Monitor)
looked_up text = (get_monitor_by_id parse_one sound "mainnet" text with_action).0

-- A sign is read, a number that is not there is none, and a text that is no number is an error.
looked_up_by_text :
    (looked_up "+1" ≡ ok (some (record (monitor "m") { id = 1; actions = "mail" ∷ [] })))
    × (looked_up "-1" ≡ ok none)
    × (looked_up "1x" ≡ err invalid_input)
unfolding create_action add_monitors create_abi any get insert get_monitor_by_id parse_i64
looked_up_by_text = (refl, refl, refl)
