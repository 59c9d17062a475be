-- ===== src/Monitor/Persistence.antt =====
-- crates/argus-monitor/src/persistence_validator.rs: the checks of a monitor that is to be stored. The
-- monitors of a network are those that the repository answers with.
use argus_rs.Base.{
  Bool, Exec, List, Result, String, [], any, err, false, if◌then◌else◌, nat_key, not, ok, pair_key,
  string_key, ℕ, ◌==◌, ◌∷◌,
}
use argus_rs.Core.Errors.{PersistenceError}
use argus_rs.Monitor.Assets.{Monitor}
use argus_rs.Monitor.Validator.{
  MonitorValidator, MonitorValidationError, invalid_network, Checked, validate,
}

pub data MonitorPersistenceValidationError : Type 0 where
  business_logic : MonitorValidationError → MonitorPersistenceValidationError
  persistence : PersistenceError → MonitorPersistenceValidationError
  name_conflict : String → MonitorPersistenceValidationError

pub record MonitorPersistenceValidator (S : Type 0) : Type 0 where
  pub get_monitors : String → Exec S PersistenceError (List Monitor)
  pub network_id : String
  pub business_logic_validator : MonitorValidator
  -- how an identifier is printed
  pub print_id : ℕ → String

abbrev pub of_business_logic : Checked → Result MonitorPersistenceValidationError (Unit {0})
of_business_logic (ok u) = ok u
of_business_logic (err e) = err (business_logic e)

abbrev pub unless_taken :
    MonitorValidator
    → Monitor
    → (List Monitor → Bool)
    → Result PersistenceError (List Monitor)
    → Result MonitorPersistenceValidationError (Unit {0})
unless_taken validator m is_taken (err e) = err (persistence e)
unless_taken validator m is_taken (ok existing) =
    if is_taken existing
    then err (name_conflict m.name)
    else of_business_logic (validate validator m)

-- The checks of both operations, which differ in when a name is taken.
unfoldable pub validate_name :
    {S : Type 0}
    → MonitorPersistenceValidator S
    → Monitor
    → (List Monitor → Bool)
    → S
    → Result MonitorPersistenceValidationError (Unit {0}) × S
validate_name v m is_taken s =
    if m.network == v.network_id
    then (let (found, s') = v.get_monitors v.network_id s in
        (unless_taken v.business_logic_validator m is_taken found, s'))
    else (err (business_logic (invalid_network m.name v.network_id m.network)), s)

unfoldable pub validate_for_create :
    {S : Type 0}
    → MonitorPersistenceValidator S
    → Monitor
    → S
    → Result MonitorPersistenceValidationError (Unit {0}) × S
unfolding validate_name
validate_for_create v m = validate_name v m (any (λ (x : Monitor). x.name == m.name))

-- Is the first monitor of the name another one?
unfoldable pub taken_by_other : (ℕ → String) → String → String → List Monitor → Bool
taken_by_other print_id monitor_id name [] = false
taken_by_other print_id monitor_id name (x ∷ xs) =
    if x.name == name
    then not (print_id x.id == monitor_id)
    else taken_by_other print_id monitor_id name xs

unfoldable pub validate_for_update :
    {S : Type 0}
    → MonitorPersistenceValidator S
    → String
    → Monitor
    → S
    → Result MonitorPersistenceValidationError (Unit {0}) × S
unfolding validate_name taken_by_other
validate_for_update v monitor_id m = validate_name v m (taken_by_other v.print_id monitor_id m.name)
