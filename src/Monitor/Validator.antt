-- ===== src/Monitor/Validator.antt =====
-- crates/argus-monitor/src/validator.rs: the checks that a monitor passes before it is taken into
-- service. Its template validator is Monitor/Templates.
pub mod Rules
pub mod Checks
pub mod Exact
pub mod Parts
pub mod Watched
mod Samples
use argus_rs.Abi.Service.{is_some}
use argus_rs.Base.{
  Bool, List, Option, Result, String, [], any, err, false, if◌then◌else◌, nat_key, none, not, ok,
  pair_key, some, string_key, true, ℕ, ◌==◌, ◌∷◌,
}
use Prim.Native.String.{◌++◌ as ◌+++◌}
use argus_rs.Abi.Contracts.{JsonAbi}
use argus_rs.Abi.Values.{Json}
use argus_rs.Core.Actions.{ActionConfig}
use argus_rs.Scripts.Validator.{
  RhaiCompiler, RhaiScriptValidationError, RhaiScriptValidationResult, validate_script,
}
use argus_rs.Monitor.Assets.{Monitor, Services}
use argus_rs.Monitor.Interests.{is_all}
use argus_rs.Monitor.Templates.{TemplateService, generate_dummy_context, unrendered_of}

-- The fields that tell the errors of one kind apart; each names the monitor first.
pub data MonitorValidationError : Type 0 where
  monitor_requires_address : String → MonitorValidationError
  monitor_requires_abi : String → String → MonitorValidationError
  invalid_address : String → String → MonitorValidationError
  invalid_network : String → String → String → MonitorValidationError
  unknown_action : String → String → MonitorValidationError
  script_error : String → RhaiScriptValidationError → MonitorValidationError
  invalid_calldata_config : String → String → MonitorValidationError
  invalid_action_template : String → String → String → String → MonitorValidationError
  -- where the code panics
  panicked : MonitorValidationError

pub record MonitorValidator : Type 0 where
  pub network_id : String
  pub actions : List ActionConfig
  pub template_service : TemplateService
  pub compiler : RhaiCompiler
  pub services : Services

abbrev pub Checked : Type 0
Checked = Result MonitorValidationError (Unit {0})

-- `?`
abbrev pub then_check {ℓ κ ι} :
    {E : Type ℓ} {A : Type κ} {B : Type ι} → Result E A → (A → Result E B) → Result E B
then_check (ok a) next = next a
then_check (err e) next = err e

unfoldable pub validate_network : MonitorValidator → Monitor → Checked
validate_network v m =
    if m.network == v.network_id then ok tt else err (invalid_network m.name v.network_id m.network)

unfoldable pub find_action : List ActionConfig → String → Option ActionConfig
find_action [] name = none
find_action (a ∷ as') name = if a.name == name then some a else find_action as' name

abbrev pub action_exists : List ActionConfig → String → Bool
action_exists actions name = any (λ (a : ActionConfig). a.name == name) actions

-- `ActionValidator::validate` of the names that are left.
unfoldable pub validate_actions : List ActionConfig → String → List String → Checked
validate_actions actions monitor_name [] = ok tt
validate_actions actions monitor_name (name ∷ names) =
    if action_exists actions name
    then validate_actions actions monitor_name names
    else err (unknown_action monitor_name name)

-- `AddressValidator::parse_and_validate`: the address, and whether all addresses are meant.
unfoldable pub parse_and_validate :
    Services → Monitor → Result MonitorValidationError (Option ℕ × Bool)
parse_and_validate services m = elim m.address [
  | none ↦ ok (none, false)
  | some address ↦
      if is_all address then ok (none, true) else elim (services.parse_address address) [
        | none ↦ err (invalid_address m.name address)
        | some a ↦ ok (some a, false)
      ]
]

unfoldable pub get_monitor_abi_json : Services → Monitor → Option ℕ → Option JsonAbi
get_monitor_abi_json services m parsed = elim m.abi_name [
  | some abi_name ↦ services.get_abi_by_name abi_name
  | none ↦ elim parsed [ none ↦ none | some a ↦ services.get_abi a ]
]

abbrev pub of_monitor :
    String
    → Result RhaiScriptValidationError RhaiScriptValidationResult
    → Result MonitorValidationError RhaiScriptValidationResult
of_monitor monitor_name (ok r) = ok r
of_monitor monitor_name (err e) = err (script_error monitor_name e)

-- `validate_script` of the monitor validator
unfoldable pub check_script :
    MonitorValidator
    → Monitor
    → Option JsonAbi
    → Result MonitorValidationError RhaiScriptValidationResult
check_script v m abi = of_monitor m.name (validate_script v.compiler m.filter_script abi)

unfoldable pub check_abi : Monitor → String → (String → String) → Bool → Checked
check_abi m missing not_retrieved retrieved = elim m.abi_name [
  | none ↦ err (monitor_requires_abi m.name missing)
  | some abi_name ↦
      if retrieved then ok tt else err (monitor_requires_abi m.name (not_retrieved abi_name))
]

abbrev pub missing_abi : String
missing_abi = "ABI is required for contract-specific log monitoring to decode logs."

abbrev pub missing_global_abi : String
missing_global_abi = "ABI is required for global log monitoring (address: all) to decode logs."

abbrev pub not_loaded : String → String
not_loaded abi_name =
    "ABI '" +++ abi_name
    +++ "' could not be retrieved for global log monitor. Ensure the ABI is loaded."

abbrev pub not_linked : String → String → String
not_linked address abi_name =
    "ABI '" +++ abi_name +++ "' could not be retrieved for address '" +++ address
    +++ "'. Ensure the ABI is loaded and linked."

unfoldable pub validate_script_and_abi_rules :
    Monitor → RhaiScriptValidationResult → Bool → Bool → Checked
unfolding check_abi
validate_script_and_abi_rules m r is_global_log_monitor abi_was_retrieved =
    if not r.ast_analysis.accesses_log_variable
    then ok tt
    else if is_global_log_monitor
    then check_abi m missing_global_abi not_loaded abi_was_retrieved
    else elim m.address [
      | none ↦ err (monitor_requires_address m.name)
      | some address ↦ check_abi m missing_abi (not_linked address) abi_was_retrieved
    ]

-- `CalldataValidator::validate`
unfoldable pub validate_calldata : Monitor → Checked
validate_calldata m = elim m.abi_name [
  | none ↦ err (
      invalid_calldata_config m.name
        "Calldata decoding is enabled, but no ABI is specified. Please provide an ABI name.")
  | some abi_name ↦ elim m.address [
    | none ↦ err (
        invalid_calldata_config m.name
          "Calldata decoding is enabled, but no contract address is specified. Please provide a contract address.")
    | some address ↦
        if is_all address
        then err (
            invalid_calldata_config m.name
              "Calldata decoding cannot be enabled for global monitors (address: all). Please specify a concrete contract address.")
        else ok tt
  ]
]

abbrev pub template_checked : Monitor → String → Option (String × String) → Checked
template_checked m action_name none = ok tt
template_checked m action_name (some (template, variable)) =
    err (invalid_action_template m.name action_name template variable)

unfoldable pub validate_single_action_template :
    MonitorValidator → Monitor → String → Json → Checked
unfolding find_action unrendered_of
validate_single_action_template v m action_name context = elim (find_action v.actions action_name) [
  | none ↦ err panicked
  | some action ↦ template_checked m action_name (unrendered_of v.template_service action context)
]

unfoldable pub validate_action_templates : MonitorValidator → Monitor → Json → List String → Checked
unfolding validate_single_action_template
validate_action_templates v m context [] = ok tt
validate_action_templates v m context (name ∷ names) =
    then_check (validate_single_action_template v m name context)
      (λ u. validate_action_templates v m context names)

-- `TemplateValidator::validate`
unfoldable pub validate_templates : MonitorValidator → Monitor → Option JsonAbi → Checked
unfolding generate_dummy_context validate_action_templates
validate_templates v m abi = elim (generate_dummy_context v.template_service m abi) [
  | none ↦ err (invalid_action_template m.name "N/A" "N/A" "Failed to serialize dummy context")
  | some context ↦ validate_action_templates v m context m.actions
]

-- The checks of the script, the calldata and the templates.
unfoldable pub validate_with_abi : MonitorValidator → Monitor → Bool → Option JsonAbi → Checked
unfolding check_script validate_script_and_abi_rules validate_calldata validate_templates
validate_with_abi v m is_global_log_monitor abi = then_check (check_script v m abi) (λ r.
    then_check (validate_script_and_abi_rules m r is_global_log_monitor (is_some abi)) (λ u.
      then_check (if r.ast_analysis.accesses_call_variable then validate_calldata m else ok tt)
        (λ u'. validate_templates v m abi)))

unfoldable pub validate : MonitorValidator → Monitor → Checked
unfolding validate_network validate_actions parse_and_validate get_monitor_abi_json
    validate_with_abi
validate v m = then_check (validate_network v m) (λ u.
    then_check (validate_actions v.actions m.name m.actions) (λ u'.
      then_check (parse_and_validate v.services m) (λ (p : Option ℕ × Bool).
        validate_with_abi v m p.1 (get_monitor_abi_json v.services m p.0))))
