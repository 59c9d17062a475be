-- ===== src/Scripts/Validator.antt =====
-- crates/argus-rhai/src/validator.rs: what a script may access. How Rhai evaluates a script is an
-- argument.
use argus_rs.Base.{
  Bool, List, Option, Result, String, [], any, contains, err, false, if◌then◌else◌, map, nat_key,
  none, ok, pair_key, some, string_key, true, ◌++◌, ◌||◌, ◌∷◌,
}
use Prim.Native.String.{◌++◌ as ◌+++◌}
use text.Mathlib.Text.{starts_with}
use argus_rs.Abi.Contracts.{JsonAbi, Event, Function, flatten}
use argus_rs.Monitor.Assets.{ScriptAnalysis}

pub data RhaiScriptValidationError : Type 0 where
  invalid_field invalid_abi_field : String → RhaiScriptValidationError
  rhai_syntax_error rhai_evaluation_error : RhaiScriptValidationError
  invalid_return_type : String → RhaiScriptValidationError

pub record RhaiScriptValidationResult : Type 0 where
  pub ast_analysis : ScriptAnalysis
  pub requires_receipt : Bool

-- What a script evaluates to: an error, a Boolean, or a value of another type, by its name.
pub data Evaluated : Type 0 where
  failed boolean : Evaluated
  other : String → Evaluated

-- The compiler and its engine. A scope is the objects in it, each with whether it has a map of
-- parameters.
pub record RhaiCompiler : Type 0 where
  pub analyze_script : String → Option ScriptAnalysis
  pub eval_with_scope : List (String × Bool) → ScriptAnalysis → Evaluated

abbrev pub under : String → List String → List String
under object names = map (λ name. object +++ name) names

abbrev pub valid_tx_paths : List String
valid_tx_paths = under "tx." (
    "from" ∷ "to" ∷ "hash" ∷ "value" ∷ "gas_limit" ∷ "nonce" ∷ "input" ∷ "block_number"
    ∷ "transaction_index" ∷ "gas_price" ∷ "max_fee_per_gas" ∷ "max_priority_fee_per_gas" ∷ [])

abbrev pub valid_receipt_paths : List String
valid_receipt_paths = under "tx." ("gas_used" ∷ "status" ∷ "effective_gas_price" ∷ [])

abbrev pub valid_log_paths : List String
valid_log_paths = under "log." (
    "name" ∷ "address" ∷ "log_index" ∷ "block_number" ∷ "transaction_hash" ∷ "transaction_index"
    ∷ [])

abbrev pub valid_decoded_call_paths : List String
valid_decoded_call_paths = "decoded_call" ∷ under "decoded_call." ("name" ∷ "params" ∷ [])

abbrev pub valid_static_fields : List String
valid_static_fields =
    valid_tx_paths ++ valid_receipt_paths ++ valid_log_paths ++ valid_decoded_call_paths

abbrev pub names_of : List (String × String) → List String
names_of inputs = map (λ (i : String × String). i.0) inputs

unfoldable pub event_inputs : List Event → List (String × String)
event_inputs [] = []
event_inputs (e ∷ es) = e.inputs ++ event_inputs es

unfoldable pub function_inputs : List Function → List (String × String)
function_inputs [] = []
function_inputs (f ∷ fs) = f.inputs ++ function_inputs fs

-- The parameters of the events and the functions of the ABI.
unfoldable pub valid_dynamic_fields : Option JsonAbi → List String
unfolding event_inputs function_inputs
valid_dynamic_fields none = []
valid_dynamic_fields (some abi) =
    under "log.params." (names_of (event_inputs (flatten abi.events)))
    ++ under "decoded_call.params." (names_of (function_inputs (flatten abi.functions)))

abbrev pub is_dynamic : String → Bool
is_dynamic field = starts_with field "log.params." || starts_with field "decoded_call.params."

-- `none` where the field may be accessed.
unfoldable pub field_error :
    ScriptAnalysis → Option JsonAbi → String → Option RhaiScriptValidationError
unfolding valid_dynamic_fields
field_error a abi field =
    if contains a.local_variables field
    then none
    else if contains valid_static_fields field
    then none
    else if is_dynamic field
    then (if contains (valid_dynamic_fields abi) field
        then none
        else some (invalid_abi_field field))
    else some (invalid_field field)

-- The first of the accessed variables that may not be.
unfoldable pub first_error :
    ScriptAnalysis → Option JsonAbi → List String → Option RhaiScriptValidationError
unfolding field_error
first_error a abi [] = none
first_error a abi (field ∷ fields) = elim (field_error a abi field) [
  | some e ↦ some e
  | none ↦ first_error a abi fields
]

abbrev pub accesses : ScriptAnalysis → String → Bool
accesses a prefix = any (λ v. starts_with v prefix) a.accessed_variables

abbrev pub object_in_scope : Bool → String → Bool → List (String × Bool) → List (String × Bool)
object_in_scope true name has_params scope = (name, has_params) ∷ scope
object_in_scope false name has_params scope = scope

abbrev pub dummy_scope : ScriptAnalysis → List (String × Bool)
dummy_scope a = object_in_scope (accesses a "tx.") "tx" false (
    object_in_scope (accesses a "log.") "log" (accesses a "log.params.") (
      object_in_scope (accesses a "decoded_call.") "decoded_call"
        (accesses a "decoded_call.params.") []))

abbrev pub returned : Evaluated → Option RhaiScriptValidationError
returned failed = some rhai_evaluation_error
returned boolean = none
returned (other type_name) =
    some (invalid_return_type ("Expected boolean return type, got " +++ type_name))

-- `none` where the script returns a Boolean.
unfoldable pub validate_return_type :
    RhaiCompiler → ScriptAnalysis → Option RhaiScriptValidationError
validate_return_type compiler a = returned (compiler.eval_with_scope (dummy_scope a) a)

-- The error, if there is one, or else what comes behind the check.
abbrev pub unless_refused :
    {A : Type 0}
    → Option RhaiScriptValidationError
    → Result RhaiScriptValidationError A
    → Result RhaiScriptValidationError A
unless_refused none next = next
unless_refused (some e) next = err e

unfoldable pub validate_analysis :
    RhaiCompiler
    → ScriptAnalysis
    → Option JsonAbi
    → Result RhaiScriptValidationError RhaiScriptValidationResult
unfolding first_error validate_return_type
validate_analysis compiler a abi = unless_refused (first_error a abi a.accessed_variables) (
    unless_refused (validate_return_type compiler a) (
      ok (record {
        ast_analysis = a;
        requires_receipt = any (λ v. contains valid_receipt_paths v) a.accessed_variables;
      })))

abbrev pub of_analysis :
    RhaiCompiler
    → Option JsonAbi
    → Option ScriptAnalysis
    → Result RhaiScriptValidationError RhaiScriptValidationResult
of_analysis compiler abi none = err rhai_syntax_error
of_analysis compiler abi (some a) = validate_analysis compiler a abi

unfoldable pub validate_script :
    RhaiCompiler
    → String
    → Option JsonAbi
    → Result RhaiScriptValidationError RhaiScriptValidationResult
unfolding validate_analysis
validate_script compiler script abi = of_analysis compiler abi (compiler.analyze_script script)
