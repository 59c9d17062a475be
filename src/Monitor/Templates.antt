-- ===== src/Monitor/Templates.antt =====
-- The template validator of crates/argus-monitor/src/validator.rs: the dummy context that the templates
-- of a monitor's actions are rendered with. How serde prints a match and an action, and how a
-- template renders, are arguments.
use argus_rs.Base.{
  Bool, HashMap, List, Option, String, [], get, if◌then◌else◌, insert, nat_key, none, pair_key,
  some, string_key, true, ◌&&◌, ◌++◌, ◌==◌, ◌||◌, ◌∷◌,
}
use text.Mathlib.Text.{starts_with}
use argus_rs.Abi.Contracts.{JsonAbi, flatten}
use argus_rs.Abi.Values.{
  Json, Jsons, Fields, Printers, null, bool, number, string, array, object, nil, cons, end, field,
  object_of,
}
use argus_rs.Core.Chain.{Transaction, eip1559}
use argus_rs.Core.Matches.{
  MonitorMatch, LogDetails, Formats, builder, log_match, set_decoded_call, build,
}
use argus_rs.Core.Actions.{ActionConfig, ActionPolicy, aggregation, throttle}
use argus_rs.Scripts.Conversions.{build_transaction_details_payload}
use argus_rs.Scripts.Validator.{event_inputs, function_inputs}
use argus_rs.Monitor.Assets.{Monitor}

pub record TemplateService : Type 0 where
  pub formats : Formats
  pub printers : Printers
  pub match_to_value : MonitorMatch → Option Json
  pub action_to_value : ActionConfig → Option Json
  pub render : String → Json → Option String

-- `str::contains`
unfoldable pub contains_text : String → String → Bool
contains_text String.[] p = starts_with String.[] p
contains_text (String.◌∷◌ c cs) p = starts_with (String.◌∷◌ c cs) p || contains_text cs p

unfoldable pub create_dummy_value_for_type : String → Json
unfolding contains_text
create_dummy_value_for_type ty =
    if ty == "address"
    then string "0x0000000000000000000000000000000000000000"
    else if starts_with ty "uint" || starts_with ty "int"
    then string "1000000000000000000"
    else if ty == "bool"
    then bool true
    else if starts_with ty "bytes"
    then string "0x000000"
    else if ty == "string"
    then string "dummy_string"
    else if contains_text ty "["
    then array nil
    else string "dummy_value"

-- `entry(name).or_insert(value)` for each input.
unfoldable pub insert_dummies : List (String × String) → HashMap String Json → HashMap String Json
unfolding create_dummy_value_for_type
insert_dummies [] m = m
insert_dummies ((name, ty) ∷ inputs) m =
    insert_dummies inputs
      (elim (get m name) [ none ↦ insert m name (create_dummy_value_for_type ty) | some v ↦ m ])

unfoldable pub extract_event_parameters : Option JsonAbi → HashMap String Json
unfolding insert_dummies
extract_event_parameters none = []
extract_event_parameters (some abi) = insert_dummies (event_inputs (flatten abi.events)) []

unfoldable pub extract_function_inputs : Option JsonAbi → HashMap String Json
unfolding insert_dummies
extract_function_inputs none = []
extract_function_inputs (some abi) = insert_dummies (function_inputs (flatten abi.functions)) []

-- The transaction that `TransactionBuilder` builds here.
abbrev pub dummy_transaction : Transaction
dummy_transaction = record {
  hash = 0;
  sender = 0;
  receiver = some 0;
  value = 1000000000000000000;
  gas_limit = 21000;
  nonce = 0;
  input = [];
  block_number = none;
  transaction_index = none;
  tx_type = eip1559;
  gas_price = none;
  max_fee_per_gas = 2000000000;
  max_priority_fee_per_gas = some 1000000000;
}

abbrev pub dummy_log : Printers → Option JsonAbi → LogDetails
dummy_log p abi = record {
  address = 0;
  log_index = 0;
  name = "DummyLog";
  params = p.json (object_of (extract_event_parameters abi));
}

abbrev pub dummy_call : Printers → Option JsonAbi → String
dummy_call p abi = p.json (
    object_of
      (("name", string "DummyFunction") ∷ ("params", object_of (extract_function_inputs abi)) ∷ []))

-- `none` where the match does not serialize.
unfoldable pub generate_dummy_context : TemplateService → Monitor → Option JsonAbi → Option Json
unfolding builder log_match set_decoded_call build
generate_dummy_context service monitor abi =
    let p = service.printers in
    let match_builder = builder 123 monitor.name "Dummy action" 1234567890 0 in
    let details = p.json (build_transaction_details_payload p dummy_transaction none) in
    service.match_to_value (
      build service.formats (
        set_decoded_call (log_match match_builder (dummy_log p abi) details)
          (some (dummy_call p abi))))

unfoldable pub put : String → Json → Fields → Fields
put key value end = field key value end
put key value (field k v rest) =
    if k == key then field k value rest else field k v (put key value rest)

abbrev pub for_policy : Option ActionPolicy → Fields → Json
for_policy none context = object context
for_policy (some (throttle policy)) context = object context
for_policy (some (aggregation policy)) context = object (put "matches" (array nil) context)

abbrev pub create_policy_aware_context : ActionConfig → Json → Json
create_policy_aware_context action (object context) = for_policy action.policy context
create_policy_aware_context action null = null
create_policy_aware_context action (bool b) = bool b
create_policy_aware_context action (number n) = number n
create_policy_aware_context action (string s) = string s
create_policy_aware_context action (array vs) = array vs

unfoldable pub is_template_string : String → Bool
unfolding contains_text
is_template_string s = contains_text s "{{" && contains_text s "}}"

unfoldable mutual
  unfolding is_template_string

  pub find_templates : Json → List String
  find_templates null = []
  find_templates (bool b) = []
  find_templates (number n) = []
  find_templates (string s) = if is_template_string s then s ∷ [] else []
  find_templates (array vs) = find_in_array vs
  find_templates (object fs) = find_in_object fs

  pub find_in_array : Jsons → List String
  find_in_array nil = []
  find_in_array (cons v vs) = find_templates v ++ find_in_array vs

  pub find_in_object : Fields → List String
  find_in_object end = []
  find_in_object (field k v fs) = find_templates v ++ find_in_object fs

abbrev pub or_null : Option Json → Json
or_null none = null
or_null (some v) = v

-- The first of the templates that does not render, with the error.
unfoldable pub first_unrendered : TemplateService → Json → List String → Option (String × String)
first_unrendered service context [] = none
first_unrendered service context (t ∷ ts) = elim (service.render t context) [
  | some e ↦ some (t, e)
  | none ↦ first_unrendered service context ts
]

unfoldable pub unrendered_of : TemplateService → ActionConfig → Json → Option (String × String)
unfolding find_templates first_unrendered
unrendered_of service action context =
    first_unrendered service (create_policy_aware_context action context)
      (find_templates (or_null (service.action_to_value action)))
