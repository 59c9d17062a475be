-- ===== src/Monitor/Validator/Samples.antt =====
-- Monitors that are valid, and some that are not.
use argus_rs.Monitor.Persistence.{
  MonitorPersistenceValidator, name_conflict, validate_for_create, validate_for_update,
}
use argus_rs.Base.{
  ◌+◌, List, Option, String, [], any, contains, err, false, if◌then◌else◌, nat_key, none, ok,
  pair_key, refl, some, string_key, true, ℕ, ◌==◌, ◌∷◌, ◌≡◌,
}
use argus_rs.Abi.Contracts.{JsonAbi, Event}
use argus_rs.Abi.Values.{object, string, end}
use argus_rs.Core.Chain.{Log}
use argus_rs.Core.Registry.{is_log_interesting}
use argus_rs.Scripts.Validator.{
  RhaiCompiler, Evaluated, boolean, other, invalid_field, invalid_return_type,
}
use argus_rs.Monitor.Assets.{Monitor, Services, ScriptAnalysis, ClassifiedMonitor, active}
use argus_rs.Monitor.Interests.{parsed_address, wanted, build_interest_registry}
use argus_rs.Monitor.Interests.Coverage.{wants}
use argus_rs.Monitor.Templates.{TemplateService, create_dummy_value_for_type}
use argus_rs.Monitor.Validator.{
  MonitorValidator, validate, monitor_requires_address, monitor_requires_abi, missing_global_abi,
  unknown_action, script_error, invalid_action_template,
}
use argus_rs.Monitor.Validator.Exact.{validate_exact}
use argus_rs.Monitor.Validator.Rules.{passes, is_valid}
use argus_rs.Monitor.Validator.Watched.{valid_monitor_is_watched}
use argus_rs.Monitor.Manager.{classify_monitor, new, update, interest_registry_of}

abbrev transfer : Event
transfer = record { name = "Transfer"; inputs = ("value", "uint256") ∷ []; selector = 11 }

abbrev abi : JsonAbi
abi = record { allocation = 1; functions = []; events = ("Transfer", transfer ∷ []) ∷ [] }

-- The script is the variable that it accesses.
abbrev analysis : String → ScriptAnalysis
analysis script = record {
  accessed_variables = script ∷ [];
  accesses_log_variable = true;
  local_variables = [];
  accesses_call_variable = false;
  accessed_log_event_names = [];
}

abbrev services : Services
services = record {
  analyze_script = λ script. some (analysis script);
  parse_address = λ a. if a == "0x07" then some 7 else none;
  get_abi = λ a. if a == 7 then some abi else none;
  get_abi_by_name = λ n. if n == "erc20" then some abi else none;
}

abbrev compiler : RhaiCompiler
compiler = record {
  analyze_script = λ script. some (analysis script);
  eval_with_scope = λ scope a. boolean;
}

abbrev template_service : TemplateService
template_service = record {
  formats = record { number = λ n. "0"; hash = λ n. "0x" };
  printers = record {
    to_checksum = λ a. "0x";
    hash = λ h. "0x";
    hex = λ bytes. "";
    integer = λ i. "0";
    json = λ v. "{}";
  };
  match_to_value = λ m. some (object end);
  action_to_value =
      λ a. some (string (if a.name == "mail" then "{{ monitor_name }}" else "{{ nothing }}"));
  render = λ t context. if t == "{{ nothing }}" then some "undefined value" else none;
}

abbrev validator : MonitorValidator
validator = record {
  network_id = "mainnet";
  actions =
      record { id = none; name = "mail"; policy = none }
      ∷ record { id = none; name = "broken"; policy = none }
      ∷ [];
  template_service = template_service;
  compiler = compiler;
  services = services;
}

abbrev monitor : Option String → Option String → String → List String → Monitor
monitor address abi_name script actions = record {
  id = 1;
  name = "m";
  network = "mainnet";
  address = address;
  abi_name = abi_name;
  filter_script = script;
  actions = actions;
  status = active;
}

abbrev good : Monitor
good = monitor (some "0x07") (some "erc20") "log.params.value" ("mail" ∷ [])

good_is_valid : validate validator good ≡ ok tt
unfolding validate any argus_rs.Monitor.Interests.is_all argus_rs.Scripts.Validator.validate_script
    contains
good_is_valid = refl

needs_address :
    validate validator (monitor none (some "erc20") "log.name" [])
    ≡ err (monitor_requires_address "m")
unfolding validate argus_rs.Scripts.Validator.validate_script contains
needs_address = refl

needs_abi :
    validate validator (monitor (some "All") none "log.name" [])
    ≡ err (monitor_requires_abi "m" missing_global_abi)
unfolding validate argus_rs.Monitor.Interests.is_all argus_rs.Scripts.Validator.validate_script
    contains
needs_abi = refl

names_action :
    validate validator (monitor none none "tx.value" ("post" ∷ []))
    ≡ err (unknown_action "m" "post")
unfolding validate any
names_action = refl

names_field :
    validate validator (monitor none none "tx.colour" [])
    ≡ err (script_error "m" (invalid_field "tx.colour"))
unfolding validate argus_rs.Scripts.Validator.validate_script contains
names_field = refl

names_template :
    validate validator (monitor (some "0x07") (some "erc20") "log.name" ("mail" ∷ "broken" ∷ []))
    ≡ err (invalid_action_template "m" "broken" "{{ nothing }}" "undefined value")
unfolding validate any argus_rs.Monitor.Interests.is_all argus_rs.Scripts.Validator.validate_script
    contains
names_template = refl

-- A list of numbers has a number as its dummy, and a list of addresses a list.
list_of_numbers : create_dummy_value_for_type "uint256[]" ≡ string "1000000000000000000"
unfolding create_dummy_value_for_type
list_of_numbers = refl

validate_exact_example : passes (validate validator good) ≡ is_valid validator good
validate_exact_example = validate_exact validator good

abbrev good_class : ClassifiedMonitor
good_class = record {
  monitor = good;
  caps = record { tx = false; log = true; call = false };
  analysis = analysis "log.params.value";
}

valid_monitor_is_watched_example :
    (address : ℕ) × (parsed_address services good_class ≡ some address)
    × ((log : Log) (signature : ℕ) (rest : List ℕ)
        → log.address ≡ address
        → log.topics ≡ signature ∷ rest
        → wants (wanted services good_class address) signature ≡ true
        → is_log_interesting (interest_registry_of (update (new services []) (good ∷ []))) log
          ≡ true)
unfolding validate any argus_rs.Monitor.Interests.is_all argus_rs.Scripts.Validator.validate_script
    contains classify_monitor
valid_monitor_is_watched_example =
    valid_monitor_is_watched validator (new services []) good (analysis "log.params.value")
      (good_class, false) [] [] refl refl refl refl refl refl refl refl

-- The repository holds one monitor, whose identifier prints as "1".
abbrev stored : MonitorPersistenceValidator ℕ
stored = record {
  get_monitors = λ network s. (ok (good ∷ []), s + 1);
  network_id = "mainnet";
  business_logic_validator = validator;
  print_id = λ n. if n == 1 then "1" else "other";
}

name_is_taken : validate_for_create stored good 0 ≡ (err (name_conflict "m"), 1)
unfolding validate_for_create any
name_is_taken = refl

name_is_kept : validate_for_update stored "1" good 0 ≡ (ok tt, 1)
unfolding validate_for_update validate any argus_rs.Monitor.Interests.is_all
    argus_rs.Scripts.Validator.validate_script contains
name_is_kept = refl

name_is_of_another : validate_for_update stored "2" good 0 ≡ (err (name_conflict "m"), 1)
unfolding validate_for_update
name_is_of_another = refl
