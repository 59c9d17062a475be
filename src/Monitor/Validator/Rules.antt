-- ===== src/Monitor/Validator/Rules.antt =====
-- When a monitor is valid, said of its parts.
use argus_rs.Base.{
  Bool, List, Option, Result, String, [], err, false, if◌then◌else◌, nat_key, none, not, ok,
  pair_key, some, string_key, true, ℕ, ◌&&◌, ◌==◌, ◌||◌, ◌∷◌,
}
use argus_rs.Abi.Contracts.{JsonAbi}
use argus_rs.Abi.Values.{Json}
use argus_rs.Core.Actions.{ActionConfig}
use argus_rs.Scripts.Validator.{RhaiScriptValidationResult, validate_script}
use argus_rs.Monitor.Assets.{Monitor, Services}
use argus_rs.Monitor.Interests.{is_all}
use argus_rs.Monitor.Templates.{
  TemplateService, generate_dummy_context, find_templates, create_policy_aware_context, or_null,
}
use argus_rs.Monitor.Validator.{
  is_some, MonitorValidator, get_monitor_abi_json, find_action, action_exists,
}

abbrev pub passes {ℓ κ} : {E : Type ℓ} {A : Type κ} → Result E A → Bool
passes (ok a) = true
passes (err e) = false

unfoldable pub every {ℓ} : {A : Type ℓ} → (A → Bool) → List A → Bool
every p [] = true
every p (x ∷ xs) = p x && every p xs

abbrev pub is_missing {ℓ} : {A : Type ℓ} → Option A → Bool
is_missing none = true
is_missing (some a) = false

abbrev pub names_all : Option String → Bool
names_all none = false
names_all (some address) = is_all address

-- The address that a monitor names, unless it names all.
abbrev pub address_of : Services → Option String → Option ℕ
address_of services none = none
address_of services (some address) = if is_all address then none else services.parse_address address

abbrev pub is_readable : Services → Option String → Bool
is_readable services none = true
is_readable services (some address) = is_all address || is_some (services.parse_address address)

abbrev pub abi_of : MonitorValidator → Monitor → Option JsonAbi
abi_of v m = get_monitor_abi_json v.services m (address_of v.services m.address)

abbrev renders : TemplateService → ActionConfig → Json → Bool
renders service action context =
    every (λ t. is_missing (service.render t (create_policy_aware_context action context)))
      (find_templates (or_null (service.action_to_value action)))

abbrev pub action_renders : TemplateService → Json → Option ActionConfig → Bool
action_renders service context none = false
action_renders service context (some action) = renders service action context

abbrev pub actions_render : MonitorValidator → Monitor → Option Json → Bool
actions_render v m none = false
actions_render v m (some context) =
    every (λ name. action_renders v.template_service context (find_action v.actions name)) m.actions

-- What reads logs is told its addresses and its ABI; what reads calls, one address and its ABI.
abbrev pub has_sources : Monitor → Option JsonAbi → RhaiScriptValidationResult → Bool
has_sources m abi r =
    (not r.ast_analysis.accesses_log_variable
      || (is_some m.address && is_some m.abi_name && is_some abi))
    && (not r.ast_analysis.accesses_call_variable
        || (is_some m.abi_name && is_some m.address && not (names_all m.address)))

abbrev pub script_passes :
    {E : Type 0} → Result E RhaiScriptValidationResult → (RhaiScriptValidationResult → Bool) → Bool
script_passes (ok r) p = p r
script_passes (err e) p = false

-- The checks in any order.
unfoldable pub is_valid : MonitorValidator → Monitor → Bool
unfolding every
is_valid v m =
    (m.network == v.network_id)
    && (every (λ name. action_exists v.actions name) m.actions
        && (is_readable v.services m.address
            && (script_passes (validate_script v.compiler m.filter_script (abi_of v m))
                  (λ r. has_sources m (abi_of v m) r)
                && actions_render v m (generate_dummy_context v.template_service m (abi_of v m)))))
