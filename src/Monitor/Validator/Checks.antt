-- ===== src/Monitor/Validator/Checks.antt =====
-- The checks of the validator, each against its rule.
use argus_rs.Base.{
  Bool, Bool-cases, List, Option, Option-cases, Result, String, [], ap, err, false, inl, inr,
  nat_key, none, not, ok, pair_key, refl, some, string_key, true, ◌&&◌, ◌==◌, ◌||◌, ◌∙◌, ◌∷◌, ◌≡◌,
}
use argus_rs.Abi.Contracts.{JsonAbi}
use argus_rs.Abi.Values.{Json}
use argus_rs.Core.Actions.{ActionConfig}
use argus_rs.Scripts.Validator.{RhaiScriptValidationResult}
use argus_rs.Monitor.Assets.{Monitor}
use argus_rs.Monitor.Interests.{is_all}
use argus_rs.Monitor.Templates.{
  TemplateService, generate_dummy_context, unrendered_of, find_templates, first_unrendered,
  create_policy_aware_context, or_null,
}
use argus_rs.Monitor.Validator.{
  panicked, is_some, MonitorValidator, validate_network, validate_actions, check_abi,
  validate_script_and_abi_rules, validate_single_action_template, validate_action_templates,
  validate_templates, find_action, action_exists, then_check, template_checked,
}
use argus_rs.Monitor.Validator.Rules.{
  passes, every, is_missing, names_all, action_renders, actions_render,
}

pub passes-then :
    {E A B : Type 0} (r : Result E A) (next : A → Result E B) (p : Bool)
    → ((a : A) → r ≡ ok a → passes (next a) ≡ p)
    → passes (then_check r next) ≡ (passes r && p)
passes-then (ok a) next p h = h a refl
passes-then (err e) next p h = refl

pub network_passes :
    (v : MonitorValidator) (m : Monitor)
    → passes (validate_network v m) ≡ (m.network == v.network_id)
unfolding validate_network
network_passes v m = elim (Bool-cases (m.network == v.network_id)) [
  | inl e ↦ rw e refl
  | inr e ↦ rw e refl
]

pub actions_pass :
    (actions : List ActionConfig) (name : String) (names : List String)
    → passes (validate_actions actions name names) ≡ every (λ n. action_exists actions n) names
unfolding validate_actions every
actions_pass actions name [] = refl
actions_pass actions name (n ∷ names) = elim (Bool-cases (action_exists actions n)) [
  | inl e ↦ rw e (actions_pass actions name names)
  | inr e ↦ rw e refl
]

unrendered-renders :
    (service : TemplateService) (context : Json) (ts : List String)
    → is_missing (first_unrendered service context ts)
      ≡ every (λ t. is_missing (service.render t context)) ts
unfolding first_unrendered every
unrendered-renders service context [] = refl
unrendered-renders service context (t ∷ ts) = elim (Option-cases (service.render t context)) [
  | inl e ↦ rw (e, first_unrendered) (unrendered-renders service context ts)
  | inr (x, e) ↦ rw (e, first_unrendered) refl
]

template_passes :
    (m : Monitor) (name : String) (o : Option (String × String))
    → passes (template_checked m name o) ≡ is_missing o
template_passes m name none = refl
template_passes m name (some x) = refl

single_passes :
    (v : MonitorValidator) (m : Monitor) (name : String) (context : Json)
    → passes (validate_single_action_template v m name context)
      ≡ action_renders v.template_service context (find_action v.actions name)
unfolding validate_single_action_template unrendered_of
single_passes v m name context = by_action (find_action v.actions name)
  where
    by_action :
        (found : Option ActionConfig)
        → passes (elim found [
          | none ↦ err panicked
          | some action ↦ template_checked m name (unrendered_of v.template_service action context)
        ])
          ≡ action_renders v.template_service context found
    by_action none = refl
    by_action (some action) =
        template_passes m name (unrendered_of v.template_service action context)
        ∙ unrendered-renders v.template_service (create_policy_aware_context action context)
            (find_templates (or_null (v.template_service.action_to_value action)))

all_pass :
    (v : MonitorValidator) (m : Monitor) (context : Json) (names : List String)
    → passes (validate_action_templates v m context names)
      ≡ every (λ name. action_renders v.template_service context (find_action v.actions name)) names
unfolding validate_action_templates every
all_pass v m context [] = refl
all_pass v m context (name ∷ names) =
    passes-then (validate_single_action_template v m name context)
      (λ u. validate_action_templates v m context names)
      (every (λ n. action_renders v.template_service context (find_action v.actions n)) names)
      (λ u e. all_pass v m context names)
    ∙ ap
        (λ b.
          b
          && every (λ n. action_renders v.template_service context (find_action v.actions n)) names)
        (single_passes v m name context)

pub templates_pass :
    (v : MonitorValidator) (m : Monitor) (abi : Option JsonAbi)
    → passes (validate_templates v m abi)
      ≡ actions_render v m (generate_dummy_context v.template_service m abi)
unfolding validate_templates
templates_pass v m abi = elim (Option-cases (generate_dummy_context v.template_service m abi)) [
  | inl e ↦ rw (e, validate_templates) refl
  | inr (context, e) ↦ rw (e, validate_templates) (all_pass v m context m.actions)
]

pub rules_pass :
    (m : Monitor) (r : RhaiScriptValidationResult) (abi : Option JsonAbi)
    → passes (validate_script_and_abi_rules m r (names_all m.address) (is_some abi)) ≡ (
        not r.ast_analysis.accesses_log_variable
        || (is_some m.address && is_some m.abi_name && is_some abi))
unfolding validate_script_and_abi_rules check_abi
rules_pass m r abi = by_fields r.ast_analysis.accesses_log_variable m.address m.abi_name abi
  where
    by_fields :
        (logs : Bool) (address abi_name : Option String) (abi' : Option JsonAbi)
        → passes (
            validate_script_and_abi_rules
              (record m { address = address; abi_name = abi_name })
              (record r { ast_analysis = record r.ast_analysis { accesses_log_variable = logs } })
              (names_all address)
              (is_some abi'))
          ≡ (not logs || (is_some address && is_some abi_name && is_some abi'))
    by_fields false address abi_name abi' = refl
    by_fields true none abi_name abi' = refl
    by_fields true (some a) none abi' = elim (Bool-cases (is_all a)) [
      | inl e ↦ rw e refl
      | inr e ↦ rw e refl
    ]
    by_fields true (some a) (some n) none = elim (Bool-cases (is_all a)) [
      | inl e ↦ rw e refl
      | inr e ↦ rw e refl
    ]
    by_fields true (some a) (some n) (some j) = elim (Bool-cases (is_all a)) [
      | inl e ↦ rw e refl
      | inr e ↦ rw e refl
    ]
