-- ===== src/Monitor/Validator/Exact.antt =====
-- What a monitor that is valid has.
use argus_rs.Base.{
  Bool, Bool-cases, Option, Option-cases, Result, String, ap, err, false, if◌then◌else◌, inl, inr,
  nat_key, none, not, ok, pair_key, refl, some, string_key, true, ℕ, ◌&&◌, ◌||◌, ◌∙◌, ◌≡◌,
}
use argus_rs.Abi.Contracts.{JsonAbi}
use argus_rs.Scripts.Validator.{RhaiScriptValidationResult, validate_script}
use argus_rs.Monitor.Assets.{Monitor, Services}
use argus_rs.Monitor.Interests.{is_all}
use argus_rs.Monitor.Templates.{generate_dummy_context}
use argus_rs.Monitor.Validator.{
  of_monitor, RhaiScriptValidationError, is_some, MonitorValidator, validate, validate_network,
  validate_actions, parse_and_validate, get_monitor_abi_json, check_script,
  validate_script_and_abi_rules, validate_calldata, validate_templates, validate_with_abi,
  action_exists, then_check, Checked,
}
use argus_rs.Monitor.Validator.Rules.{
  passes, every, names_all, address_of, is_readable, abi_of, actions_render, has_sources,
  script_passes, is_valid,
}
use argus_rs.Monitor.Validator.Checks.{
  passes-then, network_passes, actions_pass, templates_pass, rules_pass,
}

calldata_passes :
    (m : Monitor) (calls : Bool)
    → passes (if calls then validate_calldata m else ok tt)
      ≡ (not calls || (is_some m.abi_name && is_some m.address && not (names_all m.address)))
unfolding validate_calldata
calldata_passes m calls = by_fields calls m.abi_name m.address
  where
    by_fields :
        (calls' : Bool) (abi_name address : Option String)
        → passes (
            if calls'
            then validate_calldata (record m { abi_name = abi_name; address = address })
            else ok tt)
          ≡ (not calls' || (is_some abi_name && is_some address && not (names_all address)))
    by_fields false abi_name address = refl
    by_fields true none address = refl
    by_fields true (some n) none = refl
    by_fields true (some n) (some a) = elim (Bool-cases (is_all a)) [
      | inl e ↦ rw e refl
      | inr e ↦ rw e refl
    ]

after_script :
    (v : MonitorValidator) (m : Monitor) (abi : Option JsonAbi) (r : RhaiScriptValidationResult)
    → passes (
        then_check (validate_script_and_abi_rules m r (names_all m.address) (is_some abi)) (λ u.
          then_check
            (if r.ast_analysis.accesses_call_variable then validate_calldata m else ok tt)
            (λ u'. validate_templates v m abi)))
      ≡ (has_sources m abi r
          && actions_render v m (generate_dummy_context v.template_service m abi))
after_script v m abi r =
    let renders_all = actions_render v m (generate_dummy_context v.template_service m abi) in
    let calldata = if r.ast_analysis.accesses_call_variable then validate_calldata m else ok tt in
    passes-then (validate_script_and_abi_rules m r (names_all m.address) (is_some abi))
      (λ u. then_check calldata (λ u'. validate_templates v m abi)) (passes calldata && renders_all)
      (λ u e.
        passes-then calldata (λ u'. validate_templates v m abi) renders_all
          (λ u' e'. templates_pass v m abi))
    ∙ regroup (rules_pass m r abi) (calldata_passes m r.ast_analysis.accesses_call_variable)
        renders_all
  where
    and_assoc : (a b c : Bool) → (a && (b && c)) ≡ ((a && b) && c)
    and_assoc true b c = refl
    and_assoc false b c = refl

    regroup :
        {a a' b b' : Bool} → a ≡ a' → b ≡ b' → (c : Bool) → (a && (b && c)) ≡ ((a' && b') && c)
    regroup {a} {a'} {b} {b'} e f c =
        ap (λ x. x && (b && c)) e ∙ ap (λ x. a' && (x && c)) f ∙ and_assoc a' b' c

with_abi_passes :
    (v : MonitorValidator) (m : Monitor) (abi : Option JsonAbi)
    → passes (validate_with_abi v m (names_all m.address) abi) ≡ (
        script_passes (validate_script v.compiler m.filter_script abi) (λ r. has_sources m abi r)
        && actions_render v m (generate_dummy_context v.template_service m abi))
unfolding validate_with_abi check_script
with_abi_passes v m abi = by_script (validate_script v.compiler m.filter_script abi)
  where
    by_script :
        (checked : Result RhaiScriptValidationError RhaiScriptValidationResult)
        → passes (
            then_check (of_monitor m.name checked) (λ r.
              then_check
                (validate_script_and_abi_rules m r (names_all m.address) (is_some abi))
                (λ u.
                  then_check
                    (if r.ast_analysis.accesses_call_variable then validate_calldata m else ok tt)
                    (λ u'. validate_templates v m abi))))
          ≡ (script_passes checked (λ r. has_sources m abi r)
              && actions_render v m (generate_dummy_context v.template_service m abi))
    by_script (ok r) = after_script v m abi r
    by_script (err e) = refl

address_then :
    (services : Services) (m : Monitor) (next : Option ℕ × Bool → Checked)
    → passes (then_check (parse_and_validate services m) next) ≡ (
        is_readable services m.address
        && passes (next (address_of services m.address, names_all m.address)))
unfolding parse_and_validate
address_then services m next = by_address m.address
  where
    by_address :
        (address : Option String)
        → passes (then_check (parse_and_validate services (record m { address = address })) next)
          ≡ (is_readable services address
              && passes (next (address_of services address, names_all address)))
    by_address none = refl
    by_address (some a) = elim (Bool-cases (is_all a)) [
      | inl e ↦ rw e refl
      | inr e ↦ rw e (elim (Option-cases (services.parse_address a)) [
        | inl f ↦ rw (f, parse_and_validate) refl
        | inr (n, f) ↦ rw (f, parse_and_validate) refl
      ])
    ]

after_network :
    (v : MonitorValidator) (m : Monitor)
    → passes (
        then_check (validate_actions v.actions m.name m.actions) (λ u'.
          then_check (parse_and_validate v.services m) (λ (p : Option ℕ × Bool).
            validate_with_abi v m p.1 (get_monitor_abi_json v.services m p.0))))
      ≡ (every (λ name. action_exists v.actions name) m.actions
          && (is_readable v.services m.address
              && (script_passes
                    (validate_script v.compiler m.filter_script (abi_of v m))
                    (λ r. has_sources m (abi_of v m) r)
                  && actions_render v m
                      (generate_dummy_context v.template_service m (abi_of v m)))))
after_network v m =
    passes-then (validate_actions v.actions m.name m.actions)
      (λ u'. then_check (parse_and_validate v.services m) checked)
      (is_readable v.services m.address && rest)
      (λ u e.
        address_then v.services m checked
        ∙ ap (λ b. is_readable v.services m.address && b) (with_abi_passes v m (abi_of v m)))
    ∙ ap (λ b. b && (is_readable v.services m.address && rest))
        (actions_pass v.actions m.name m.actions)
  where
    checked : Option ℕ × Bool → Checked
    checked p = validate_with_abi v m p.1 (get_monitor_abi_json v.services m p.0)

    rest : Bool
    rest =
        script_passes (validate_script v.compiler m.filter_script (abi_of v m))
          (λ r. has_sources m (abi_of v m) r)
        && actions_render v m (generate_dummy_context v.template_service m (abi_of v m))

-- A monitor is valid exactly where it is of the validator's network, its actions exist, its address can
-- be read or names all, its script passes with the ABI that the monitor's ABI name or address finds, a
-- script that reads logs comes with an address and the name of an ABI that is found, one that reads
-- calls with an ABI's name and one address, and every template of every action renders.
pub validate_exact : (v : MonitorValidator) (m : Monitor) → passes (validate v m) ≡ is_valid v m
unfolding validate is_valid
validate_exact v m =
    passes-then (validate_network v m)
      (λ u. then_check (validate_actions v.actions m.name m.actions) (λ u'.
        then_check (parse_and_validate v.services m) (λ (p : Option ℕ × Bool).
          validate_with_abi v m p.1 (get_monitor_abi_json v.services m p.0))))
      rest (λ u e. after_network v m)
    ∙ ap (λ b. b && rest) (network_passes v m)
  where
    rest : Bool
    rest =
        every (λ name. action_exists v.actions name) m.actions
        && (is_readable v.services m.address
            && (script_passes (validate_script v.compiler m.filter_script (abi_of v m))
                  (λ r. has_sources m (abi_of v m) r)
                && actions_render v m (generate_dummy_context v.template_service m (abi_of v m))))
