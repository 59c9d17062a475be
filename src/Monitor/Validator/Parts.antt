-- ===== src/Monitor/Validator/Parts.antt =====
-- What the validity of a monitor says of its address and its script.
use argus_rs.Base.{
  true-ne-false, Bool, Option, String, any, ap, contains, false, nat_key, none, not, ok, pair_key,
  refl, some, some_inj, string_key, sym, true, ℕ, ◌&&◌, ◌==◌, ◌||◌, ◌∙◌, ◌≡◌,
}
use argus_rs.Abi.Service.{is_some}
use argus_rs.Abi.Contracts.{JsonAbi}
use argus_rs.Scripts.Validator.{
  of_analysis, unless_refused, valid_receipt_paths, RhaiCompiler, RhaiScriptValidationError,
  RhaiScriptValidationResult, validate_script, validate_analysis, first_error, validate_return_type,
}
use argus_rs.Monitor.Assets.{Monitor, Services, ScriptAnalysis, ClassifiedMonitor}
use argus_rs.Monitor.Manager.{receipt_fields, classify_monitor, capabilities}
use argus_rs.Monitor.Validator.{generate_dummy_context, action_exists, MonitorValidator, validate}
use argus_rs.Monitor.Validator.Exact.{validate_exact}
use argus_rs.Monitor.Validator.Rules.{
  passes, every, names_all, is_readable, abi_of, has_sources, script_passes, is_valid,
  actions_render,
}

abbrev pub parsed : Services → Option String → Option ℕ
parsed services none = none
parsed services (some s) = services.parse_address s

middle_parts : (a b c d e : Bool) → (a && (b && (c && (d && e)))) ≡ true → (c ≡ true) × (d ≡ true)
middle_parts true true true true e h = (refl, refl)
middle_parts true true true false e h = absurd (true-ne-false (sym h))
middle_parts true true false d e h = absurd (true-ne-false (sym h))
middle_parts true false c d e h = absurd (true-ne-false (sym h))
middle_parts false b c d e h = absurd (true-ne-false (sym h))

-- The address of a monitor that is valid can be read, and its script finds what it reads.
pub validate-parts :
    (v : MonitorValidator) (m : Monitor)
    → validate v m ≡ ok tt
    → (is_readable v.services m.address ≡ true)
      × (script_passes
            (validate_script v.compiler m.filter_script (abi_of v m))
            (λ r. has_sources m (abi_of v m) r)
          ≡ true)
unfolding is_valid
validate-parts v m valid =
    middle_parts (m.network == v.network_id)
      (every (λ name. action_exists v.actions name) m.actions) (is_readable v.services m.address)
      (script_passes (validate_script v.compiler m.filter_script (abi_of v m))
        (λ r. has_sources m (abi_of v m) r))
      (actions_render v m (generate_dummy_context v.template_service m (abi_of v m)))
      (sym (validate_exact v m) ∙ ap passes valid)

-- The analysis that a script passes with is that of the compiler.
pub analysis_passes :
    (compiler : RhaiCompiler) (script : String) (abi : Option JsonAbi) (a : ScriptAnalysis)
    (p : RhaiScriptValidationResult → Bool)
    → compiler.analyze_script script ≡ some a
    → script_passes (validate_script compiler script abi) p ≡ true
    → (r : RhaiScriptValidationResult) × (r.ast_analysis ≡ a) × (p r ≡ true)
unfolding validate_script validate_analysis
analysis_passes compiler script abi a p analyzed passed =
    by_checks (first_error a abi a.accessed_variables) (validate_return_type compiler a)
      (sym (ap (λ o. script_passes (of_analysis compiler abi o) p) analyzed) ∙ passed)
  where
    result : RhaiScriptValidationResult
    result = record {
      ast_analysis = a;
      requires_receipt = any (λ v. contains valid_receipt_paths v) a.accessed_variables;
    }

    by_checks :
        (e f : Option RhaiScriptValidationError)
        → script_passes (unless_refused e (unless_refused f (ok result))) p ≡ true
        → (r : RhaiScriptValidationResult) × (r.ast_analysis ≡ a) × (p r ≡ true)
    by_checks none none h = (result, refl, h)
    by_checks none (some x) h = absurd (true-ne-false (sym h))
    by_checks (some x) f h = absurd (true-ne-false (sym h))

pub one_address :
    (v : MonitorValidator) (m : Monitor) (r : RhaiScriptValidationResult)
    → is_readable v.services m.address ≡ true
    → has_sources m (abi_of v m) r ≡ true
    → r.ast_analysis.accesses_log_variable ≡ true
    → names_all m.address ≡ false
    → (a : ℕ) × (parsed v.services m.address ≡ some a)
one_address v m r readable sources logs single =
    by_address m.address r.ast_analysis.accesses_log_variable readable sources logs single
  where
    by_address :
        (address : Option String) (reads : Bool)
        → is_readable v.services address ≡ true
        → ((not reads || (is_some address && is_some m.abi_name && is_some (abi_of v m)))
            && (not r.ast_analysis.accesses_call_variable
                || (is_some m.abi_name && is_some address && not (names_all address))))
          ≡ true
        → reads ≡ true
        → names_all address ≡ false
        → (a : ℕ) × (parsed v.services address ≡ some a)
    by_address none false readable' sources' logs' single' = absurd (true-ne-false (sym logs'))
    by_address none true readable' sources' logs' single' = absurd (true-ne-false (sym sources'))
    by_address (some s) reads readable' sources' logs' single' =
        by_parse (v.services.parse_address s) refl
          (sym (ap (λ b. b || is_some (v.services.parse_address s)) single') ∙ readable')
      where
        by_parse :
            (o : Option ℕ)
            → v.services.parse_address s ≡ o
            → is_some o ≡ true
            → (a : ℕ) × (v.services.parse_address s ≡ some a)
        by_parse none e h = absurd (true-ne-false (sym h))
        by_parse (some a) e h = (a, e)

pub caps-log :
    (services : Services) (m : Monitor) (a : ScriptAnalysis) {c : ClassifiedMonitor × Bool}
    → services.analyze_script m.filter_script ≡ some a
    → classify_monitor services m ≡ some c
    → (c.0.monitor ≡ m) × (c.0.caps.log ≡ a.accesses_log_variable)
unfolding classify_monitor capabilities
caps-log services m a {c} analyzed classed =
    by_class (sym (ap (λ o. classed_as o) analyzed) ∙ classed)
  where
    class_of : ScriptAnalysis → ClassifiedMonitor × Bool
    class_of x = (
      record { monitor = m; caps = capabilities x; analysis = x },
      any (λ v. contains receipt_fields v) x.accessed_variables,
    )

    classed_as : Option ScriptAnalysis → Option (ClassifiedMonitor × Bool)
    classed_as none = none
    classed_as (some x) = some (class_of x)

    by_class :
        some (class_of a) ≡ some c → (c.0.monitor ≡ m) × (c.0.caps.log ≡ a.accesses_log_variable)
    by_class e = (
      ap (λ (d : ClassifiedMonitor × Bool). d.0.monitor) (sym (some_inj e)),
      ap (λ (d : ClassifiedMonitor × Bool). d.0.caps.log) (sym (some_inj e)),
    )
