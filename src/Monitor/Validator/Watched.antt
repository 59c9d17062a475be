-- ===== src/Monitor/Validator/Watched.antt =====
-- A monitor that is valid is one that the interest registry can serve.
use argus_rs.Monitor.Manager.Classes.{classify_all-at}
use argus_rs.Base.{
  or_true, ==_refl, Bool, List, Option, String, [], any, ap, false, nat_key, none, not, ok,
  pair_key, refl, some, string_key, sym, true, ℕ, ◌&&◌, ◌++◌, ◌||◌, ◌∙◌, ◌∷◌, ◌≡◌,
}
use mathlib.Core.Path.{subst}
use argus_rs.Core.Chain.{Log}
use argus_rs.Core.Registry.{is_log_interesting}
use argus_rs.Monitor.Assets.{Monitor, Services, ScriptAnalysis, ClassifiedMonitor}
use argus_rs.Monitor.Interests.{parsed_address, is_global, wanted, build_interest_registry}
use argus_rs.Monitor.Interests.Coverage.{asks, wants, asks_at, asked_log_is_interesting}
use argus_rs.Monitor.Manager.{
  classify_all, classes, update, interest_registry_of, is_active, MonitorManager, organize_assets,
  classify_monitor,
}
use argus_rs.Monitor.Validator.{MonitorValidator, validate}
use argus_rs.Monitor.Validator.Rules.{names_all, abi_of, has_sources}
use argus_rs.Monitor.Validator.Parts.{
  parsed, validate-parts, analysis_passes, one_address, caps-log,
}

asked :
    (services : Services) (cm : ClassifiedMonitor) (address at signature : ℕ)
    → cm.caps.log ≡ true
    → is_global cm ≡ false
    → parsed_address services cm ≡ some address
    → at ≡ address
    → wants (wanted services cm address) signature ≡ true
    → asks services at signature cm ≡ true
asked services cm address at signature logs bound there same wish =
    subst (λ x. asks services x signature cm ≡ true) (sym same)
      (ap
          (λ b.
            b
            && not (is_global cm)
            && asks_at services cm (parsed_address services cm) address signature)
          logs
        ∙ ap (λ b. not b && asks_at services cm (parsed_address services cm) address signature)
            bound
        ∙ ap (λ o. asks_at services cm o address signature) there
        ∙ ap (λ b. b && wants (wanted services cm address) signature) (==_refl address)
        ∙ wish)

same_parsed :
    (services : Services) (cm : ClassifiedMonitor) (m : Monitor)
    → cm.monitor ≡ m
    → parsed_address services cm ≡ parsed services m.address
unfolding parsed_address
same_parsed services cm m e =
    subst (λ (x : Monitor). parsed_address services cm ≡ parsed services x.address) e
      (by_address cm.monitor.address)
  where
    by_address :
        (address : Option String)
        → parsed_address services (record cm { monitor = record cm.monitor { address = address } })
          ≡ parsed services address
    by_address none = refl
    by_address (some s) = refl

same_global :
    (cm : ClassifiedMonitor) (m : Monitor) → cm.monitor ≡ m → is_global cm ≡ names_all m.address
unfolding is_global
same_global cm m e =
    subst (λ (x : Monitor). is_global cm ≡ names_all x.address) e (by_address cm.monitor.address)
  where
    by_address :
        (address : Option String)
        → is_global (record cm { monitor = record cm.monitor { address = address } })
          ≡ names_all address
    by_address none = refl
    by_address (some s) = refl

any-at {ℓ} :
    {A : Type ℓ} (p : A → Bool) (before : List A) (x : A) (behind : List A)
    → p x ≡ true
    → any p (before ++ x ∷ behind) ≡ true
unfolding any
any-at p [] x behind h = ap (λ b. b || any p behind) h
any-at p (y ∷ before) x behind h = ap (λ b. p y || b) (any-at p before x behind h) ∙ or_true (p y)

-- Where the validator and the manager have one compiler, one ABI service and one parser of addresses, a
-- monitor is valid, active and classified, its script reads logs and it does not name all addresses: it
-- has an address that can be read, and once the manager is updated to monitors with it among them, the
-- registry that the data source reads lets through every log of the address with a signature that the
-- monitor wants.
pub valid_monitor_is_watched :
    (v : MonitorValidator) (manager : MonitorManager) (m : Monitor) (a : ScriptAnalysis)
    (c : ClassifiedMonitor × Bool) (before behind : List Monitor)
    → manager.services ≡ v.services
    → v.compiler.analyze_script m.filter_script ≡ some a
    → v.services.analyze_script m.filter_script ≡ some a
    → validate v m ≡ ok tt
    → is_active m.status ≡ true
    → classify_monitor v.services m ≡ some c
    → a.accesses_log_variable ≡ true
    → names_all m.address ≡ false
    → (address : ℕ) × (parsed_address v.services c.0 ≡ some address)
      × ((log : Log) (signature : ℕ) (rest : List ℕ)
          → log.address ≡ address
          → log.topics ≡ signature ∷ rest
          → wants (wanted v.services c.0 address) signature ≡ true
          → is_log_interesting (interest_registry_of (update manager (before ++ m ∷ behind))) log
            ≡ true)
unfolding any organize_assets
valid_monitor_is_watched v manager m a c before behind one compiled analyzed valid on classed logs
      single =
    let (readable, passed) = validate-parts v m valid in
    let (r, same, sources) =
      analysis_passes v.compiler m.filter_script (abi_of v m) a (λ r. has_sources m (abi_of v m) r)
        compiled passed in
    let (address, found) =
      one_address v m r readable sources
        (ap (λ (x : ScriptAnalysis). x.accesses_log_variable) same ∙ logs) single in
    let (of_m, caps) = caps-log v.services m a analyzed classed in
    let there = same_parsed v.services c.0 m of_m ∙ found in
    let bound = same_global c.0 m of_m ∙ single in
    let first = classes (classify_all v.services before) in
    let last = classes (classify_all v.services behind) in
    let registry : interest_registry_of (update manager (before ++ m ∷ behind))
        ≡ build_interest_registry v.services (first ++ c.0 ∷ last) =
      ap
        (λ services.
          build_interest_registry services (classes (classify_all services (before ++ m ∷ behind))))
        one
      ∙ ap (build_interest_registry v.services)
          (classify_all-at v.services before m behind on classed) in
    (
      address,
      there,
      λ log signature rest at topics wanted_there.
          ap (λ r. is_log_interesting r log) registry
          ∙ asked_log_is_interesting v.services (first ++ c.0 ∷ last) log signature rest topics (
              any-at (asks v.services log.address signature) first c.0 last (
                asked v.services c.0 address log.address signature (caps ∙ logs) bound there at
                  wanted_there)),
    )
