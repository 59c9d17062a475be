-- ===== src/Monitor/Manager.antt =====
-- crates/argus-monitor/src/manager.rs: classification of monitors and their organisation.
pub mod Classes
use argus_rs.Base.{
  Bool, HashMap, List, Option, String, [], any, contains, false, if◌then◌else◌, insert, map,
  nat_key, none, not, some, string_key, true, ℕ, ◌&&◌, ◌==◌, ◌||◌, ◌∷◌,
}
use text.Mathlib.Text.{starts_with}
use argus_rs.Monitor.Assets.{
  MonitorStatus, active, paused, Monitor, ScriptAnalysis, Services, MonitorCapabilities,
  ClassifiedMonitor, MonitorAssetState,
}
use argus_rs.Core.Registry.{InterestRegistry}
use argus_rs.Monitor.Interests.{build_interest_registry}

abbrev pub receipt_fields : List String
receipt_fields = "tx.gas_used" ∷ "tx.status" ∷ "tx.effective_gas_price" ∷ []

abbrev pub is_call_variable : String → Bool
is_call_variable v = starts_with v "decoded_call." || v == "decoded_call"

-- The capabilities, of the transaction where there would be none.
unfoldable pub capabilities : ScriptAnalysis → MonitorCapabilities
capabilities a =
    let tx = any (λ v. starts_with v "tx.") a.accessed_variables in
    let call = any is_call_variable a.accessed_variables in
    record {
      tx = tx || not (a.accesses_log_variable || call);
      log = a.accesses_log_variable;
      call = call;
    }

-- A monitor with whether it needs receipts; `none` if its script cannot be analyzed.
unfoldable pub classify_monitor : Services → Monitor → Option (ClassifiedMonitor × Bool)
unfolding capabilities
classify_monitor services monitor = elim (services.analyze_script monitor.filter_script) [
  | none ↦ none
  | some analysis ↦ some (
    record { monitor = monitor; caps = capabilities analysis; analysis = analysis },
    any (λ v. contains receipt_fields v) analysis.accessed_variables,
  )
]

abbrev pub is_active : MonitorStatus → Bool
is_active active = true
is_active paused = false

-- The active monitors that can be classified.
unfoldable pub classify_all : Services → List Monitor → List (ClassifiedMonitor × Bool)
unfolding classify_monitor
classify_all services [] = []
classify_all services (m ∷ ms) =
    let rest = classify_all services ms in
    if is_active m.status
    then elim (classify_monitor services m) [ none ↦ rest | some c ↦ c ∷ rest ]
    else rest

abbrev pub is_tx_aware : MonitorCapabilities → Bool
is_tx_aware caps = caps.tx || caps.call

-- `caps == MonitorCapabilities::TX`
abbrev pub is_tx_only : MonitorCapabilities → Bool
is_tx_only caps = caps.tx && not caps.log && not caps.call

abbrev pub push_if : Bool → ℕ → List ℕ → List ℕ
push_if true id ids = id ∷ ids
push_if false id ids = ids

-- The identifiers of the monitors to evaluate against transactions, and against logs.
unfoldable pub tx_aware : List ClassifiedMonitor → List ℕ
tx_aware [] = []
tx_aware (cm ∷ cms) = push_if (is_tx_aware cm.caps || not cm.caps.log) cm.monitor.id (tx_aware cms)

unfoldable pub log_aware : List ClassifiedMonitor → List ℕ
log_aware [] = []
log_aware (cm ∷ cms) = push_if cm.caps.log cm.monitor.id (log_aware cms)

unfoldable pub by_id :
    List ClassifiedMonitor → HashMap ℕ ClassifiedMonitor → HashMap ℕ ClassifiedMonitor
by_id [] m = m
by_id (cm ∷ cms) m = by_id cms (insert m cm.monitor.id cm)

abbrev pub classes : List (ClassifiedMonitor × Bool) → List ClassifiedMonitor
classes cs = map (λ (c : ClassifiedMonitor × Bool). c.0) cs

unfoldable pub organize_assets : Services → List Monitor → MonitorAssetState
unfolding classify_all tx_aware log_aware by_id
organize_assets services monitors =
    let classified = classify_all services monitors in
    record {
      monitors_by_id = by_id (classes classified) [];
      tx_aware_monitors = tx_aware (classes classified);
      log_aware_monitors = log_aware (classes classified);
      interest_registry = build_interest_registry services (classes classified);
      requires_receipts = any (λ (c : ClassifiedMonitor × Bool). c.1) classified;
      has_transaction_only_monitors =
          any (λ (c : ClassifiedMonitor × Bool). is_tx_only c.0.caps) classified;
    }

-- The manager, whose swapped snapshot is its state.
pub record MonitorManager : Type 0 where
  pub services : Services
  pub state : MonitorAssetState

abbrev pub new : Services → List Monitor → MonitorManager
new services initial_monitors = record {
  services = services;
  state = organize_assets services initial_monitors;
}

abbrev pub update : MonitorManager → List Monitor → MonitorManager
update manager monitors = record manager { state = organize_assets manager.services monitors }

-- What the data source reads through `registry_provider`.
abbrev pub interest_registry_of : MonitorManager → InterestRegistry
interest_registry_of manager = manager.state.interest_registry
