-- ===== src/Monitor/Assets.antt =====
-- The data of crates/argus-monitor/src/manager.rs: monitors, what their scripts access, and the
-- snapshot that the services load. What the Rhai compiler, the ABI service and alloy answer is
-- `Services`.
use argus_rs.Base.{Bool, HashMap, List, Option, String, nat_key, string_key, ℕ}
use argus_rs.Abi.Contracts.{JsonAbi}
use argus_rs.Core.Registry.{InterestRegistry}

pub data MonitorStatus : Type 0 where
  active paused : MonitorStatus

pub record Monitor : Type 0 where
  pub id : ℕ
  pub name : String
  pub network : String
  pub address : Option String
  pub abi_name : Option String
  pub filter_script : String
  pub actions : List String
  pub status : MonitorStatus

-- `ScriptAnalysis` of crates/argus-rhai/src/compiler.rs, less the tree of the script.
pub record ScriptAnalysis : Type 0 where
  pub accessed_variables : List String
  pub accesses_log_variable : Bool
  pub local_variables : List String
  pub accesses_call_variable : Bool
  pub accessed_log_event_names : List String

pub record Services : Type 0 where
  pub analyze_script : String → Option ScriptAnalysis
  pub parse_address : String → Option ℕ
  pub get_abi : ℕ → Option JsonAbi
  pub get_abi_by_name : String → Option JsonAbi

pub record MonitorCapabilities : Type 0 where
  pub tx : Bool
  pub log : Bool
  pub call : Bool

pub record ClassifiedMonitor : Type 0 where
  pub monitor : Monitor
  pub caps : MonitorCapabilities
  pub analysis : ScriptAnalysis

pub record MonitorAssetState : Type 0 where
  pub monitors_by_id : HashMap ℕ ClassifiedMonitor
  pub tx_aware_monitors : List ℕ
  pub log_aware_monitors : List ℕ
  pub interest_registry : InterestRegistry
  pub requires_receipts : Bool
  pub has_transaction_only_monitors : Bool
