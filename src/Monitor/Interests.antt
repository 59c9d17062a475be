-- ===== src/Monitor/Interests.antt =====
-- crates/argus-monitor/src/interest_registry.rs. A hash set is a list of its members.
pub mod Coverage
use argus_rs.Base.{
  Bool, HashMap, List, Option, String, [], false, get, if◌then◌else◌, insert, is_empty, leb, map,
  nat_key, none, not, some, string_key, true, ℕ, ◌&&◌, ◌++◌, ◌+◌, ◌==◌, ◌∷◌,
}
use argus_rs.Core.Payload.{codes}
use argus_rs.Core.Registry.{InterestRegistry}
use argus_rs.Abi.Contracts.{JsonAbi, Event}
use argus_rs.Monitor.Assets.{Services, ClassifiedMonitor}

pub record InterestRegistryBuilder : Type 0 where
  pub log_interests : HashMap ℕ (Option (List ℕ))
  pub calldata_addresses : List ℕ
  pub global_event_signatures : List ℕ

abbrev pub default_builder : InterestRegistryBuilder
default_builder = record {
  log_interests = [];
  calldata_addresses = [];
  global_event_signatures = [];
}

abbrev lower : ℕ → ℕ
lower c = if leb 65 c && leb c 90 then c + 32 else c

same_codes : List ℕ → List ℕ → Bool
same_codes [] [] = true
same_codes [] (b ∷ bs) = false
same_codes (a ∷ as') [] = false
same_codes (a ∷ as') (b ∷ bs) = lower a == lower b && same_codes as' bs

-- `a.eq_ignore_ascii_case("all")`
unfoldable pub is_all : String → Bool
unfolding same_codes
is_all a = same_codes (codes a) (codes "all")

abbrev selectors : List Event → List ℕ
selectors events = map (λ (e : Event). e.selector) events

abbrev or_none : Option (List Event) → List ℕ
or_none none = []
or_none (some events) = selectors events

-- The events of the names that the script accesses, or all of them.
unfoldable pub named_signatures : JsonAbi → List String → List ℕ
named_signatures abi [] = []
named_signatures abi (name ∷ names) = or_none (get abi.events name) ++ named_signatures abi names

unfoldable pub all_signatures : HashMap String (List Event) → List ℕ
all_signatures [] = []
all_signatures ((name, es) ∷ events) = selectors es ++ all_signatures events

unfoldable pub get_signatures_for_monitor : ClassifiedMonitor → JsonAbi → List ℕ
unfolding named_signatures all_signatures
get_signatures_for_monitor cm abi =
    if is_empty cm.analysis.accessed_log_event_names
    then all_signatures abi.events
    else named_signatures abi cm.analysis.accessed_log_event_names

-- The monitor's address, if it is there and parses.
unfoldable pub parsed_address : Services → ClassifiedMonitor → Option ℕ
parsed_address services cm = elim cm.monitor.address [
  | none ↦ none
  | some a ↦ services.parse_address a
]

unfoldable pub add_calldata_interest :
    Services → ClassifiedMonitor → InterestRegistryBuilder → InterestRegistryBuilder
unfolding parsed_address
add_calldata_interest services cm b = elim (parsed_address services cm) [
  | none ↦ b
  | some addr ↦
      if cm.caps.call then record b { calldata_addresses = addr ∷ b.calldata_addresses } else b
]

unfoldable pub add_global_event_signature :
    Services → ClassifiedMonitor → InterestRegistryBuilder → InterestRegistryBuilder
unfolding get_signatures_for_monitor
add_global_event_signature services cm b = elim cm.monitor.abi_name [
  | none ↦ b
  | some abi_name ↦ elim (services.get_abi_by_name abi_name) [
    | none ↦ b
    | some abi ↦ record b {
      global_event_signatures = b.global_event_signatures ++ get_signatures_for_monitor cm abi;
    }
  ]
]

-- What a monitor with an address wants to see of it: `none` for everything, as where there is no ABI
-- for the address, or another than the monitor names.
unfoldable pub wanted : Services → ClassifiedMonitor → ℕ → Option (List ℕ)
unfolding get_signatures_for_monitor
wanted services cm address = elim cm.monitor.abi_name [
  | none ↦ none
  | some abi_name ↦ elim (services.get_abi address) [
    | none ↦ none
    | some abi ↦ elim (services.get_abi_by_name abi_name) [
      | none ↦ some (get_signatures_for_monitor cm abi)
      | some repo_abi ↦
          if abi.allocation == repo_abi.allocation
          then some (get_signatures_for_monitor cm abi)
          else none
    ]
  ]
]

-- What an address's entry becomes. Broad mode stays.
unfoldable pub widened : Option (Option (List ℕ)) → Option (List ℕ) → Option (List ℕ)
widened (some none) wish = none
widened none wish = wish
widened (some (some signatures)) none = none
widened (some (some signatures)) (some more) = some (signatures ++ more)

unfoldable pub add_address_interest :
    Services → ClassifiedMonitor → ℕ → InterestRegistryBuilder → InterestRegistryBuilder
unfolding wanted widened
add_address_interest services cm address b = record b {
  log_interests =
      insert b.log_interests address
        (widened (get b.log_interests address) (wanted services cm address));
}

unfoldable pub is_global : ClassifiedMonitor → Bool
unfolding is_all
is_global cm = elim cm.monitor.address [ none ↦ false | some a ↦ is_all a ]

unfoldable pub add_log_interest :
    Services → ClassifiedMonitor → InterestRegistryBuilder → InterestRegistryBuilder
unfolding add_global_event_signature add_address_interest parsed_address is_global
add_log_interest services cm b =
    if not cm.caps.log
    then b
    else if is_global cm
    then add_global_event_signature services cm b
    else elim (parsed_address services cm) [
      | none ↦ b
      | some a ↦ add_address_interest services cm a b
    ]

-- `add`
unfoldable pub add_monitor :
    Services → ClassifiedMonitor → InterestRegistryBuilder → InterestRegistryBuilder
unfolding add_calldata_interest add_log_interest
add_monitor services cm b = add_log_interest services cm (add_calldata_interest services cm b)

unfoldable pub build_registry : InterestRegistryBuilder → InterestRegistry
build_registry b = record {
  log_interests = b.log_interests;
  calldata_addresses = b.calldata_addresses;
  global_event_signatures = b.global_event_signatures;
}

-- `MonitorManager::build_interest_registry`
unfoldable pub add_monitors :
    Services → List ClassifiedMonitor → InterestRegistryBuilder → InterestRegistryBuilder
unfolding add_monitor
add_monitors services [] b = b
add_monitors services (cm ∷ cms) b = add_monitors services cms (add_monitor services cm b)

unfoldable pub build_interest_registry : Services → List ClassifiedMonitor → InterestRegistry
unfolding add_monitors build_registry
build_interest_registry services cms = build_registry (add_monitors services cms default_builder)
