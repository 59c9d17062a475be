-- ===== src/Monitor/Samples.antt =====
-- A monitor of one address, a paused one and a global one.
use argus_rs.Monitor.Interests.Coverage.{
  is_calldata_interesting_exact, build_interest_registry_exact, calls, asks, covers,
}
use argus_rs.Monitor.Interests.{
  widened, add_address_interest, add_global_event_signature, is_all, add_calldata_interest,
  is_global, add_log_interest, parsed_address, add_monitor, named_signatures, add_monitors,
  get_signatures_for_monitor, build_registry, wanted, build_interest_registry,
}
use argus_rs.Base.{
  List, String, [], any, contains, false, get, if◌then◌else◌, insert, nat_key, none, refl, some,
  string_key, true, ℕ, ◌==◌, ◌∷◌, ◌≡◌,
}
use argus_rs.Core.Chain.{Log}
use argus_rs.Core.Registry.{is_log_interesting, is_calldata_interesting}
use argus_rs.Abi.Contracts.{JsonAbi, Event}
use argus_rs.Monitor.Assets.{
  active, Monitor, MonitorStatus, ScriptAnalysis, Services, ClassifiedMonitor,
}

abbrev event : String → ℕ → Event
event name selector = record { name = name; inputs = []; selector = selector }

abbrev abi : JsonAbi
abi = record {
  allocation = 1;
  functions = [];
  events = ("Transfer", event "Transfer" 11 ∷ []) ∷ ("Approval", event "Approval" 12 ∷ []) ∷ [];
}

-- The script is the name of the event that it looks for.
abbrev analysis : String → ScriptAnalysis
analysis script = record {
  accessed_variables = "log.name" ∷ [];
  accesses_log_variable = true;
  local_variables = [];
  accesses_call_variable = false;
  accessed_log_event_names = script ∷ [];
}

abbrev services : Services
services = record {
  analyze_script = λ script. some (analysis script);
  parse_address = λ a. if a == "0x07" then some 7 else none;
  get_abi = λ a. if a == 7 then some abi else none;
  get_abi_by_name = λ n. if n == "erc20" then some abi else none;
}

abbrev monitor : ℕ → String → String → MonitorStatus → Monitor
monitor id address script status = record {
  id = id;
  name = "m";
  network = "testnet";
  address = some address;
  abi_name = some "erc20";
  filter_script = script;
  actions = [];
  status = status;
}

abbrev classified : ℕ → String → String → ClassifiedMonitor
classified id address script = record {
  monitor = monitor id address script active;
  caps = record { tx = false; log = true; call = false };
  analysis = analysis script;
}

abbrev both : List ClassifiedMonitor
both = classified 1 "0x07" "Transfer" ∷ classified 2 "ALL" "Approval" ∷ []

abbrev log_of : ℕ → Log
log_of signature = record {
  address = 7;
  topics = signature ∷ [];
  payload = [];
  block_number = some 3;
  transaction_hash = some 101;
  log_index = some 0;
}

build_interest_registry_exact_example :
    covers (get (build_interest_registry services both).log_interests 7) 11
    ≡ any (asks services 7 11) both
build_interest_registry_exact_example = build_interest_registry_exact services both 7 11

is_calldata_interesting_exact_example :
    is_calldata_interesting (build_interest_registry services both) (some 7)
    ≡ any (calls services 7) both
is_calldata_interesting_exact_example = is_calldata_interesting_exact services both 7

-- The event of the global monitor is not interesting at the address of the other.
global_event_is_shadowed :
    (contains (build_interest_registry services both).global_event_signatures 12 ≡ true)
    × (is_log_interesting (build_interest_registry services both) (log_of 12) ≡ false)
unfolding build_interest_registry build_registry add_monitors add_monitor add_log_interest
    add_calldata_interest add_global_event_signature add_address_interest widened wanted
    get_signatures_for_monitor named_signatures get insert contains parsed_address is_global is_all
    is_log_interesting
global_event_is_shadowed = (refl, refl)
