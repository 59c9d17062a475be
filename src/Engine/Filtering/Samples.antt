-- ===== src/Engine/Filtering/Samples.antt =====
-- Two monitors, one of them of logs and transactions, and a transaction with two logs.
use argus_rs.Base.{
  All, Bool, List, String, [], contains, false, get, if◌then◌else◌, insert, map, nat_key, none,
  pair_key, refl, some, string_key, true, ℕ, ◌==◌, ◌∷◌, ◌≡◌,
}
use argus_rs.Core.Chain.{Log, Transaction, legacy, CorrelatedBlockItem, CorrelatedBlockData}
use argus_rs.Core.Matches.{Formats, MonitorMatch}
use argus_rs.Abi.Values.{Printers}
use argus_rs.Abi.Service.{decode_log}
use argus_rs.Abi.Service.Samples.{alloy, service, log_at, reached}
use argus_rs.Monitor.Assets.{active, Monitor, ClassifiedMonitor, MonitorAssetState}
use argus_rs.Engine.Evaluation.{Env, Scope, LogCacheKey}
use argus_rs.Engine.Filtering.{passes_names, evaluate_item}
use argus_rs.Engine.Filtering.Runs.{Tells}
use argus_rs.Engine.Filtering.Exclusive.{evaluate_item-IsExclusive}
use argus_rs.Engine.Filtering.Marks.{is_log_match, IsExclusive}
use argus_rs.Engine.Filtering.Named.{abi_decoder, to_option, kept_by_name, named_logs_are_seen}
use argus_rs.Engine.Filtering.Service.{or_no_matches, run_filtering}

abbrev monitor : ℕ → String → Monitor
monitor id script = record {
  id = id;
  name = script;
  network = "mainnet";
  address = none;
  abi_name = none;
  filter_script = script;
  actions = "mail" ∷ [];
  status = active;
}

abbrev classified : ℕ → String → Bool → ClassifiedMonitor
classified id script reads_logs = record {
  monitor = monitor id script;
  caps = record { tx = true; log = reads_logs; call = reads_logs };
  analysis = record {
    accessed_variables = [];
    accesses_log_variable = reads_logs;
    local_variables = [];
    accesses_call_variable = reads_logs;
    accessed_log_event_names = if reads_logs then "Transfer" ∷ [] else [];
  };
}

abbrev assets : MonitorAssetState
assets = record {
  monitors_by_id = (1, classified 1 "hybrid" true) ∷ (2, classified 2 "any" false) ∷ [];
  tx_aware_monitors = 1 ∷ 2 ∷ [];
  log_aware_monitors = 1 ∷ [];
  interest_registry = record {
    log_interests = [];
    calldata_addresses = [];
    global_event_signatures = [];
  };
  requires_receipts = false;
  has_transaction_only_monitors = true;
}

abbrev printers : Printers
printers = record {
  to_checksum = λ a. "a";
  hash = λ h. "h";
  hex = λ b. "x";
  integer = λ i. "1";
  json = λ j. "j";
}

-- Every script holds of every scope.
abbrev env : Env
env = record {
  assets = assets;
  decoder = abi_decoder alloy service;
  eval = λ script scope. some true;
  printers = printers;
  formats = record { number = λ n. "1"; hash = λ h. "h" };
}

abbrev transaction : Transaction
transaction = record {
  hash = 2;
  sender = 8;
  receiver = some 100;
  value = 5;
  gas_limit = 1;
  nonce = 1;
  input = 0 ∷ 0 ∷ 0 ∷ 7 ∷ [];
  block_number = some 1;
  transaction_index = some 0;
  tx_type = legacy;
  gas_price = some 1;
  max_fee_per_gas = 0;
  max_priority_fee_per_gas = none;
}

abbrev item : CorrelatedBlockItem
item = record {
  transaction = transaction;
  logs = log_at 100 (9 ∷ []) ∷ log_at 100 [] ∷ [];
  receipt = none;
}

-- One log decodes: the first monitor matches it and not the transaction, the second the transaction.
abbrev one_log : CorrelatedBlockItem
one_log = record item { logs = log_at 100 (9 ∷ []) ∷ [] }

abbrev source : LogCacheKey → Log
source k = log_at 100 (9 ∷ [])

tells : All (Tells env one_log source) one_log.logs
tells = (λ k e. refl, tt)

abbrev found : List MonitorMatch
found = or_no_matches (evaluate_item env one_log)

kinds : map is_log_match found ≡ true ∷ false ∷ []
unfolding evaluate_item get argus_rs.Abi.Service.peek_event_name argus_rs.Abi.Service.link_abi
    argus_rs.Abi.Service.add_global_abi argus_rs.Abi.Service.register_abi insert
    argus_rs.Abi.Contracts.cached_contract contains decode_log
    argus_rs.Engine.Evaluation.log_match_of argus_rs.Engine.Evaluation.tx_match_of
    argus_rs.Core.Matches.build argus_rs.Core.Matches.set_decoded_call
    argus_rs.Core.Matches.log_match argus_rs.Core.Matches.transaction_match
kinds = refl

-- The second monitor reads no call. Its match shows the call where the first monitor was evaluated
-- before it, and does not where it is alone.
abbrev alone : Env
alone = record env {
  assets = record assets { tx_aware_monitors = 2 ∷ []; log_aware_monitors = [] };
}

call_is_shown : map (λ (m : MonitorMatch). m.decoded_call) found ≡ some "j" ∷ some "j" ∷ []
unfolding evaluate_item get argus_rs.Abi.Service.peek_event_name argus_rs.Abi.Service.link_abi
    argus_rs.Abi.Service.add_global_abi argus_rs.Abi.Service.register_abi insert
    argus_rs.Abi.Contracts.cached_contract contains decode_log
    argus_rs.Engine.Evaluation.log_match_of argus_rs.Engine.Evaluation.tx_match_of
    argus_rs.Core.Matches.build argus_rs.Core.Matches.set_decoded_call
    argus_rs.Abi.Calls.decode_function_input
call_is_shown = refl

call_is_not_shown :
    map (λ (m : MonitorMatch). m.decoded_call) (or_no_matches (evaluate_item alone one_log))
    ≡ none ∷ []
unfolding evaluate_item get contains argus_rs.Engine.Evaluation.tx_match_of
    argus_rs.Core.Matches.build argus_rs.Core.Matches.set_decoded_call
call_is_not_shown = refl

evaluate_item-IsExclusive_example : IsExclusive found
unfolding evaluate_item get argus_rs.Abi.Service.peek_event_name argus_rs.Abi.Service.link_abi
    argus_rs.Abi.Service.add_global_abi argus_rs.Abi.Service.register_abi insert
    argus_rs.Abi.Contracts.cached_contract contains decode_log
evaluate_item-IsExclusive_example = evaluate_item-IsExclusive env one_log source found tells refl

named_logs_are_seen_example :
    (if passes_names env (classified 1 "hybrid" true) (log_at 100 (9 ∷ []))
      then env.decoder.decode_log (log_at 100 (9 ∷ []))
      else none)
    ≡ kept_by_name ("Transfer" ∷ []) (to_option (decode_log alloy service (log_at 100 (9 ∷ []))))
named_logs_are_seen_example =
    named_logs_are_seen reached env refl (classified 1 "hybrid" true) (log_at 100 (9 ∷ []))

-- The second of three blocks panics.
abbrev block : CorrelatedBlockData
block = record { block_number = 1; items = one_log ∷ [] }

panicking_block_is_lost :
    (run_filtering env
      (λ k. k == 1)
      (λ k. false)
      (block ∷ block ∷ block ∷ [])
      (record { sent = []; blocks = 0; sends = 0 })).sent
    ≡ found ∷ found ∷ []
unfolding run_filtering evaluate_item get argus_rs.Abi.Service.peek_event_name
    argus_rs.Abi.Service.link_abi argus_rs.Abi.Service.add_global_abi
    argus_rs.Abi.Service.register_abi insert argus_rs.Abi.Contracts.cached_contract contains
    decode_log
panicking_block_is_lost = refl
