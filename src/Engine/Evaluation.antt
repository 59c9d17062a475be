-- ===== src/Engine/Evaluation.antt =====
-- crates/argus-engine/src/filtering.rs: the context of an evaluation, with its caches, and the
-- matches that it creates. What the
-- ABI service decodes is `Decoder`; what a compiled script answers, which its text names, is `eval`.
use argus_rs.Base.{
  Bool, HashMap, List, Option, String, [], contains, get, if◌then◌else◌, insert, map, nat_key, none,
  pair_key, some, string_key, ℕ, ◌++◌, ◌∷◌,
}
use argus_rs.Core.Chain.{Log, Transaction, CorrelatedBlockItem}
use argus_rs.Core.Matches.{
  Formats, LogDetails, MonitorMatch, builder, log_match, transaction_match, set_decoded_call, build,
}
use argus_rs.Abi.Values.{DecodedLog, DecodedCall, Json, Printers, serialize_call}
use argus_rs.Abi.Contracts.{Event}
use argus_rs.Scripts.Conversions.{
  Dynamic, build_transaction_map, build_transaction_details_payload, build_log_params_payload,
}
use argus_rs.Monitor.Assets.{Monitor, ClassifiedMonitor, MonitorAssetState}

pub data RhaiError : Type 0 where
  compilation_error runtime_error execution_timeout : RhaiError

pub record Decoder : Type 0 where
  pub peek_event_name : Log → Option Event
  pub decode_log : Log → Option DecodedLog
  pub decode_function_input : Transaction → Option DecodedCall

-- The variables of a script.
pub record Scope : Type 0 where
  pub tx : HashMap String Dynamic
  pub decoded_call : Option DecodedCall
  pub log : Option DecodedLog

pub record Env : Type 0 where
  pub assets : MonitorAssetState
  pub decoder : Decoder
  pub eval : String → Scope → Option Bool
  pub printers : Printers
  pub formats : Formats

-- `LogCacheKey`: a transaction hash and a log index.
abbrev pub LogCacheKey : Type 0
LogCacheKey = ℕ × ℕ

pub record EvaluationContext : Type 0 where
  pub tx_details_cache : Option Json
  pub matches : List MonitorMatch
  pub matched_monitor_ids : List ℕ
  pub decoded_call_cache : Option (Option DecodedCall)
  pub decoded_call_json_cache : Option (Option Json)
  pub decoded_logs_cache : HashMap LogCacheKey (Option DecodedLog)
  pub tx_map_cache : Option (HashMap String Dynamic)

abbrev pub new_context : EvaluationContext
new_context = record {
  tx_details_cache = none;
  matches = [];
  matched_monitor_ids = [];
  decoded_call_cache = none;
  decoded_call_json_cache = none;
  decoded_logs_cache = [];
  tx_map_cache = none;
}

abbrev pub cache_key : Log → Option LogCacheKey
cache_key raw_log = both raw_log.transaction_hash raw_log.log_index
  where
    both : Option ℕ → Option ℕ → Option LogCacheKey
    both (some tx) (some idx) = some (tx, idx)
    both (some tx) none = none
    both none idx = none

-- The log by what the cache holds for it.
abbrev pub decode_cached :
    Env
    → Log
    → EvaluationContext
    → LogCacheKey
    → Option (Option DecodedLog)
    → Option DecodedLog × EvaluationContext
decode_cached env raw_log ctx key (some cached) = (cached, ctx)
decode_cached env raw_log ctx key none = (
  env.decoder.decode_log raw_log,
  record ctx {
    decoded_logs_cache = insert ctx.decoded_logs_cache key (env.decoder.decode_log raw_log);
  },
)

abbrev pub decode_keyed :
    Env → Log → EvaluationContext → Option LogCacheKey → Option DecodedLog × EvaluationContext
decode_keyed env raw_log ctx none = (env.decoder.decode_log raw_log, ctx)
decode_keyed env raw_log ctx (some key) =
    decode_cached env raw_log ctx key (get ctx.decoded_logs_cache key)

unfoldable pub get_or_decode_log :
    Env → Log → EvaluationContext → Option DecodedLog × EvaluationContext
get_or_decode_log env raw_log ctx = decode_keyed env raw_log ctx (cache_key raw_log)

abbrev pub map_cached :
    Env
    → CorrelatedBlockItem
    → EvaluationContext
    → Option (HashMap String Dynamic)
    → HashMap String Dynamic × EvaluationContext
map_cached env item ctx (some m) = (m, ctx)
map_cached env item ctx none =
    let m = build_transaction_map env.printers item.transaction item.receipt in
    (m, record ctx { tx_map_cache = some m })

unfoldable pub get_tx_map :
    Env → CorrelatedBlockItem → EvaluationContext → HashMap String Dynamic × EvaluationContext
get_tx_map env item ctx = map_cached env item ctx ctx.tx_map_cache

abbrev pub details_cached :
    Env → CorrelatedBlockItem → EvaluationContext → Option Json → Json × EvaluationContext
details_cached env item ctx (some details) = (details, ctx)
details_cached env item ctx none =
    let details = build_transaction_details_payload env.printers item.transaction item.receipt in
    (details, record ctx { tx_details_cache = some details })

unfoldable pub get_tx_details :
    Env → CorrelatedBlockItem → EvaluationContext → Json × EvaluationContext
get_tx_details env item ctx = details_cached env item ctx ctx.tx_details_cache

abbrev pub call_json : Env → Option DecodedCall → Option Json
call_json env none = none
call_json env (some call) = some (serialize_call env.printers call)

-- The JSON by what its cache holds, and by what the cache of the call holds.
abbrev pub json_cached :
    Env
    → EvaluationContext
    → Option (Option Json)
    → Option (Option DecodedCall)
    → Option Json × EvaluationContext
json_cached env ctx (some json) call = (json, ctx)
json_cached env ctx none none = (none, ctx)
json_cached env ctx none (some call) =
    (call_json env call, record ctx { decoded_call_json_cache = some (call_json env call) })

unfoldable pub get_decoded_call_json : Env → EvaluationContext → Option Json × EvaluationContext
get_decoded_call_json env ctx =
    json_cached env ctx ctx.decoded_call_json_cache ctx.decoded_call_cache

abbrev pub has_matched : EvaluationContext → ℕ → Bool
has_matched ctx monitor_id = contains ctx.matched_monitor_ids monitor_id

unfoldable pub mark_as_matched : ℕ → EvaluationContext → EvaluationContext
mark_as_matched monitor_id ctx = record ctx {
  matched_monitor_ids = monitor_id ∷ ctx.matched_monitor_ids;
}

abbrev pub call_cached :
    Env
    → CorrelatedBlockItem
    → EvaluationContext
    → Option (Option DecodedCall)
    → Option DecodedCall × EvaluationContext
call_cached env item ctx (some call) = (call, ctx)
call_cached env item ctx none =
    let call = env.decoder.decode_function_input item.transaction in
    (call, record ctx { decoded_call_cache = some call })

-- The call for a script that reads it, decoded at most once.
unfoldable pub get_decoded_call :
    Env
    → CorrelatedBlockItem
    → ClassifiedMonitor
    → EvaluationContext
    → Option DecodedCall × EvaluationContext
get_decoded_call env item cm ctx =
    if cm.caps.call then call_cached env item ctx ctx.decoded_call_cache else (none, ctx)

abbrev pub or_zero : Option ℕ → ℕ
or_zero none = 0
or_zero (some n) = n

abbrev pub printed_call : Env → Option Json → Option String
printed_call env none = none
printed_call env (some json) = some (env.printers.json json)

abbrev pub log_details : Env → DecodedLog → LogDetails
log_details env d = record {
  address = d.log.address;
  log_index = or_zero d.log.log_index;
  name = d.name;
  params = env.printers.json (build_log_params_payload env.printers d.params);
}

unfoldable pub log_match_of :
    Env → CorrelatedBlockItem → Monitor → DecodedLog → Json → Option Json → String → MonitorMatch
log_match_of env item monitor d details call action = build env.formats (
    set_decoded_call
      (log_match
        (builder monitor.id monitor.name action (or_zero item.transaction.block_number)
          item.transaction.hash)
        (log_details env d) (env.printers.json details))
      (printed_call env call))

unfoldable pub tx_match_of :
    Env → CorrelatedBlockItem → Monitor → Json → Option Json → String → MonitorMatch
tx_match_of env item monitor details call action = build env.formats (
    set_decoded_call
      (transaction_match
        (builder monitor.id monitor.name action (or_zero item.transaction.block_number)
          item.transaction.hash)
        (env.printers.json details))
      (printed_call env call))

abbrev pub push_matches : List MonitorMatch → EvaluationContext → EvaluationContext
push_matches ms ctx = record ctx { matches = ctx.matches ++ ms }

unfoldable pub create_log_matches :
    Env → CorrelatedBlockItem → Monitor → DecodedLog → EvaluationContext → EvaluationContext
unfolding get_tx_details get_decoded_call_json mark_as_matched
create_log_matches env item monitor d ctx =
    let (details, ctx1) = get_tx_details env item ctx in
    let (call, ctx2) = get_decoded_call_json env ctx1 in
    mark_as_matched monitor.id
      (push_matches (map (log_match_of env item monitor d details call) monitor.actions) ctx2)

unfoldable pub create_tx_matches :
    Env → CorrelatedBlockItem → Monitor → EvaluationContext → EvaluationContext
unfolding get_tx_details get_decoded_call_json
create_tx_matches env item monitor ctx =
    let (details, ctx1) = get_tx_details env item ctx in
    let (call, ctx2) = get_decoded_call_json env ctx1 in
    push_matches (map (tx_match_of env item monitor details call) monitor.actions) ctx2
