-- ===== src/Engine/Filtering/Reference.antt =====
-- The evaluation of an item with no caches, no scope that is kept and each log decoded anew.
use argus_rs.Base.{
  Bool, HashMap, List, Option, Result, String, [], contains, err, false, if◌then◌else◌, map,
  nat_key, none, ok, pair_key, some, string_key, true, ℕ, ◌++◌, ◌||◌, ◌∷◌,
}
use argus_rs.Core.Chain.{Log, CorrelatedBlockItem}
use argus_rs.Core.Matches.{MonitorMatch}
use argus_rs.Abi.Values.{DecodedLog, DecodedCall, Json}
use argus_rs.Scripts.Conversions.{Dynamic, build_transaction_map, build_transaction_details_payload}
use argus_rs.Monitor.Assets.{ClassifiedMonitor}
use argus_rs.Engine.Evaluation.{Env, RhaiError, runtime_error, call_json, log_match_of, tx_match_of}
use argus_rs.Engine.Filtering.{passes_names, in_service}

-- What an evaluation has found so far, and whether the call of the transaction was decoded for one of
-- the monitors: only then do the matches show it.
pub record Outcome : Type 0 where
  pub matches : List MonitorMatch
  pub matched : List ℕ
  pub call_decoded : Bool

abbrev pub nothing : Outcome
nothing = record { matches = []; matched = []; call_decoded = false }

module _ (env : Env) (item : CorrelatedBlockItem) where
  abbrev pub the_map : HashMap String Dynamic
  the_map = build_transaction_map env.printers item.transaction item.receipt

  abbrev pub the_details : Json
  the_details = build_transaction_details_payload env.printers item.transaction item.receipt

  abbrev pub the_call : Option DecodedCall
  the_call = env.decoder.decode_function_input item.transaction

  abbrev pub call_of : ClassifiedMonitor → Option DecodedCall
  call_of cm = if cm.caps.call then the_call else none

  abbrev pub json_of : Bool → Option Json
  json_of decoded = if decoded then call_json env the_call else none

  abbrev pub answer : ClassifiedMonitor → Option DecodedLog → Option Bool
  answer cm log =
      env.eval cm.monitor.filter_script
        (record { tx = the_map; decoded_call = call_of cm; log = log })

  -- The log as a monitor sees it.
  abbrev pub seen : ClassifiedMonitor → Log → Option DecodedLog
  seen cm raw_log = if passes_names env cm raw_log then env.decoder.decode_log raw_log else none

  abbrev pub decoded_for : ClassifiedMonitor → Outcome → Outcome
  decoded_for cm o = record o { call_decoded = o.call_decoded || cm.caps.call }

  abbrev pub with_log_match : ClassifiedMonitor → DecodedLog → Outcome → Outcome
  with_log_match cm d o = record o {
    matches =
        o.matches
        ++ map (log_match_of env item cm.monitor d the_details (json_of o.call_decoded))
            cm.monitor.actions;
    matched = cm.monitor.id ∷ o.matched;
  }

  abbrev pub with_tx_match : ClassifiedMonitor → Outcome → Outcome
  with_tx_match cm o = record o {
    matches =
        o.matches
        ++ map (tx_match_of env item cm.monitor the_details (json_of o.call_decoded))
            cm.monitor.actions;
  }

  unfoldable pub log_step : ClassifiedMonitor → DecodedLog → Outcome → Result RhaiError Outcome
  log_step cm d o = elim (answer cm (some d)) [
    | none ↦ err runtime_error
    | some hit ↦ ok (if hit then with_log_match cm d (decoded_for cm o) else decoded_for cm o)
  ]

  unfoldable pub logs_pass : ClassifiedMonitor → List Log → Outcome → Result RhaiError Outcome
  unfolding log_step
  logs_pass cm [] o = ok o
  logs_pass cm (raw_log ∷ logs) o = elim (seen cm raw_log) [
    | none ↦ logs_pass cm logs o
    | some d ↦ elim (log_step cm d o) [ err e ↦ err e | ok o' ↦ logs_pass cm logs o' ]
  ]

  unfoldable pub log_pass : List ClassifiedMonitor → Outcome → Result RhaiError Outcome
  unfolding logs_pass
  log_pass [] o = ok o
  log_pass (cm ∷ cms) o = elim (logs_pass cm item.logs o) [
    | err e ↦ err e
    | ok o' ↦ log_pass cms o'
  ]

  unfoldable pub tx_step : ClassifiedMonitor → Outcome → Result RhaiError Outcome
  tx_step cm o = elim (contains o.matched cm.monitor.id) [
    | true ↦ ok o
    | false ↦ elim (answer cm none) [
      | none ↦ err runtime_error
      | some hit ↦ ok (if hit then with_tx_match cm (decoded_for cm o) else decoded_for cm o)
    ]
  ]

  unfoldable pub tx_pass : List ClassifiedMonitor → Outcome → Result RhaiError Outcome
  unfolding tx_step
  tx_pass [] o = ok o
  tx_pass (cm ∷ cms) o = elim (tx_step cm o) [ err e ↦ err e | ok o' ↦ tx_pass cms o' ]

  unfoldable pub reference : Result RhaiError Outcome
  unfolding log_pass tx_pass
  reference = elim (log_pass (in_service env.assets env.assets.log_aware_monitors) nothing) [
    | err e ↦ err e
    | ok o ↦ tx_pass (in_service env.assets env.assets.tx_aware_monitors) o
  ]
