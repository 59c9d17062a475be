-- ===== src/Engine/Filtering/Declared.antt =====
-- What the evaluation of an item finds, said of each monitor and each log by itself: no state runs
-- through it. Whether a match shows the call depends on the monitors that stand before its own.
use argus_rs.Base.{
  Bool, List, Option, Result, [], any, err, false, if◌then◌else◌, keep, map, nat_key, none, not, ok,
  pair_key, some, string_key, true, ℕ, ◌&&◌, ◌++◌, ◌==◌, ◌||◌, ◌∷◌,
}
use mathlib.Core.List.{flat_map}
use argus_rs.Core.Chain.{Log, CorrelatedBlockItem}
use argus_rs.Core.Matches.{MonitorMatch}
use argus_rs.Abi.Values.{DecodedLog}
use argus_rs.Monitor.Assets.{ClassifiedMonitor}
use argus_rs.Engine.Evaluation.{Env, RhaiError, runtime_error, log_match_of, tx_match_of}
use argus_rs.Engine.Filtering.{in_service}
use argus_rs.Engine.Filtering.Reference.{the_details, json_of, answer, seen}

-- A script that fails, and one that answers true.
abbrev pub refused : Option Bool → Bool
refused none = true
refused (some hit) = false

abbrev pub answered : Option Bool → Bool
answered none = false
answered (some hit) = hit

module _ (env : Env) (item : CorrelatedBlockItem) where
  -- By the log as a monitor sees it, if it does.
  abbrev pub sees_of : Option DecodedLog → Bool
  sees_of none = false
  sees_of (some d) = true

  abbrev pub fails_of : ClassifiedMonitor → Option DecodedLog → Bool
  fails_of cm none = false
  fails_of cm (some d) = refused (answer env item cm (some d))

  abbrev pub hits_of : ClassifiedMonitor → Option DecodedLog → Bool
  hits_of cm none = false
  hits_of cm (some d) = answered (answer env item cm (some d))

  -- A match for each action, which shows the call if `shown` says so.
  abbrev pub matches_of : Bool → ClassifiedMonitor → Option DecodedLog → List MonitorMatch
  matches_of shown cm none = []
  matches_of shown cm (some d) =
      if answered (answer env item cm (some d))
      then map (log_match_of env item cm.monitor d (the_details env item) (json_of env item shown))
          cm.monitor.actions
      else []

  abbrev pub fails_at : ClassifiedMonitor → Log → Bool
  fails_at cm l = fails_of cm (seen env item cm l)

  abbrev pub hits_at : ClassifiedMonitor → Log → Bool
  hits_at cm l = hits_of cm (seen env item cm l)

  abbrev pub sees : ClassifiedMonitor → Log → Bool
  sees cm l = sees_of (seen env item cm l)

  abbrev pub matches_at : Bool → ClassifiedMonitor → Log → List MonitorMatch
  matches_at shown cm l = matches_of shown cm (seen env item cm l)

  -- Does the monitor read the call while it looks at the logs?
  abbrev pub reads_on_logs : ClassifiedMonitor → Bool
  reads_on_logs cm = cm.caps.call && any (sees cm) item.logs

  abbrev pub fails_on_logs : ClassifiedMonitor → Bool
  fails_on_logs cm = any (fails_at cm) item.logs

  -- The matches of logs; the call was read before, or not.
  unfoldable pub log_matches : Bool → List ClassifiedMonitor → List MonitorMatch
  log_matches before [] = []
  log_matches before (cm ∷ cms) =
      flat_map (matches_at (before || cm.caps.call) cm) item.logs
      ++ log_matches (before || reads_on_logs cm) cms

  abbrev pub matched_log : List ClassifiedMonitor → ℕ → Bool
  matched_log cms id = any (λ cm. cm.monitor.id == id && any (hits_at cm) item.logs) cms

  abbrev pub fails_on_transaction : ClassifiedMonitor → Bool
  fails_on_transaction cm = refused (answer env item cm none)

  abbrev pub matches_of_transaction : Bool → ClassifiedMonitor → List MonitorMatch
  matches_of_transaction shown cm =
      if answered (answer env item cm none)
      then map (tx_match_of env item cm.monitor (the_details env item) (json_of env item shown))
          cm.monitor.actions
      else []

  unfoldable pub tx_matches : Bool → List ClassifiedMonitor → List MonitorMatch
  tx_matches before [] = []
  tx_matches before (cm ∷ cms) =
      matches_of_transaction (before || cm.caps.call) cm ++ tx_matches (before || cm.caps.call) cms

  abbrev pub told : Bool → List MonitorMatch → Result RhaiError (List MonitorMatch)
  told true ms = err runtime_error
  told false ms = ok ms

  -- The monitors that look at the transaction: those that matched no log.
  abbrev pub left_over : List ClassifiedMonitor → List ClassifiedMonitor → List ClassifiedMonitor
  left_over log_aware tx_aware = keep (λ cm. not (matched_log log_aware cm.monitor.id)) tx_aware

  unfoldable pub declared : Result RhaiError (List MonitorMatch)
  unfolding log_matches tx_matches
  declared =
      let log_aware = in_service env.assets env.assets.log_aware_monitors in
      let rest = left_over log_aware (in_service env.assets env.assets.tx_aware_monitors) in
      told (any fails_on_logs log_aware || any fails_on_transaction rest)
        (log_matches false log_aware ++ tx_matches (any reads_on_logs log_aware) rest)
