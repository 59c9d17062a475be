-- ===== src/Engine/Alerts/Samples.antt =====
-- The alert manager on a repository that keeps the names of what it takes.
use argus_rs.Engine.Alerts.Throttling.{
  handle_throttle_all_within_limit, enqueue_each, handle_throttle_all,
}
use argus_rs.Engine.Alerts.Dispatch.{
  IsBare, enqueued, states_written, full_windows, contents, process_matches_batch-immediate,
  is_configured, flush_takes_all, IsEmptied,
}
use argus_rs.Engine.Alerts.Aggregation.{
  handle_aggregation-HasDistinctIds, collected, HasDistinctIds,
}
use argus_rs.Base.{
  none-ne-some, some_inj, sym, ap, All, Bool, HashMap, List, String, [], any, arith, err, false,
  get, if◌then◌else◌, insert, keep, length, ltb, map, nat_key, none, ok, refl, some, string_key,
  take, true, ◌++◌, ◌==◌, ◌∷◌, ◌≡◌,
}
use argus_rs.Core.Matches.{MonitorMatch, transaction_data}
use argus_rs.Core.Errors.{operation_failed}
use argus_rs.Core.Actions.{ActionConfig, aggregation, throttle}
use argus_rs.Core.Payload.{single, ActionPayload}
use argus_rs.Engine.Alerts.{
  or_default, write_all, flush, sync_states_to_db, renew, expire, expire_all,
  dispatch_payloads_batch, admit, process_matches_batch, handle_throttle, handle_aggregation,
  check_and_dispatch_expired_windows, Repository, Env, AlertManager,
}

-- A repository that takes two batches and then fails.
abbrev repository : Repository (List String)
repository = record {
  enqueue_outbox_batch = λ items taken.
      if ltb (length taken) 2
      then (ok tt, taken ++ map (λ (i : String × ActionPayload). i.0) items)
      else (err operation_failed, taken);
  set_json_state = λ key state taken. (ok tt, taken);
}

abbrev actions : HashMap String ActionConfig
actions =
    (
      "limited",
      record {
        id = none;
        name = "limited";
        policy = some (throttle (record { max_count = 3; time_window = 60 }));
      },
    )
    ∷ (
      "bundled",
      record {
        id = none;
        name = "bundled";
        policy =
            some
              (aggregation (record { window = 60; template = record { title = "t"; body = "b" } }));
      },
    )
    ∷ ("plain", record { id = none; name = "plain"; policy = none })
    ∷ []

abbrev env : Env (List String)
env = record { repository = repository; actions = actions; clock = λ i. 100 }

abbrev a_match : String → String → MonitorMatch
a_match id action = record {
  id = id;
  monitor_id = 1;
  monitor_name = "m";
  action_name = action;
  block_number = 5;
  transaction_hash = 9;
  match_data = transaction_data "{}";
  decoded_call = none;
}

abbrev s : AlertManager (List String)
s = record {
  store = [];
  generated_alerts = [];
  throttle_states = ("limited", record { count = 1; window_start_time = 90 }) ∷ [];
  aggregation_states =
      ("bundled", record { matches = a_match "1" "bundled" ∷ []; window_start_time = 90 }) ∷ [];
  ticks = 0;
}

abbrev four : List MonitorMatch
four =
    a_match "1" "limited"
    ∷ a_match "2" "limited"
    ∷ a_match "3" "limited"
    ∷ a_match "4" "limited"
    ∷ []

handle_throttle_all_within_limit_example :
    (handle_throttle_all env (record { max_count = 3; time_window = 60 }) four s).store
    ≡ enqueue_each repository (take 2 four) []
unfolding get
handle_throttle_all_within_limit_example =
    handle_throttle_all_within_limit env (record { max_count = 3; time_window = 60 }) "limited" four
      (record { count = 1; window_start_time = 90 }) s (refl, (refl, (refl, (refl, tt)))) refl
      (λ i. omega arith) (omega arith)

distinct : (name : String) → HasDistinctIds (collected s name)
unfolding get any
distinct name = either ("bundled" == name)
  where
    either :
        (b : Bool)
        → HasDistinctIds
            (or_default (
              if b
              then some (record { matches = a_match "1" "bundled" ∷ []; window_start_time = 90 })
              else none)).matches
    either true = (refl, tt)
    either false = tt

handle_aggregation-HasDistinctIds_example :
    HasDistinctIds (collected (handle_aggregation env (a_match "2" "bundled") s).1 "bundled")
handle_aggregation-HasDistinctIds_example =
    handle_aggregation-HasDistinctIds env (a_match "2" "bundled") s distinct "bundled"

some_matches : All (IsBare env.actions) (a_match "1" "plain" ∷ a_match "2" "gone" ∷ [])
unfolding get
some_matches = (
  λ config e. ap (λ (c : ActionConfig). c.policy) (sym (some_inj e)),
  (λ config e. absurd (none-ne-some e), tt),
)

process_matches_batch-immediate_example :
    process_matches_batch env (a_match "1" "plain" ∷ a_match "2" "gone" ∷ []) s
    ≡ dispatch_payloads_batch env
        (map single
          (keep (is_configured env.actions) (a_match "1" "plain" ∷ a_match "2" "gone" ∷ [])))
        s
process_matches_batch-immediate_example =
    process_matches_batch-immediate env (a_match "1" "plain" ∷ a_match "2" "gone" ∷ []) some_matches
      s

flush_takes_all_example :
    (ps : List ActionPayload) × (map contents ps ≡ full_windows s.aggregation_states)
    × ((flush env s).1.store ≡ states_written env (flush env s).1 (enqueued env ps s.store))
    × All IsEmptied (flush env s).1.aggregation_states
unfolding get
flush_takes_all_example = flush_takes_all env s ((_, _, refl, refl), tt)

-- The throttle counts a match whose enqueue failed.
failed_enqueue_counts :
    (handle_throttle env
      (a_match "1" "limited")
      (record { max_count = 3; time_window = 60 })
      (record s { store = "x" ∷ "y" ∷ [] })).1.throttle_states
    ≡ ("limited", record { count = 2; window_start_time = 90 }) ∷ []
unfolding handle_throttle admit renew dispatch_payloads_batch get insert
failed_enqueue_counts = refl

-- A flush whose enqueue fails has taken the matches out of their window.
failed_flush_loses :
    ((flush env (record s { store = "x" ∷ "y" ∷ [] })).1.store ≡ "x" ∷ "y" ∷ [])
    × (collected (flush env (record s { store = "x" ∷ "y" ∷ [] })).1 "bundled" ≡ [])
unfolding check_and_dispatch_expired_windows expire_all expire dispatch_payloads_batch
    sync_states_to_db write_all get
failed_flush_loses = (refl, refl)
