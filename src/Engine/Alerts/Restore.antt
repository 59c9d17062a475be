-- ===== src/Engine/Alerts/Restore.antt =====
-- `AlertManager::new` of crates/argus-engine/src/alert_manager.rs: the states that are restored from the
-- key-value store.
use argus_rs.Base.{
  ok, Exec, HashMap, List, Option, String, [], if◌then◌else◌, insert, nat_key, none, pair_key, some,
  string_key, ◌==◌, ◌>>=◌, ◌∷◌,
}
use Prim.Native.Char.{code}
use argus_rs.Core.Errors.{PersistenceError}
use argus_rs.Core.Actions.{ThrottleState, AggregationState}
use argus_rs.Core.Payload.{ActionPayload}
use argus_rs.Store.Transactions.{Faults}
use argus_rs.Store.KeyValue.{KeyValueDatabase, Serde, set_json_state, get_all_json_states_by_prefix}
use argus_rs.Engine.Alerts.{
  AlertManager, StoredState, throttle_state, aggregation_state, Repository,
}

-- `str::strip_prefix`
unfoldable pub strip_prefix : String → String → Option String
strip_prefix String.[] s = some s
strip_prefix (String.◌∷◌ p ps) String.[] = none
strip_prefix (String.◌∷◌ p ps) (String.◌∷◌ c cs) =
    if code p == code c then strip_prefix ps cs else none

-- The states by the names behind the prefix; a key without the prefix is passed over.
unfoldable pub collect_states :
    {T : Type 0} → String → List (String × T) → HashMap String T → HashMap String T
unfolding strip_prefix
collect_states prefix [] states = states
collect_states prefix ((key, state) ∷ saved) states =
    collect_states prefix saved
      (elim (strip_prefix prefix key) [ none ↦ states | some name ↦ insert states name state ])

abbrev pub restored :
    HashMap String ThrottleState
    → HashMap String AggregationState
    → KeyValueDatabase
    → AlertManager KeyValueDatabase
restored throttle_states aggregation_states db = record {
  store = db;
  generated_alerts = [];
  throttle_states = throttle_states;
  aggregation_states = aggregation_states;
  ticks = 0;
}

unfoldable pub new :
    Faults
    → Serde ThrottleState
    → Serde AggregationState
    → Exec KeyValueDatabase PersistenceError (AlertManager KeyValueDatabase)
unfolding collect_states
new fails throttles aggregations =
    get_all_json_states_by_prefix fails throttles "throttle_state:" >>= λ saved_throttles.
    get_all_json_states_by_prefix fails aggregations "aggregation_state:" >>= λ saved_aggs db. (
      ok (
          restored (collect_states "throttle_state:" saved_throttles [])
            (collect_states "aggregation_state:" saved_aggs []) db),
      db,
    )

-- The operations of the alert manager on the key-value store.
abbrev pub set_state :
    Faults
    → Serde ThrottleState
    → Serde AggregationState
    → String
    → StoredState
    → Exec KeyValueDatabase PersistenceError (Unit {0})
set_state fails throttles aggregations key (throttle_state s) = set_json_state fails throttles key s
set_state fails throttles aggregations key (aggregation_state s) =
    set_json_state fails aggregations key s

abbrev pub sqlite_repository :
    Faults
    → Serde ThrottleState
    → Serde AggregationState
    → (List (String × ActionPayload) → Exec KeyValueDatabase PersistenceError (Unit {0}))
    → Repository KeyValueDatabase
sqlite_repository fails throttles aggregations enqueue = record {
  enqueue_outbox_batch = enqueue;
  set_json_state = set_state fails throttles aggregations;
}
