-- ===== src/Engine/Alerts/Restarts.antt =====
-- An alert manager that was stopped and started.
use argus_rs.Base.{[], false, nat_key, pair_key, string_key, ◌∷◌}
use argus_rs.Core.Actions.{ThrottleState, AggregationState}
use argus_rs.Store.Transactions.{Faults}
use argus_rs.Store.KeyValue.{KeyValueDatabase}
use argus_rs.Engine.Alerts.{AlertManager, sync_states_to_db, Env}
use argus_rs.Engine.Alerts.Restore.{sqlite_repository, new}
use argus_rs.Engine.Alerts.Syncing.{sync_then_new}
use argus_rs.Store.KeyValue.{Serde}
use argus_rs.Store.KeyValue.Rows.{and_then}
use Prim.Native.String.{String, ◌++◌ as ◌+++◌}
use argus_rs.Base.{some, ok, refl, get, or_else, ◌≡◌}

-- States are printed as one text each, since only one of each kind is stored here.
abbrev limited : ThrottleState
limited = record { count = 2; window_start_time = 100 }

abbrev bundled : AggregationState
bundled = record { matches = []; window_start_time = 50 }

abbrev sound : Faults
sound k = false

abbrev manager : AlertManager KeyValueDatabase
manager = record {
  store = record { application_state = ("throttle_state:old", "x") ∷ []; statements = 0 };
  generated_alerts = [];
  throttle_states = ("limited", limited) ∷ [];
  aggregation_states = ("bundled", bundled) ∷ [];
  ticks = 0;
}

-- Codecs of the states, each with one text.
abbrev throttle_codec : Serde ThrottleState
throttle_codec = record { to_text = λ t. some "x"; from_text = λ s. some limited }

abbrev aggregation_codec : Serde AggregationState
aggregation_codec = record { to_text = λ t. some "x"; from_text = λ s. some bundled }

abbrev env : Env KeyValueDatabase
env = record {
  repository = sqlite_repository sound throttle_codec aggregation_codec (λ items db. (ok tt, db));
  actions = [];
  clock = λ n. n;
}

sync_then_new_example :
    ((sync_states_to_db env manager).0 ≡ ok tt)
    × ((m : AlertManager KeyValueDatabase) × ((new sound throttle_codec aggregation_codec
            (sync_states_to_db env manager).1.store).0
          ≡ ok m)
        × ((name : String)
            → get m.throttle_states name
              ≡ or_else (get manager.throttle_states name) (
                  and_then
                    (get manager.store.application_state ("throttle_state:" +++ name))
                    throttle_codec.from_text))
        × ((name : String)
            → get m.aggregation_states name
              ≡ or_else (get manager.aggregation_states name) (
                  and_then
                    (get manager.store.application_state ("aggregation_state:" +++ name))
                    aggregation_codec.from_text)))
unfolding get
sync_then_new_example =
    sync_then_new sound throttle_codec aggregation_codec (λ t. "x") (λ a. "x")
      (λ items db. (ok tt, db)) (λ k. refl) [] (λ n. n) manager ((refl, refl), tt)
      ((refl, refl), tt) (refl, tt) (refl, tt) (refl, tt) ((λ matches. (limited, refl)), tt)
      ((λ matches. (bundled, refl)), tt)
