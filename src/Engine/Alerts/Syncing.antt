-- ===== src/Engine/Alerts/Syncing.antt =====
-- The alert manager that starts finds the states that one before it has synced.
use argus_rs.Engine.Alerts.{sync_states_to_db, AlertManager}
use argus_rs.Core.Errors.{PersistenceError}
use argus_rs.Core.Payload.{codes, ActionPayload}
use argus_rs.Base.{
  Option, Exec, HashMap, IsDistinct, List, String, [], ap, false, get, nat_key, none, ok, or_else,
  pair_key, refl, some, string_key, sym, ℕ, ◌+◌, ◌∙◌, ◌≡◌,
}
use Prim.Native.String.{◌++◌ as ◌+++◌}
use mathlib.Core.Path.{subst}
use argus_rs.Core.Actions.{ActionConfig, ThrottleState, AggregationState}
use argus_rs.Store.Transactions.{Faults}
use argus_rs.Store.KeyValue.{
  select_like, parse_rows, get_all_json_states_by_prefix, KeyValueDatabase, Serde,
}
use argus_rs.Store.KeyValue.Saving.{read_by_prefix}
use argus_rs.Store.KeyValue.Rows.{and_then, LikeParses, RoundTrips}
use argus_rs.Engine.Alerts.Restore.{restored, new, sqlite_repository, collect_states}
use argus_rs.Engine.Alerts.Restoring.{get-collect_states}
use argus_rs.Engine.Alerts.Synced.{
  after, after-IsDistinct, after-throttle, after-aggregation, after_throttles_parse,
  after_aggregations_parse,
}
use argus_rs.Store.KeyValue.Saving.{read_back}
use argus_rs.Engine.Alerts.Written.{sync-writes, after_db, after_db-rows}

or_else-none : {V : Type 0} (o : Option V) → or_else o none ≡ o
or_else-none none = refl
or_else-none (some v) = refl

-- A read by a prefix, and the states that are collected from it.
reads_prefix :
    {T : Type 0} (fails : Faults) (serde : Serde T) (prefix : String) (db : KeyValueDatabase)
    (rows : HashMap String String)
    → ((k : ℕ) → fails k ≡ false)
    → db.application_state ≡ rows
    → LikeParses serde (codes (prefix +++ "%")) rows
    → IsDistinct rows
    → (ts : List (String × T)) × (get_all_json_states_by_prefix fails serde prefix db
        ≡ (ok ts, record db { statements = db.statements + 1 }))
      × ((name : String)
          → get (collect_states prefix ts []) name
            ≡ and_then (get rows (prefix +++ name)) serde.from_text)
unfolding get_all_json_states_by_prefix get
reads_prefix fails serde prefix db rows sound same parse distinct =
    let (ts, read, found, ts_distinct) = read_by_prefix serde prefix rows parse distinct in
    let parsed : parse_rows serde (select_like (codes (prefix +++ "%")) db.application_state)
        ≡ ok ts =
      subst (λ r. parse_rows serde (select_like (codes (prefix +++ "%")) r) ≡ ok ts) (sym same)
        read in
    (
      ts,
      rw (sound db.statements, get_all_json_states_by_prefix) (rw parsed refl),
      λ name.
          get-collect_states prefix ts [] name ts_distinct
          ∙ or_else-none (get ts (prefix +++ name))
          ∙ found name,
    )

module _ (fails : Faults) (throttle_serde : Serde ThrottleState)
    (aggregation_serde : Serde AggregationState) (print_throttle : ThrottleState → String)
    (print_aggregation : AggregationState → String)
    (enqueue : List (String × ActionPayload) → Exec KeyValueDatabase PersistenceError (Unit {0}))
    (sound : (k : ℕ) → fails k ≡ false) where
  new-reads :
      (db : KeyValueDatabase) (throttles : HashMap String ThrottleState)
      (aggregations : HashMap String AggregationState) (rows : HashMap String String)
      → db.application_state ≡ after print_throttle print_aggregation throttles aggregations rows
      → RoundTrips throttle_serde print_throttle throttles
      → RoundTrips aggregation_serde print_aggregation aggregations
      → IsDistinct throttles
      → IsDistinct aggregations
      → IsDistinct rows
      → LikeParses throttle_serde (codes ("throttle_state:" +++ "%")) rows
      → LikeParses aggregation_serde (codes ("aggregation_state:" +++ "%")) rows
      → (m : AlertManager KeyValueDatabase) × ((new fails throttle_serde aggregation_serde db).0
          ≡ ok m)
        × ((name : String)
            → get m.throttle_states name
              ≡ or_else
                  (get throttles name)
                  (and_then (get rows ("throttle_state:" +++ name)) throttle_serde.from_text))
        × ((name : String)
            → get m.aggregation_states name
              ≡ or_else
                  (get aggregations name)
                  (and_then (get rows ("aggregation_state:" +++ name)) aggregation_serde.from_text))
  unfolding new get
  new-reads db throttles aggregations rows same lt la dt da dr pt pa =
      let all = after print_throttle print_aggregation throttles aggregations rows in
      let distinct =
        after-IsDistinct print_throttle print_aggregation throttles aggregations rows dr in
      let (ts, first, throttles_found) =
        reads_prefix fails throttle_serde "throttle_state:" db all sound same
          (after_throttles_parse print_throttle print_aggregation throttles aggregations rows
            throttle_serde lt pt)
          distinct in
      let (aggs, second, aggregations_found) =
        reads_prefix fails aggregation_serde "aggregation_state:"
          (record db { statements = db.statements + 1 }) all sound same
          (after_aggregations_parse print_throttle print_aggregation throttles aggregations rows
            aggregation_serde la pa)
          distinct in
      (
        restored (collect_states "throttle_state:" ts [])
            (collect_states "aggregation_state:" aggs [])
            (record db { statements = db.statements + 1 + 1 }),
        rw first (rw second refl),
        λ name.
            throttles_found name
            ∙ ap (λ o. and_then o throttle_serde.from_text)
                (after-throttle print_throttle print_aggregation throttles aggregations rows name dt
                  da)
            ∙ read_back throttle_serde print_throttle throttles lt name
                (get rows ("throttle_state:" +++ name)),
        λ name.
            aggregations_found name
            ∙ ap (λ o. and_then o aggregation_serde.from_text)
                (after-aggregation print_throttle print_aggregation throttles aggregations rows name
                  dt da)
            ∙ read_back aggregation_serde print_aggregation aggregations la name
                (get rows ("aggregation_state:" +++ name)),
      )

  -- Where no statement fails, the states of both policies print and parse as they were, every key of
  -- the two maps and of the store is there once, and the rows of the store that are like the two
  -- prefixes parse: a sync succeeds, and an alert manager that
  -- starts behind it does, and has for every action the state that was synced. For an action that
  -- the sync had no state of, it has what the store held before, and no other state.
  pub sync_then_new :
      (actions : HashMap String ActionConfig) (clock : ℕ → ℕ) (s : AlertManager KeyValueDatabase)
      → RoundTrips throttle_serde print_throttle s.throttle_states
      → RoundTrips aggregation_serde print_aggregation s.aggregation_states
      → IsDistinct s.throttle_states
      → IsDistinct s.aggregation_states
      → IsDistinct s.store.application_state
      → LikeParses throttle_serde (codes ("throttle_state:" +++ "%")) s.store.application_state
      → LikeParses aggregation_serde
          (codes ("aggregation_state:" +++ "%"))
          s.store.application_state
      → ((sync_states_to_db
            (record {
              repository = sqlite_repository fails throttle_serde aggregation_serde enqueue;
              actions = actions;
              clock = clock;
            })
            s).0
          ≡ ok tt)
        × ((m : AlertManager KeyValueDatabase) × ((new fails throttle_serde aggregation_serde
                (sync_states_to_db
                  (record {
                    repository = sqlite_repository fails throttle_serde aggregation_serde enqueue;
                    actions = actions;
                    clock = clock;
                  })
                  s).1.store).0
              ≡ ok m)
            × ((name : String)
                → get m.throttle_states name
                  ≡ or_else (get s.throttle_states name) (
                      and_then
                        (get s.store.application_state ("throttle_state:" +++ name))
                        throttle_serde.from_text))
            × ((name : String)
                → get m.aggregation_states name
                  ≡ or_else (get s.aggregation_states name) (
                      and_then
                        (get s.store.application_state ("aggregation_state:" +++ name))
                        aggregation_serde.from_text)))
  sync_then_new actions clock s lt la dt da dr pt pa =
      rw
        (sync-writes fails throttle_serde aggregation_serde print_throttle print_aggregation enqueue
          sound actions clock s lt la)
        (
          refl,
          new-reads
              (after_db fails throttle_serde aggregation_serde print_throttle print_aggregation
                enqueue sound s)
              s.throttle_states s.aggregation_states s.store.application_state
              (after_db-rows fails throttle_serde aggregation_serde print_throttle print_aggregation
                enqueue sound s)
              lt la dt da dr pt pa,
        )
