-- ===== src/Engine/Alerts/Written.antt =====
-- What a sync writes where no statement fails.
use argus_rs.Engine.Alerts.{
  sync_states_to_db, AlertManager, aggregation_state, throttle_state, write_all, StoredState,
}
use argus_rs.Core.Errors.{PersistenceError}
use argus_rs.Core.Payload.{ActionPayload}
use argus_rs.Base.{
  suc, Result, arith, map, ◌++◌, length, Exec, HashMap, List, String, [], ap, false, insert,
  insert_all, nat_key, ok, pair_key, refl, some, string_key, ℕ, ◌+◌, ◌∙◌, ◌∷◌, ◌≡◌,
}
use Prim.Native.String.{◌++◌ as ◌+++◌}
use argus_rs.Core.Actions.{ActionConfig, ThrottleState, AggregationState}
use argus_rs.Store.Transactions.{Faults}
use argus_rs.Store.KeyValue.{KeyValueDatabase, Serde, set_json_state}
use argus_rs.Store.KeyValue.Rows.{RoundTrips, rows_of}
use argus_rs.Engine.Alerts.Restore.{sqlite_repository, set_state}
use argus_rs.Engine.Alerts.Synced.{after}
use argus_rs.Base.{All}

set_json_state-writes :
    {T : Type 0} (fails : Faults) (serde : Serde T) (key text : String) (t : T)
    (db : KeyValueDatabase)
    → ((k : ℕ) → fails k ≡ false)
    → serde.to_text t ≡ some text
    → set_json_state fails serde key t db ≡ (
      ok tt,
      record {
        application_state = insert db.application_state key text;
        statements = db.statements + 1;
      },
    )
unfolding set_json_state
set_json_state-writes fails serde key text t db sound printed =
    rw (printed, set_json_state) (rw (sound db.statements) refl)

module _ (fails : Faults) (throttle_serde : Serde ThrottleState)
    (aggregation_serde : Serde AggregationState) (print_throttle : ThrottleState → String)
    (print_aggregation : AggregationState → String)
    (enqueue : List (String × ActionPayload) → Exec KeyValueDatabase PersistenceError (Unit {0}))
    (sound : (k : ℕ) → fails k ≡ false) where
  abbrev printed : StoredState → String
  printed (throttle_state t) = print_throttle t
  printed (aggregation_state a) = print_aggregation a

  abbrev printed_rows : List (String × StoredState) → List (String × String)
  printed_rows es = map (λ (e : String × StoredState). (e.0, printed e.1)) es

  abbrev written : KeyValueDatabase → List (String × String) → KeyValueDatabase
  written db rows = record {
    application_state = insert_all rows db.application_state;
    statements = db.statements + length rows;
  }

  abbrev IsPrinted : StoredState → Type 0
  IsPrinted (throttle_state t) = throttle_serde.to_text t ≡ some (print_throttle t)
  IsPrinted (aggregation_state a) = aggregation_serde.to_text a ≡ some (print_aggregation a)

  set_state-writes :
      (key : String) (state : StoredState) (db : KeyValueDatabase)
      → IsPrinted state
      → set_state fails throttle_serde aggregation_serde key state db ≡ (
        ok tt,
        record {
          application_state = insert db.application_state key (printed state);
          statements = db.statements + 1;
        },
      )
  set_state-writes key (throttle_state t) db p =
      set_json_state-writes fails throttle_serde key (print_throttle t) t db sound p
  set_state-writes key (aggregation_state a) db p =
      set_json_state-writes fails aggregation_serde key (print_aggregation a) a db sound p

  write_all-writes :
      (es : List (String × StoredState)) (db : KeyValueDatabase)
      → All (λ (e : String × StoredState). IsPrinted e.1) es
      → write_all (sqlite_repository fails throttle_serde aggregation_serde enqueue) es db
        ≡ (ok tt, written db (printed_rows es))
  unfolding write_all insert_all
  write_all-writes [] db h = ground arith
  write_all-writes ((key, state) ∷ es) db h =
      rw (set_state-writes key state db h.0, write_all)
        (write_all-writes es
            (record {
              application_state = insert db.application_state key (printed state);
              statements = db.statements + 1;
            })
            h.1
          ∙ ap (λ (n : ℕ). one_more n) counted)
    where
      one_more : ℕ → Result PersistenceError (Unit {0}) × KeyValueDatabase
      one_more n = (
        ok tt,
        record {
          application_state =
              insert_all (printed_rows es) (insert db.application_state key (printed state));
          statements = n;
        },
      )

      counted :
          db.statements + 1 + length (printed_rows es)
          ≡ db.statements + suc (length (printed_rows es))
      counted = omega arith

  abbrev throttle_entries : HashMap String ThrottleState → List (String × StoredState)
  throttle_entries throttles =
      map (λ (e : String × ThrottleState). ("throttle_state:" +++ e.0, throttle_state e.1))
        throttles

  abbrev aggregation_entries : HashMap String AggregationState → List (String × StoredState)
  aggregation_entries aggregations =
      map (λ (e : String × AggregationState). ("aggregation_state:" +++ e.0, aggregation_state e.1))
        aggregations

  printed_aggregations :
      (aggregations : HashMap String AggregationState)
      → printed_rows (aggregation_entries aggregations)
        ≡ rows_of "aggregation_state:" print_aggregation aggregations
  printed_aggregations [] = refl
  printed_aggregations (e ∷ es) =
      ap (λ l. ("aggregation_state:" +++ e.0, print_aggregation e.1) ∷ l) (printed_aggregations es)

  printed_all :
      (throttles : HashMap String ThrottleState) (aggregations : HashMap String AggregationState)
      → printed_rows (throttle_entries throttles ++ aggregation_entries aggregations)
        ≡ rows_of "throttle_state:" print_throttle throttles
          ++ rows_of "aggregation_state:" print_aggregation aggregations
  printed_all [] aggregations = printed_aggregations aggregations
  printed_all (e ∷ es) aggregations =
      ap (λ l. ("throttle_state:" +++ e.0, print_throttle e.1) ∷ l) (printed_all es aggregations)

  aggregations-IsPrinted :
      (aggregations : HashMap String AggregationState)
      → RoundTrips aggregation_serde print_aggregation aggregations
      → All (λ (e : String × StoredState). IsPrinted e.1) (aggregation_entries aggregations)
  aggregations-IsPrinted [] law = tt
  aggregations-IsPrinted (e ∷ es) law = (law.0.0, aggregations-IsPrinted es law.1)

  all-IsPrinted :
      (throttles : HashMap String ThrottleState) (aggregations : HashMap String AggregationState)
      → RoundTrips throttle_serde print_throttle throttles
      → RoundTrips aggregation_serde print_aggregation aggregations
      → All
          (λ (e : String × StoredState). IsPrinted e.1)
          (throttle_entries throttles ++ aggregation_entries aggregations)
  all-IsPrinted [] aggregations lt la = aggregations-IsPrinted aggregations la
  all-IsPrinted (e ∷ es) aggregations lt la = (lt.0.0, all-IsPrinted es aggregations lt.1 la)

  abbrev pub after_db : AlertManager KeyValueDatabase → KeyValueDatabase
  after_db s = written s.store (
      printed_rows (throttle_entries s.throttle_states ++ aggregation_entries s.aggregation_states))

  pub sync-writes :
      (actions : HashMap String ActionConfig) (clock : ℕ → ℕ) (s : AlertManager KeyValueDatabase)
      → RoundTrips throttle_serde print_throttle s.throttle_states
      → RoundTrips aggregation_serde print_aggregation s.aggregation_states
      → sync_states_to_db
          (record {
            repository = sqlite_repository fails throttle_serde aggregation_serde enqueue;
            actions = actions;
            clock = clock;
          })
          s
        ≡ (ok tt, record s { store = after_db s })
  unfolding sync_states_to_db
  sync-writes actions clock s lt la =
      ap (λ (r : Result PersistenceError (Unit {0}) × KeyValueDatabase). in_manager r.0 r.1)
        (write_all-writes
          (throttle_entries s.throttle_states ++ aggregation_entries s.aggregation_states) s.store
          (all-IsPrinted s.throttle_states s.aggregation_states lt la))
    where
      in_manager :
          Result PersistenceError (Unit {0})
          → KeyValueDatabase
          → Result PersistenceError (Unit {0}) × AlertManager KeyValueDatabase
      in_manager r db = (r, record s { store = db })

  pub after_db-rows :
      (s : AlertManager KeyValueDatabase)
      → (after_db s).application_state
        ≡ after print_throttle print_aggregation s.throttle_states s.aggregation_states
            s.store.application_state
  after_db-rows s =
      ap (λ rows. insert_all rows s.store.application_state)
        (printed_all s.throttle_states s.aggregation_states)
