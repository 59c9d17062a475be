-- ===== src/Engine/Alerts.antt =====
-- crates/argus-engine/src/alert_manager.rs. The repository is an interface; the actions, the
-- repository and the clock, by the position of its readings, are `Env`. The lock of an action lets
-- the operations on it run one after the other, which is how they are composed here.
pub mod Throttling
pub mod Aggregation
pub mod Dispatch
pub mod Restore
pub mod Restoring
pub mod Synced
pub mod Written
pub mod Syncing
mod Samples
mod Restarts
use argus_rs.Base.{
  Bool, Exec, HashMap, List, Option, String, [], any, err, false, get, if◌then◌else◌, insert,
  is_empty, ltb, map, nat_key, none, ok, pure, some, string_key, true, u32, ℕ, ◌++◌, ◌+◌, ◌==◌,
  ◌>>◌, ◌||◌, ◌∷◌,
}
use Prim.Native.String.{◌++◌ as ◌+++◌}
use argus_rs.Core.Errors.{PersistenceError}
use argus_rs.Core.Matches.{MonitorMatch}
use argus_rs.Core.Actions.{
  ActionConfig, aggregation, throttle, ThrottlePolicy, ThrottleState, AggregationState,
}
use argus_rs.Core.Payload.{ActionPayload, single, aggregated, action_name}

-- What is stored under a key of the key-value store.
pub data StoredState : Type 0 where
  throttle_state : ThrottleState → StoredState
  aggregation_state : AggregationState → StoredState

-- The operations that the alert manager uses of `AppRepository` and `KeyValueStore`.
pub record Repository (S : Type 0) : Type 0 where
  pub enqueue_outbox_batch : List (String × ActionPayload) → Exec S PersistenceError (Unit {0})
  pub set_json_state : String → StoredState → Exec S PersistenceError (Unit {0})

pub record Env (S : Type 0) : Type 0 where
  pub repository : Repository S
  pub actions : HashMap String ActionConfig
  pub clock : ℕ → ℕ

pub record AlertManager (S : Type 0) : Type 0 where
  pub store : S
  pub generated_alerts : HashMap String ℕ
  pub throttle_states : HashMap String ThrottleState
  pub aggregation_states : HashMap String AggregationState
  pub ticks : ℕ

abbrev pub call :
    {S A : Type 0} → Exec S PersistenceError A → Exec (AlertManager S) PersistenceError A
call op s = ((op s.store).0, record s { store = (op s.store).1 })

abbrev pub or_zero : Option ℕ → ℕ
or_zero none = 0
or_zero (some n) = n

-- `*generated_alerts.entry(name).or_insert(0) += 1`, for each payload.
unfoldable pub count_alerts : List ActionPayload → HashMap String ℕ → HashMap String ℕ
count_alerts [] counts = counts
count_alerts (p ∷ ps) counts =
    count_alerts ps (insert counts (action_name p) (or_zero (get counts (action_name p)) + 1))

abbrev pub outbox_items : List ActionPayload → List (String × ActionPayload)
outbox_items ps = map (λ p. (action_name p, p)) ps

unfoldable pub dispatch_payloads_batch :
    {S : Type 0} → Env S → List ActionPayload → Exec (AlertManager S) PersistenceError (Unit {0})
unfolding count_alerts
dispatch_payloads_batch env [] s = (ok tt, s)
dispatch_payloads_batch env (p ∷ ps) s =
    let out = call (env.repository.enqueue_outbox_batch (outbox_items (p ∷ ps))) s in
    elim out.0 [
      | err e ↦ (err e, out.1)
      | ok _ ↦
          (ok tt, record out.1 { generated_alerts = count_alerts (p ∷ ps) out.1.generated_alerts })
    ]

abbrev pub dispatch_payload :
    {S : Type 0} → Env S → ActionPayload → Exec (AlertManager S) PersistenceError (Unit {0})
dispatch_payload env p = dispatch_payloads_batch env (p ∷ [])

abbrev pub or_started : ℕ → Option ThrottleState → ThrottleState
or_started now none = record { count = 0; window_start_time = now }
or_started now (some state) = state

-- The window that an instant falls into.
unfoldable pub renew : ThrottlePolicy → ℕ → ThrottleState → ThrottleState
renew policy now state =
    if ltb (state.window_start_time + policy.time_window) now
    then record { count = 0; window_start_time = now }
    else state

-- Whether a match is within the limit, and the state that it leaves.
unfoldable pub admit : ThrottlePolicy → ℕ → Option ThrottleState → Bool × ThrottleState
unfolding renew
admit policy now found =
    let state = renew policy now (or_started now found) in
    if ltb state.count policy.max_count
    then (true, record state { count = u32 (state.count + 1) })
    else (false, state)

-- A failed enqueue is logged only.
unfoldable pub handle_throttle :
    {S : Type 0}
    → Env S
    → MonitorMatch
    → ThrottlePolicy
    → Exec (AlertManager S) PersistenceError (Unit {0})
unfolding admit dispatch_payloads_batch
handle_throttle env m policy s =
    let (should_dispatch, state) =
      admit policy (env.clock s.ticks) (get s.throttle_states m.action_name) in
    let counted = record s {
      ticks = s.ticks + 1;
      throttle_states = insert s.throttle_states m.action_name state;
    } in
    if should_dispatch
    then (ok tt, (dispatch_payload env (single m) counted).1)
    else (ok tt, counted)

abbrev pub or_default : Option AggregationState → AggregationState
or_default none = record { matches = []; window_start_time = 0 }
or_default (some state) = state

abbrev pub has_id : String → MonitorMatch → Bool
has_id id m = m.id == id

-- The state with a match that it does not hold yet. A window starts with its first match.
unfoldable pub collect_match : ℕ → MonitorMatch → AggregationState → AggregationState
collect_match now m state = record {
  matches = state.matches ++ m ∷ [];
  window_start_time = if is_empty state.matches then now else state.window_start_time;
}

unfoldable pub handle_aggregation :
    {S : Type 0} → Env S → MonitorMatch → Exec (AlertManager S) PersistenceError (Unit {0})
unfolding collect_match
handle_aggregation env m s =
    let state = or_default (get s.aggregation_states m.action_name) in
    if any (has_id m.id) state.matches
    then (ok tt, record s { aggregation_states = insert s.aggregation_states m.action_name state })
    else (
      ok tt,
      record s {
        ticks = if is_empty state.matches then s.ticks + 1 else s.ticks;
        aggregation_states =
            insert s.aggregation_states m.action_name (collect_match (env.clock s.ticks) m state);
      },
    )

-- The loop of `process_matches_batch`, with the payloads of the actions that have no policy.
unfoldable pub process_matches :
    {S : Type 0}
    → Env S
    → List MonitorMatch
    → List ActionPayload
    → Exec (AlertManager S) PersistenceError (Unit {0})
unfolding handle_throttle handle_aggregation dispatch_payloads_batch
process_matches env [] immediate_payloads = dispatch_payloads_batch env immediate_payloads
process_matches env (m ∷ ms) immediate_payloads = elim (get env.actions m.action_name) [
  | none ↦ process_matches env ms immediate_payloads
  | some config ↦ elim config.policy [
    | none ↦ process_matches env ms (immediate_payloads ++ single m ∷ [])
    | some (throttle policy) ↦
        handle_throttle env m policy >> process_matches env ms immediate_payloads
    | some (aggregation policy) ↦
        handle_aggregation env m >> process_matches env ms immediate_payloads
  ]
]

abbrev pub process_matches_batch :
    {S : Type 0} → Env S → List MonitorMatch → Exec (AlertManager S) PersistenceError (Unit {0})
process_matches_batch env ms = process_matches env ms []

abbrev pub cleared : AggregationState → AggregationState
cleared state = record state { matches = [] }

-- One window: the payload if it has expired, and the state that stays.
unfoldable pub expire :
    HashMap String ActionConfig
    → Bool
    → ℕ
    → String
    → AggregationState
    → Option ActionPayload × AggregationState
expire actions force now name state =
    if is_empty state.matches then (none, state) else elim (get actions name) [
      | none ↦ (none, cleared state)
      | some config ↦ elim config.policy [
        | none ↦ (none, cleared state)
        | some (throttle policy) ↦ (none, cleared state)
        | some (aggregation policy) ↦
            if force || ltb (state.window_start_time + policy.window) now
            then (some (aggregated name state.matches policy.template), cleared state)
            else (none, state)
      ]
    ]

abbrev pub push_some : {A : Type 0} → Option A → List A → List A
push_some none xs = xs
push_some (some x) xs = x ∷ xs

-- The loop over the windows.
unfoldable pub expire_all :
    HashMap String ActionConfig
    → Bool
    → ℕ
    → HashMap String AggregationState
    → List ActionPayload × HashMap String AggregationState
unfolding expire
expire_all actions force now [] = ([], [])
expire_all actions force now ((name, state) ∷ states) =
    let (payload, state') = expire actions force now name state in
    let (payloads, states') = expire_all actions force now states in
    (push_some payload payloads, (name, state') ∷ states')

-- Writes of the states one after the other, up to the first that fails.
unfoldable pub write_all :
    {S : Type 0} → Repository S → List (String × StoredState) → Exec S PersistenceError (Unit {0})
write_all repository [] = pure tt
write_all repository ((key, state) ∷ states) =
    repository.set_json_state key state >> write_all repository states

unfoldable pub sync_states_to_db :
    {S : Type 0} → Env S → Exec (AlertManager S) PersistenceError (Unit {0})
unfolding write_all
sync_states_to_db env s =
    call
      (write_all env.repository (
        map (λ (e : String × ThrottleState). ("throttle_state:" +++ e.0, throttle_state e.1))
          s.throttle_states
        ++ map
            (λ (e : String × AggregationState).
              ("aggregation_state:" +++ e.0, aggregation_state e.1))
            s.aggregation_states))
      s

-- A failed enqueue of the expired windows is logged only.
unfoldable pub check_and_dispatch_expired_windows :
    {S : Type 0} → Env S → Bool → Exec (AlertManager S) PersistenceError (Unit {0})
unfolding expire_all dispatch_payloads_batch sync_states_to_db
check_and_dispatch_expired_windows env force s =
    let (payloads, states) =
      expire_all env.actions force (env.clock s.ticks) s.aggregation_states in
    let scanned = record s { ticks = s.ticks + 1; aggregation_states = states } in
    sync_states_to_db env (dispatch_payloads_batch env payloads scanned).1

abbrev pub flush : {S : Type 0} → Env S → Exec (AlertManager S) PersistenceError (Unit {0})
flush env = check_and_dispatch_expired_windows env true

-- `shutdown`: the error of the flush is logged only.
abbrev pub shutdown : {S : Type 0} → Env S → AlertManager S → AlertManager S
shutdown env s = (flush env s).1
