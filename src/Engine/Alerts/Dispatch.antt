-- ===== src/Engine/Alerts/Dispatch.antt =====
-- What is enqueued and counted, and what a flush leaves.
use argus_rs.Base.{
  Option, All, Bool, HashMap, List, Option-cases, Result-cases, String, [], ap, append-nil,
  append_assoc, arith, eq_iff, err, false, get, get-insert, if◌then◌else◌, inl, inr, insert,
  is_empty, keep, map, nat_key, none, ok, refl, some, string_key, suc, sym, true, ℕ, ◌++◌, ◌+◌,
  ◌==◌, ◌∙◌, ◌∷◌, ◌≡◌, ◌⊎◌,
}
use mathlib.Core.Path.{subst}
use argus_rs.Core.Matches.{MonitorMatch}
use argus_rs.Core.Actions.{ActionConfig, aggregation, AggregationState, AggregationPolicy}
use argus_rs.Core.Payload.{ActionPayload, single, aggregated, action_name}
use argus_rs.Engine.Alerts.{
  Env, AlertManager, or_zero, count_alerts, dispatch_payloads_batch, outbox_items, process_matches,
  process_matches_batch, expire, expire_all, sync_states_to_db, flush,
  check_and_dispatch_expired_windows,
}

-- How many of the payloads are for an action.
unfoldable pub payloads_for : String → List ActionPayload → ℕ
payloads_for name [] = 0
payloads_for name (p ∷ ps) =
    let rest = payloads_for name ps in if action_name p == name then suc rest else rest

count_alerts_lem :
    (ps : List ActionPayload) (counts : HashMap String ℕ) (name : String)
    → or_zero (get (count_alerts ps counts) name) ≡ or_zero (get counts name) + payloads_for name ps
unfolding count_alerts payloads_for
count_alerts_lem [] counts name = omega arith
count_alerts_lem (p ∷ ps) counts name =
    let rest =
      count_alerts_lem ps (insert counts (action_name p) (or_zero (get counts (action_name p)) + 1))
        name in
    ground (
      arith,
      rest,
      get-insert counts (action_name p) name (or_zero (get counts (action_name p)) + 1),
      eq_iff (action_name p) name,
    )

-- The count of an action's alerts grows by the payloads for it where the repository takes the
-- batch, and stays where it does not.
dispatch_payloads_batch-counts :
    {S : Type 0} (env : Env S) (ps : List ActionPayload) (name : String) (s : AlertManager S)
    → or_zero (get (dispatch_payloads_batch env ps s).1.generated_alerts name)
      ≡ or_zero (get s.generated_alerts name)
        + elim (dispatch_payloads_batch env ps s).0 [ ok _ ↦ payloads_for name ps | err _ ↦ 0 ]
unfolding dispatch_payloads_batch payloads_for
dispatch_payloads_batch-counts env [] name s = omega arith
dispatch_payloads_batch-counts env (p ∷ ps) name s =
    elim (Result-cases (env.repository.enqueue_outbox_batch (outbox_items (p ∷ ps)) s.store).0) [
      | inl (u, done) ↦
          rw (done, dispatch_payloads_batch) (count_alerts_lem (p ∷ ps) s.generated_alerts name)
      | inr (e, failed) ↦ rw (failed, dispatch_payloads_batch) (omega arith)
    ]

abbrev pub is_some : {A : Type 0} → Option A → Bool
is_some none = false
is_some (some a) = true

abbrev pub is_configured : HashMap String ActionConfig → MonitorMatch → Bool
is_configured actions m = is_some (get actions m.action_name)

-- The action of a match has no policy, if it is configured.
abbrev pub IsBare : HashMap String ActionConfig → MonitorMatch → Type 0
IsBare actions m =
    (config : ActionConfig) → get actions m.action_name ≡ some config → config.policy ≡ none

process_matches-immediate :
    {S : Type 0} (env : Env S) (ms : List MonitorMatch) (before : List ActionPayload)
    (s : AlertManager S)
    → All (IsBare env.actions) ms
    → process_matches env ms before s
      ≡ dispatch_payloads_batch env (before ++ map single (keep (is_configured env.actions) ms)) s
unfolding process_matches keep
process_matches-immediate env [] before s bare =
    ap (λ ps. dispatch_payloads_batch env ps s) (sym (append-nil before))
process_matches-immediate env (m ∷ ms) before s bare =
    elim (Option-cases (get env.actions m.action_name)) [
      | inl missing ↦
          rw (missing, process_matches) (process_matches-immediate env ms before s bare.1)
      | inr (config, found) ↦
          rw (found, bare.0 config found, process_matches)
            (process_matches-immediate env ms (before ++ single m ∷ []) s bare.1
              ∙ ap (λ ps. dispatch_payloads_batch env ps s)
                  (append_assoc before (single m ∷ [])
                    (map single (keep (is_configured env.actions) ms))))
    ]

-- Where no action of the matches has a policy, whatever other actions have, the batch is one enqueue
-- of a payload for each match whose action is configured, in order.
pub process_matches_batch-immediate :
    {S : Type 0} (env : Env S) (ms : List MonitorMatch)
    → All (IsBare env.actions) ms
    → (s : AlertManager S)
    → process_matches_batch env ms s
      ≡ dispatch_payloads_batch env (map single (keep (is_configured env.actions) ms)) s
process_matches_batch-immediate env ms bare s = process_matches-immediate env ms [] s bare

-- The action of a payload, with its matches.
abbrev pub contents : ActionPayload → String × List MonitorMatch
contents (single m) = (m.action_name, m ∷ [])
contents (aggregated name ms template) = (name, ms)

-- The windows that have matches, each as its action with its matches.
unfoldable pub full_windows : HashMap String AggregationState → List (String × List MonitorMatch)
full_windows [] = []
full_windows ((name, state) ∷ states) =
    let rest = full_windows states in
    if is_empty state.matches then rest else (name, state.matches) ∷ rest

abbrev pub HasAggregation : HashMap String ActionConfig → String × AggregationState → Type 0
HasAggregation actions e =
    (config : ActionConfig) × (policy : AggregationPolicy) × (get actions e.0 ≡ some config)
    × (config.policy ≡ some (aggregation policy))

abbrev pub IsEmptied : String × AggregationState → Type 0
IsEmptied e = e.1.matches ≡ []

empty_or_not :
    {A : Type 0} (xs : List A) → ((xs ≡ []) × (is_empty xs ≡ true)) ⊎ (is_empty xs ≡ false)
empty_or_not [] = inl (refl, refl)
empty_or_not (x ∷ xs) = inr refl

expire_all-forced :
    (actions : HashMap String ActionConfig) (now : ℕ) (states : HashMap String AggregationState)
    → All (HasAggregation actions) states
    → (map contents (expire_all actions true now states).0 ≡ full_windows states)
      × All IsEmptied (expire_all actions true now states).1
unfolding expire_all expire full_windows
expire_all-forced actions now [] h = (refl, tt)
expire_all-forced actions now ((name, state) ∷ states) ((config, policy, found, aggregates), rest) =
    let (same, emptied) = expire_all-forced actions now states rest in
    elim (empty_or_not state.matches) [
      | inl (bare, none_left) ↦ rw none_left (same, (bare, emptied))
      | inr some_left ↦
          rw (some_left, found, aggregates)
            (ap (λ ws. (name, state.matches) ∷ ws) same, (refl, emptied))
    ]

-- The store that a batch of payloads leaves; an empty batch is not sent.
abbrev pub enqueued : {S : Type 0} → Env S → List ActionPayload → S → S
enqueued env [] store = store
enqueued env (p ∷ ps) store = (env.repository.enqueue_outbox_batch (outbox_items (p ∷ ps)) store).1

-- What a dispatch touches.
dispatch_payloads_batch-frame :
    {S : Type 0} (env : Env S) (ps : List ActionPayload) (s : AlertManager S)
    → ((dispatch_payloads_batch env ps s).1.aggregation_states ≡ s.aggregation_states)
      × ((dispatch_payloads_batch env ps s).1.store ≡ enqueued env ps s.store)
unfolding dispatch_payloads_batch
dispatch_payloads_batch-frame env [] s = (refl, refl)
dispatch_payloads_batch-frame env (p ∷ ps) s =
    elim (Result-cases (env.repository.enqueue_outbox_batch (outbox_items (p ∷ ps)) s.store).0) [
      | inl (u, done) ↦ rw (done, dispatch_payloads_batch) (refl, refl)
      | inr (e, failed) ↦ rw (failed, dispatch_payloads_batch) (refl, refl)
    ]

-- The store behind the writes of the states that an alert manager has.
abbrev pub states_written : {S : Type 0} → Env S → AlertManager S → S → S
states_written env s store = (sync_states_to_db env (record s { store = store })).1.store

-- Where every window belongs to an action that aggregates: a flush sends the repository one batch, of
-- one payload for each window with matches, for its action and with all its matches, in order, and no
-- batch where there is none. Behind it the flush writes the states, with every window empty, whether
-- or not the repository takes the batch.
pub flush_takes_all :
    {S : Type 0} (env : Env S) (s : AlertManager S)
    → All (HasAggregation env.actions) s.aggregation_states
    → (ps : List ActionPayload) × (map contents ps ≡ full_windows s.aggregation_states)
      × ((flush env s).1.store ≡ states_written env (flush env s).1 (enqueued env ps s.store))
      × All IsEmptied (flush env s).1.aggregation_states
unfolding check_and_dispatch_expired_windows sync_states_to_db
flush_takes_all env s h =
    let now = env.clock s.ticks in
    let ps = (expire_all env.actions true now s.aggregation_states).0 in
    let states = (expire_all env.actions true now s.aggregation_states).1 in
    let (same, emptied) = expire_all-forced env.actions now s.aggregation_states h in
    let scanned = record s { ticks = s.ticks + 1; aggregation_states = states } in
    let (windows, store) = dispatch_payloads_batch-frame env ps scanned in
    (
      ps,
      same,
      ap (states_written env (dispatch_payloads_batch env ps scanned).1) store,
      subst (All IsEmptied) (sym windows) emptied,
    )
