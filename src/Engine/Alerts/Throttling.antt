-- ===== src/Engine/Alerts/Throttling.antt =====
-- What a throttled action sends within a window.
use argus_rs.Base.{
  ==_refl, All, Bool-cases, HashMap, List, Result-cases, String, [], ap, arith, false, get,
  get-insert, if◌then◌else◌, inl, inr, insert, ltb, nat_key, ok, refl, some, string_key, suc, take,
  true, u32, zero, ℕ, ◌+◌, ◌-◌, ◌<◌, ◌^◌, ◌∙◌, ◌∷◌, ◌≡◌, ◌≤◌,
}
use argus_rs.Core.Matches.{MonitorMatch}
use argus_rs.Core.Actions.{ThrottlePolicy, ThrottleState}
use argus_rs.Core.Payload.{ActionPayload, single}
use argus_rs.Engine.Alerts.{
  Env, AlertManager, Repository, outbox_items, dispatch_payload, dispatch_payloads_batch,
  handle_throttle, admit, renew,
}

-- Matches of a throttled action, one after the other.
unfoldable pub handle_throttle_all :
    {S : Type 0} → Env S → ThrottlePolicy → List MonitorMatch → AlertManager S → AlertManager S
handle_throttle_all env policy [] s = s
handle_throttle_all env policy (m ∷ ms) s =
    handle_throttle_all env policy ms (handle_throttle env m policy s).1

-- A batch of its own for each match, whether or not the repository takes it.
unfoldable pub enqueue_each : {S : Type 0} → Repository S → List MonitorMatch → S → S
enqueue_each repository [] store = store
enqueue_each repository (m ∷ ms) store =
    enqueue_each repository ms
      (repository.enqueue_outbox_batch (outbox_items (single m ∷ [])) store).1

module _ {S : Type 0} (env : Env S) where
  -- What the attempt to enqueue leaves of the rest of the state.
  dispatch_payload-frame :
      (p : ActionPayload) (s : AlertManager S)
      → ((dispatch_payload env p s).1.store
          ≡ (env.repository.enqueue_outbox_batch (outbox_items (p ∷ [])) s.store).1)
        × ((dispatch_payload env p s).1.throttle_states ≡ s.throttle_states)
        × ((dispatch_payload env p s).1.ticks ≡ s.ticks)
  unfolding dispatch_payloads_batch
  dispatch_payload-frame p s =
      elim (Result-cases (env.repository.enqueue_outbox_batch (outbox_items (p ∷ [])) s.store).0) [
        | inl (u, done) ↦ rw (done, dispatch_payloads_batch) (refl, refl, refl)
        | inr (e, failed) ↦ rw (failed, dispatch_payloads_batch) (refl, refl, refl)
      ]

  abbrev counted : AlertManager S → String → ThrottleState → AlertManager S
  counted s name state = record s {
    ticks = s.ticks + 1;
    throttle_states = insert s.throttle_states name state;
  }

  abbrev one_more : ThrottleState → ThrottleState
  one_more state = record state { count = u32 (state.count + 1) }

  renew-within :
      (policy : ThrottlePolicy) (now : ℕ) (state : ThrottleState)
      → now ≤ state.window_start_time + policy.time_window
      → renew policy now state ≡ state
  unfolding renew
  renew-within policy now state h = ground (arith, h)

  admit-within :
      (policy : ThrottlePolicy) (now : ℕ) (state : ThrottleState)
      → now ≤ state.window_start_time + policy.time_window
      → admit policy now (some state)
        ≡ (if ltb state.count policy.max_count then (true, one_more state) else (false, state))
  unfolding admit renew
  admit-within policy now state h = rw (renew-within policy now state h) refl

  module _ (policy : ThrottlePolicy) (m : MonitorMatch) (name : String) (state : ThrottleState)
      (s : AlertManager S) (named : m.action_name ≡ name)
      (found : get s.throttle_states name ≡ some state)
      (h : env.clock s.ticks ≤ state.window_start_time + policy.time_window) where
    handle_throttle-admits :
        ltb state.count policy.max_count ≡ true
        → handle_throttle env m policy s
          ≡ (ok tt, (dispatch_payload env (single m) (counted s name (one_more state))).1)
    unfolding handle_throttle
    handle_throttle-admits within =
        rw (named, found, admit-within policy (env.clock s.ticks) state h, within, handle_throttle)
          refl

    handle_throttle-skips :
        ltb state.count policy.max_count ≡ false
        → handle_throttle env m policy s ≡ (ok tt, counted s name state)
    unfolding handle_throttle
    handle_throttle-skips spent =
        rw (named, found, admit-within policy (env.clock s.ticks) state h, spent, handle_throttle)
          refl

  take_nil : (n : ℕ) → take {A = MonitorMatch} n [] ≡ []
  take_nil zero = refl
  take_nil (suc n) = refl

  stored :
      (states : HashMap String ThrottleState) (name : String) (state : ThrottleState)
      → get (insert states name state) name ≡ some state
  stored states name state = rw (get-insert states name name state, ==_refl name) refl

  -- Where the matches of a throttled action fall into the window that its state has begun, the
  -- batches sent to the repository are those of the first matches, one for each, as many as the
  -- count has left below the limit, and no other, whether or not the repository takes them; the
  -- limit is below 2^32.
  pub handle_throttle_all_within_limit :
      (policy : ThrottlePolicy) (name : String) (ms : List MonitorMatch) (state : ThrottleState)
      (s : AlertManager S)
      → All (λ m. m.action_name ≡ name) ms
      → get s.throttle_states name ≡ some state
      → ((i : ℕ) → env.clock i ≤ state.window_start_time + policy.time_window)
      → policy.max_count < 2 ^ 32
      → (handle_throttle_all env policy ms s).store
        ≡ enqueue_each env.repository (take (policy.max_count - state.count) ms) s.store
  unfolding handle_throttle_all enqueue_each
  handle_throttle_all_within_limit policy name [] state s named found h small =
      rw (take_nil (policy.max_count - state.count)) refl
  handle_throttle_all_within_limit policy name (m ∷ ms) state s named found h small =
      elim (Bool-cases (ltb state.count policy.max_count)) [
        | inr spent ↦
            ap (λ r. (handle_throttle_all env policy ms r.1).store)
              (handle_throttle-skips policy m name state s named.0 found (h s.ticks) spent)
            ∙ handle_throttle_all_within_limit policy name ms state (counted s name state) named.1
                (stored s.throttle_states name state) h small
            ∙ rw (none_left spent) refl
        | inl within ↦
            let (store, states, _) =
              dispatch_payload-frame (single m) (counted s name (one_more state)) in
            ap (λ r. (handle_throttle_all env policy ms r.1).store)
              (handle_throttle-admits policy m name state s named.0 found (h s.ticks) within)
            ∙ handle_throttle_all_within_limit policy name ms (one_more state)
                (dispatch_payload env (single m) (counted s name (one_more state))).1 named.1
                (ap (λ states'. get states' name) states
                  ∙ stored s.throttle_states name (one_more state))
                h small
            ∙ rw (one_less within) (
                ap
                  (enqueue_each env.repository (take (policy.max_count - u32 (state.count + 1)) ms))
                  store)
      ]
    where
      none_left : ltb state.count policy.max_count ≡ false → policy.max_count - state.count ≡ 0
      none_left spent = ground (arith, spent)

      one_less :
          ltb state.count policy.max_count ≡ true
          → policy.max_count - state.count ≡ suc (policy.max_count - u32 (state.count + 1))
      one_less within = ground (arith, within, small)
