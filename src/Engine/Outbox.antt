-- ===== src/Engine/Outbox.antt =====
-- crates/argus-engine/src/outbox_processor.rs. What the dispatcher makes of each attempt and the
-- order in which the concurrent attempts of a batch complete are `Env`.
pub mod Successes
pub mod Draining
pub mod Delivery
mod Samples
use argus_rs.Base.{
  Bool, Exec, List, [], err, false, length, nat_key, ok, string_key, suc, true, zero, ℕ, ◌+◌, ◌∷◌,
}
use argus_rs.Core.Config.{OutboxConfig}
use argus_rs.Core.Errors.{PersistenceError}
use argus_rs.Core.Repository.{OutboxItem, OutboxRepository}

pub record Env (S : Type 0) : Type 0 where
  pub state : OutboxRepository S
  pub config : OutboxConfig
  pub is_delivered : ℕ → OutboxItem → Bool
  pub gather : List (ℕ × Bool) → List (ℕ × Bool)

-- The store, with the count of attempts.
pub record OutboxProcessor (S : Type 0) : Type 0 where
  pub store : S
  pub attempts : ℕ

pub data DrainError : Type 0 where
  failed : PersistenceError → DrainError
  exhausted : DrainError

-- `dispatcher.execute(item.payload)`, for each item.
unfoldable pub execute_all : {S : Type 0} → Env S → ℕ → List OutboxItem → List (ℕ × Bool)
execute_all env attempt [] = []
execute_all env attempt (i ∷ is) =
    (i.id, env.is_delivered attempt i) ∷ execute_all env (attempt + 1) is

-- The loop over the results: the identifiers delivered, and the store with the retries counted.
unfoldable pub settle : {S : Type 0} → OutboxRepository S → List (ℕ × Bool) → S → List ℕ × S
settle repository [] s = ([], s)
settle repository ((id, true) ∷ rs) s = let (ids, s') = settle repository rs s in (id ∷ ids, s')
settle repository ((id, false) ∷ rs) s =
    settle repository rs (repository.increment_outbox_retries id s).1

-- The fallback, one by one: how many were deleted.
unfoldable pub delete_each : {S : Type 0} → OutboxRepository S → List ℕ → S → ℕ × S
delete_each repository [] s = (0, s)
delete_each repository (id ∷ ids) s =
    let out = repository.delete_outbox_items_batch (id ∷ []) s in
    let (n, s') = delete_each repository ids out.1 in
    elim out.0 [ ok _ ↦ (suc n, s') | err _ ↦ (n, s') ]

-- The deletions of what was delivered: how many, and the store.
unfoldable pub delete_delivered : {S : Type 0} → OutboxRepository S → List ℕ → S → ℕ × S
unfolding delete_each
delete_delivered repository [] s = (0, s)
delete_delivered repository (id ∷ ids) s =
    let out = repository.delete_outbox_items_batch (id ∷ ids) s in
    elim out.0 [
      | ok _ ↦ (length (id ∷ ids), out.1)
      | err _ ↦ delete_each repository (id ∷ ids) out.1
    ]

unfoldable pub process_batch_items :
    {S : Type 0} → Env S → List OutboxItem → OutboxProcessor S → ℕ × OutboxProcessor S
unfolding execute_all settle delete_delivered
process_batch_items env items s =
    let (ids, settled) = settle env.state (env.gather (execute_all env s.attempts items)) s.store in
    let (count, store) = delete_delivered env.state ids settled in
    (count, record { store = store; attempts = s.attempts + length items })

unfoldable pub process_batch :
    {S : Type 0} → Env S → Exec (OutboxProcessor S) PersistenceError (Unit {0})
unfolding process_batch_items
process_batch env s =
    let out = env.state.get_pending_outbox env.config.batch_size s.store in
    let fetched = record s { store = out.1 } in
    elim out.0 [
      | err e ↦ (err e, fetched)
      | ok [] ↦ (ok tt, fetched)
      | ok (i ∷ is) ↦ (ok tt, (process_batch_items env (i ∷ is) fetched).1)
    ]

-- `drain_queue`, with the rounds that it may take as fuel.
unfoldable pub drain_queue : {S : Type 0} → ℕ → Env S → ℕ → Exec (OutboxProcessor S) DrainError ℕ
unfolding process_batch_items
drain_queue zero env total_successful s = (err exhausted, s)
drain_queue (suc fuel) env total_successful s =
    let out = env.state.get_pending_outbox env.config.batch_size s.store in
    let fetched = record s { store = out.1 } in
    elim out.0 [
      | err e ↦ (err (failed e), fetched)
      | ok [] ↦ (ok total_successful, fetched)
      | ok (i ∷ is) ↦
          let (count, s') = process_batch_items env (i ∷ is) fetched in
          drain_queue fuel env (total_successful + count) s'
    ]
