-- ===== src/Core/Repository.antt =====
-- crates/argus-core/src/persistence/traits.rs: the outbox as its clients see it, with what they rely
-- on.
use argus_rs.Base.{
  Bool, Exec, List, String, [], contains, err, false, keep, map, nat_key, not, ok, string_key, take,
  ℕ, ◌∷◌, ◌≡◌,
}
use argus_rs.Core.Errors.{PersistenceError}
use argus_rs.Core.Payload.{ActionPayload}

pub record OutboxItem : Type 0 where
  pub id : ℕ
  pub action_name : String
  pub payload : ActionPayload
  pub retries : ℕ

abbrev pub item_id : OutboxItem → ℕ
item_id i = i.id

-- The operations of `AppRepository` on pending items.
pub record OutboxRepository (S : Type 0) : Type 0 where
  pub get_pending_outbox : ℕ → Exec S PersistenceError (List OutboxItem)
  pub delete_outbox_items_batch : List ℕ → Exec S PersistenceError (Unit {0})
  pub increment_outbox_retries : ℕ → Exec S PersistenceError (Unit {0})

abbrev pub is_outside : List ℕ → ℕ → Bool
is_outside ids i = not (contains ids i)

abbrev pub HasDistinct : List ℕ → Type 0
HasDistinct [] = Unit
HasDistinct (x ∷ xs) = (contains xs x ≡ false) × HasDistinct xs

-- The contract, on the identifiers that are pending, oldest first.
pub record IsOutbox {S : Type 0} (repository : OutboxRepository S) (IsValid : S → Type 0)
    (pending : S → List ℕ) : Type 0 where
  pub distinct : (s : S) → IsValid s → HasDistinct (pending s)
  pub get_valid : (n : ℕ) (s : S) → IsValid s → IsValid (repository.get_pending_outbox n s).1
  pub get_oldest :
      (n : ℕ) (s : S) (items : List OutboxItem)
      → IsValid s
      → (repository.get_pending_outbox n s).0 ≡ ok items
      → map item_id items ≡ take n (pending s)
  pub get_keeps :
      (n : ℕ) (s : S) → IsValid s → pending (repository.get_pending_outbox n s).1 ≡ pending s
  pub delete_valid :
      (ids : List ℕ) (s : S) → IsValid s → IsValid (repository.delete_outbox_items_batch ids s).1
  pub delete_done :
      (ids : List ℕ) (s : S)
      → IsValid s
      → (repository.delete_outbox_items_batch ids s).0 ≡ ok tt
      → pending (repository.delete_outbox_items_batch ids s).1 ≡ keep (is_outside ids) (pending s)
  pub delete_failed :
      (ids : List ℕ) (s : S) (e : PersistenceError)
      → IsValid s
      → (repository.delete_outbox_items_batch ids s).0 ≡ err e
      → pending (repository.delete_outbox_items_batch ids s).1 ≡ pending s
  pub increment_valid :
      (id : ℕ) (s : S) → IsValid s → IsValid (repository.increment_outbox_retries id s).1
  pub increment_keeps :
      (id : ℕ) (s : S)
      → IsValid s
      → pending (repository.increment_outbox_retries id s).1 ≡ pending s
