-- ===== src/Store/Outbox.antt =====
-- The outbox operations of crates/argus-store/src/app_repository.rs. How payloads are written as
-- JSON and hashed is `Codec`.
pub mod Enqueueing
pub mod Uniqueness
pub mod Deleting
pub mod Contract
mod Samples
use argus_rs.Base.{
  Bool, Exec, List, Option, Result, String, [], any, contains, drop, err, if◌then◌else◌, keep,
  length, ltb, map, nat_key, none, not, ok, pure, some, string_key, suc, take, zero, ℕ, ◌++◌, ◌+◌,
  ◌/◌, ◌==◌, ◌>>=◌, ◌>>◌, ◌^◌, ◌∷◌,
}
use argus_rs.Core.Errors.{PersistenceError, serialization_error, operation_failed}
use argus_rs.Core.Payload.{ActionPayload, idempotency_key}
use argus_rs.Core.Repository.{OutboxItem, OutboxRepository}
use argus_rs.Store.Transactions.{
  OutboxRow, OutboxTable, Database, Faults, statement, in_transaction,
}

pub record Codec : Type 0 where
  pub to_text : ActionPayload → Option String
  pub from_text : String → Option ActionPayload
  pub digest : List (List ℕ) → String

abbrev pub sqlite_max_variables : ℕ
sqlite_max_variables = 999

abbrev pub outbox_insert_columns : ℕ
outbox_insert_columns = 3

-- `TryFrom<OutboxRow>`; retries beyond an `i32` are refused.
unfoldable pub try_from : Codec → OutboxRow → Result PersistenceError OutboxItem
try_from codec row = elim (codec.from_text row.payload) [
  | none ↦ err serialization_error
  | some payload ↦
      if ltb row.retries (2 ^ 31)
      then ok (record {
        id = row.id;
        action_name = row.action_name;
        payload = payload;
        retries = row.retries;
      })
      else err operation_failed
]

-- `collect::<Result<Vec<_>, _>>()`
unfoldable pub collect_items : Codec → List OutboxRow → Result PersistenceError (List OutboxItem)
unfolding try_from
collect_items codec [] = ok []
collect_items codec (row ∷ rows) = elim (try_from codec row) [
  | err e ↦ err e
  | ok item ↦ elim (collect_items codec rows) [ err e ↦ err e | ok items ↦ ok (item ∷ items) ]
]

-- `slice.chunks(size)`, with the length of the slice as fuel.
unfoldable pub chunks_within : {A : Type 0} → ℕ → ℕ → List A → List (List A)
chunks_within zero size xs = []
chunks_within (suc fuel) size [] = []
chunks_within (suc fuel) size (x ∷ xs) =
    take size (x ∷ xs) ∷ chunks_within fuel size (drop size (x ∷ xs))

abbrev pub chunks_of : {A : Type 0} → ℕ → List A → List (List A)
chunks_of size xs = chunks_within (length xs) size xs

-- An item with its payload written and its key computed, before it has an identifier.
pub record SerializedItem : Type 0 where
  pub action_name : String
  pub payload : String
  pub idempotency_key : String

unfoldable pub serialize :
    Codec → List (String × ActionPayload) → Result PersistenceError (List SerializedItem)
serialize codec [] = ok []
serialize codec ((name, payload) ∷ items) = elim (codec.to_text payload) [
  | none ↦ err serialization_error
  | some text ↦ elim (serialize codec items) [
    | err e ↦ err e
    | ok rest ↦ ok (
        record {
          action_name = name;
          payload = text;
          idempotency_key = idempotency_key codec.digest payload;
        }
        ∷ rest)
  ]
]

abbrev pub has_key : String → OutboxRow → Bool
has_key key row = row.idempotency_key == key

-- `INSERT OR IGNORE` of a row, under the unique index on the key.
unfoldable pub insert_or_ignore : SerializedItem → OutboxTable → OutboxTable
insert_or_ignore item t = if any (has_key item.idempotency_key) t.rows then t else record {
  rows =
      t.rows
      ++ record {
        id = t.next_id;
        action_name = item.action_name;
        payload = item.payload;
        idempotency_key = item.idempotency_key;
        retries = 0;
      }
        ∷ [];
  next_id = t.next_id + 1;
}

unfoldable pub insert_all : List SerializedItem → OutboxTable → OutboxTable
unfolding insert_or_ignore
insert_all [] t = t
insert_all (item ∷ items) t = insert_all items (insert_or_ignore item t)

abbrev pub attempt : {A : Type 0} → Result PersistenceError A → Exec Database PersistenceError A
attempt r db = (r, db)

-- The loop of `enqueue_outbox_batch`.
unfoldable pub insert_chunks :
    Codec
    → Faults
    → List (List (String × ActionPayload))
    → Exec Database PersistenceError (Unit {0})
unfolding insert_all
insert_chunks codec fails [] = pure tt
insert_chunks codec fails (chunk ∷ chunks) = attempt (serialize codec chunk) >>= λ items.
    statement fails (insert_all items) >> insert_chunks codec fails chunks

unfoldable pub enqueue_outbox_batch :
    Codec → Faults → List (String × ActionPayload) → Exec Database PersistenceError (Unit {0})
unfolding insert_chunks
enqueue_outbox_batch codec fails [] = pure tt
enqueue_outbox_batch codec fails (item ∷ items) = in_transaction fails (
    insert_chunks codec fails
      (chunks_of (sqlite_max_variables / outbox_insert_columns) (item ∷ items)))

unfoldable pub get_pending_outbox :
    Codec → Faults → ℕ → Exec Database PersistenceError (List OutboxItem)
unfolding collect_items
get_pending_outbox codec fails limit =
    statement fails (λ t. t) >> λ db. (collect_items codec (take limit db.outbox.rows), db)

abbrev pub row_outside : List ℕ → OutboxRow → Bool
row_outside ids row = not (contains ids row.id)

-- `DELETE FROM outbox WHERE id IN (..)`
unfoldable pub delete_rows : List ℕ → OutboxTable → OutboxTable
delete_rows ids t = record t { rows = keep (row_outside ids) t.rows }

unfoldable pub delete_chunks : Faults → List (List ℕ) → Exec Database PersistenceError (Unit {0})
unfolding delete_rows
delete_chunks fails [] = pure tt
delete_chunks fails (chunk ∷ chunks) =
    statement fails (delete_rows chunk) >> delete_chunks fails chunks

unfoldable pub delete_outbox_items_batch :
    Faults → List ℕ → Exec Database PersistenceError (Unit {0})
unfolding delete_chunks
delete_outbox_items_batch fails [] = pure tt
delete_outbox_items_batch fails (id ∷ ids) =
    in_transaction fails (delete_chunks fails (chunks_of sqlite_max_variables (id ∷ ids)))

-- `UPDATE outbox SET retries = retries + 1 WHERE id = ?`
unfoldable pub retry_rows : ℕ → OutboxTable → OutboxTable
retry_rows id t = record t {
  rows =
      map
        (λ (row : OutboxRow).
          if row.id == id then record row { retries = row.retries + 1 } else row)
        t.rows;
}

unfoldable pub increment_outbox_retries : Faults → ℕ → Exec Database PersistenceError (Unit {0})
unfolding retry_rows
increment_outbox_retries fails id = statement fails (retry_rows id)

-- The repository of the outbox processor.
abbrev pub sqlite_outbox : Codec → Faults → OutboxRepository Database
sqlite_outbox codec fails = record {
  get_pending_outbox = get_pending_outbox codec fails;
  delete_outbox_items_batch = delete_outbox_items_batch fails;
  increment_outbox_retries = increment_outbox_retries fails;
}
