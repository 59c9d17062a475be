-- ===== src/Store/Outbox/Samples.antt =====
-- The outbox on a table of a few rows.
use argus_rs.Core.Payload
use argus_rs.Store.Outbox.Uniqueness.{enqueue_outbox_batch-once}
use argus_rs.Store.Outbox.Enqueueing.{enqueue_outbox_batch-Commits, Inserts}
use argus_rs.Store.Outbox.Contract.{pending_ids, HasDistinctIds, sqlite_outbox-IsOutbox}
use argus_rs.Store.Outbox.Deleting.{delete_outbox_items_batch-Commits}
use argus_rs.Store.Outbox.{
  OutboxRow, chunks_within, insert_or_ignore, insert_all, serialize, insert_chunks, delete_rows,
  sqlite_outbox, enqueue_outbox_batch, delete_outbox_items_batch, Codec,
}
use argus_rs.Base.{
  List, String, [], any, err, false, map, nat_key, none, ok, refl, some, string_key, ◌∷◌, ◌≡◌, ◌⊎◌,
}
use argus_rs.Core.Errors.{PersistenceError}
use argus_rs.Core.Matches.{MonitorMatch, transaction_data}
use argus_rs.Core.Payload.{aggregated, codes, ActionPayload, single}
use argus_rs.Core.Repository.{IsOutbox}
use argus_rs.Store.Transactions.{in_transaction, statement, Database, Faults}

abbrev a_match : String → MonitorMatch
a_match id = record {
  id = id;
  monitor_id = 1;
  monitor_name = "m";
  action_name = "plain";
  block_number = 5;
  transaction_hash = 9;
  match_data = transaction_data "{}";
  decoded_call = none;
}

abbrev codec : Codec
codec = record {
  to_text = λ p. elim p [ single m ↦ some m.id | aggregated name ms template ↦ none ];
  from_text = λ t. some (single (a_match t));
  digest = λ ts. "agg-0";
}

abbrev sound : Faults
sound k = false

abbrev empty_table : Database
empty_table = record { outbox = record { rows = []; next_id = 1 }; statements = 0 }

abbrev items : List (String × ActionPayload)
items =
    ("plain", single (a_match "a"))
    ∷ ("plain", single (a_match "b"))
    ∷ ("plain", single (a_match "a"))
    ∷ []

-- The repeated key is ignored.
enqueues_two :
    map
      (λ (r : OutboxRow). r.idempotency_key)
      (enqueue_outbox_batch codec sound items empty_table).1.outbox.rows
    ≡ "a" ∷ "b" ∷ []
unfolding enqueue_outbox_batch insert_chunks serialize statement in_transaction insert_all
    insert_or_ignore any chunks_within Payload.idempotency_key
enqueues_two = refl

enqueued : (enqueue_outbox_batch codec sound items empty_table).0 ≡ ok tt
unfolding enqueue_outbox_batch insert_chunks serialize statement in_transaction insert_all
    insert_or_ignore any chunks_within Payload.idempotency_key
enqueued = refl

enqueue_outbox_batch-Commits_example :
    ((e : PersistenceError) × ((enqueue_outbox_batch codec sound items empty_table).0 ≡ err e)
      × ((enqueue_outbox_batch codec sound items empty_table).1.outbox ≡ empty_table.outbox))
    ⊎ (((enqueue_outbox_batch codec sound items empty_table).0 ≡ ok tt)
        × Inserts codec items empty_table.outbox
            (enqueue_outbox_batch codec sound items empty_table).1.outbox)
enqueue_outbox_batch-Commits_example = enqueue_outbox_batch-Commits codec sound items empty_table

enqueue_outbox_batch-once_example :
    (enqueue_outbox_batch codec sound items
      (enqueue_outbox_batch codec sound items empty_table).1).1.outbox
    ≡ (enqueue_outbox_batch codec sound items empty_table).1.outbox
enqueue_outbox_batch-once_example = enqueue_outbox_batch-once codec sound items empty_table enqueued

delete_outbox_items_batch-Commits_example :
    ((e : PersistenceError) × ((delete_outbox_items_batch sound (1 ∷ []) empty_table).0 ≡ err e)
      × ((delete_outbox_items_batch sound (1 ∷ []) empty_table).1.outbox ≡ empty_table.outbox))
    ⊎ (((delete_outbox_items_batch sound (1 ∷ []) empty_table).0 ≡ ok tt)
        × ((delete_outbox_items_batch sound (1 ∷ []) empty_table).1.outbox
            ≡ delete_rows (1 ∷ []) empty_table.outbox))
delete_outbox_items_batch-Commits_example =
    delete_outbox_items_batch-Commits sound (1 ∷ []) empty_table

sqlite_outbox-IsOutbox_example : IsOutbox (sqlite_outbox codec sound) HasDistinctIds pending_ids
sqlite_outbox-IsOutbox_example = sqlite_outbox-IsOutbox codec sound
