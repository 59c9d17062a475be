-- ===== src/Engine/Outbox/Samples.antt =====
-- The outbox processor on a SQLite table of three rows.
use mathlib.Core.Path.{subst}
use argus_rs.Engine.Outbox.Draining.{drain_queue_empties}
use argus_rs.Engine.Outbox.Successes.{NeverFails}
use argus_rs.Engine.Outbox.Delivery.{process_batch_items_keeps_undelivered, delivered_ids}
use argus_rs.Base.{
  zero, suc, lt→ltb, inr, sym, suc, err, Bool-cases, take, ◌^◌, inl, ◌<◌, keep, All, arith, List,
  ok, true, String, [], contains, false, nat_key, none, not, refl, some, string_key, ℕ, ◌==◌, ◌∷◌,
  ◌≡◌,
}
use mathlib.Core.List.Permᴰ
use argus_rs.Core.Matches.{MonitorMatch, transaction_data}
use argus_rs.Core.Payload.{single}
use argus_rs.Core.Repository.{OutboxItem}
use argus_rs.Store.Transactions.{
  OutboxTable, statement, in_transaction, Database, Faults, OutboxRow,
}
use argus_rs.Store.Outbox.{
  row_outside, retry_rows, increment_outbox_retries, sqlite_max_variables, try_from, delete_rows,
  delete_chunks, chunks_of, collect_items, get_pending_outbox, delete_outbox_items_batch, Codec,
  sqlite_outbox,
}
use argus_rs.Store.Outbox.Contract.{pending_ids, HasDistinctIds, sqlite_outbox-IsOutbox}
use argus_rs.Store.Outbox.Deleting.{delete_outbox_items_batch-Commits}
use argus_rs.Engine.Outbox.{
  exhausted, delete_delivered, settle, drain_queue, process_batch_items, execute_all, Env,
  OutboxProcessor,
}

abbrev a_match : String → MonitorMatch
a_match id = record {
  id = id;
  monitor_id = 1;
  monitor_name = "m";
  action_name = "plain";
  block_number = 5;
  transaction_hash = 9;
  match_data = transaction_data "{}";
  decoded_call = none;
}

abbrev codec : Codec
codec = record {
  to_text = λ p. none;
  from_text = λ t. some (single (a_match t));
  digest = λ ts. "agg-0";
}

abbrev row : ℕ → OutboxRow
row n = record { id = n; action_name = "plain"; payload = "x"; idempotency_key = "k"; retries = 0 }

abbrev sound : Faults
sound k = false

-- Item 2 cannot be delivered.
abbrev env : Env Database
env = record {
  state = sqlite_outbox codec sound;
  config = record { batch_size = 2; concurrency = 1 };
  is_delivered = λ k i. not (i.id == 2);
  gather = λ rs. rs;
}

abbrev s : OutboxProcessor Database
s = record {
  store = record {
    outbox = record { rows = row 1 ∷ row 2 ∷ row 3 ∷ []; next_id = 4 };
    statements = 0;
  };
  attempts = 0;
}

abbrev item : ℕ → OutboxItem
item n = record { id = n; action_name = "plain"; payload = single (a_match "x"); retries = 0 }

distinct : HasDistinctIds s.store
unfolding contains
distinct = (refl, (refl, (refl, tt)))

process_batch_items_keeps_undelivered_example :
    contains (pending_ids (process_batch_items env (item 1 ∷ item 2 ∷ []) s).1.store) 2
    ≡ contains (pending_ids s.store) 2
unfolding execute_all delivered_ids contains
process_batch_items_keeps_undelivered_example =
    process_batch_items_keeps_undelivered env HasDistinctIds pending_ids
      (sqlite_outbox-IsOutbox codec sound) (item 1 ∷ item 2 ∷ []) s 2 (λ rs. Permᴰ.refl rs) distinct
      refl

abbrev good_env : Env Database
good_env = record env { is_delivered = λ k i. true }

-- Rows that an `i32` counts the retries of.
abbrev IsReadable : Database → Type 0
IsReadable db = All (λ (r : OutboxRow). r.retries < 2 ^ 31) db.outbox.rows

abbrev read_row : OutboxRow → OutboxItem
read_row r = record {
  id = r.id;
  action_name = r.action_name;
  payload = single (a_match r.payload);
  retries = r.retries;
}

reads_row : (r : OutboxRow) → r.retries < 2 ^ 31 → try_from codec r ≡ ok (read_row r)
unfolding try_from
reads_row r h = rw (lt→ltb r.retries (2 ^ 31) h) refl

collects :
    (n : ℕ) (rows : List OutboxRow)
    → All (λ (r : OutboxRow). r.retries < 2 ^ 31) rows
    → (items : List OutboxItem) × (collect_items codec (take n rows) ≡ ok items)
unfolding collect_items
collects zero rows h = ([], refl)
collects (suc n) [] h = ([], refl)
collects (suc n) (r ∷ rs) h =
    let (items, more) = collects n rs h.1 in
    (read_row r ∷ items, rw (reads_row r h.0, more, collect_items) refl)

reads :
    (n : ℕ) (db : Database)
    → IsReadable db
    → (items : List OutboxItem) × ((get_pending_outbox codec sound n db).0 ≡ ok items)
unfolding get_pending_outbox statement
reads n db r = collects n db.outbox.rows r

get-IsReadable :
    (n : ℕ) (db : Database) → IsReadable db → IsReadable (get_pending_outbox codec sound n db).1
unfolding get_pending_outbox statement
get-IsReadable n db r = r

delete_chunks-sound :
    (chunks : List (List ℕ)) (db : Database) → (delete_chunks sound chunks db).0 ≡ ok tt
unfolding delete_chunks statement
delete_chunks-sound [] db = refl
delete_chunks-sound (chunk ∷ chunks) db = delete_chunks-sound chunks _

deletes : (ids : List ℕ) (db : Database) → (delete_outbox_items_batch sound ids db).0 ≡ ok tt
unfolding delete_outbox_items_batch in_transaction statement
deletes [] db = refl
deletes (id ∷ ids) db = rw (delete_chunks-sound (chunks_of sqlite_max_variables (id ∷ ids)) _) refl

keep-readable :
    (ids : List ℕ) (rows : List OutboxRow)
    → All (λ (r : OutboxRow). r.retries < 2 ^ 31) rows
    → All (λ (r : OutboxRow). r.retries < 2 ^ 31) (keep (row_outside ids) rows)
unfolding keep
keep-readable ids [] h = tt
keep-readable ids (r ∷ rs) h = elim (Bool-cases (row_outside ids r)) [
  | inl kept ↦ rw kept (h.0, keep-readable ids rs h.1)
  | inr dropped ↦ rw dropped (keep-readable ids rs h.1)
]

delete-IsReadable :
    (ids : List ℕ) (db : Database)
    → IsReadable db
    → IsReadable (delete_outbox_items_batch sound ids db).1
unfolding delete_rows
delete-IsReadable ids db r = elim (delete_outbox_items_batch-Commits sound ids db) [
  | inl (e, failure, same) ↦
      subst (λ (t : OutboxTable). All (λ (r : OutboxRow). r.retries < 2 ^ 31) t.rows) (sym same) r
  | inr (done, gone) ↦
      subst (λ (t : OutboxTable). All (λ (r : OutboxRow). r.retries < 2 ^ 31) t.rows) (sym gone)
        (keep-readable ids db.outbox.rows r)
]

sound_repository : NeverFails good_env.state HasDistinctIds IsReadable
sound_repository = record {
  reads = reads;
  get_readable = get-IsReadable;
  deletes = λ ids db v. deletes ids db;
  delete_readable = delete-IsReadable;
}

drain_queue_empties_example :
    ((drain_queue 4 good_env 0 s).0 ≡ ok 3)
    × (pending_ids (drain_queue 4 good_env 0 s).1.store ≡ [])
drain_queue_empties_example =
    drain_queue_empties good_env HasDistinctIds IsReadable pending_ids
      (sqlite_outbox-IsOutbox codec sound) sound_repository (λ k i. refl) (λ rs. Permᴰ.refl rs) 4 0
      s distinct (omega arith, (omega arith, (omega arith, tt))) (omega arith) (omega arith)

-- A batch whose items all fail is fetched again and again.
stuck_drain : (drain_queue 9 (record env { is_delivered = λ k i. false }) 0 s).0 ≡ err exhausted
unfolding drain_queue process_batch_items execute_all settle delete_delivered get_pending_outbox
    statement collect_items try_from increment_outbox_retries retry_rows
stuck_drain = refl
