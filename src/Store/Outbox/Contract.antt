-- ===== src/Store/Outbox/Contract.antt =====
-- The SQLite repository keeps the contract that the outbox processor relies on.
use argus_rs.Base.{
  ◌⊎◌, Result, err, Bool, Bool-cases, List, Result-cases, [], ap, arith, contains, false,
  if◌then◌else◌, inl, inr, keep, map, nat_key, ok, refl, string_key, suc, sym, take, zero, ℕ, ◌+◌,
  ◌==◌, ◌∙◌, ◌∷◌, ◌≡◌,
}
use mathlib.Core.Path.{subst}
use argus_rs.Core.Repository.{IsOutbox, OutboxItem, HasDistinct, item_id, is_outside}
use argus_rs.Store.Transactions.{
  OutboxRow, OutboxTable, Database, Faults, statement, statement-Runs,
}
use argus_rs.Store.Outbox.{
  sqlite_outbox, increment_outbox_retries, PersistenceError, Codec, try_from, collect_items,
  get_pending_outbox, delete_rows, delete_outbox_items_batch, retry_rows,
}
use argus_rs.Store.Outbox.Deleting.{row_id, map_id-keep, delete_outbox_items_batch-Commits}

abbrev pub pending_ids : Database → List ℕ
pending_ids db = map row_id db.outbox.rows

contains-keep_absent :
    (p : ℕ → Bool) (xs : List ℕ) (x : ℕ) → contains xs x ≡ false → contains (keep p xs) x ≡ false
unfolding keep contains
contains-keep_absent p [] x e = refl
contains-keep_absent p (y ∷ ys) x e = ground (arith, e, contains-keep_absent p ys x)

HasDistinct-keep : (p : ℕ → Bool) (xs : List ℕ) → HasDistinct xs → HasDistinct (keep p xs)
unfolding keep
HasDistinct-keep p [] d = tt
HasDistinct-keep p (x ∷ xs) d = elim (Bool-cases (p x)) [
  | inl kept ↦ rw kept (contains-keep_absent p xs x d.0, HasDistinct-keep p xs d.1)
  | inr dropped ↦ rw dropped (HasDistinct-keep p xs d.1)
]

map_id-take : (n : ℕ) (rows : List OutboxRow) → map row_id (take n rows) ≡ take n (map row_id rows)
map_id-take zero rows = refl
map_id-take (suc n) [] = refl
map_id-take (suc n) (r ∷ rs) = ap (λ l. r.id ∷ l) (map_id-take n rs)

try_from-id :
    (codec : Codec) (row : OutboxRow) (item : OutboxItem)
    → try_from codec row ≡ ok item
    → item.id ≡ row.id
unfolding try_from
try_from-id codec row item e = ground (arith, e)

collect_items-ids :
    (codec : Codec) (rows : List OutboxRow) (items : List OutboxItem)
    → collect_items codec rows ≡ ok items
    → map item_id items ≡ map row_id rows
unfolding collect_items
collect_items-ids codec [] items e = ground (arith, e)
collect_items-ids codec (row ∷ rows) items e = elim (Result-cases (try_from codec row)) [
  | inr (x, bad) ↦ ground (arith, e, bad)
  | inl (item, good) ↦ elim (Result-cases (collect_items codec rows)) [
    | inr (x, bad) ↦ ground (arith, e, good, bad)
    | inl (rest, more) ↦ ground (
      arith,
      e,
      good,
      more,
      try_from-id codec row item good,
      collect_items-ids codec rows rest more,
    )
  ]
]

retry_rows-ids : (id : ℕ) (t : OutboxTable) → map row_id (retry_rows id t).rows ≡ map row_id t.rows
unfolding retry_rows
retry_rows-ids id t = go t.rows
  where
    go :
        (rows : List OutboxRow)
        → map row_id (
            map
              (λ (row : OutboxRow).
                if row.id == id then record row { retries = row.retries + 1 } else row)
              rows)
          ≡ map row_id rows
    go [] = refl
    go (r ∷ rs) = ground (arith, go rs)

get_pending-frame :
    (codec : Codec) (fails : Faults) (n : ℕ) (db : Database)
    → (get_pending_outbox codec fails n db).1.outbox ≡ db.outbox
unfolding get_pending_outbox statement
get_pending-frame codec fails n db = elim (Bool-cases (fails db.statements)) [
  | inl faulty ↦ rw faulty refl
  | inr sound ↦ rw sound refl
]

get_pending-oldest :
    (codec : Codec) (fails : Faults) (n : ℕ) (db : Database) (items : List OutboxItem)
    → (get_pending_outbox codec fails n db).0 ≡ ok items
    → map item_id items ≡ take n (pending_ids db)
unfolding get_pending_outbox statement
get_pending-oldest codec fails n db items = elim (Bool-cases (fails db.statements)) [
  | inl faulty ↦ rw faulty (λ e. cc)
  | inr sound ↦
      rw sound (λ e.
        collect_items-ids codec (take n db.outbox.rows) items e ∙ map_id-take n db.outbox.rows)
]

deleted_ids :
    (ids : List ℕ) (t t' : OutboxTable)
    → t' ≡ delete_rows ids t
    → map row_id t'.rows ≡ keep (is_outside ids) (map row_id t.rows)
unfolding delete_rows
deleted_ids ids t t' e = ap (λ (u : OutboxTable). map row_id u.rows) e ∙ map_id-keep ids t.rows

-- The identifiers behind a deletion: those outside, or all if it failed.
delete-ids :
    (fails : Faults) (ids : List ℕ) (db : Database)
    → ((e : PersistenceError) × ((delete_outbox_items_batch fails ids db).0 ≡ err e)
        × (pending_ids (delete_outbox_items_batch fails ids db).1 ≡ pending_ids db))
      ⊎ (((delete_outbox_items_batch fails ids db).0 ≡ ok tt)
          × (pending_ids (delete_outbox_items_batch fails ids db).1
              ≡ keep (is_outside ids) (pending_ids db)))
delete-ids fails ids db = elim (delete_outbox_items_batch-Commits fails ids db) [
  | inl (e, failure, same) ↦ inl (e, failure, ap (λ (t : OutboxTable). map row_id t.rows) same)
  | inr (done, gone) ↦ inr (done, deleted_ids ids db.outbox _ gone)
]

increment-ids :
    (fails : Faults) (id : ℕ) (db : Database)
    → pending_ids (increment_outbox_retries fails id db).1 ≡ pending_ids db
unfolding increment_outbox_retries
increment-ids fails id db = elim (statement-Runs fails (retry_rows id) db) [
  | inl (e, failure, same) ↦ ap (λ (t : OutboxTable). map row_id t.rows) same
  | inr (done, changed) ↦
      ap (λ (t : OutboxTable). map row_id t.rows) changed ∙ retry_rows-ids id db.outbox
]

abbrev pub HasDistinctIds : Database → Type 0
HasDistinctIds db = HasDistinct (pending_ids db)

-- The SQLite repository, on tables whose identifiers are distinct, keeps the contract that the
-- outbox processor relies on, whatever statements fail and whatever the codec is.
pub sqlite_outbox-IsOutbox :
    (codec : Codec) (fails : Faults)
    → IsOutbox (sqlite_outbox codec fails) HasDistinctIds pending_ids
sqlite_outbox-IsOutbox codec fails = record {
  distinct = λ db v. v;
  get_valid = λ n db v. subst HasDistinct (sym (ids_same (get_pending-frame codec fails n db))) v;
  get_oldest = λ n db items v good. get_pending-oldest codec fails n db items good;
  get_keeps = λ n db v. ids_same (get_pending-frame codec fails n db);
  delete_valid = λ ids db v. elim (delete-ids fails ids db) [
    | inl (e, failure, same) ↦ subst HasDistinct (sym same) v
    | inr (done, gone) ↦
        subst HasDistinct (sym gone) (HasDistinct-keep (is_outside ids) (pending_ids db) v)
  ];
  delete_done = λ ids db v done. elim (delete-ids fails ids db) [
    | inl (e, failure, same) ↦ absurd (apart done failure)
    | inr (done', gone) ↦ gone
  ];
  delete_failed = λ ids db e v failure. elim (delete-ids fails ids db) [
    | inl (e', failure', same) ↦ same
    | inr (done, gone) ↦ absurd (apart done failure)
  ];
  increment_valid = λ id db v. subst HasDistinct (sym (increment-ids fails id db)) v;
  increment_keeps = λ id db v. increment-ids fails id db;
}
  where
    ids_same : {t t' : OutboxTable} → t' ≡ t → map row_id t'.rows ≡ map row_id t.rows
    ids_same e = ap (λ (u : OutboxTable). map row_id u.rows) e

    apart :
        {r : Result PersistenceError (Unit {0})} {e : PersistenceError} → r ≡ ok tt → r ≡ err e → ⊥
    apart e f = cc
