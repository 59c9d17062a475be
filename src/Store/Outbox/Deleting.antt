-- ===== src/Store/Outbox/Deleting.antt =====
-- What the deletion of a batch of items does.
use argus_rs.Base.{
  List, [], ap, arith, contains, contains-append, inl, inr, keep, map, nat_key, refl, string_key,
  sym, ℕ, ◌++◌, ◌∙◌, ◌∷◌, ◌≡◌,
}
use mathlib.Core.List.{flatten}
use mathlib.Core.Path.{subst}
use argus_rs.Core.Repository.{is_outside}
use argus_rs.Store.Transactions.{
  OutboxRow, Faults, statement, Runs, Commits, statement-Runs, both_Runs, in_transaction-Commits,
}
use argus_rs.Store.Outbox.{
  chunks_of, sqlite_max_variables, row_outside, delete_rows, delete_chunks,
  delete_outbox_items_batch,
}
use argus_rs.Store.Outbox.Enqueueing.{Commits→Runs, flatten-chunks_of}

abbrev pub row_id : OutboxRow → ℕ
row_id row = row.id

keep_outside-append :
    (xs ys : List ℕ) (rows : List OutboxRow)
    → keep (row_outside ys) (keep (row_outside xs) rows) ≡ keep (row_outside (xs ++ ys)) rows
unfolding keep
keep_outside-append xs ys [] = refl
keep_outside-append xs ys (r ∷ rs) =
    let same = keep_outside-append xs ys rs in ground (arith, same, contains-append xs ys r.id)

pub map_id-keep :
    (ids : List ℕ) (rows : List OutboxRow)
    → map row_id (keep (row_outside ids) rows) ≡ keep (is_outside ids) (map row_id rows)
unfolding keep
map_id-keep ids [] = refl
map_id-keep ids (r ∷ rs) = ground (arith, map_id-keep ids rs)

keep_outside-none : (rows : List OutboxRow) → keep (row_outside []) rows ≡ rows
unfolding keep contains
keep_outside-none [] = refl
keep_outside-none (r ∷ rs) = ap (λ l. r ∷ l) (keep_outside-none rs)

delete_chunks-Runs :
    (fails : Faults) (chunks : List (List ℕ))
    → Runs (λ t t'. t' ≡ delete_rows (flatten chunks) t) (delete_chunks fails chunks)
unfolding delete_chunks delete_rows flatten
delete_chunks-Runs fails [] db =
    inr
      (refl, sym (ap (λ rows. record db.outbox { rows = rows }) (keep_outside-none db.outbox.rows)))
delete_chunks-Runs fails (chunk ∷ chunks) db =
    elim (both_Runs (λ t t'. t' ≡ delete_rows chunk t) (λ t t'. t' ≡ delete_rows (flatten chunks) t)
      (statement fails (delete_rows chunk)) (delete_chunks fails chunks)
      (Commits→Runs (λ t t'. t' ≡ delete_rows chunk t) (statement fails (delete_rows chunk))
        (statement-Runs fails (delete_rows chunk)))
      (delete_chunks-Runs fails chunks) db) [
        | inl failure ↦ inl failure
        | inr (done, (t', first, second)) ↦ inr (
          done,
          second
              ∙ ap (delete_rows (flatten chunks)) first
              ∙ ap (λ rows. record db.outbox { rows = rows })
                  (keep_outside-append chunk (flatten chunks) db.outbox.rows),
        )
      ]

-- Deleting a batch fails and leaves the outbox as it was, or deletes exactly the rows whose
-- identifier is in the batch, whatever statements fail and however the batch is cut into chunks.
pub delete_outbox_items_batch-Commits :
    (fails : Faults) (ids : List ℕ)
    → Commits (λ t t'. t' ≡ delete_rows ids t) (delete_outbox_items_batch fails ids)
unfolding delete_outbox_items_batch delete_rows
delete_outbox_items_batch-Commits fails [] db =
    inr
      (refl, sym (ap (λ rows. record db.outbox { rows = rows }) (keep_outside-none db.outbox.rows)))
delete_outbox_items_batch-Commits fails (id ∷ ids) db =
    let body = delete_chunks fails (chunks_of sqlite_max_variables (id ∷ ids)) in
    in_transaction-Commits (λ t t'. t' ≡ delete_rows (id ∷ ids) t) fails body
      (subst (λ whole. Runs (λ t t'. t' ≡ delete_rows whole t) body)
        (flatten-chunks_of sqlite_max_variables (id ∷ ids) (omega arith))
        (delete_chunks-Runs fails (chunks_of sqlite_max_variables (id ∷ ids))))
      db
