-- ===== src/Store/Outbox/Enqueueing.antt =====
-- A batch is enqueued row by row, whatever its chunks are, or not at all, and only once.
use argus_rs.Base.{
  Exec, List, Option-cases, Result-cases, String, [], ap, arith, drop, inl, inr, length, nat_key,
  ok, refl, some, string_key, suc, sym, take, take-append-drop, zero, ℕ, ◌++◌, ◌/◌, ◌<◌, ◌∙◌, ◌∷◌,
  ◌≡◌, ◌≤◌,
}
use mathlib.Core.List.{flatten}
use mathlib.Core.Path.{subst}
use argus_rs.Core.Errors.{PersistenceError}
use argus_rs.Core.Payload.{idempotency_key, ActionPayload}
use argus_rs.Store.Transactions.{
  OutboxTable, Database, Faults, statement, Runs, Commits, statement-Runs, both_Runs,
  in_transaction-Commits,
}
use argus_rs.Store.Outbox.{
  Codec, SerializedItem, chunks_within, chunks_of, serialize, insert_or_ignore, insert_all,
  insert_chunks, enqueue_outbox_batch, sqlite_max_variables, outbox_insert_columns,
}

length-drop_le : {A : Type 0} (n : ℕ) (xs : List A) → length (drop n xs) ≤ length xs
length-drop_le zero xs = omega arith
length-drop_le (suc n) [] = omega arith
length-drop_le (suc n) (x ∷ xs) = omega (arith, length-drop_le n xs)

flatten-chunks_within :
    {A : Type 0} (fuel size : ℕ) (xs : List A)
    → 0 < size
    → length xs ≤ fuel
    → flatten (chunks_within fuel size xs) ≡ xs
unfolding chunks_within flatten
flatten-chunks_within zero size [] h small = refl
flatten-chunks_within zero size (x ∷ xs) h small = absurd (omega arith)
flatten-chunks_within (suc fuel) size [] h small = refl
flatten-chunks_within (suc fuel) zero (x ∷ xs) h small = absurd (omega arith)
flatten-chunks_within (suc fuel) (suc n) (x ∷ xs) h small =
    ap (λ l. x ∷ (take n xs ++ l))
      (flatten-chunks_within fuel (suc n) (drop n xs) h (omega (arith, length-drop_le n xs)))
    ∙ ap (λ l. x ∷ l) (take-append-drop n xs)

pub flatten-chunks_of :
    {A : Type 0} (size : ℕ) (xs : List A) → 0 < size → flatten (chunks_of size xs) ≡ xs
flatten-chunks_of size xs h = flatten-chunks_within (length xs) size xs h (omega arith)

abbrev row_of : Codec → String → ActionPayload → String → SerializedItem
row_of codec name p text = record {
  action_name = name;
  payload = text;
  idempotency_key = idempotency_key codec.digest p;
}

serialize-cons :
    (codec : Codec) (name : String) (p : ActionPayload) (xs : List (String × ActionPayload))
    (as' : List SerializedItem)
    → serialize codec ((name, p) ∷ xs) ≡ ok as'
    → (text : String) × (rest : List SerializedItem) × (codec.to_text p ≡ some text)
      × (serialize codec xs ≡ ok rest)
      × (as' ≡ row_of codec name p text ∷ rest)
unfolding serialize
serialize-cons codec name p xs as' e = elim (Option-cases (codec.to_text p)) [
  | inl missing ↦ ground (arith, e, missing)
  | inr (text, written) ↦ elim (Result-cases (serialize codec xs)) [
    | inr (x, bad) ↦ ground (arith, e, written, bad)
    | inl (rest, good) ↦ (text, rest, written, good, ground (arith, e, written, good))
  ]
]

serialize-append :
    (codec : Codec) (xs ys : List (String × ActionPayload)) (as' bs : List SerializedItem)
    → serialize codec xs ≡ ok as'
    → serialize codec ys ≡ ok bs
    → serialize codec (xs ++ ys) ≡ ok (as' ++ bs)
unfolding serialize
serialize-append codec [] ys as' bs e f = ground (arith, e, f)
serialize-append codec ((name, p) ∷ xs) ys as' bs e f =
    let (text, rest, written, good, same) = serialize-cons codec name p xs as' e in
    rw (written, serialize-append codec xs ys rest bs good f) (ap (λ l. ok (l ++ bs)) (sym same))

insert_all-append :
    (xs ys : List SerializedItem) (t : OutboxTable)
    → insert_all ys (insert_all xs t) ≡ insert_all (xs ++ ys) t
unfolding insert_all
insert_all-append [] ys t = refl
insert_all-append (x ∷ xs) ys t = insert_all-append xs ys (insert_or_ignore x t)

-- The rows of the items, inserted one by one, lead from one table to the other.
abbrev pub Inserts : Codec → List (String × ActionPayload) → OutboxTable → OutboxTable → Type 0
Inserts codec items t t' =
    (rows : List SerializedItem) × (serialize codec items ≡ ok rows) × (t' ≡ insert_all rows t)

pub Commits→Runs :
    (R : OutboxTable → OutboxTable → Type 0) (op : Exec Database PersistenceError (Unit {0}))
    → Commits R op
    → Runs R op
Commits→Runs R op c db = elim (c db) [
  | inl (e, failure, _) ↦ inl (e, failure)
  | inr done ↦ inr done
]

insert_chunks-Runs :
    (codec : Codec) (fails : Faults) (chunks : List (List (String × ActionPayload)))
    → Runs (Inserts codec (flatten chunks)) (insert_chunks codec fails chunks)
unfolding insert_chunks flatten serialize
insert_chunks-Runs codec fails [] db = inr (refl, ([], refl, refl))
insert_chunks-Runs codec fails (chunk ∷ chunks) db = elim (Result-cases (serialize codec chunk)) [
  | inr (e, bad) ↦ rw (bad, insert_chunks) (inl (e, refl))
  | inl (rows, good) ↦
      rw (good, insert_chunks)
        (elim (both_Runs (λ t t'. t' ≡ insert_all rows t) (Inserts codec (flatten chunks))
          (statement fails (insert_all rows)) (insert_chunks codec fails chunks)
          (Commits→Runs (λ t t'. t' ≡ insert_all rows t) (statement fails (insert_all rows))
            (statement-Runs fails (insert_all rows)))
          (insert_chunks-Runs codec fails chunks) db) [
            | inl failure ↦ inl failure
            | inr (done, (t', first, (rest, good', second))) ↦ inr (
              done,
              (
                rows ++ rest,
                serialize-append codec chunk (flatten chunks) rows rest good good',
                second ∙ ap (insert_all rest) first ∙ insert_all-append rows rest db.outbox,
              ),
            )
          ])
]

-- Enqueueing a batch fails and leaves the outbox as it was, or inserts the rows of all its items
-- one by one, whatever statements fail and however the batch is cut into chunks.
pub enqueue_outbox_batch-Commits :
    (codec : Codec) (fails : Faults) (items : List (String × ActionPayload))
    → Commits (Inserts codec items) (enqueue_outbox_batch codec fails items)
unfolding enqueue_outbox_batch insert_all serialize
enqueue_outbox_batch-Commits codec fails [] db = inr (refl, ([], refl, refl))
enqueue_outbox_batch-Commits codec fails (item ∷ items) db =
    let size = sqlite_max_variables / outbox_insert_columns in
    let body = insert_chunks codec fails (chunks_of size (item ∷ items)) in
    in_transaction-Commits (Inserts codec (item ∷ items)) fails body
      (subst (λ whole. Runs (Inserts codec whole) body)
        (flatten-chunks_of size (item ∷ items) (omega arith))
        (insert_chunks-Runs codec fails (chunks_of size (item ∷ items))))
      db
