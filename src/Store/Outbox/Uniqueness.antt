-- ===== src/Store/Outbox/Uniqueness.antt =====
-- The idempotency key keeps a batch from being enqueued twice.
use argus_rs.Base.{
  ==_refl, All, Bool, Bool-cases, List, String, [], any, ap, arith, eq_iff, inl, inr, nat_key, ok,
  refl, string_key, sym, true, ◌++◌, ◌==◌, ◌||◌, ◌∙◌, ◌∷◌, ◌≡◌,
}
use argus_rs.Core.Payload.{ActionPayload}
use argus_rs.Store.Transactions.{OutboxTable, Database, Faults}
use argus_rs.Store.Outbox.{
  Codec, SerializedItem, serialize, has_key, insert_or_ignore, insert_all, enqueue_outbox_batch,
}
use argus_rs.Store.Outbox.Enqueueing.{enqueue_outbox_batch-Commits}

abbrev holds : OutboxTable → String → Bool
holds t key = any (has_key key) t.rows

any-append :
    {A : Type 0} (p : A → Bool) (xs ys : List A) → any p (xs ++ ys) ≡ (any p xs || any p ys)
unfolding any
any-append p [] ys = refl
any-append p (x ∷ xs) ys = ground (arith, any-append p xs ys)

-- An item's key is there behind it, and no key is lost.
insert_or_ignore-holds :
    (item : SerializedItem) (t : OutboxTable) (key : String)
    → holds (insert_or_ignore item t) key ≡ (holds t key || item.idempotency_key == key)
unfolding insert_or_ignore any
insert_or_ignore-holds item t key = elim (Bool-cases (any (has_key item.idempotency_key) t.rows)) [
  | inr fresh ↦ rw fresh (any-append (has_key key) t.rows _ ∙ ground arith)
  | inl known ↦ rw known (elim (Bool-cases (item.idempotency_key == key)) [
    | inr other ↦ rw other (ground arith)
    | inl same ↦
        rw same (already (ap (holds t) (sym ((eq_iff item.idempotency_key key).0 same)) ∙ known))
  ])
]
  where
    already : holds t key ≡ true → holds t key ≡ (holds t key || true)
    already h = ground (arith, h)

insert_all-keeps :
    (items : List SerializedItem) (t : OutboxTable) (key : String)
    → holds t key ≡ true
    → holds (insert_all items t) key ≡ true
unfolding insert_all
insert_all-keeps [] t key e = e
insert_all-keeps (item ∷ items) t key e =
    insert_all-keeps items (insert_or_ignore item t) key
      (insert_or_ignore-holds item t key ∙ ground (arith, e))

-- Every key of the items is in the table.
abbrev AreHeld : OutboxTable → List SerializedItem → Type 0
AreHeld t items = All (λ (i : SerializedItem). holds t i.idempotency_key ≡ true) items

insert_all-AreHeld :
    (items : List SerializedItem) (t : OutboxTable) → AreHeld (insert_all items t) items
unfolding insert_all
insert_all-AreHeld [] t = tt
insert_all-AreHeld (item ∷ items) t = (
  insert_all-keeps items (insert_or_ignore item t) item.idempotency_key (
      insert_or_ignore-holds item t item.idempotency_key
      ∙ rw (==_refl item.idempotency_key) (ground arith)),
  insert_all-AreHeld items (insert_or_ignore item t),
)

insert_all-held :
    (items : List SerializedItem) (t : OutboxTable) → AreHeld t items → insert_all items t ≡ t
unfolding insert_all insert_or_ignore
insert_all-held [] t h = refl
insert_all-held (item ∷ items) t h = rw h.0 (insert_all-held items t h.1)

-- A batch that was enqueued is enqueued once: the same batch again, whether or not it fails, leaves
-- the outbox as it is.
pub enqueue_outbox_batch-once :
    (codec : Codec) (fails : Faults) (items : List (String × ActionPayload)) (db : Database)
    → (enqueue_outbox_batch codec fails items db).0 ≡ ok tt
    → (enqueue_outbox_batch codec fails items
        (enqueue_outbox_batch codec fails items db).1).1.outbox
      ≡ (enqueue_outbox_batch codec fails items db).1.outbox
enqueue_outbox_batch-once codec fails items db done =
    let db' = (enqueue_outbox_batch codec fails items db).1 in
    elim (enqueue_outbox_batch-Commits codec fails items db) [
      | inl (e, failure, _) ↦ cc
      | inr (_, (rows, good, first)) ↦ elim (enqueue_outbox_batch-Commits codec fails items db') [
        | inl (e, failure, same) ↦ same
        | inr (_, (rows', good', second)) ↦
            second
            ∙ ap (λ r. insert_all r db'.outbox) (same_rows good good')
            ∙ ap (insert_all rows) first
            ∙ insert_all-held rows (insert_all rows db.outbox) (insert_all-AreHeld rows db.outbox)
            ∙ sym first
      ]
    ]
  where
    same_rows :
        {r r' : List SerializedItem}
        → serialize codec items ≡ ok r
        → serialize codec items ≡ ok r'
        → r' ≡ r
    same_rows e f = cc
