-- ===== src/Engine/Processor/Correlation.antt =====
-- The two paths of `process_block` against a description that takes nothing out of the tables.
use argus_rs.Base.{
  ℕ, ◌≡◌, refl, ◌==◌, nat_key, Bool, false, List, [], ◌∷◌, HashMap, get, remove, get-remove, keep,
  ap, sym, ◌∙◌, Bool-cases, inl, inr,
}
use argus_rs.Core.Chain.{Log, Receipt, Transaction, CorrelatedBlockItem}
use argus_rs.Core.Chain.Grouping.{or_empty}
use argus_rs.Core.Registry.{InterestRegistry}
use argus_rs.Engine.Processor.{correlate_all, correlate_matchable, is_potentially_matchable}

-- No transaction of the list has the hash.
abbrev IsFresh : ℕ → List Transaction → Type 0
IsFresh h [] = Unit
IsFresh h (tx ∷ txs) = ((h == tx.hash) ≡ false) × IsFresh h txs

abbrev pub HasDistinctHashes : List Transaction → Type 0
HasDistinctHashes [] = Unit
HasDistinctHashes (tx ∷ txs) = IsFresh tx.hash txs × HasDistinctHashes txs

-- A transaction with the logs and the receipt that the tables hold for it.
abbrev pub item_of : HashMap ℕ (List Log) → HashMap ℕ Receipt → Transaction → CorrelatedBlockItem
item_of logs receipts tx = record {
  transaction = tx;
  logs = or_empty (get logs tx.hash);
  receipt = get receipts tx.hash;
}

abbrev pub items_of :
    HashMap ℕ (List Log) → HashMap ℕ Receipt → List Transaction → List CorrelatedBlockItem
items_of logs receipts [] = []
items_of logs receipts (tx ∷ txs) = item_of logs receipts tx ∷ items_of logs receipts txs

abbrev pub is_matchable_item : InterestRegistry → CorrelatedBlockItem → Bool
is_matchable_item registry item = is_potentially_matchable registry item.logs item.transaction

remove-fresh :
    {V : Type 0} (m : HashMap ℕ V) (h j : ℕ) → (h == j) ≡ false → get (remove m h) j ≡ get m j
remove-fresh m h j e = rw (get-remove m h j, e)

items_of-logs_removed :
    (logs : HashMap ℕ (List Log)) (receipts : HashMap ℕ Receipt) (h : ℕ) (txs : List Transaction)
    → IsFresh h txs
    → items_of (remove logs h) receipts txs ≡ items_of logs receipts txs
items_of-logs_removed logs receipts h [] f = refl
items_of-logs_removed logs receipts h (tx ∷ txs) f =
    rw (remove-fresh logs h tx.hash f.0, items_of-logs_removed logs receipts h txs f.1)

items_of-receipts_removed :
    (logs : HashMap ℕ (List Log)) (receipts : HashMap ℕ Receipt) (h : ℕ) (txs : List Transaction)
    → IsFresh h txs
    → items_of logs (remove receipts h) txs ≡ items_of logs receipts txs
items_of-receipts_removed logs receipts h [] f = refl
items_of-receipts_removed logs receipts h (tx ∷ txs) f =
    rw (remove-fresh receipts h tx.hash f.0, items_of-receipts_removed logs receipts h txs f.1)

items_of-removed :
    (logs : HashMap ℕ (List Log)) (receipts : HashMap ℕ Receipt) (h : ℕ) (txs : List Transaction)
    → IsFresh h txs
    → items_of (remove logs h) (remove receipts h) txs ≡ items_of logs receipts txs
items_of-removed logs receipts h txs f =
    items_of-logs_removed logs (remove receipts h) h txs f
    ∙ items_of-receipts_removed logs receipts h txs f

-- For a block whose transactions have distinct hashes, the fast path turns every transaction, in
-- order, into an item with all its logs and its receipt.
pub correlate_all_complete :
    (txs : List Transaction) (logs : HashMap ℕ (List Log)) (receipts : HashMap ℕ Receipt)
    → HasDistinctHashes txs
    → correlate_all txs logs receipts ≡ items_of logs receipts txs
unfolding correlate_all
correlate_all_complete [] logs receipts d = refl
correlate_all_complete (tx ∷ txs) logs receipts d =
    ap (λ items. item_of logs receipts tx ∷ items)
      (correlate_all_complete txs (remove logs tx.hash) (remove receipts tx.hash) d.1
        ∙ items_of-removed logs receipts tx.hash txs d.0)

kept :
    (registry : InterestRegistry) (txs : List Transaction) (logs : HashMap ℕ (List Log))
    (receipts : HashMap ℕ Receipt)
    → HasDistinctHashes txs
    → correlate_matchable registry txs logs receipts
      ≡ keep (is_matchable_item registry) (items_of logs receipts txs)
unfolding correlate_matchable keep
kept registry [] logs receipts d = refl
kept registry (tx ∷ txs) logs receipts d =
    elim (Bool-cases (is_potentially_matchable registry (or_empty (get logs tx.hash)) tx)) [
      | inl taken ↦ rw taken (
          ap (λ items. item_of logs receipts tx ∷ items)
            (kept registry txs (remove logs tx.hash) (remove receipts tx.hash) d.1
              ∙ ap (keep (is_matchable_item registry))
                  (items_of-removed logs receipts tx.hash txs d.0)))
      | inr skipped ↦ rw skipped (
          kept registry txs (remove logs tx.hash) receipts d.1
          ∙ ap (keep (is_matchable_item registry))
              (items_of-logs_removed logs receipts tx.hash txs d.0))
    ]

-- For a block whose transactions have distinct hashes, the optimized path yields exactly the items
-- of the fast path that have a log or call a watched address, in the same order.
pub correlate_matchable_prunes :
    (registry : InterestRegistry) (txs : List Transaction) (logs : HashMap ℕ (List Log))
    (receipts : HashMap ℕ Receipt)
    → HasDistinctHashes txs
    → correlate_matchable registry txs logs receipts
      ≡ keep (is_matchable_item registry) (correlate_all txs logs receipts)
correlate_matchable_prunes registry txs logs receipts d =
    kept registry txs logs receipts d
    ∙ ap (keep (is_matchable_item registry)) (sym (correlate_all_complete txs logs receipts d))
