-- ===== src/Store/Transactions.antt =====
-- The database of crates/argus-store with its outbox table (migrations/20260305043209_create_outbox
-- and 20260801000000_add_outbox_idempotency_key), statements that may fail, each by its position,
-- and transactions, which roll back when they are dropped before their commit.
use argus_rs.Base.{
  Bool, Bool-cases, Exec, List, Result, String, err, if◌then◌else◌, inl, inr, nat_key, ok, refl,
  string_key, ℕ, ◌+◌, ◌>>◌, ◌≡◌, ◌⊎◌,
}
use argus_rs.Core.Errors.{PersistenceError, operation_failed}

pub record OutboxRow : Type 0 where
  pub id : ℕ
  pub action_name : String
  pub payload : String
  pub idempotency_key : String
  pub retries : ℕ

-- The table, in the order of its identifiers, and the next of them.
pub record OutboxTable : Type 0 where
  pub rows : List OutboxRow
  pub next_id : ℕ

pub record Database : Type 0 where
  pub outbox : OutboxTable
  pub statements : ℕ

abbrev pub Faults : Type 0
Faults = ℕ → Bool

-- `execute_query_with_error_handling`, and `map_err` to `OperationFailed`.
unfoldable pub statement :
    Faults → (OutboxTable → OutboxTable) → Exec Database PersistenceError (Unit {0})
statement fails update db =
    if fails db.statements
    then (err operation_failed, record db { statements = db.statements + 1 })
    else (ok tt, record db { outbox = update db.outbox; statements = db.statements + 1 })

abbrev pub rolled_back :
    Database
    → Result PersistenceError (Unit {0}) × Database
    → Result PersistenceError (Unit {0}) × Database
rolled_back db (ok u, after) = (ok u, after)
rolled_back db (err e, after) = (err e, record db { statements = after.statements })

-- `begin`, the body, `commit`.
unfoldable pub in_transaction :
    Faults → Exec Database PersistenceError (Unit {0}) → Exec Database PersistenceError (Unit {0})
unfolding statement
in_transaction fails body db =
    rolled_back db ((statement fails (λ t. t) >> body >> statement fails (λ t. t)) db)

abbrev begun : Database → Database
begun db = record db { statements = db.statements + 1 }

-- An operation that fails, or takes the table to one that is related to it.
abbrev pub Runs :
    (OutboxTable → OutboxTable → Type 0) → Exec Database PersistenceError (Unit {0}) → Type 0
Runs R op =
    (db : Database)
    → ((e : PersistenceError) × ((op db).0 ≡ err e))
      ⊎ (((op db).0 ≡ ok tt) × R db.outbox (op db).1.outbox)

-- The same, where a failure leaves the table as it was.
abbrev pub Commits :
    (OutboxTable → OutboxTable → Type 0) → Exec Database PersistenceError (Unit {0}) → Type 0
Commits R op =
    (db : Database)
    → ((e : PersistenceError) × ((op db).0 ≡ err e) × ((op db).1.outbox ≡ db.outbox))
      ⊎ (((op db).0 ≡ ok tt) × R db.outbox (op db).1.outbox)

pub statement-Runs :
    (fails : Faults) (update : OutboxTable → OutboxTable)
    → Commits (λ t t'. t' ≡ update t) (statement fails update)
unfolding statement
statement-Runs fails update db = elim (Bool-cases (fails db.statements)) [
  | inl faulty ↦ rw faulty (inl (operation_failed, refl, refl))
  | inr sound ↦ rw sound (inr (refl, refl))
]

-- One relation behind the other.
abbrev pub Then :
    (OutboxTable → OutboxTable → Type 0)
    → (OutboxTable → OutboxTable → Type 0)
    → OutboxTable
    → OutboxTable
    → Type 0
Then R Q t t'' = (t' : OutboxTable) × R t t' × Q t' t''

pub both_Runs :
    (R Q : OutboxTable → OutboxTable → Type 0) (a b : Exec Database PersistenceError (Unit {0}))
    → Runs R a
    → Runs Q b
    → Runs (Then R Q) (a >> b)
both_Runs R Q a b runs_a runs_b db = elim (runs_a db) [
  | inl (e, failure) ↦ rw failure (inl (e, refl))
  | inr (done, related) ↦ rw done (elim (runs_b (a db).1) [
    | inl (e, failure) ↦ inl (e, failure)
    | inr (done', related') ↦ inr (done', ((a db).1.outbox, related, related'))
  ])
]

-- A transaction commits what its body does, or nothing.
pub in_transaction-Commits :
    (R : OutboxTable → OutboxTable → Type 0) (fails : Faults)
    (body : Exec Database PersistenceError (Unit {0}))
    → Runs R body
    → Commits R (in_transaction fails body)
unfolding in_transaction statement
in_transaction-Commits R fails body runs db = elim (Bool-cases (fails db.statements)) [
  | inl faulty ↦ rw faulty (inl (operation_failed, refl, refl))
  | inr sound ↦ rw sound (elim (runs (begun db)) [
    | inl (e, failure) ↦ rw failure (inl (e, refl, refl))
    | inr (done, related) ↦ rw done (elim (Bool-cases (fails (body (begun db)).1.statements)) [
      | inl faulty ↦ rw faulty (inl (operation_failed, refl, refl))
      | inr sound' ↦ rw sound' (inr (refl, related))
    ])
  ])
]
