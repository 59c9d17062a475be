-- ===== src/Store/Catalog/Sparing.antt =====
-- Statements of crates/argus-store/src/app_repository.rs and what an error after them leaves.
pub mod Monitors
pub mod Actions
use argus_rs.Base.{
  Bool, Exec, Option, Result, ap, continue, err, false, if◌then◌else◌, nat_key, none, ok, pair_key,
  pure, raise, refl, some, some_inj, string_key, sym, true, ◌+◌, ◌>>=◌, ◌>>◌, ◌∙◌, ◌≡◌,
}
use argus_rs.Core.Errors.{operation_failed, PersistenceError}
use argus_rs.Store.Transactions.{Faults}
use argus_rs.Store.Catalog.{Catalog, CatalogDatabase, execute, found_one}

-- An operation whose errors leave the tables as they were.
abbrev pub Spares : {A : Type 0} → Exec CatalogDatabase PersistenceError A → Type 0
Spares op =
    (db : CatalogDatabase) (e : PersistenceError)
    → (op db).0 ≡ err e
    → (op db).1.catalog ≡ db.catalog

-- An error after a statement that left `after` of `c` and yielded `a`.
abbrev pub Undoes :
    {A B : Type 0}
    → (Catalog → Option (A × Catalog))
    → (A → Exec CatalogDatabase PersistenceError B)
    → Type 0
Undoes {A} run_on next =
    (c after : Catalog) (a : A)
    → run_on c ≡ some (a, after)
    → (s : CatalogDatabase) (e : PersistenceError) → s.catalog ≡ after
    → (next a s).0 ≡ err e
    → (next a s).1.catalog ≡ c

pub execute-then-Spares :
    {A B : Type 0} (fails : Faults) (run_on : Catalog → Option (A × Catalog))
    (next : A → Exec CatalogDatabase PersistenceError B)
    → Undoes run_on next
    → Spares (execute fails run_on >>= next)
unfolding execute
execute-then-Spares {A} {B} fails run_on next h db e = by_fault (fails db.statements)
  where
    counted : CatalogDatabase
    counted = record db { statements = db.statements + 1 }

    ran : Option (A × Catalog) → Result PersistenceError A × CatalogDatabase
    ran none = (err operation_failed, counted)
    ran (some (a, after)) = (ok a, record counted { catalog = after })

    by_rows :
        (o : Option (A × Catalog))
        → run_on db.catalog ≡ o
        → (continue (ran o).0 next (ran o).1).0 ≡ err e
        → (continue (ran o).0 next (ran o).1).1.catalog ≡ db.catalog
    by_rows none same failed = refl
    by_rows (some (a, after)) same failed =
        h db.catalog after a same (record counted { catalog = after }) e refl failed

    by_fault :
        (b : Bool)
        → (let out = if b then (err operation_failed, counted) else ran (run_on db.catalog) in
            continue out.0 next out.1).0
          ≡ err e
        → (let out = if b then (err operation_failed, counted) else ran (run_on db.catalog) in
            continue out.0 next out.1).1.catalog
          ≡ db.catalog
    by_fault true failed = refl
    by_fault false failed = by_rows (run_on db.catalog) refl failed

pub execute-Spares :
    {A : Type 0} (fails : Faults) (run_on : Catalog → Option (A × Catalog))
    → Spares (execute fails run_on)
unfolding execute
execute-Spares {A} fails run_on db e = by_fault (fails db.statements)
  where
    counted : CatalogDatabase
    counted = record db { statements = db.statements + 1 }

    ran : Option (A × Catalog) → Result PersistenceError A × CatalogDatabase
    ran none = (err operation_failed, counted)
    ran (some (a, after)) = (ok a, record counted { catalog = after })

    by_rows : (o : Option (A × Catalog)) → (ran o).0 ≡ err e → (ran o).1.catalog ≡ db.catalog
    by_rows none failed = refl
    by_rows (some (a, after)) failed = absurd (cc)

    by_fault :
        (b : Bool)
        → (if b then (err operation_failed, counted) else ran (run_on db.catalog)).0 ≡ err e
        → (if b then (err operation_failed, counted) else ran (run_on db.catalog)).1.catalog
          ≡ db.catalog
    by_fault true failed = refl
    by_fault false failed = by_rows (run_on db.catalog) failed

pub raise-Spares : (A : Type 0) (e : PersistenceError) → Spares (raise {A = A} e)
raise-Spares A e db e' failed = refl

pub pure-Undoes :
    {A B : Type 0} (run_on : Catalog → Option (A × Catalog)) (f : A → B)
    → Undoes run_on (λ a. pure (f a))
pure-Undoes run_on f c after a ran s e same failed = absurd (cc)

pub then-pure-Spares :
    {A B : Type 0} (op : Exec CatalogDatabase PersistenceError A) (b : B)
    → Spares op
    → Spares (op >> pure b)
then-pure-Spares {A} {B} op b h db e = by_result (op db).0 refl
  where
    by_result :
        (r : Result PersistenceError A)
        → (op db).0 ≡ r
        → (continue r (λ a. pure {A = B} b) (op db).1).0 ≡ err e
        → (continue r (λ a. pure {A = B} b) (op db).1).1.catalog ≡ db.catalog
    by_result (ok a) same failed = absurd (cc)
    by_result (err e') same failed = h db e' same

-- A statement that finds no row changes none.
pub found_one-Undoes :
    (run_on : Catalog → Option (Bool × Catalog))
    → ((c after : Catalog) → run_on c ≡ some (false, after) → after ≡ c)
    → Undoes run_on found_one
found_one-Undoes run_on h c after true ran s e same failed = absurd (cc)
found_one-Undoes run_on h c after false ran s e same failed = same ∙ h c after ran

pub row-Undoes :
    (found : Catalog → Bool) (change : Catalog → Catalog)
    → ((c : Catalog) → found c ≡ false → change c ≡ c)
    → Undoes (λ c. some (found c, change c)) found_one
row-Undoes found change h =
    found_one-Undoes (λ c. some (found c, change c))
      (λ c after ran.
        let both = some_inj ran in
        sym (ap (λ (p : Bool × Catalog). p.1) both) ∙ h c (ap (λ (p : Bool × Catalog). p.0) both))
