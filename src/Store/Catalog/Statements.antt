-- ===== src/Store/Catalog/Statements.antt =====
-- Statements on the catalog that succeed.
use argus_rs.Base.{
  Bool, Exec, List, Option, Result, String, [], any, ap, continue, err, false, if◌then◌else◌,
  nat_key, none, none-ne-some, ok, pair_key, refl, some, some_inj, string_key, sym, true, ℕ, ◌++◌,
  ◌+◌, ◌∷◌, ◌≡◌,
}
use argus_rs.Core.Errors.{operation_failed, PersistenceError}
use argus_rs.Store.Transactions.{Faults}
use argus_rs.Monitor.Assets.{Monitor}
use argus_rs.Store.Catalog.{Catalog, CatalogDatabase, execute, refers, is_named}
use argus_rs.Store.Catalog.Monitors.{row_of, insert_monitor}

-- The monitors under the identifiers that the table gives them.
abbrev pub numbered : ℕ → List Monitor → List Monitor
numbered id [] = []
numbered id (m ∷ ms) = record m { id = id } ∷ numbered (id + 1) ms

pub continue-ok :
    (out : Result PersistenceError (Unit {0}) × CatalogDatabase)
    (k : Exec CatalogDatabase PersistenceError (Unit {0}))
    → (continue out.0 (λ u. k) out.1).0 ≡ ok tt
    → (out.0 ≡ ok tt) × (continue out.0 (λ u. k) out.1 ≡ k out.1)
continue-ok (ok tt, db) k h = (refl, refl)
continue-ok (err e, db) k h = absurd (cc)

pub execute-ok :
    (fails : Faults) (run_on : Catalog → Option (Unit {0} × Catalog)) (db : CatalogDatabase)
    → (execute fails run_on db).0 ≡ ok tt
    → (after : Catalog) × (run_on db.catalog ≡ some (tt, after))
      × (execute fails run_on db
          ≡ (ok tt, record { catalog = after; statements = db.statements + 1 }))
unfolding execute
execute-ok fails run_on db h = by_fault (fails db.statements) h
  where
    counted : CatalogDatabase
    counted = record db { statements = db.statements + 1 }

    ran : Option (Unit {0} × Catalog) → Result PersistenceError (Unit {0}) × CatalogDatabase
    ran none = (err operation_failed, counted)
    ran (some (a, after)) = (ok a, record counted { catalog = after })

    by_rows :
        (o : Option (Unit {0} × Catalog))
        → (ran o).0 ≡ ok tt
        → (after : Catalog) × (o ≡ some (tt, after))
          × (ran o ≡ (ok tt, record { catalog = after; statements = db.statements + 1 }))
    by_rows none h = absurd (cc)
    by_rows (some (tt, after)) h = (after, refl, refl)

    by_fault :
        (b : Bool)
        → (if b then (err operation_failed, counted) else ran (run_on db.catalog)).0 ≡ ok tt
        → (after : Catalog) × (run_on db.catalog ≡ some (tt, after))
          × ((if b then (err operation_failed, counted) else ran (run_on db.catalog))
              ≡ (ok tt, record { catalog = after; statements = db.statements + 1 }))
    by_fault true h = absurd (cc)
    by_fault false h = by_rows (run_on db.catalog) h

pub insert_monitor-adds :
    (m : Monitor) (actions : String) (c : Catalog) {after : Catalog}
    → insert_monitor m actions c ≡ some (tt, after)
    → after ≡ record c {
      monitors = c.monitors ++ row_of c.next_id m actions ∷ [];
      next_id = c.next_id + 1;
    }
unfolding insert_monitor
insert_monitor-adds m actions c h =
    by_tests (any (is_named m.network m.name) c.monitors) (refers c.abis m.abi_name) h
  where
    added : Catalog
    added = record c {
      monitors = c.monitors ++ row_of c.next_id m actions ∷ [];
      next_id = c.next_id + 1;
    }

    done : Option (Unit {0} × Catalog)
    done = some (tt, added)

    by_tests :
        (taken there : Bool) {after : Catalog}
        → (if taken then none else if there then done else none) ≡ some (tt, after)
        → after ≡ added
    by_tests true there h = absurd (none-ne-some h)
    by_tests false true h = sym (ap (λ (p : Unit {0} × Catalog). p.1) (some_inj h))
    by_tests false false h = absurd (none-ne-some h)
