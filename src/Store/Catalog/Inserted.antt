-- ===== src/Store/Catalog/Inserted.antt =====
-- What an insert of monitors that succeeds leaves in the table.
use argus_rs.Base.{
  eq_iff, true-ne-false, ◌||◌, inr, eq_iff, inl, Bool-cases, ◌==◌, not, All, Bool, Exec, List,
  Option, Result, String, [], any, ap, append-nil, append_assoc, err, false, if◌then◌else◌, nat_key,
  none, ok, pair_key, raise, refl, some, some_inj, string_key, sym, true, ◌++◌, ◌+◌, ◌>>◌, ◌∙◌, ◌∷◌,
  ◌≡◌,
}
use mathlib.Core.Path.{subst}
use argus_rs.Core.Errors.{invalid_input, serialization_error, PersistenceError}
use argus_rs.Store.Transactions.{Faults}
use argus_rs.Monitor.Assets.{Monitor}
use argus_rs.Store.Catalog.{MonitorRow, Catalog, CatalogDatabase, execute}
use argus_rs.Store.Catalog.Monitors.{
  or_rolled_back, no_change, add_monitors, row_of, insert_monitor, insert_monitors, read_monitors,
}
use argus_rs.Store.Catalog.Statements.{numbered, continue-ok, execute-ok, insert_monitor-adds}

module _ (to_text : List String → Option String) (from_text : String → Option (List String))
    (fails : Faults) (network_id : String)
    (round_trips : (names : List String) (text : String)
      → to_text names ≡ some text
      → from_text text ≡ some names) where
  -- What a run of inserts adds.
  pub record Added (ms : List Monitor) (c after : Catalog) : Type 0 where
    pub rows : List MonitorRow
    pub appended : after.monitors ≡ c.monitors ++ rows
    pub read : read_monitors from_text rows ≡ ok (numbered c.next_id ms)
    pub networks : All (λ (row : MonitorRow). row.network ≡ network_id) rows

  Added-cons :
      (m : Monitor) (ms : List Monitor) (actions : String) (c after : Catalog)
      → m.network ≡ network_id
      → from_text actions ≡ some m.actions
      → Added ms
          (record c {
            monitors = c.monitors ++ row_of c.next_id m actions ∷ [];
            next_id = c.next_id + 1;
          })
          after
      → Added (m ∷ ms) c after
  unfolding read_monitors
  Added-cons m ms actions c after same parsed rest = record {
    rows = row_of c.next_id m actions ∷ rest.rows;
    appended = rest.appended ∙ append_assoc c.monitors (row_of c.next_id m actions ∷ []) rest.rows;
    read = rw (parsed, read_monitors) (rw rest.read refl);
    networks = (same, rest.networks);
  }

  insert_monitors-Added :
      (ms : List Monitor) (db : CatalogDatabase)
      → All (λ (m : Monitor). m.network ≡ network_id) ms
      → (insert_monitors to_text fails ms db).0 ≡ ok tt
      → Added ms db.catalog (insert_monitors to_text fails ms db).1.catalog
  unfolding insert_monitors read_monitors
  insert_monitors-Added [] db same h = record {
    rows = [];
    appended = sym (append-nil db.catalog.monitors);
    read = refl;
    networks = tt;
  }
  insert_monitors-Added (m ∷ ms) db same h =
      by_text (to_text m.actions) refl (λ t. insert_monitors-Added ms t same.1) h
    where
      insert : Option String → Exec CatalogDatabase PersistenceError (Unit {0})
      insert text = elim text as (λ x. Exec CatalogDatabase PersistenceError (Unit {0})) [
        | none ↦ raise serialization_error
        | some actions ↦
            execute fails (insert_monitor m actions) >> insert_monitors to_text fails ms
      ]

      by_text :
          (text : Option String)
          → to_text m.actions ≡ text
          → ((t : CatalogDatabase)
              → (insert_monitors to_text fails ms t).0 ≡ ok tt
              → Added ms t.catalog (insert_monitors to_text fails ms t).1.catalog)
          → (insert text db).0 ≡ ok tt
          → Added (m ∷ ms) db.catalog (insert text db).1.catalog
      by_text none e rest h = absurd (cc)
      by_text (some actions) e rest h =
          let (done, goes_on) =
            continue-ok (execute fails (insert_monitor m actions) db)
              (insert_monitors to_text fails ms) h in
          let (c', ran, left) = execute-ok fails (insert_monitor m actions) db done in
          let t : CatalogDatabase = record { catalog = c'; statements = db.statements + 1 } in
          let all : insert (some actions) db ≡ insert_monitors to_text fails ms t =
            goes_on ∙ ap (λ o. insert_monitors to_text fails ms o.1) left in
          subst (λ o. Added (m ∷ ms) db.catalog o.1.catalog) (sym all)
            (Added-cons m ms actions db.catalog (insert_monitors to_text fails ms t).1.catalog
              same.0 (round_trips m.actions actions e)
              (subst (λ c. Added ms c (insert_monitors to_text fails ms t).1.catalog)
                (insert_monitor-adds m actions db.catalog ran)
                (rest t (sym (ap (λ o. o.0) all) ∙ h))))

  abbrev all_of : List Monitor → Exec CatalogDatabase PersistenceError (Unit {0})
  all_of ms = execute fails no_change >> insert_monitors to_text fails ms >> execute fails no_change

  all_of-Added :
      (ms : List Monitor) (db : CatalogDatabase)
      → All (λ (m : Monitor). m.network ≡ network_id) ms
      → (all_of ms db).0 ≡ ok tt
      → Added ms db.catalog (all_of ms db).1.catalog
  all_of-Added ms db same h =
      let begun = execute fails no_change db in
      let (first, last_runs) =
        continue-ok ((execute fails no_change >> insert_monitors to_text fails ms) db)
          (execute fails no_change) h in
      let (opened, inserts) = continue-ok begun (insert_monitors to_text fails ms) first in
      let (c0, e0, left0) = execute-ok fails no_change db opened in
      let t : CatalogDatabase = record { catalog = c0; statements = db.statements + 1 } in
      let inserted : (execute fails no_change >> insert_monitors to_text fails ms) db
          ≡ insert_monitors to_text fails ms t =
        inserts ∙ ap (λ o. insert_monitors to_text fails ms o.1) left0 in
      let u = (insert_monitors to_text fails ms t).1 in
      let ends : all_of ms db ≡ execute fails no_change u =
        last_runs ∙ ap (λ o. execute fails no_change o.1) inserted in
      let (c1, e1, left1) = execute-ok fails no_change u (sym (ap (λ o. o.0) ends) ∙ h) in
      let kept : u.catalog ≡ (all_of ms db).1.catalog =
        ap (λ (p : Unit {0} × Catalog). p.1) (some_inj e1)
        ∙ sym (ap (λ o. o.1.catalog) (ends ∙ left1)) in
      let unchanged : c0 ≡ db.catalog = sym (ap (λ (p : Unit {0} × Catalog). p.1) (some_inj e0)) in
      subst (λ c. Added ms db.catalog c) kept
        (subst (λ c. Added ms c u.catalog) unchanged
          (insert_monitors-Added ms t same (sym (ap (λ o. o.0) inserted) ∙ first)))

  all_of_network :
      (ms : List Monitor)
      → any (λ (m : Monitor). not (m.network == network_id)) ms ≡ false
      → All (λ (m : Monitor). m.network ≡ network_id) ms
  unfolding any
  all_of_network [] h = tt
  all_of_network (m ∷ ms) h = elim (Bool-cases (m.network == network_id)) [
    | inl same ↦ (
      (eq_iff m.network network_id).0 same,
      all_of_network ms (
          sym (ap (λ b. not b || any (λ (m' : Monitor). not (m'.network == network_id)) ms) same)
          ∙ h),
    )
    | inr other ↦ absurd (
        true-ne-false (
          sym (ap (λ b. not b || any (λ (m' : Monitor). not (m'.network == network_id)) ms) other)
          ∙ h))
  ]

  pub add_monitors-Added :
      (ms : List Monitor) (db : CatalogDatabase)
      → (add_monitors to_text fails network_id ms db).0 ≡ ok tt
      → Added ms db.catalog (add_monitors to_text fails network_id ms db).1.catalog
  unfolding add_monitors
  add_monitors-Added ms db h =
      by_network (any (λ (m : Monitor). not (m.network == network_id)) ms) refl h
    where
      committed :
          (out : Result PersistenceError (Unit {0}) × CatalogDatabase)
          → (out.0 ≡ ok tt → Added ms db.catalog out.1.catalog)
          → (or_rolled_back db out).0 ≡ ok tt
          → Added ms db.catalog (or_rolled_back db out).1.catalog
      committed (ok tt, after) k h = k refl
      committed (err e, after) k h = absurd (cc)

      end_of : Bool → Result PersistenceError (Unit {0}) × CatalogDatabase
      end_of b = if b then (err invalid_input, db) else or_rolled_back db (all_of ms db)

      by_network :
          (b : Bool)
          → any (λ (m : Monitor). not (m.network == network_id)) ms ≡ b
          → (end_of b).0 ≡ ok tt
          → Added ms db.catalog (end_of b).1.catalog
      by_network true e h = absurd (cc)
      by_network false e h = committed (all_of ms db) (all_of-Added ms db (all_of_network ms e)) h
