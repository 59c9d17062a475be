-- ===== src/Store/Catalog/Stored.antt =====
-- Monitors that were added are read as they were.
use argus_rs.Base.{
  keep-append, ok_inj, inr, inl, Bool-cases, ◌==◌, keep, All, Bool, List, Option, Result, String,
  [], ap, err, false, if◌then◌else◌, nat_key, none, ok, pair_key, refl, some, string_key, true,
  ◌++◌, ◌∙◌, ◌∷◌, ◌≡◌,
}
use argus_rs.Core.Errors.{serialization_error, PersistenceError}
use argus_rs.Store.Transactions.{Faults}
use argus_rs.Monitor.Assets.{Monitor}
use argus_rs.Store.Catalog.{MonitorRow, CatalogDatabase, execute}
use argus_rs.Store.Catalog.Monitors.{monitor_of, get_monitors, add_monitors, read_monitors}
use argus_rs.Store.Catalog.Inserted.{add_monitors-Added}
use argus_rs.Store.Catalog.Statements.{numbered}

read_monitors-append :
    (from_text : String → Option (List String)) (xs ys : List MonitorRow) {ms ns : List Monitor}
    → read_monitors from_text xs ≡ ok ms
    → read_monitors from_text ys ≡ ok ns
    → read_monitors from_text (xs ++ ys) ≡ ok (ms ++ ns)
unfolding read_monitors
read_monitors-append from_text [] ys {ms} {ns} e f = f ∙ ap (λ l. ok (l ++ ns)) (ok_inj e)
read_monitors-append from_text (x ∷ xs) ys {ms} {ns} e f =
    by_text (from_text x.actions) (read_monitors from_text xs) refl
      (λ rest h. read_monitors-append from_text xs ys h f) e
  where
    read :
        Option (List String)
        → Result PersistenceError (List Monitor)
        → Result PersistenceError (List Monitor)
    read o r = elim o [
      | none ↦ err serialization_error
      | some actions ↦ elim r [ err e ↦ err e | ok rest ↦ ok (monitor_of x actions ∷ rest) ]
    ]

    by_text :
        (o : Option (List String)) (r : Result PersistenceError (List Monitor))
        → read_monitors from_text xs ≡ r
        → ((rest : List Monitor)
            → read_monitors from_text xs ≡ ok rest
            → read_monitors from_text (xs ++ ys) ≡ ok (rest ++ ns))
        → read o r ≡ ok ms
        → read o (read_monitors from_text (xs ++ ys)) ≡ ok (ms ++ ns)
    by_text none r h append k = absurd (cc)
    by_text (some actions) (err e) h append k = absurd (cc)
    by_text (some actions) (ok rest) h append k =
        rw (append rest h) (ap (λ l. ok (l ++ ns)) (ok_inj k))

-- The rows of a network, with those that were added.
rows_of_network :
    (network_id network : String) (rows : List MonitorRow)
    → All (λ (row : MonitorRow). row.network ≡ network_id) rows
    → keep (λ (row : MonitorRow). row.network == network) rows
      ≡ (if network_id == network then rows else [])
unfolding keep
rows_of_network network_id network rows same = elim (Bool-cases (network_id == network)) [
  | inl it ↦ rw it (kept rows same it)
  | inr other ↦ rw other (dropped rows same other)
]
  where
    kept :
        (rs : List MonitorRow)
        → All (λ (row : MonitorRow). row.network ≡ network_id) rs
        → (network_id == network) ≡ true
        → keep (λ (row : MonitorRow). row.network == network) rs ≡ rs
    kept [] all it = refl
    kept (r ∷ rs) all it =
        rw (ap (λ n. n == network) all.0 ∙ it) (ap (λ l. r ∷ l) (kept rs all.1 it))

    dropped :
        (rs : List MonitorRow)
        → All (λ (row : MonitorRow). row.network ≡ network_id) rs
        → (network_id == network) ≡ false
        → keep (λ (row : MonitorRow). row.network == network) rs ≡ []
    dropped [] all it = refl
    dropped (r ∷ rs) all it = rw (ap (λ n. n == network) all.0 ∙ it) (dropped rs all.1 it)

module _ (to_text : List String → Option String) (from_text : String → Option (List String))
    (fails : Faults) (network_id : String)
    (round_trips : (names : List String) (text : String)
      → to_text names ≡ some text
      → from_text text ≡ some names) where
  -- Where what the actions print as parses back: once monitors are added without an error, a read of
  -- any network that does not fail finds the monitors that a read found before, and behind them, if
  -- it is their network, the added ones, in their order and under the next identifiers.
  pub add_then_get :
      (ms old : List Monitor) (network : String) (db : CatalogDatabase)
      → (add_monitors to_text fails network_id ms db).0 ≡ ok tt
      → read_monitors from_text
          (keep (λ (row : MonitorRow). row.network == network) db.catalog.monitors)
        ≡ ok old
      → fails (add_monitors to_text fails network_id ms db).1.statements ≡ false
      → (get_monitors from_text fails network (add_monitors to_text fails network_id ms db).1).0
        ≡ ok (old ++ (if network_id == network then numbered db.catalog.next_id ms else []))
  unfolding get_monitors execute read_monitors
  add_then_get ms old network db done before sound =
      let added = add_monitors-Added to_text from_text fails network_id round_trips ms db done in
      rw (sound, get_monitors)
        (ap
            (λ rows.
              read_monitors from_text (keep (λ (row : MonitorRow). row.network == network) rows))
            added.appended
          ∙ ap (λ rows. read_monitors from_text rows)
              (keep-append (λ (row : MonitorRow). row.network == network) db.catalog.monitors
                  added.rows
                ∙ ap
                    (λ rows.
                      keep (λ (row : MonitorRow). row.network == network) db.catalog.monitors
                      ++ rows)
                    (rows_of_network network_id network added.rows added.networks))
          ∙ read_monitors-append from_text
              (keep (λ (row : MonitorRow). row.network == network) db.catalog.monitors)
              (if network_id == network then added.rows else []) before
              (by_network (network_id == network) added.rows added.read))
    where
      by_network :
          (b : Bool) (rows : List MonitorRow)
          → read_monitors from_text rows ≡ ok (numbered db.catalog.next_id ms)
          → read_monitors from_text (if b then rows else [])
            ≡ ok (if b then numbered db.catalog.next_id ms else [])
      by_network true rows e = e
      by_network false rows e = refl
