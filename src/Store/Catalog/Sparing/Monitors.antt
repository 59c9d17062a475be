-- ===== src/Store/Catalog/Sparing/Monitors.antt =====
-- The operations of crates/argus-store/src/app_repository.rs on ABIs and monitors that end in an
-- error.
use argus_rs.Base.{
  ◌>>=◌, raise, Exec, true-ne-false, Bool, HashMap, List, Option, Result, String, [], any, ap,
  arith, err, false, get, if◌then◌else◌, keep, map, nat_key, none, none-ne-some, not, ok, pair_key,
  refl, remove, some, some_inj, string_key, sym, true, ℕ, ◌==◌, ◌>>◌, ◌∙◌, ◌∷◌, ◌≡◌,
}
use argus_rs.Core.Errors.{serialization_error, PersistenceError, invalid_input}
use argus_rs.Store.Transactions.{Faults}
use argus_rs.Abi.Service.{is_some}
use argus_rs.Monitor.Assets.{MonitorStatus, Monitor}
use argus_rs.Store.Catalog.{
  refers, MonitorRow, Catalog, CatalogDatabase, execute, uses, is_monitor, found_one, delete_row,
  unless_used, delete_abi,
}
use argus_rs.Store.Catalog.Sparing.{
  raise-Spares, Spares, execute-then-Spares, row-Undoes, found_one-Undoes,
}
use argus_rs.Store.Catalog.Monitors.{
  updated_row, changed, update_rows, update_monitor_status, update_monitor, insert_monitors,
  or_rolled_back, no_change, add_monitors, delete_monitor,
}

-- What no row is meant by changes none.
pub keep_none :
    {A : Type 0} (p : A → Bool) (rows : List A)
    → any p rows ≡ false
    → keep (λ row. not (p row)) rows ≡ rows
unfolding any keep
keep_none p [] h = refl
keep_none p (row ∷ rows) h = ground (arith, keep_none p rows)

pub map_none :
    {A : Type 0} (p : A → Bool) (change : A → A) (rows : List A)
    → any p rows ≡ false
    → map (λ row. if p row then change row else row) rows ≡ rows
unfolding any
map_none p change [] h = refl
map_none p change (row ∷ rows) h = ground (arith, map_none p change rows)

remove_none :
    (abis : HashMap String String) (name : String)
    → is_some (get abis name) ≡ false
    → remove abis name ≡ abis
unfolding get remove
remove_none [] name h = refl
remove_none ((j, v) ∷ abis) name h = ground (arith, remove_none abis name)

pub delete_abi-Spares : (fails : Faults) (name : String) → Spares (delete_abi fails name)
unfolding delete_abi
delete_abi-Spares fails name =
    execute-then-Spares fails
      (λ c. some (map (λ (row : MonitorRow). row.name) (keep (uses name) c.monitors), c))
      (unless_used fails name)
      (λ c after users ran s e same failed.
        by_users users s e failed
        ∙ same
        ∙ sym (ap (λ (p : List String × Catalog). p.1) (some_inj ran)))
  where
    gone : (c after : Catalog) → delete_row name c ≡ some (false, after) → after ≡ c
    gone c after = by_use (any (uses name) c.monitors)
      where
        deleted : Option (Bool × Catalog)
        deleted = some (is_some (get c.abis name), record c { abis = remove c.abis name })

        by_use : (b : Bool) → (if b then none else deleted) ≡ some (false, after) → after ≡ c
        by_use true h = absurd (none-ne-some h)
        by_use false h =
            let both = some_inj h in
            sym (ap (λ (p : Bool × Catalog). p.1) both)
            ∙ ap (λ m. record c { abis = m })
                (remove_none c.abis name (ap (λ (p : Bool × Catalog). p.0) both))

    by_users : (users : List String) → Spares (unless_used fails name users)
    by_users [] =
        execute-then-Spares fails (delete_row name) found_one
          (found_one-Undoes (delete_row name) gone)
    by_users (u ∷ us) = λ s e failed. refl

pub add_monitors-Spares :
    (to_text : List String → Option String) (fails : Faults) (network_id : String)
    (monitors : List Monitor)
    → Spares (add_monitors to_text fails network_id monitors)
unfolding add_monitors
add_monitors-Spares to_text fails network_id monitors db e =
    by_network (any (λ (m : Monitor). not (m.network == network_id)) monitors)
  where
    rolled :
        (out : Result PersistenceError (Unit {0}) × CatalogDatabase)
        → (or_rolled_back db out).0 ≡ err e
        → (or_rolled_back db out).1.catalog ≡ db.catalog
    rolled (ok u, after) failed = absurd (cc)
    rolled (err e', after) failed = refl

    end_of : Bool → Result PersistenceError (Unit {0}) × CatalogDatabase
    end_of b =
        if b
        then (err invalid_input, db)
        else or_rolled_back db (
            (execute fails no_change
                >> insert_monitors to_text fails monitors
                >> execute fails no_change)
              db)

    by_network : (b : Bool) → (end_of b).0 ≡ err e → (end_of b).1.catalog ≡ db.catalog
    by_network true failed = refl
    by_network false failed =
        rolled
          ((execute fails no_change
              >> insert_monitors to_text fails monitors
              >> execute fails no_change)
            db)
          failed

pub delete_monitor-Spares :
    (fails : Faults) (network_id : String) (monitor_id : ℕ)
    → Spares (delete_monitor fails network_id monitor_id)
unfolding delete_monitor
delete_monitor-Spares fails network_id monitor_id =
    execute-then-Spares fails (λ c. some (found c, change c)) found_one
      (row-Undoes found change (λ c h.
        ap (λ rows. record c { monitors = rows })
          (keep_none (is_monitor network_id monitor_id) c.monitors h)))
  where
    found : Catalog → Bool
    found c = any (is_monitor network_id monitor_id) c.monitors

    change : Catalog → Catalog
    change c = record c {
      monitors = keep (λ row. not (is_monitor network_id monitor_id row)) c.monitors;
    }

pub update_monitor_status-Spares :
    (fails : Faults) (network_id : String) (monitor_id : ℕ) (status : MonitorStatus)
    → Spares (update_monitor_status fails network_id monitor_id status)
unfolding update_monitor_status
update_monitor_status-Spares fails network_id monitor_id status =
    execute-then-Spares fails (λ c. some (found c, change c)) found_one
      (row-Undoes found change (λ c h.
        ap (λ rows. record c { monitors = rows })
          (map_none (is_monitor network_id monitor_id) (λ row. record row { status = status })
            c.monitors h)))
  where
    found : Catalog → Bool
    found c = any (is_monitor network_id monitor_id) c.monitors

    change : Catalog → Catalog
    change c = record c {
      monitors =
          changed (is_monitor network_id monitor_id) (λ row. record row { status = status })
            c.monitors;
    }

pub update_monitor-Spares :
    (to_text : List String → Option String) (fails : Faults) (network_id : String) (monitor_id : ℕ)
    (m : Monitor)
    → Spares (update_monitor to_text fails network_id monitor_id m)
unfolding update_monitor update_rows
update_monitor-Spares to_text fails network_id monitor_id m = by_text (to_text m.actions)
  where
    gone :
        (actions : String) (c after : Catalog)
        → update_rows network_id monitor_id m actions c ≡ some (false, after)
        → after ≡ c
    gone actions c after =
        by_tests (any (is_monitor network_id monitor_id) c.monitors) (refers c.abis m.abi_name)
      where
        done : Catalog
        done = record c {
          monitors = changed (is_monitor network_id monitor_id) (updated_row m actions) c.monitors;
        }

        updated : Option (Bool × Catalog)
        updated = some (true, done)

        no_row : Option (Bool × Catalog)
        no_row = some (false, c)

        by_tests :
            (found there : Bool)
            → (if found then if there then updated else none else no_row) ≡ some (false, after)
            → after ≡ c
        by_tests true true h =
            absurd (true-ne-false (ap (λ (p : Bool × Catalog). p.0) (some_inj h)))
        by_tests true false h = absurd (none-ne-some h)
        by_tests false there h = sym (ap (λ (p : Bool × Catalog). p.1) (some_inj h))

    by_text :
        (text : Option String)
        → Spares (elim text as (λ x. Exec CatalogDatabase PersistenceError (Unit {0})) [
          | none ↦ raise serialization_error
          | some actions ↦ execute fails (update_rows network_id monitor_id m actions) >>= found_one
        ])
    by_text none = raise-Spares (Unit {0}) serialization_error
    by_text (some actions) =
        execute-then-Spares fails (update_rows network_id monitor_id m actions) found_one
          (found_one-Undoes (update_rows network_id monitor_id m actions) (gone actions))
