-- ===== src/Store/Catalog/Sparing/Actions.antt =====
-- The operations of crates/argus-store/src/app_repository.rs on actions that end in an error.
use argus_rs.Base.{
  Bool, Exec, Option, String, any, ap, false, if◌then◌else◌, keep, map, nat_key, none, none-ne-some,
  not, pair_key, pure, raise, some, some_inj, string_key, sym, true, true-ne-false, ℕ, ◌&&◌, ◌==◌,
  ◌>>=◌, ◌>>◌, ◌≡◌,
}
use argus_rs.Core.Errors.{
  serialization_error, serialization_error, serialization_error, serialization_error,
  serialization_error, serialization_error, serialization_error, serialization_error,
  PersistenceError, serialization_error, invalid_input,
}
use argus_rs.Store.Transactions.{Faults}
use argus_rs.Core.Actions.{ActionConfig}
use argus_rs.Store.Catalog.{ActionRow, Catalog, CatalogDatabase, execute, found_one}
use argus_rs.Store.Catalog.Sparing.{
  Spares, execute-then-Spares, raise-Spares, then-pure-Spares, pure-Undoes, row-Undoes,
  found_one-Undoes,
}
use argus_rs.Store.Catalog.Sparing.Monitors.{keep_none}
use argus_rs.Store.Catalog.Actions.{
  is_action, is_action_named, insert_action, create_action, changed_action, update_actions,
  update_action, delete_action,
}

pub create_action-Spares :
    (to_text : ActionConfig → Option String) (fails : Faults) (network_id : String)
    (action : ActionConfig)
    → Spares (create_action to_text fails network_id action)
unfolding create_action
create_action-Spares to_text fails network_id action = by_text (to_text action)
  where
    by_text :
        (text : Option String)
        → Spares (elim text as (λ x. Exec CatalogDatabase PersistenceError ActionConfig) [
          | none ↦ raise serialization_error
          | some config ↦ execute fails (insert_action network_id action.name config) >>= λ new_id.
              pure (record action { id = some new_id })
        ])
    by_text none = raise-Spares ActionConfig serialization_error
    by_text (some config) =
        execute-then-Spares fails (insert_action network_id action.name config)
          (λ new_id. pure (record action { id = some new_id }))
          (pure-Undoes (insert_action network_id action.name config)
            (λ new_id. record action { id = some new_id }))

pub update_action-Spares :
    (to_text : ActionConfig → Option String) (fails : Faults) (network_id : String)
    (action : ActionConfig)
    → Spares (update_action to_text fails network_id action)
unfolding update_action
update_action-Spares to_text fails network_id action = by_id action.id
  where
    gone :
        (action_id : ℕ) (config : String) (c after : Catalog)
        → update_actions network_id action_id action.name config c ≡ some (false, after)
        → after ≡ c
    gone action_id config c after = by_tests (any (is_action network_id action_id) c.actions) (
        any
          (λ (row : ActionRow).
            is_action_named network_id action.name row && not (row.action_id == action_id))
          c.actions)
      where
        done : Catalog
        done = record c {
          actions = map (changed_action network_id action_id action.name config) c.actions;
        }

        changed_rows : Option (Bool × Catalog)
        changed_rows = some (true, done)

        no_row : Option (Bool × Catalog)
        no_row = some (false, c)

        by_tests :
            (found taken : Bool)
            → (if found then if taken then none else changed_rows else no_row) ≡ some (false, after)
            → after ≡ c
        by_tests true true h = absurd (none-ne-some h)
        by_tests true false h =
            absurd (true-ne-false (ap (λ (p : Bool × Catalog). p.0) (some_inj h)))
        by_tests false taken h = sym (ap (λ (p : Bool × Catalog). p.1) (some_inj h))

    found : ℕ → String → Exec CatalogDatabase PersistenceError (Unit {0})
    found action_id config =
        execute fails (update_actions network_id action_id action.name config) >>= found_one

    by_text :
        (action_id : ℕ) (text : Option String)
        → Spares (elim text as (λ x. Exec CatalogDatabase PersistenceError ActionConfig) [
          | none ↦ raise serialization_error
          | some config ↦ found action_id config >> pure action
        ])
    by_text action_id none = raise-Spares ActionConfig serialization_error
    by_text action_id (some config) = then-pure-Spares (found action_id config) action (
        execute-then-Spares fails (update_actions network_id action_id action.name config) found_one
          (found_one-Undoes (update_actions network_id action_id action.name config)
            (gone action_id config)))

    by_id :
        (id : Option ℕ)
        → Spares (elim id as (λ x. Exec CatalogDatabase PersistenceError ActionConfig) [
          | none ↦ raise invalid_input
          | some action_id ↦ elim (to_text action) [
            | none ↦ raise serialization_error
            | some config ↦ found action_id config >> pure action
          ]
        ])
    by_id none = raise-Spares ActionConfig invalid_input
    by_id (some action_id) = by_text action_id (to_text action)

pub delete_action-Spares :
    (fails : Faults) (network_id : String) (action_id : ℕ)
    → Spares (delete_action fails network_id action_id)
unfolding delete_action
delete_action-Spares fails network_id action_id =
    execute-then-Spares fails (λ c. some (found c, change c)) found_one
      (row-Undoes found change (λ c h.
        ap (λ rows. record c { actions = rows })
          (keep_none (is_action network_id action_id) c.actions h)))
  where
    found : Catalog → Bool
    found c = any (is_action network_id action_id) c.actions

    change : Catalog → Catalog
    change c = record c {
      actions = keep (λ row. not (is_action network_id action_id row)) c.actions;
    }
