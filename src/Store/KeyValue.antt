-- ===== src/Store/KeyValue.antt =====
-- crates/argus-store/src/key_value_store.rs: JSON values by key in the table `application_state`
-- (migrations/20250827120000_create_application_state_table). How serde prints and parses the values
-- of a type is `Serde`.
pub mod Reading
pub mod Rows
pub mod Saving
use argus_rs.Base.{
  Bool, Exec, HashMap, List, Option, Result, String, [], err, false, get, if◌then◌else◌, insert,
  keep, leb, nat_key, none, ok, pair_key, raise, some, string_key, true, ℕ, ◌&&◌, ◌+◌, ◌==◌, ◌>>=◌,
  ◌||◌, ◌∷◌,
}
use Prim.Native.String.{◌++◌ as ◌+++◌}
use argus_rs.Core.Errors.{PersistenceError, operation_failed, serialization_error}
use argus_rs.Core.Payload.{codes}
use argus_rs.Store.Transactions.{Faults}

pub record KeyValueDatabase : Type 0 where
  pub application_state : HashMap String String
  pub statements : ℕ

pub record Serde (T : Type 0) : Type 0 where
  pub to_text : T → Option String
  pub from_text : String → Option T

abbrev pub lowered : ℕ → ℕ
lowered c = if leb 65 c && leb c 90 then c + 32 else c

abbrev pub some_suffix : (List ℕ → Bool) → List ℕ → Bool
some_suffix test [] = test []
some_suffix test (c ∷ cs) = test (c ∷ cs) || some_suffix test cs

-- SQLite's `LIKE`: `%` stands for any text and `_` for any character, letters are those of ASCII in
-- either case.
unfoldable pub like : List ℕ → List ℕ → Bool
like [] [] = true
like [] (c ∷ cs) = false
like (p ∷ ps) [] = (p == 37) && like ps []
like (p ∷ ps) (c ∷ cs) =
    if p == 37
    then some_suffix (like ps) (c ∷ cs)
    else ((p == 95) || (lowered p == lowered c)) && like ps cs

-- A statement, which may fail: what it yields, and the table that it leaves.
abbrev pub query :
    {A : Type 0}
    → Faults
    → (HashMap String String → A × HashMap String String)
    → Exec KeyValueDatabase PersistenceError A
query fails run_on db =
    let after = record db { statements = db.statements + 1 } in
    if fails db.statements then (err operation_failed, after) else (
      ok (run_on db.application_state).0,
      record after { application_state = (run_on db.application_state).1 },
    )

abbrev pub parse_row : {T : Type 0} → Serde T → Option String → Result PersistenceError (Option T)
parse_row serde none = ok none
parse_row serde (some value) = elim (serde.from_text value) [
  | none ↦ err serialization_error
  | some t ↦ ok (some t)
]

unfoldable pub get_json_state :
    {T : Type 0} → Faults → Serde T → String → Exec KeyValueDatabase PersistenceError (Option T)
get_json_state fails serde key =
    query fails (λ rows. (get rows key, rows)) >>= λ result db. (parse_row serde result, db)

-- `INSERT OR REPLACE`
unfoldable pub set_json_state :
    {T : Type 0} → Faults → Serde T → String → T → Exec KeyValueDatabase PersistenceError (Unit {0})
set_json_state fails serde key value = elim (serde.to_text value) [
  | none ↦ raise serialization_error
  | some text ↦ query fails (λ rows. (tt, insert rows key text))
]

-- `collect`: the first row that does not parse is the error of all.
unfoldable pub parse_rows :
    {T : Type 0} → Serde T → List (String × String) → Result PersistenceError (List (String × T))
parse_rows serde [] = ok []
parse_rows serde ((key, value) ∷ rows) = elim (serde.from_text value) [
  | none ↦ err serialization_error
  | some t ↦ elim (parse_rows serde rows) [ err e ↦ err e | ok ts ↦ ok ((key, t) ∷ ts) ]
]

-- The rows whose key is like the pattern.
unfoldable pub select_like : List ℕ → HashMap String String → List (String × String)
unfolding like
select_like key_pattern rows = keep (λ (row : String × String). like key_pattern (codes row.0)) rows

unfoldable pub get_all_json_states_by_prefix :
    {T : Type 0}
    → Faults
    → Serde T
    → String
    → Exec KeyValueDatabase PersistenceError (List (String × T))
unfolding parse_rows select_like
get_all_json_states_by_prefix fails serde prefix =
    query fails (λ rows. (select_like (codes (prefix +++ "%")) rows, rows)) >>= λ found db.
    (parse_rows serde found, db)
