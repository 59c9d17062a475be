-- ===== src/Store/Catalog/Lookup.antt =====
-- get_monitor_by_id of crates/argus-store/src/app_repository.rs, with the parsing of its argument.
use argus_rs.Base.{
  zero, suc, ◌-◌, suc, negsuc, ◌^◌, ◌*◌, pos, ◌&&◌, ℤ, leb, Bool, Exec, List, Option, Result,
  String, [], err, false, if◌then◌else◌, nat_key, none, ok, pair_key, raise, some, string_key, ℕ,
  ◌+◌, ◌==◌, ◌>>=◌, ◌∷◌,
}
use argus_rs.Core.Errors.{PersistenceError, serialization_error, invalid_input}
use argus_rs.Store.Transactions.{Faults}
use argus_rs.Monitor.Assets.{Monitor}
use argus_rs.Core.Payload.{codes}
use argus_rs.Store.Catalog.{MonitorRow, CatalogDatabase, execute}
use argus_rs.Store.Catalog.Monitors.{monitor_of}

-- Decimal digits, in a radix of 10; `none` at any other character.
unfoldable pub digits : List ℕ → ℕ → Option ℕ
digits [] n = some n
digits (c ∷ cs) n = if leb 48 c && leb c 57 then digits cs (n * 10 + (c - 48)) else none

unfoldable pub unsigned : List ℕ → Option ℕ
unfolding digits
unsigned [] = none
unsigned (c ∷ cs) = digits (c ∷ cs) 0

abbrev pub negated : ℕ → ℤ
negated zero = pos 0
negated (suc n) = negsuc n

abbrev pub in_range : ℕ → (ℕ → ℤ) → Option ℕ → Option ℤ
in_range limit sign none = none
in_range limit sign (some n) = if leb n limit then some (sign n) else none

-- `parse::<i64>`: digits, with a sign at most.
unfoldable pub parse_i64 : List ℕ → Option ℤ
unfolding unsigned
parse_i64 [] = none
parse_i64 (c ∷ cs) =
    if c == 45
    then in_range (2 ^ 63) negated (unsigned cs)
    else if c == 43
    then in_range (2 ^ 63 - 1) pos (unsigned cs)
    else in_range (2 ^ 63 - 1) pos (unsigned (c ∷ cs))

abbrev pub has_number : ℤ → MonitorRow → Bool
has_number (pos n) row = row.monitor_id == n
has_number (negsuc n) row = false

abbrev pub read_monitor :
    (String → Option (List String)) → Option MonitorRow → Result PersistenceError (Option Monitor)
read_monitor from_text none = ok none
read_monitor from_text (some row) = elim (from_text row.actions) [
  | none ↦ err serialization_error
  | some actions ↦ ok (some (monitor_of row actions))
]

-- `fetch_optional`
unfoldable pub first_that {ℓ} : {A : Type ℓ} → (A → Bool) → List A → Option A
first_that test [] = none
first_that test (x ∷ xs) = if test x then some x else first_that test xs

unfoldable pub get_monitor_by_id :
    (String → Option (List String))
    → Faults
    → String
    → String
    → Exec CatalogDatabase PersistenceError (Option Monitor)
unfolding execute parse_i64 first_that
get_monitor_by_id from_text fails network_id monitor_id = elim (parse_i64 (codes monitor_id)) [
  | none ↦ raise invalid_input
  | some number ↦
      execute fails (λ c.
        some (first_that (λ row. row.network == network_id && has_number number row) c.monitors, c))
      >>= λ row db. (read_monitor from_text row, db)
]
