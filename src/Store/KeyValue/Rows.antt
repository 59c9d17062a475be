-- ===== src/Store/KeyValue/Rows.antt =====
-- Rows that parse, and what is read of them.
use argus_rs.Base.{
  true, [], sym, ap, All, Bool-cases, HashMap, IsDistinct, List, Option, String, [], ap, arith, get,
  inl, inr, insert, insert_all, keep, map, nat_key, none, ok, pair_key, refl, some, string_key, sym,
  true, ℕ, ◌==◌, ◌∙◌, ◌∷◌, ◌≡◌,
}
use Prim.Native.String.{◌++◌ as ◌+++◌}
use argus_rs.Core.Payload.{codes}
use argus_rs.Store.KeyValue.{Serde, like, select_like, parse_rows}
use argus_rs.Store.KeyValue.Reading.{get-select_like}

-- States that are printed without an error and parse as they were.
abbrev pub RoundTrips : {T : Type 0} → Serde T → (T → String) → HashMap String T → Type 0
RoundTrips {T} serde print states =
    All
      (λ (e : String × T).
        (serde.to_text e.1 ≡ some (print e.1)) × (serde.from_text (print e.1) ≡ some e.1))
      states

abbrev Parses : {T : Type 0} → Serde T → String → Type 0
Parses {T} serde text = (t : T) × (serde.from_text text ≡ some t)

-- The rows whose keys are like the pattern parse.
abbrev pub LikeParses : {T : Type 0} → Serde T → List ℕ → HashMap String String → Type 0
LikeParses serde key_pattern rows =
    All (λ (row : String × String). like key_pattern (codes row.0) ≡ true → Parses serde row.1) rows

abbrev pub and_then {ℓ} : {A B : Type ℓ} → Option A → (A → Option B) → Option B
and_then none f = none
and_then (some a) f = f a

-- `states`, as rows under a prefix.
abbrev pub rows_of :
    {T : Type 0} → String → (T → String) → HashMap String T → List (String × String)
rows_of {T} prefix print states = map (λ (e : String × T). (prefix +++ e.0, print e.1)) states

insert-LikeParses :
    {T : Type 0} (serde : Serde T) (key_pattern : List ℕ) (rows : HashMap String String)
    (key text : String)
    → (like key_pattern (codes key) ≡ true → Parses serde text)
    → LikeParses serde key_pattern rows
    → LikeParses serde key_pattern (insert rows key text)
unfolding insert
insert-LikeParses serde key_pattern [] key text p h = (p, tt)
insert-LikeParses serde key_pattern ((k, v) ∷ rows) key text p h = elim (Bool-cases (k == key)) [
  | inl same ↦ rw same (p, h.1)
  | inr other ↦ rw other (h.0, insert-LikeParses serde key_pattern rows key text p h.1)
]

pub insert_all-LikeParses :
    {T : Type 0} (serde : Serde T) (key_pattern : List ℕ) (es : List (String × String))
    (rows : HashMap String String)
    → LikeParses serde key_pattern es
    → LikeParses serde key_pattern rows
    → LikeParses serde key_pattern (insert_all es rows)
unfolding insert_all
insert_all-LikeParses serde key_pattern [] rows h k = k
insert_all-LikeParses serde key_pattern ((key, text) ∷ es) rows h k =
    insert_all-LikeParses serde key_pattern es (insert rows key text) h.1
      (insert-LikeParses serde key_pattern rows key text h.0 k)

pub select_like-Parses :
    {T : Type 0} (serde : Serde T) (key_pattern : List ℕ) (rows : HashMap String String)
    → LikeParses serde key_pattern rows
    → All (λ (row : String × String). Parses serde row.1) (select_like key_pattern rows)
unfolding select_like keep
select_like-Parses serde key_pattern [] h = tt
select_like-Parses serde key_pattern ((k, v) ∷ rows) h =
    elim (Bool-cases (like key_pattern (codes k))) [
      | inl same ↦ rw same (h.0 same, select_like-Parses serde key_pattern rows h.1)
      | inr other ↦ rw other (select_like-Parses serde key_pattern rows h.1)
    ]

pub select_like-IsDistinct :
    (key_pattern : List ℕ) (rows : HashMap String String)
    → IsDistinct rows
    → IsDistinct (select_like key_pattern rows)
unfolding select_like keep
select_like-IsDistinct key_pattern [] h = tt
select_like-IsDistinct key_pattern ((k, v) ∷ rows) h =
    elim (Bool-cases (like key_pattern (codes k))) [
      | inl same ↦ rw same (
        get-select_like key_pattern rows k ∙ rw same h.0,
        select_like-IsDistinct key_pattern rows h.1,
      )
      | inr other ↦ rw other (select_like-IsDistinct key_pattern rows h.1)
    ]

-- What rows that all parse are read as.
pub record IsRead {T : Type 0} (serde : Serde T) (rows : List (String × String))
    (ts : List (String × T)) : Type 0 where
  pub result : parse_rows serde rows ≡ ok ts
  pub found : (key : String) → get ts key ≡ and_then (get rows key) serde.from_text
  pub distinct : IsDistinct rows → IsDistinct ts

pub parse_rows-IsRead :
    {T : Type 0} (serde : Serde T) (rows : List (String × String))
    → All (λ (row : String × String). Parses serde row.1) rows
    → (ts : List (String × T)) × IsRead serde rows ts
unfolding parse_rows get
parse_rows-IsRead serde [] h =
    ([], record { result = refl; found = λ key. refl; distinct = λ d. tt })
parse_rows-IsRead serde ((k, v) ∷ rows) h =
    let (t, parsed) = h.0 in
    let (ts, r) = parse_rows-IsRead serde rows h.1 in
    (
      (k, t) ∷ ts,
      record {
        result = ground (arith, parsed, r.result);
        found = λ key. elim (Bool-cases (k == key)) [
          | inl same ↦ rw same (sym parsed)
          | inr other ↦ rw other (r.found key)
        ];
        distinct = λ d. (r.found k ∙ ap (λ o. and_then o serde.from_text) d.0, r.distinct d.1);
      },
    )
