-- ===== src/Store/KeyValue/Saving.antt =====
-- States that are saved under a prefix and read by it.
use argus_rs.Base.{
  true-ne-false, some_inj, none-ne-some, or_else, false, [], sym, ap, Bool-cases, HashMap,
  IsDistinct, List, Option, String, [], ap, eq_iff, false, get, if◌then◌else◌, inl, inr, nat_key,
  none, ok, pair_key, refl, some, string_key, sym, ℕ, ◌==◌, ◌∙◌, ◌∷◌, ◌≡◌, ◌≢◌,
}
use mathlib.Core.Path.{subst}
use Prim.Native.String.{◌++◌ as ◌+++◌}
use text.Mathlib.TextLemmas.{append_cancel_left}
use argus_rs.Core.Payload.{codes}
use argus_rs.Store.KeyValue.{Serde, like, select_like, parse_rows}
use argus_rs.Store.KeyValue.Reading.{codes-append, like_own_prefix, get-select_like}
use argus_rs.Store.KeyValue.Rows.{
  RoundTrips, LikeParses, and_then, rows_of, select_like-Parses, select_like-IsDistinct,
  parse_rows-IsRead,
}

pub same_behind : (prefix a b : String) → ((prefix +++ a) == (prefix +++ b)) ≡ (a == b)
same_behind prefix a b = elim (Bool-cases (a == b)) [
  | inl same ↦
      rw same
        ((eq_iff (prefix +++ a) (prefix +++ b)).1 (ap (λ s. prefix +++ s) ((eq_iff a b).0 same)))
  | inr other ↦ rw other (elim (Bool-cases ((prefix +++ a) == (prefix +++ b))) [
    | inr differs ↦ differs
    | inl same ↦ absurd (
        true-ne-false (
          sym (
            (eq_iff a b).1
              (append_cancel_left prefix a b ((eq_iff (prefix +++ a) (prefix +++ b)).0 same)))
          ∙ other))
  ])
]

-- The row of a name is what its state prints as.
pub get-rows_of :
    {T : Type 0} (prefix : String) (print : T → String) (states : HashMap String T) (name : String)
    → get (rows_of prefix print states) (prefix +++ name)
      ≡ and_then (get states name) (λ t. some (print t))
unfolding get
get-rows_of prefix print [] name = refl
get-rows_of prefix print ((k, t) ∷ states) name =
    rw (same_behind prefix k name) (elim (Bool-cases (k == name)) [
      | inl same ↦ rw same refl
      | inr other ↦ rw other (get-rows_of prefix print states name)
    ])

pub rows_of-IsDistinct :
    {T : Type 0} (prefix : String) (print : T → String) (states : HashMap String T)
    → IsDistinct states
    → IsDistinct (rows_of prefix print states)
rows_of-IsDistinct prefix print [] h = tt
rows_of-IsDistinct prefix print ((k, t) ∷ states) h = (
  get-rows_of prefix print states k ∙ ap (λ o. and_then o (λ t. some (print t))) h.0,
  rows_of-IsDistinct prefix print states h.1,
)

-- Rows under one prefix hold no key of another that differs from it somewhere.
pub get-rows_of_other :
    {T : Type 0} (prefix : String) (print : T → String) (states : HashMap String T) (key : String)
    → ((name : String) → prefix +++ name ≢ key)
    → get (rows_of prefix print states) key ≡ none
unfolding get
get-rows_of_other prefix print [] key h = refl
get-rows_of_other prefix print ((k, t) ∷ states) key h = elim (Bool-cases ((prefix +++ k) == key)) [
  | inl same ↦ absurd (h k ((eq_iff (prefix +++ k) key).0 same))
  | inr other ↦ rw other (get-rows_of_other prefix print states key h)
]

-- Rows of states parse, and so do rows of which none is like the pattern.
pub own_rows-LikeParses :
    {T : Type 0} (serde : Serde T) (key_pattern : List ℕ) (prefix : String) (print : T → String)
    (states : HashMap String T)
    → RoundTrips serde print states
    → LikeParses serde key_pattern (rows_of prefix print states)
own_rows-LikeParses serde key_pattern prefix print [] law = tt
own_rows-LikeParses serde key_pattern prefix print (e ∷ states) law =
    (λ matches. (e.1, law.0.1), own_rows-LikeParses serde key_pattern prefix print states law.1)

pub other_rows-LikeParses :
    {T U : Type 0} (serde : Serde T) (key_pattern : List ℕ) (prefix : String) (print : U → String)
    (states : HashMap String U)
    → ((s : String) → like key_pattern (codes (prefix +++ s)) ≡ false)
    → LikeParses serde key_pattern (rows_of prefix print states)
other_rows-LikeParses serde key_pattern prefix print [] unlike = tt
other_rows-LikeParses serde key_pattern prefix print (e ∷ states) unlike = (
  λ matches. absurd (true-ne-false (sym matches ∙ unlike e.0)),
  other_rows-LikeParses serde key_pattern prefix print states unlike,
)

RoundTrips-get :
    {T : Type 0} (serde : Serde T) (print : T → String) (states : HashMap String T) (name : String)
    {t : T}
    → RoundTrips serde print states
    → get states name ≡ some t
    → serde.from_text (print t) ≡ some t
unfolding get
RoundTrips-get serde print [] name law found = absurd (none-ne-some found)
RoundTrips-get serde print ((k, v) ∷ states) name law found = elim (Bool-cases (k == name)) [
  | inl same ↦
      subst (λ x. serde.from_text (print x) ≡ some x)
        (some_inj (sym (ap (λ b. if b then some v else get states name) same) ∙ found)) law.0.1
  | inr other ↦
      RoundTrips-get serde print states name law.1
        (sym (ap (λ b. if b then some v else get states name) other) ∙ found)
]

-- What a name's state is read back as: what was printed of it, or what was there.
pub read_back :
    {T : Type 0} (serde : Serde T) (print : T → String) (states : HashMap String T)
    → RoundTrips serde print states
    → (name : String) (before : Option String)
    → and_then (or_else (and_then (get states name) (λ t. some (print t))) before) serde.from_text
      ≡ or_else (get states name) (and_then before serde.from_text)
read_back {T} serde print states law name before = by_state (get states name) refl
  where
    by_state :
        (state : Option T)
        → get states name ≡ state
        → and_then (or_else (and_then state (λ t. some (print t))) before) serde.from_text
          ≡ or_else state (and_then before serde.from_text)
    by_state none e = refl
    by_state (some t) e = RoundTrips-get serde print states name law e

-- A read by prefix of rows that parse where they are like the prefix.
pub read_by_prefix :
    {T : Type 0} (serde : Serde T) (prefix : String) (rows : HashMap String String)
    → LikeParses serde (codes (prefix +++ "%")) rows
    → IsDistinct rows
    → (ts : List (String × T)) × (parse_rows serde (select_like (codes (prefix +++ "%")) rows)
        ≡ ok ts)
      × ((name : String)
          → get ts (prefix +++ name) ≡ and_then (get rows (prefix +++ name)) serde.from_text)
      × IsDistinct ts
read_by_prefix serde prefix rows h d =
    let (ts, r) =
      parse_rows-IsRead serde (select_like (codes (prefix +++ "%")) rows)
        (select_like-Parses serde (codes (prefix +++ "%")) rows h) in
    (
      ts,
      r.result,
      λ name.
          r.found (prefix +++ name)
          ∙ ap (λ o. and_then o serde.from_text)
              (get-select_like (codes (prefix +++ "%")) rows (prefix +++ name) ∙ under name),
      r.distinct (select_like-IsDistinct (codes (prefix +++ "%")) rows d),
    )
  where
    under :
        (name : String)
        → (if like (codes (prefix +++ "%")) (codes (prefix +++ name))
            then get rows (prefix +++ name)
            else none)
          ≡ get rows (prefix +++ name)
    under name =
        rw
          (
            codes-append prefix "%",
            codes-append prefix name,
            like_own_prefix (codes prefix) (codes name),
          )
          refl
