-- ===== src/Engine/Alerts/Restoring.antt =====
-- The states that are collected from what was saved under a prefix.
use argus_rs.Base.{
  same_number-decides, ==_refl, Bool-cases, HashMap, IsDistinct, List, Option-cases, String, [], ap,
  eq_iff, false, get, get-insert, if◌then◌else◌, inl, inr, insert, nat_key, none, none-ne-some,
  or_else, pair_key, refl, some, some_inj, string_key, sym, true, ◌==◌, ◌∙◌, ◌∷◌, ◌≡◌,
}
use Prim.Native.String.{◌++◌ as ◌+++◌}
use Prim.Native.Char.{code}
use mathlib.Core.Path.{subst}
use text.Mathlib.TextLemmas.{nil-append, cons-append}
use text.Mathlib.TextEquality.{Char-path}
use argus_rs.Store.KeyValue.Saving.{same_behind}
use argus_rs.Engine.Alerts.Restore.{strip_prefix, collect_states}

strip_prefix-own : (prefix s : String) → strip_prefix prefix (prefix +++ s) ≡ some s
unfolding strip_prefix
strip_prefix-own String.[] s = ap some (nil-append s)
strip_prefix-own (String.◌∷◌ p ps) s =
    rw (cons-append p ps s, ==_refl (code p)) (strip_prefix-own ps s)

strip_prefix-found :
    (prefix key : String) {s : String} → strip_prefix prefix key ≡ some s → key ≡ prefix +++ s
unfolding strip_prefix
strip_prefix-found String.[] key {s} found = some_inj found ∙ sym (nil-append s)
strip_prefix-found (String.◌∷◌ p ps) String.[] found = absurd (none-ne-some found)
strip_prefix-found (String.◌∷◌ p ps) (String.◌∷◌ c cs) {s} found =
    elim (Bool-cases (code p == code c)) [
      | inr other ↦
          absurd
            (none-ne-some (sym (ap (λ b. if b then strip_prefix ps cs else none) other) ∙ found))
      | inl same ↦
          ap (λ x. String.◌∷◌ x cs)
            (sym (Char-path p c ((same_number-decides (code p) (code c)).0 same)))
          ∙ ap (λ t. String.◌∷◌ p t)
              (strip_prefix-found ps cs
                (sym (ap (λ b. if b then strip_prefix ps cs else none) same) ∙ found))
          ∙ sym (cons-append p ps s)
    ]

-- The state of a name is the one under the key of that name.
pub get-collect_states :
    {T : Type 0} (prefix : String) (saved : List (String × T)) (states : HashMap String T)
    (name : String)
    → IsDistinct saved
    → get (collect_states prefix saved states) name
      ≡ or_else (get saved (prefix +++ name)) (get states name)
unfolding collect_states get
get-collect_states prefix [] states name h = refl
get-collect_states prefix ((k, t) ∷ saved) states name h =
    elim (Option-cases (strip_prefix prefix k)) [
      | inl foreign' ↦
          rw (foreign', differs foreign') (get-collect_states prefix saved states name h.1)
      | inr (n, mine) ↦
          rw (mine, same_key n mine)
            (get-collect_states prefix saved (insert states n t) name h.1
              ∙ elim (Bool-cases (n == name)) [
                | inl same ↦ rw same (
                    ap (λ o. or_else o (get (insert states n t) name)) (fresh n mine same)
                    ∙ get-insert states n name t
                    ∙ ap (λ b. if b then some t else get states name) same)
                | inr other ↦ rw other (
                    ap (or_else (get saved (prefix +++ name))) (
                      get-insert states n name t
                      ∙ ap (λ b. if b then some t else get states name) other))
              ])
    ]
  where
    same_key :
        (n : String) → strip_prefix prefix k ≡ some n → (k == (prefix +++ name)) ≡ (n == name)
    same_key n mine =
        ap (λ x. x == (prefix +++ name)) (strip_prefix-found prefix k mine)
        ∙ same_behind prefix n name

    fresh :
        (n : String)
        → strip_prefix prefix k ≡ some n
        → (n == name) ≡ true
        → get saved (prefix +++ name) ≡ none
    fresh n mine same =
        subst (λ x. get saved x ≡ none)
          (strip_prefix-found prefix k mine ∙ ap (λ x. prefix +++ x) ((eq_iff n name).0 same)) h.0

    differs : strip_prefix prefix k ≡ none → (k == (prefix +++ name)) ≡ false
    differs foreign' = elim (Bool-cases (k == (prefix +++ name))) [
      | inr other ↦ other
      | inl same ↦ absurd (
          none-ne-some (
            sym foreign'
            ∙ ap (strip_prefix prefix) ((eq_iff k (prefix +++ name)).0 same)
            ∙ strip_prefix-own prefix name))
    ]
