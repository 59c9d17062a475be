-- ===== src/Base/Distinct.antt =====
-- Tables with one entry for each key.
use mathlib.Core.Path.{◌≡◌, refl, sym, ap, ◌∙◌, subst}
use mathlib.Core.Logic.{inl, inr}
use mathlib.Core.Option.{Option, none, some}
use mathlib.Core.List.{List, [], ◌∷◌, ◌++◌}
use native.Mathlib.Omega.{arith}
use argus_rs.Base.Tests.{if◌then◌else◌, Bool-cases}
use argus_rs.Base.Keys.{Key, ◌==◌}
use argus_rs.Base.Maps.{HashMap, get, insert, get-insert}

abbrev pub or_else {ℓ} : {V : Type ℓ} → Option V → Option V → Option V
or_else none other = other
or_else (some v) other = some v

module _ {ℓ κ} {K : Type ℓ} {V : Type κ} ⦃e : Key K⦄ where
  abbrev pub IsDistinct : HashMap K V → Type (ℓ ⊔ κ)
  IsDistinct [] = Unit
  IsDistinct ((k, v) ∷ m) = (get m k ≡ none) × IsDistinct m

  pub insert-IsDistinct :
      (m : HashMap K V) (k : K) (v : V) → IsDistinct m → IsDistinct (insert m k v)
  unfolding get insert
  insert-IsDistinct [] k v h = (refl, tt)
  insert-IsDistinct ((j, w) ∷ m) k v h = elim (Bool-cases (j == k)) [
    | inl same ↦ rw same (rw (sym ((e.decides j k).0 same)) (h.0, h.1))
    | inr other ↦ rw other (
      ground (arith, get-insert m k j v, h.0, e.decides j k, e.decides k j),
      insert-IsDistinct m k v h.1,
    )
  ]

  -- The entries one after the other.
  unfoldable pub insert_all : List (K × V) → HashMap K V → HashMap K V
  insert_all [] m = m
  insert_all ((k, v) ∷ es) m = insert_all es (insert m k v)

  pub insert_all-append :
      (es fs : List (K × V)) (m : HashMap K V)
      → insert_all (es ++ fs) m ≡ insert_all fs (insert_all es m)
  unfolding insert_all
  insert_all-append [] fs m = refl
  insert_all-append ((k, v) ∷ es) fs m = insert_all-append es fs (insert m k v)

  pub insert_all-IsDistinct :
      (es : List (K × V)) (m : HashMap K V) → IsDistinct m → IsDistinct (insert_all es m)
  unfolding insert_all
  insert_all-IsDistinct [] m h = h
  insert_all-IsDistinct ((k, v) ∷ es) m h =
      insert_all-IsDistinct es (insert m k v) (insert-IsDistinct m k v h)

  pub get-insert_all :
      (es : List (K × V)) (m : HashMap K V) (key : K)
      → IsDistinct es
      → get (insert_all es m) key ≡ or_else (get es key) (get m key)
  unfolding get insert_all
  get-insert_all [] m key h = refl
  get-insert_all ((k, v) ∷ es) m key h = elim (Bool-cases (k == key)) [
    | inl same ↦ rw same (
        get-insert_all es (insert m k v) key h.1
        ∙ ap (λ o. or_else o (get (insert m k v) key))
            (subst (λ x. get es x ≡ none) ((e.decides k key).0 same) h.0)
        ∙ get-insert m k key v
        ∙ ap (λ b. if b then some v else get m key) same)
    | inr other ↦ rw other (
        get-insert_all es (insert m k v) key h.1
        ∙ ap (or_else (get es key))
            (get-insert m k key v ∙ ap (λ b. if b then some v else get m key) other))
  ]
