-- ===== src/Base/Maps.antt =====
-- Hash maps and hash sets as lists of entries. The order of entries stands for the unspecified
-- iteration order of the tables that they model.
use mathlib.Core.Path.{◌≡◌, refl, sym, ap, ◌∙◌, subst}
use mathlib.Core.Logic.{inl, inr, ◌⊎◌}
use mathlib.Core.Bool.{Bool, true, false, ◌||◌}
use mathlib.Core.Option.{Option, none, some}
use mathlib.Core.List.{List, [], ◌∷◌, ◌++◌}
use native.Mathlib.Omega.{arith}
use argus_rs.Base.Tests.{if◌then◌else◌, Bool-cases}
use argus_rs.Base.Keys.{Key, ◌==◌}

abbrev pub HashMap {ℓ κ} : Type ℓ → Type κ → Type (ℓ ⊔ κ)
HashMap K V = List (K × V)

module _ {ℓ κ} {K : Type ℓ} {V : Type κ} ⦃e : Key K⦄ where
  unfoldable pub get : HashMap K V → K → Option V
  get [] k = none
  get ((j, v) ∷ m) k = if j == k then some v else get m k

  unfoldable pub insert : HashMap K V → K → V → HashMap K V
  insert [] k v = (k, v) ∷ []
  insert ((j, w) ∷ m) k v = let rest = insert m k v in if j == k then (k, v) ∷ m else (j, w) ∷ rest

  unfoldable pub remove : HashMap K V → K → HashMap K V
  remove [] k = []
  remove ((j, v) ∷ m) k = let rest = remove m k in if j == k then rest else (j, v) ∷ rest

  pub get-insert :
      (m : HashMap K V) (k j : K) (v : V)
      → get (insert m k v) j ≡ (if k == j then some v else get m j)
  unfolding get insert
  get-insert [] k j v = refl
  get-insert ((i, w) ∷ m) k j v =
      ground (arith, e.decides k j, e.decides i k, e.decides i j, get-insert m k j v)

  pub get-remove :
      (m : HashMap K V) (k j : K) → get (remove m k) j ≡ (if k == j then none else get m j)
  unfolding get remove
  get-remove [] k j = ground arith
  get-remove ((i, w) ∷ m) k j =
      ground (arith, e.decides k j, e.decides i k, e.decides i j, get-remove m k j)

-- Every value that is found satisfies the predicate.
abbrev pub Every {ℓ κ ι} :
    {K : Type ℓ} {V : Type κ} ⦃e : Key K⦄ → (V → Type ι) → HashMap K V → Type (ℓ ⊔ κ ⊔ ι)
Every {K} {V} P m = (k : K) (v : V) → get m k ≡ some v → P v

pub some_inj {ℓ} : {A : Type ℓ} {a b : A} → some a ≡ some b → a ≡ b
some_inj h = cc

pub none-ne-some {ℓ} : {A : Type ℓ} {a : A} → none ≡ some a → ⊥
none-ne-some h = cc

module _ {ℓ κ} {K : Type ℓ} {V : Type κ} ⦃e : Key K⦄ where
  -- What is found after an insertion is what was inserted, or was there.
  pub insert-found :
      (m : HashMap K V) (k : K) (v : V) (j : K) {w : V}
      → get (insert m k v) j ≡ some w
      → ((k ≡ j) × (v ≡ w)) ⊎ (get m j ≡ some w)
  insert-found m k v j found = elim (Bool-cases (k == j)) [
    | inl same ↦
        inl ((e.decides k j).0 same, some_inj (sym (under same) ∙ sym (get-insert m k j v) ∙ found))
    | inr other ↦ inr (sym (under other) ∙ sym (get-insert m k j v) ∙ found)
  ]
    where
      under :
          {b : Bool}
          → (k == j) ≡ b
          → (if k == j then some v else get m j) ≡ (if b then some v else get m j)
      under h = ap (λ b. if b then some v else get m j) h

  pub remove-found :
      (m : HashMap K V) (k j : K) {w : V} → get (remove m k) j ≡ some w → get m j ≡ some w
  remove-found m k j found = elim (Bool-cases (k == j)) [
    | inl same ↦ absurd (none-ne-some (sym (under same) ∙ sym (get-remove m k j) ∙ found))
    | inr other ↦ sym (under other) ∙ sym (get-remove m k j) ∙ found
  ]
    where
      under :
          {b : Bool}
          → (k == j) ≡ b
          → (if k == j then none else get m j) ≡ (if b then none else get m j)
      under h = ap (λ b. if b then none else get m j) h

module _ {ℓ κ ι} {K : Type ℓ} {V : Type κ} ⦃e : Key K⦄ (P : V → Type ι) where
  pub insert-Every : (m : HashMap K V) (k : K) (v : V) → P v → Every P m → Every P (insert m k v)
  insert-Every m k v p h j w found = elim (insert-found m k v j found) [
    | inl (here, same) ↦ subst P same p
    | inr before ↦ h j w before
  ]

  pub remove-Every : (m : HashMap K V) (k : K) → Every P m → Every P (remove m k)
  remove-Every m k h j w found = h j w (remove-found m k j found)

module _ {ℓ} {A : Type ℓ} ⦃e : Key A⦄ where
  unfoldable pub contains : List A → A → Bool
  contains [] a = false
  contains (x ∷ xs) a = x == a || contains xs a

  pub ==_refl : (a : A) → (a == a) ≡ true
  ==_refl a = (e.decides a a).1 refl

  pub contains-append :
      (xs ys : List A) (a : A) → contains (xs ++ ys) a ≡ (contains xs a || contains ys a)
  unfolding contains
  contains-append [] ys a = refl
  contains-append (x ∷ xs) ys a = ground (arith, contains-append xs ys a)

pub ruleset map_laws = (get-insert, get-remove)
