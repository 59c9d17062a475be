-- ===== src/Base/Lists.antt =====
-- Lists measured and cut by native numbers, under the library's names, and predicates on lists.
use Prim.Native.Nat.{ℕ, zero, suc, ◌+◌, ◌-◌}
use mathlib.Core.Path.{◌≡◌, ◌∙◌, refl, ap, sym}
use mathlib.Core.Logic.{inl, inr}
use mathlib.Core.Bool.{Bool, true, false, ◌||◌}
use mathlib.Core.List.{List, [], ◌∷◌, ◌++◌}
use native.Mathlib.Nat.{zero-add, add-zero, suc-add}
use native.Mathlib.Omega.{arith}
use argus_rs.Base.Tests.{if◌then◌else◌, Bool-cases, true-ne-false}

module _ {ℓ} {A : Type ℓ} where
  abbrev pub length : List A → ℕ
  length [] = 0
  length (x ∷ xs) = suc (length xs)

  abbrev pub is_empty : List A → Bool
  is_empty [] = true
  is_empty (x ∷ xs) = false

  abbrev pub take : ℕ → List A → List A
  take zero xs = []
  take (suc n) [] = []
  take (suc n) (x ∷ xs) = x ∷ take n xs

  abbrev pub drop : ℕ → List A → List A
  drop zero xs = xs
  drop (suc n) [] = []
  drop (suc n) (x ∷ xs) = drop n xs

  -- `iter().any(p)`
  unfoldable pub any : (A → Bool) → List A → Bool
  any p [] = false
  any p (x ∷ xs) = p x || any p xs

  -- `iter().filter(p)`
  unfoldable pub keep : (A → Bool) → List A → List A
  keep p [] = []
  keep p (x ∷ xs) = let rest = keep p xs in if p x then x ∷ rest else rest

  abbrev pub All {κ} : (A → Type κ) → List A → Type κ
  All P [] = Unit
  All P (x ∷ xs) = P x × All P xs

  pub length-append : (xs ys : List A) → length (xs ++ ys) ≡ length xs + length ys
  length-append [] ys = omega arith
  length-append (x ∷ xs) ys = omega (arith, length-append xs ys)

  pub take-append-drop : (n : ℕ) (xs : List A) → take n xs ++ drop n xs ≡ xs
  take-append-drop zero xs = refl
  take-append-drop (suc n) [] = refl
  take-append-drop (suc n) (x ∷ xs) = ap (λ l. x ∷ l) (take-append-drop n xs)

-- The numbers `a, a + 1, …`, `n` of them.
unfoldable pub run : ℕ → ℕ → List ℕ
run a zero = []
run a (suc n) = a ∷ run (a + 1) n

pub run-add : (a m n : ℕ) → run a (m + n) ≡ run a m ++ run (a + m) n
unfolding run
run-add a zero n = rw (zero-add, add-zero)
run-add a (suc m) n = rw suc-add (ap (λ l. a ∷ l) (run-add (a + 1) m n ∙ rw next))
  where
    next : a + 1 + m ≡ a + suc m
    next = omega arith

-- `a..=b`
unfoldable pub range : ℕ → ℕ → List ℕ
unfolding run
range a b = run a (b + 1 - a)

module _ {ℓ} {A : Type ℓ} where
  pub cons_head : {x y : A} {xs ys : List A} → x ∷ xs ≡ y ∷ ys → x ≡ y
  cons_head e = cc

  pub cons_tail : {x y : A} {xs ys : List A} → x ∷ xs ≡ y ∷ ys → xs ≡ ys
  cons_tail e = cc

pub keep-append {ℓ} :
    {A : Type ℓ} (p : A → Bool) (xs ys : List A) → keep p (xs ++ ys) ≡ keep p xs ++ keep p ys
unfolding keep
keep-append p [] ys = refl
keep-append p (x ∷ xs) ys = elim (Bool-cases (p x)) [
  | inl holds ↦ rw holds (ap (λ l. x ∷ l) (keep-append p xs ys))
  | inr fails ↦ rw fails (keep-append p xs ys)
]

-- A filter behind a weaker one.
pub keep-keep {ℓ} :
    {A : Type ℓ} (p q : A → Bool) (xs : List A)
    → ((x : A) → p x ≡ true → q x ≡ true)
    → keep p (keep q xs) ≡ keep p xs
unfolding keep
keep-keep p q [] h = refl
keep-keep p q (x ∷ xs) h = elim (Bool-cases (q x)) [
  | inl passes ↦ rw passes (ap (λ l. if p x then x ∷ l else l) (keep-keep p q xs h))
  | inr fails ↦ rw fails (elim (Bool-cases (p x)) [
    | inl holds ↦ absurd (true-ne-false (sym (h x holds) ∙ fails))
    | inr not_held ↦ rw not_held (keep-keep p q xs h)
  ])
]
