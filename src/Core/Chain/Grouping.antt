-- ===== src/Core/Chain/Grouping.antt =====
-- Grouping logs by a key keeps every log that has the key, in order, and adds none.
use argus_rs.Base.{
  ℕ, ◌≡◌, refl, ◌==◌, nat_key, Bool, true, false, Option, none, some, List, [], ◌∷◌, ◌++◌, HashMap,
  get, get-insert, keep, if◌then◌else◌, arith, append_assoc, append-nil, Option-cases, inl, inr,
}
use argus_rs.Core.Chain.{push_under, group_from}

-- What a missing key stands for: `map.remove(&key).unwrap_or_default()`.
abbrev pub or_empty {ℓ} : {A : Type ℓ} → Option (List A) → List A
or_empty none = []
or_empty (some xs) = xs

-- Does the optional key equal `k`?
abbrev pub has_key : Option ℕ → ℕ → Bool
has_key none k = false
has_key (some j) k = j == k

module _ {ℓ} {A : Type ℓ} where
  push_if :
      (b : Bool) (xs : List A) (x : A) (ys : List A)
      → (if b then xs ++ x ∷ [] else xs) ++ ys ≡ xs ++ (if b then x ∷ ys else ys)
  push_if true xs x ys = append_assoc xs (x ∷ []) ys
  push_if false xs x ys = refl

  push_under_lem :
      (key k : ℕ) (x : A) (m : HashMap ℕ (List A))
      → or_empty (get (push_under key x m) k)
        ≡ (if key == k then or_empty (get m k) ++ x ∷ [] else or_empty (get m k))
  unfolding push_under
  push_under_lem key k x m =
      ground
        (arith, get-insert m key k (x ∷ []), get-insert m key k (or_empty (get m key) ++ x ∷ []))

  pub group_from_lem :
      (key_of : A → Option ℕ) (logs : List A) (m : HashMap ℕ (List A)) (k : ℕ)
      → or_empty (get (group_from key_of logs m) k)
        ≡ or_empty (get m k) ++ keep (λ x. has_key (key_of x) k) logs
  unfolding group_from keep
  group_from_lem key_of [] m k = rw append-nil
  group_from_lem key_of (x ∷ xs) m k = elim (Option-cases (key_of x)) [
    | inl e ↦ rw (e, group_from_lem key_of xs m k)
    | inr (key, e) ↦
        rw (e, group_from_lem key_of xs (push_under key x m) k, push_under_lem key k x m)
          (push_if (key == k) (or_empty (get m k)) x (keep (λ y. has_key (key_of y) k) xs))
  ]
