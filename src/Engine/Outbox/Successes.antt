-- ===== src/Engine/Outbox/Successes.antt =====
-- Batches whose deliveries all succeed.
use argus_rs.Base.{
  All, ==_refl, Bool, List, [], ap, arith, contains, drop, false, keep, nat_key, ok, refl,
  string_key, suc, take, true, zero, ℕ, ◌∙◌, ◌∷◌, ◌≡◌,
}
use mathlib.Core.List.{Permᴰ}
use argus_rs.Core.Repository.{OutboxItem, OutboxRepository, is_outside, HasDistinct}
use argus_rs.Engine.Outbox.{settle}

pub keep_outside-cong :
    (ids ids' xs : List ℕ)
    → ((i : ℕ) → contains ids i ≡ contains ids' i)
    → keep (is_outside ids) xs ≡ keep (is_outside ids') xs
unfolding keep
keep_outside-cong ids ids' [] h = refl
keep_outside-cong ids ids' (x ∷ xs) h = rw (h x, keep_outside-cong ids ids' xs h) refl

keep_outside-fresh :
    (x : ℕ) (ids xs : List ℕ)
    → contains xs x ≡ false
    → keep (is_outside (x ∷ ids)) xs ≡ keep (is_outside ids) xs
unfolding keep contains
keep_outside-fresh x ids [] e = refl
keep_outside-fresh x ids (y ∷ ys) e = ground (arith, e, keep_outside-fresh x ids ys)

pub keep_outside-none : (xs : List ℕ) → keep (is_outside []) xs ≡ xs
unfolding keep contains
keep_outside-none [] = refl
keep_outside-none (x ∷ xs) = ap (λ l. x ∷ l) (keep_outside-none xs)

-- What stays behind the oldest.
pub keep_outside-take :
    (n : ℕ) (xs : List ℕ) → HasDistinct xs → keep (is_outside (take n xs)) xs ≡ drop n xs
unfolding keep contains
keep_outside-take zero xs d = keep_outside-none xs
keep_outside-take (suc n) [] d = refl
keep_outside-take (suc n) (x ∷ xs) d =
    rw (==_refl x) (keep_outside-fresh x (take n xs) xs d.0 ∙ keep_outside-take n xs d.1)

-- A repository whose deletions succeed, and whose reads succeed on what `IsReadable` describes.
pub record NeverFails {S : Type 0} (repository : OutboxRepository S)
    (IsValid IsReadable : S → Type 0) : Type 0 where
  pub reads :
      (n : ℕ) (s : S)
      → IsReadable s
      → (items : List OutboxItem) × ((repository.get_pending_outbox n s).0 ≡ ok items)
  pub get_readable :
      (n : ℕ) (s : S) → IsReadable s → IsReadable (repository.get_pending_outbox n s).1
  pub deletes :
      (ids : List ℕ) (s : S) → IsValid s → (repository.delete_outbox_items_batch ids s).0 ≡ ok tt
  pub delete_readable :
      (ids : List ℕ) (s : S)
      → IsReadable s
      → IsReadable (repository.delete_outbox_items_batch ids s).1

abbrev pub Succeeded : ℕ × Bool → Type 0
Succeeded r = r.1 ≡ true

pub Succeeded-perm : {xs ys : List (ℕ × Bool)} → Permᴰ xs ys → All Succeeded ys → All Succeeded xs
Succeeded-perm Permᴰ.nil h = tt
Succeeded-perm (Permᴰ.cons e p) h = (ap (λ (r : ℕ × Bool). r.1) e ∙ h.0, Succeeded-perm p h.1)
Succeeded-perm (Permᴰ.swap e f) h =
    (ap (λ (r : ℕ × Bool). r.1) e ∙ h.1.0, (ap (λ (r : ℕ × Bool). r.1) f ∙ h.0, h.1.1))
Succeeded-perm (Permᴰ.trans p q) h = Succeeded-perm p (Succeeded-perm q h)

pub settle-Succeeded :
    {S : Type 0} (repository : OutboxRepository S) (rs : List (ℕ × Bool)) (s : S)
    → All Succeeded rs
    → (settle repository rs s).1 ≡ s
unfolding settle
settle-Succeeded repository [] s h = refl
settle-Succeeded repository ((id, true) ∷ rs) s h = settle-Succeeded repository rs s h.1
settle-Succeeded repository ((id, false) ∷ rs) s h = cc (h.0)
