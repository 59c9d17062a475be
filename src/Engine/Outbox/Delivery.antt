-- ===== src/Engine/Outbox/Delivery.antt =====
-- What a batch takes out of the outbox.
use argus_rs.Base.{
  Bool, Bool-cases, List, Result-cases, [], ap, arith, contains, false, if◌then◌else◌, inl, inr,
  keep, length, nat_key, refl, string_key, suc, true, ℕ, ◌==◌, ◌||◌, ◌∙◌, ◌∷◌, ◌≡◌,
}
use mathlib.Core.List.{Permᴰ}
use argus_rs.Core.Repository.{OutboxItem, OutboxRepository, IsOutbox, is_outside}
use argus_rs.Engine.Outbox.{
  Env, OutboxProcessor, execute_all, settle, delete_each, delete_delivered, process_batch_items,
}

-- The identifiers of the attempts that succeeded.
unfoldable pub delivered_ids : List (ℕ × Bool) → List ℕ
delivered_ids [] = []
delivered_ids ((id, delivered) ∷ rs) =
    let rest = delivered_ids rs in if delivered then id ∷ rest else rest

-- The same identifiers, as many times.
abbrev pub Agree : ℕ → List (ℕ × Bool) → List (ℕ × Bool) → Type 0
Agree i xs ys =
    (contains (delivered_ids xs) i ≡ contains (delivered_ids ys) i)
    × (length (delivered_ids xs) ≡ length (delivered_ids ys))

Agree-cons :
    (i : ℕ) (r : ℕ × Bool) (xs ys : List (ℕ × Bool)) → Agree i xs ys → Agree i (r ∷ xs) (r ∷ ys)
unfolding delivered_ids contains
Agree-cons i (id, true) xs ys (same, long) = (ap (λ b. (id == i) || b) same, ap suc long)
Agree-cons i (id, false) xs ys agree = agree

Agree-swap : (i : ℕ) (r q : ℕ × Bool) (xs : List (ℕ × Bool)) → Agree i (r ∷ q ∷ xs) (q ∷ r ∷ xs)
unfolding delivered_ids contains
Agree-swap i (id, true) (id', true) xs = (ground arith, refl)
Agree-swap i (id, true) (id', false) xs = (refl, refl)
Agree-swap i (id, false) (id', true) xs = (refl, refl)
Agree-swap i (id, false) (id', false) xs = (refl, refl)

pub delivered_ids-perm : {xs ys : List (ℕ × Bool)} (i : ℕ) → Permᴰ xs ys → Agree i xs ys
delivered_ids-perm i Permᴰ.nil = (refl, refl)
delivered_ids-perm i (Permᴰ.cons {b = b} {l₁ = xs} {l₂ = ys} e p) =
    rw e (Agree-cons i b xs ys (delivered_ids-perm i p))
delivered_ids-perm i (Permᴰ.swap {a' = a'} {b' = b'} {l = l} e f) = rw (e, f) (Agree-swap i b' a' l)
delivered_ids-perm i (Permᴰ.trans p q) =
    let (same, long) = delivered_ids-perm i p in
    let (same', long') = delivered_ids-perm i q in (same ∙ same', long ∙ long')

module _ {S : Type 0} (repository : OutboxRepository S) (IsValid : S → Type 0)
    (pending : S → List ℕ) (law : IsOutbox repository IsValid pending) where
  pub settle-lem :
      (rs : List (ℕ × Bool)) (s : S)
      → IsValid s
      → ((settle repository rs s).0 ≡ delivered_ids rs)
        × IsValid (settle repository rs s).1
        × (pending (settle repository rs s).1 ≡ pending s)
  unfolding settle delivered_ids
  settle-lem [] s v = (refl, v, refl)
  settle-lem ((id, true) ∷ rs) s v =
      let (ids, valid, same) = settle-lem rs s v in (ap (λ l. id ∷ l) ids, valid, same)
  settle-lem ((id, false) ∷ rs) s v =
      let (ids, valid, same) = settle-lem rs _ (law.increment_valid id s v) in
      (ids, valid, same ∙ law.increment_keeps id s v)

  contains-keep_outside :
      (ids xs : List ℕ) (i : ℕ)
      → contains ids i ≡ false
      → contains (keep (is_outside ids) xs) i ≡ contains xs i
  unfolding contains keep
  contains-keep_outside ids [] i e = refl
  contains-keep_outside ids (x ∷ xs) i e = elim (Bool-cases (contains ids x)) [
    | inl inside ↦ rw inside (ground (arith, e, inside, contains-keep_outside ids xs i e))
    | inr outside ↦ rw outside (ap (λ b. (x == i) || b) (contains-keep_outside ids xs i e))
  ]

  -- A deletion, done or failed, leaves the other identifiers pending.
  delete-keeps :
      (ids : List ℕ) (s : S) (i : ℕ)
      → IsValid s
      → contains ids i ≡ false
      → contains (pending (repository.delete_outbox_items_batch ids s).1) i ≡ contains (pending s) i
  delete-keeps ids s i v e = elim (Result-cases (repository.delete_outbox_items_batch ids s).0) [
    | inl (u, done) ↦
        ap (λ l. contains l i) (law.delete_done ids s v done)
        ∙ contains-keep_outside ids (pending s) i e
    | inr (x, failure) ↦ ap (λ l. contains l i) (law.delete_failed ids s x v failure)
  ]

  delete_each-keeps :
      (ids : List ℕ) (s : S) (i : ℕ)
      → IsValid s
      → contains ids i ≡ false
      → IsValid (delete_each repository ids s).1
        × (contains (pending (delete_each repository ids s).1) i ≡ contains (pending s) i)
  unfolding delete_each contains
  delete_each-keeps [] s i v e = (v, refl)
  delete_each-keeps (id ∷ ids) s i v e =
      let kept = delete-keeps (id ∷ []) s i v (ground (arith, e)) in
      let (valid, rest) =
        delete_each-keeps ids (repository.delete_outbox_items_batch (id ∷ []) s).1 i
          (law.delete_valid (id ∷ []) s v) (ground (arith, e)) in
      elim (Result-cases (repository.delete_outbox_items_batch (id ∷ []) s).0) [
        | inl (u, done) ↦ rw (done, delete_each) (valid, rest ∙ kept)
        | inr (x, failure) ↦ rw (failure, delete_each) (valid, rest ∙ kept)
      ]

  delete_delivered-keeps :
      (ids : List ℕ) (s : S) (i : ℕ)
      → IsValid s
      → contains ids i ≡ false
      → IsValid (delete_delivered repository ids s).1
        × (contains (pending (delete_delivered repository ids s).1) i ≡ contains (pending s) i)
  unfolding delete_delivered
  delete_delivered-keeps [] s i v e = (v, refl)
  delete_delivered-keeps (id ∷ ids) s i v e =
      let kept = delete-keeps (id ∷ ids) s i v e in
      let (valid, rest) =
        delete_each-keeps (id ∷ ids) (repository.delete_outbox_items_batch (id ∷ ids) s).1 i
          (law.delete_valid (id ∷ ids) s v) e in
      elim (Result-cases (repository.delete_outbox_items_batch (id ∷ ids) s).0) [
        | inl (u, done) ↦ rw (done, delete_delivered) (law.delete_valid (id ∷ ids) s v, kept)
        | inr (x, failure) ↦ rw (failure, delete_delivered) (valid, rest ∙ kept)
      ]

-- An item whose delivery failed, or that is not of the batch, is pending behind the batch exactly if
-- it was pending before, whichever deletions fail and in whatever order the attempts complete, for
-- a repository that keeps the contract of the outbox.
pub process_batch_items_keeps_undelivered :
    {S : Type 0} (env : Env S) (IsValid : S → Type 0) (pending : S → List ℕ)
    (law : IsOutbox env.state IsValid pending) (items : List OutboxItem) (s : OutboxProcessor S)
    (i : ℕ)
    → ((rs : List (ℕ × Bool)) → Permᴰ (env.gather rs) rs)
    → IsValid s.store
    → contains (delivered_ids (execute_all env s.attempts items)) i ≡ false
    → contains (pending (process_batch_items env items s).1.store) i ≡ contains (pending s.store) i
unfolding process_batch_items
process_batch_items_keeps_undelivered env IsValid pending law items s i shuffles v e =
    let rs = execute_all env s.attempts items in
    let (ids, valid, same) = settle-lem env.state IsValid pending law (env.gather rs) s.store v in
    let absent : contains (settle env.state (env.gather rs) s.store).0 i ≡ false =
      ap (λ l. contains l i) ids ∙ (delivered_ids-perm i (shuffles rs)).0 ∙ e in
    (delete_delivered-keeps env.state IsValid pending law
      (settle env.state (env.gather rs) s.store).0 _ i valid absent).1
    ∙ ap (λ l. contains l i) same
