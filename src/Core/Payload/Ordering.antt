-- ===== src/Core/Payload/Ordering.antt =====
-- Sorting forgets the order of its input.
use argus_rs.Base.{
  List, String, [], ap, arith, map, nat_key, refl, string_key, true, ℕ, ◌||◌, ◌∙◌, ◌∷◌, ◌≡◌,
}
use mathlib.Core.Path.{ap₂}
use mathlib.Core.List.{Permᴰ}
use argus_rs.Core.Matches.{MonitorMatch}
use argus_rs.Core.Actions.{NotificationMessage}
use argus_rs.Core.Payload.{aggregated, le_text, insert_text, sort_texts, id_codes, idempotency_key}

le_text-total : (s t : List ℕ) → (le_text s t || le_text t s) ≡ true
unfolding le_text
le_text-total [] t = ground arith
le_text-total (a ∷ as') [] = refl
le_text-total (a ∷ as') (b ∷ bs) = ground (arith, le_text-total as' bs)

le_text-antisym : (s t : List ℕ) → le_text s t ≡ true → le_text t s ≡ true → s ≡ t
unfolding le_text
le_text-antisym [] [] e f = refl
le_text-antisym [] (b ∷ bs) e f = cc
le_text-antisym (a ∷ as') [] e f = cc
le_text-antisym (a ∷ as') (b ∷ bs) e f =
    ap₂ (λ x xs. x ∷ xs) (ground (arith, e, f))
      (le_text-antisym as' bs (ground (arith, e, f)) (ground (arith, e, f)))

le_text_trans : (s t u : List ℕ) → le_text s t ≡ true → le_text t u ≡ true → le_text s u ≡ true
unfolding le_text
le_text_trans [] t u e f = refl
le_text_trans (a ∷ as') [] u e f = cc
le_text_trans (a ∷ as') (b ∷ bs) [] e f = cc
le_text_trans (a ∷ as') (b ∷ bs) (c ∷ cs) e f = ground (arith, e, f, le_text_trans as' bs cs)

insert_text_comm :
    (s t : List ℕ) (us : List (List ℕ))
    → insert_text s (insert_text t us) ≡ insert_text t (insert_text s us)
unfolding insert_text
insert_text_comm s t [] = ground (arith, le_text-total s t, le_text-antisym s t)
insert_text_comm s t (u ∷ us) = ground (
  arith,
  insert_text_comm s t us,
  le_text-total s t,
  le_text-antisym s t,
  le_text_trans s t u,
  le_text_trans t s u,
)

sort_texts-perm :
    {ms ns : List MonitorMatch}
    → Permᴰ ms ns
    → sort_texts (map id_codes ms) ≡ sort_texts (map id_codes ns)
unfolding sort_texts
sort_texts-perm Permᴰ.nil = refl
sort_texts-perm (Permᴰ.cons {a = a} e p) = rw (e, sort_texts-perm p) refl
sort_texts-perm (Permᴰ.swap {a = a} {b = b} {l = l} e f) =
    rw (e, f) (insert_text_comm _ _ (sort_texts (map id_codes l)))
sort_texts-perm (Permᴰ.trans p q) = sort_texts-perm p ∙ sort_texts-perm q

-- The idempotency key of an aggregated payload does not depend on the order of its matches, nor on
-- its template, whatever the hasher makes of the sorted identifiers.
pub idempotency_key-perm :
    (digest : List (List ℕ) → String) (name other : String) (ms ns : List MonitorMatch)
    (template another : NotificationMessage)
    → Permᴰ ms ns
    → idempotency_key digest (aggregated name ms template)
      ≡ idempotency_key digest (aggregated other ns another)
unfolding idempotency_key
idempotency_key-perm digest name other ms ns template another p = ap digest (sort_texts-perm p)
