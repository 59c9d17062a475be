-- ===== src/Providers/Fetcher/Logs.antt =====
-- The chunked log fetch returns what one request over each sub-range returns, in some order.
use argus_rs.Base.{
  sym, ◌∙◌, ap, ℕ, ◌≡◌, refl, List, [], ◌∷◌, map, Result, ok, err, Result-cases, inl, inr, arith,
  append_assoc, ◌≤◌, ◌-◌, ◌<◌,
}
use mathlib.Core.Path.{subst, subst₂}
use mathlib.Core.List.{flatten, Permᴰ}
use mathlib.Core.List.Permᴰ
use argus_rs.Core.Chain.{Log}
use argus_rs.Core.Errors.{DataSourceError}
use argus_rs.Providers.Source.{DataSource}
use argus_rs.Providers.Fetcher.{Gather, collect, chunks, fetch_logs_chunked}

module _ {A : Type 0} where
  collect-cons :
      (x : Result DataSourceError A) (xs : List (Result DataSourceError A)) (as' : List A)
      → collect (x ∷ xs) ≡ ok as'
      → (a : A) × (rest : List A) × (x ≡ ok a) × (collect xs ≡ ok rest) × (as' ≡ a ∷ rest)
  unfolding collect
  collect-cons (err e) xs as' h = cc
  collect-cons (ok a) xs as' h = elim (Result-cases (collect xs)) [
    | inl (rest, e) ↦ (a, rest, refl, e, ground (arith, e))
    | inr (x, e) ↦ ground (arith, e)
  ]

  -- Results in another order succeed together, with the same values in that order.
  move : {as' bs cs : List A} → as' ≡ bs → Permᴰ as' cs → Permᴰ bs cs
  move {cs = cs} e p = subst (λ l. Permᴰ l cs) e p

  collect-perm :
      {xs ys : List (Result DataSourceError A)} (as' : List A)
      → Permᴰ xs ys
      → collect xs ≡ ok as'
      → (bs : List A) × (collect ys ≡ ok bs) × Permᴰ as' bs
  unfolding collect
  collect-perm as' Permᴰ.nil h = let same : as' ≡ [] = ground arith in ([], refl, rw same Permᴰ.nil)
  collect-perm as' (Permᴰ.cons {a = x} {b = y} {l₁ = xs} {l₂ = ys} e p) h =
      let (a, rest, first, more, whole) = collect-cons x xs as' h in
      let (bs, ok1, perm1) = collect-perm rest p more in
      (a ∷ bs, ground (arith, e, first, ok1), move (sym whole) (Permᴰ.cons refl perm1))
  collect-perm as' (Permᴰ.swap {a = x} {b = y} {a' = x'} {b' = y'} {l = l} e f) h =
      let (a, rest, first, more, whole) = collect-cons x (y ∷ l) as' h in
      let (b, rest', second, more', whole') = collect-cons y l rest more in
      (
        b ∷ a ∷ rest',
        ground (arith, e, f, first, second, more'),
        move (sym (whole ∙ ap (λ r. a ∷ r) whole')) (Permᴰ.swap refl refl),
      )
  collect-perm as' (Permᴰ.trans p q) h =
      let (bs, ok1, perm1) = collect-perm as' p h in
      let (cs, ok2, perm2) = collect-perm bs q ok1 in (cs, ok2, Permᴰ.trans perm1 perm2)

  flatten-perm : {xs ys : List (List A)} → Permᴰ xs ys → Permᴰ (flatten xs) (flatten ys)
  unfolding flatten
  flatten-perm Permᴰ.nil = Permᴰ.nil
  flatten-perm (Permᴰ.cons {b = b} e p) = rw e (Permᴰ.append_left b (flatten-perm p))
  flatten-perm (Permᴰ.swap {a' = a'} {b' = b'} {l = l} e f) =
      rw (e, f)
        (subst₂ Permᴰ (append_assoc b' a' (flatten l)) (append_assoc a' b' (flatten l))
          (Permᴰ.append_right (flatten l) (Permᴰ.append_comm b' a')))
  flatten-perm (Permᴰ.trans p q) = Permᴰ.trans (flatten-perm p) (flatten-perm q)

-- The answers to one request over each sub-range.
abbrev pub chunk_answers : DataSource → ℕ → ℕ → ℕ → List (Result DataSourceError (List Log))
chunk_answers source from_block to_block size =
    map (λ (c : ℕ × ℕ). source.fetch_logs_for_range c.0 c.1) (chunks from_block to_block size)

-- Where the range is longer than a positive chunk size and the fetch succeeds, the request over
-- each sub-range has succeeded too, and the logs returned are those of all sub-ranges together, each
-- as often, in whatever order the concurrent requests completed.
pub fetch_logs_chunked-perm :
    (source : DataSource) (gather : Gather) (from_block to_block size : ℕ) (logs : List Log)
    → ((xs : List (Result DataSourceError (List Log))) → Permᴰ (gather xs) xs)
    → 0 < size
    → size ≤ to_block - from_block
    → fetch_logs_chunked source gather from_block to_block size ≡ ok logs
    → (parts : List (List Log)) × (collect (chunk_answers source from_block to_block size)
        ≡ ok parts)
      × Permᴰ logs (flatten parts)
unfolding fetch_logs_chunked
fetch_logs_chunked-perm source gather from_block to_block size logs fair pos long h =
    let answers = chunk_answers source from_block to_block size in
    elim (Result-cases (collect (gather answers))) [
      | inr (x, e) ↦ ground (arith, e)
      | inl (got, e) ↦
          let (parts, ok1, perm1) = collect-perm got (fair answers) e in
          let flat : logs ≡ flatten got = ground (arith, e) in
          (parts, ok1, rw flat (flatten-perm perm1))
    ]
