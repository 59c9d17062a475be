-- ===== src/Engine/Outbox/Draining.antt =====
-- The queue is drained where every delivery succeeds.
use mathlib.Core.Path.{subst}
use argus_rs.Base.{
  All, take-append-drop, ◌<◌, length-append, Bool, List, [], ap, arith, contains, drop, keep,
  length, map, nat_key, ok, refl, string_key, suc, sym, take, true, zero, ℕ, ◌+◌, ◌∙◌, ◌∷◌, ◌≡◌,
}
use mathlib.Core.List.{Permᴰ}
use argus_rs.Core.Repository.{OutboxItem, IsOutbox, is_outside, item_id}
use argus_rs.Engine.Outbox.{
  drain_queue, Env, OutboxProcessor, execute_all, settle, delete_delivered, process_batch_items,
}
use argus_rs.Engine.Outbox.Delivery.{delivered_ids, delivered_ids-perm, settle-lem}
use argus_rs.Engine.Outbox.Successes.{
  keep_outside-cong, keep_outside-none, keep_outside-take, NeverFails, Succeeded, Succeeded-perm,
  settle-Succeeded,
}

module _ {S : Type 0} (env : Env S) (IsValid IsReadable : S → Type 0) (pending : S → List ℕ)
    (law : IsOutbox env.state IsValid pending) (sound : NeverFails env.state IsValid IsReadable)
    (delivers : (k : ℕ) (i : OutboxItem) → env.is_delivered k i ≡ true)
    (shuffles : (rs : List (ℕ × Bool)) → Permᴰ (env.gather rs) rs) where
  execute_all-delivered :
      (k : ℕ) (items : List OutboxItem)
      → delivered_ids (execute_all env k items) ≡ map item_id items
  unfolding execute_all delivered_ids
  execute_all-delivered k [] = refl
  execute_all-delivered k (i ∷ is) =
      rw (delivers k i) (ap (λ l. i.id ∷ l) (execute_all-delivered (k + 1) is))

  delete_delivered-done :
      (ids : List ℕ) (s : S)
      → IsValid s
      → ((delete_delivered env.state ids s).0 ≡ length ids)
        × IsValid (delete_delivered env.state ids s).1
        × (pending (delete_delivered env.state ids s).1 ≡ keep (is_outside ids) (pending s))
  unfolding delete_delivered
  delete_delivered-done [] s v = (refl, v, sym (keep_outside-none (pending s)))
  delete_delivered-done (id ∷ ids) s v =
      rw (sound.deletes (id ∷ ids) s v, delete_delivered)
        (
          refl,
          law.delete_valid (id ∷ ids) s v,
          law.delete_done (id ∷ ids) s v (sound.deletes (id ∷ ids) s v),
        )

  execute_all-Succeeded :
      (k : ℕ) (items : List OutboxItem) → All Succeeded (execute_all env k items)
  unfolding execute_all
  execute_all-Succeeded k [] = tt
  execute_all-Succeeded k (i ∷ is) = (delivers k i, execute_all-Succeeded (k + 1) is)

  delete_delivered-IsReadable :
      (ids : List ℕ) (s : S)
      → IsValid s
      → IsReadable s
      → IsReadable (delete_delivered env.state ids s).1
  unfolding delete_delivered
  delete_delivered-IsReadable [] s v r = r
  delete_delivered-IsReadable (id ∷ ids) s v r =
      rw (sound.deletes (id ∷ ids) s v, delete_delivered) (sound.delete_readable (id ∷ ids) s r)

  process_batch_items-IsReadable :
      (items : List OutboxItem) (s : OutboxProcessor S)
      → IsValid s.store
      → IsReadable s.store
      → IsReadable (process_batch_items env items s).1.store
  unfolding process_batch_items
  process_batch_items-IsReadable items s v r =
      let rs = execute_all env s.attempts items in
      let same =
        settle-Succeeded env.state (env.gather rs) s.store
          (Succeeded-perm (shuffles rs) (execute_all-Succeeded s.attempts items)) in
      delete_delivered-IsReadable (settle env.state (env.gather rs) s.store).0
        (settle env.state (env.gather rs) s.store).1 (subst IsValid (sym same) v)
        (subst IsReadable (sym same) r)

  -- A batch of the oldest items is delivered and deleted.
  process_batch_items-done :
      (n : ℕ) (items : List OutboxItem) (s : OutboxProcessor S)
      → IsValid s.store
      → map item_id items ≡ take n (pending s.store)
      → ((process_batch_items env items s).0 ≡ length (take n (pending s.store)))
        × IsValid (process_batch_items env items s).1.store
        × (pending (process_batch_items env items s).1.store ≡ drop n (pending s.store))
  unfolding process_batch_items
  process_batch_items-done n items s v e =
      let rs = execute_all env s.attempts items in
      let (ids, valid, same) = settle-lem env.state IsValid pending law (env.gather rs) s.store v in
      let out = settle env.state (env.gather rs) s.store in
      let (count, valid', gone) = delete_delivered-done out.0 out.1 valid in
      let same_ids : delivered_ids rs ≡ take n (pending s.store) =
        execute_all-delivered s.attempts items ∙ e in
      (
        count ∙ ap length ids ∙ (delivered_ids-perm 0 (shuffles rs)).1 ∙ ap length same_ids,
        valid',
        gone
            ∙ ap (keep (is_outside out.0)) same
            ∙ keep_outside-cong out.0 (take n (pending s.store)) (pending s.store) (λ i.
              ap (λ l. contains l i) ids
              ∙ (delivered_ids-perm i (shuffles rs)).0
              ∙ ap (λ l. contains l i) same_ids)
            ∙ keep_outside-take n (pending s.store) (law.distinct s.store v),
      )

  -- The queue ends up empty, and everything in it was delivered.
  abbrev pub Drained : ℕ → ℕ → OutboxProcessor S → Type 0
  Drained fuel total s =
      ((drain_queue fuel env total s).0 ≡ ok (total + length (pending s.store)))
      × (pending (drain_queue fuel env total s).1.store ≡ [])

  nothing_taken : (n : ℕ) (xs : List ℕ) → 0 < n → [] ≡ take n xs → xs ≡ []
  nothing_taken zero xs h e = absurd (omega arith)
  nothing_taken (suc n) [] h e = refl
  nothing_taken (suc n) (x ∷ xs) h e = cc

  length-take-drop : (n : ℕ) (xs : List ℕ) → length (take n xs) + length (drop n xs) ≡ length xs
  length-take-drop n xs =
      sym (length-append (take n xs) (drop n xs)) ∙ ap length (take-append-drop n xs)

  drain-step :
      (fuel total : ℕ) (s : OutboxProcessor S) (items : List OutboxItem)
      → IsValid s.store
      → IsReadable s.store
      → 0 < env.config.batch_size
      → length (pending s.store) < suc fuel
      → (env.state.get_pending_outbox env.config.batch_size s.store).0 ≡ ok items
      → ((total' : ℕ) (t : OutboxProcessor S)
          → IsValid t.store
          → IsReadable t.store
          → length (pending t.store) < fuel
          → Drained fuel total' t)
      → Drained (suc fuel) total s
  unfolding drain_queue
  drain-step fuel total s [] v r some_size small good later =
      let n = env.config.batch_size in
      let bare = nothing_taken n (pending s.store) some_size (law.get_oldest n s.store [] v good) in
      rw (good, drain_queue)
        (ap ok (omega (arith, ap length bare)), law.get_keeps n s.store v ∙ bare)
  drain-step fuel total s (i ∷ is) v r some_size small good later =
      let n = env.config.batch_size in
      let store = (env.state.get_pending_outbox n s.store).1 in
      let same = law.get_keeps n s.store v in
      let fetched : OutboxProcessor S = record s { store = store } in
      let (count, valid, left) =
        process_batch_items-done n (i ∷ is) fetched (law.get_valid n s.store v)
          (law.get_oldest n s.store (i ∷ is) v good ∙ ap (take n) (sym same)) in
      let taken : suc (length (map item_id is)) ≡ length (take n (pending store)) =
        ap length (law.get_oldest n s.store (i ∷ is) v good ∙ ap (take n) (sym same)) in
      let split = length-take-drop n (pending store) in
      let (counts, empties) =
        later (total + (process_batch_items env (i ∷ is) fetched).0)
          (process_batch_items env (i ∷ is) fetched).1 valid
          (process_batch_items-IsReadable (i ∷ is) fetched (law.get_valid n s.store v)
            (sound.get_readable n s.store r))
          (omega (arith, taken, split, ap length left, ap length same)) in
      rw (good, drain_queue)
        (counts ∙ ap ok (omega (arith, count, split, ap length left, ap length same)), empties)

  -- Where the repository keeps the contract of the outbox, its deletions and its reads do
  -- not fail, every delivery succeeds
  -- and batches take an item at least, the drain ends within a round more than there are items
  -- pending, with everything deleted and the number of the items pending as its count, in whatever
  -- order the attempts of a batch complete.
  pub drain_queue_empties :
      (fuel total : ℕ) (s : OutboxProcessor S)
      → IsValid s.store
      → IsReadable s.store
      → 0 < env.config.batch_size
      → length (pending s.store) < fuel
      → Drained fuel total s
  drain_queue_empties zero total s v r some_size small = absurd (omega arith)
  drain_queue_empties (suc fuel) total s v r some_size small =
      let (items, good) = sound.reads env.config.batch_size s.store r in
      drain-step fuel total s items v r some_size small good
        λ total' t v' r' small'. drain_queue_empties fuel total' t v' r' some_size small'
