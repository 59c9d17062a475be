-- ===== src/Engine/Processor/Sending.antt =====
-- What sending one batch leaves in the channel and in the database.
use mathlib.Core.Path.{subst}
use argus_rs.Base.{
  ℕ, ◌+◌, ◌≤◌, ◌<◌, ◌≡◌, ◌⊎◌, inl, inr, refl, sym, ap, ◌∙◌, false, Option, none, some, List, [],
  ◌++◌, map, arith, run, run-add, length, Bool-cases,
}
use argus_rs.Providers.Fetcher.Blocks.{number_of}
use argus_rs.Engine.Processor.{Env, BlockProcessor, record_mark}
use argus_rs.Engine.Processor.Sends.{dispatched_numbers, MarkWithin, Ends, Sending}

-- After `n` blocks from `first` on were received, with the mark at `before`: the blocks sent are the
-- first of them. The buffer holds the others, or the channel is closed.
pub record Inv (env : Env) (first n : ℕ) (before : Option ℕ) (s : BlockProcessor) : Type 0 where
  pub count : ℕ
  pub numbers : dispatched_numbers s ≡ run first count
  pub received :
      ((count + length s.block_buffer ≡ n)
        × (map number_of s.block_buffer ≡ run (first + count) (length s.block_buffer)))
      ⊎ ((count ≤ n) × (env.is_delivered s.sends ≡ false))
  pub within : MarkWithin first count before s.last_processed_block

MarkWithin-weaken :
    (first k i : ℕ) (before after : Option ℕ)
    → MarkWithin first k before after
    → MarkWithin first (k + i) before after
MarkWithin-weaken first k i before after (inl same) = inl same
MarkWithin-weaken first k i before after (inr (m, e, low, high)) = inr (m, e, low, omega arith)

some_inv : {A : Type 0} {a b : A} → some a ≡ some b → b ≡ a
some_inv e = cc

sent_numbers :
    (first k i : ℕ) (sent : List ℕ)
    → sent ≡ run first k
    → sent ++ run (first + k) i ≡ run first (k + i)
sent_numbers first k i sent e = ap (λ l. l ++ run (first + k) i) e ∙ sym (run-add first k i)

marked_dispatched :
    (env : Env) (r : Option ℕ) (t : BlockProcessor)
    → dispatched_numbers (record_mark env (some r, t)) ≡ dispatched_numbers t
unfolding record_mark
marked_dispatched env none t = refl
marked_dispatched env (some m) t = ground arith

marked_buffer :
    (env : Env) (r : Option ℕ) (t : BlockProcessor)
    → (record_mark env (some r, t)).block_buffer ≡ t.block_buffer
unfolding record_mark
marked_buffer env none t = refl
marked_buffer env (some m) t = ground arith

marked_mark :
    (env : Env) (first k j : ℕ) (before r : Option ℕ) (t : BlockProcessor)
    → MarkWithin first k before t.last_processed_block
    → MarkWithin (first + k) j none r
    → MarkWithin first (k + j) before (record_mark env (some r, t)).last_processed_block
unfolding record_mark
marked_mark env first k j before none t w within = MarkWithin-weaken first k j before _ w
marked_mark env first k j before (some m) t w within =
    elim (Bool-cases (env.is_persisted t.batches)) [
      | inr lost ↦ rw lost (MarkWithin-weaken first k j before _ w)
      | inl kept ↦ rw kept (inr (within_marked within))
    ]
  where
    within_marked :
        MarkWithin (first + k) j none (some m)
        → (n : ℕ) × (some m ≡ some n) × (first ≤ n) × (n < first + (k + j))
    within_marked (inl bad) = cc
    within_marked (inr (n, e, low, high)) = (n, e, omega arith, omega arith)

-- A state with an empty buffer, all of whose blocks were sent.
open_Inv :
    (env : Env) (first n : ℕ) (before : Option ℕ) (s : BlockProcessor)
    → dispatched_numbers s ≡ run first n
    → s.block_buffer ≡ []
    → MarkWithin first n before s.last_processed_block
    → Inv env first n before s
unfolding run
open_Inv env first n before s e empty w = record {
  count = n;
  numbers = e;
  received = inl (rw empty (omega arith), rw empty refl);
  within = w;
}

-- What a batch leaves, once it is sent.
pub sent-Inv :
    (env : Env) (first k j : ℕ) (before : Option ℕ) (s : BlockProcessor) (r : Option (Option ℕ))
    (t : BlockProcessor)
    → s.block_buffer ≡ []
    → dispatched_numbers s ≡ run first k
    → MarkWithin first k before s.last_processed_block
    → Sending env (first + k) j none s (r, t)
    → Inv env first (k + j) before (record_mark env (r, t))
unfolding record_mark run
sent-Inv env first k j before s none t empty e w p = record {
  count = k + p.count;
  numbers = p.numbers ∙ sent_numbers first k p.count (dispatched_numbers s) e;
  received = inr (omega (arith, p.bounded), closes p.ends);
  within =
      subst (λ m. MarkWithin first (k + p.count) before m) (sym p.mark)
        (MarkWithin-weaken first k p.count before s.last_processed_block w);
}
  where
    closes : Ends env (first + k) j none p.count (none, t) → env.is_delivered t.sends ≡ false
    closes (inl (_, closed)) = closed
    closes (inr (_, (last', bad, _))) = cc
sent-Inv env first k j before s (some r) t empty e w p =
    let (all, within) = ends_open p.ends in
    open_Inv env first (k + j) before _
      (marked_dispatched env r t
        ∙ p.numbers
        ∙ sent_numbers first k p.count (dispatched_numbers s) e
        ∙ ap (λ i. run first (k + i)) all)
      (marked_buffer env r t ∙ p.buffer ∙ empty)
      (marked_mark env first k j before r t
        (subst (λ m. MarkWithin first k before m) (sym p.mark) w) within)
  where
    ends_open :
        Ends env (first + k) j none p.count (some r, t)
        → (p.count ≡ j) × MarkWithin (first + k) j none r
    ends_open (inl (bad, _)) = cc
    ends_open (inr (all, (last', same, within))) =
        (all, subst (MarkWithin (first + k) j none) (some_inv same) within)
