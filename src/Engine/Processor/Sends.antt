-- ===== src/Engine/Processor/Sends.antt =====
-- What the send loop of a batch sends.
use argus_rs.Base.{
  ℕ, ◌+◌, ◌≤◌, ◌<◌, ◌≡◌, ◌⊎◌, inl, inr, refl, sym, ap, ◌∙◌, false, Option, none, some, List, [],
  ◌∷◌, ◌++◌, map, arith, append_assoc, append-nil, run, Bool-cases, cons_head, cons_tail, suc, zero,
}
use argus_rs.Core.Chain.{CorrelatedBlockData}
use argus_rs.Engine.Processor.{Env, BlockProcessor, send_all, record_mark}

-- A channel whose receiver is gone stays closed.
abbrev pub StaysClosed : Env → Type 0
StaysClosed env = (i : ℕ) → env.is_delivered i ≡ false → env.is_delivered (i + 1) ≡ false

abbrev pub correlated_number : CorrelatedBlockData → ℕ
correlated_number c = c.block_number

abbrev pub dispatched_numbers : BlockProcessor → List ℕ
dispatched_numbers s = map correlated_number s.dispatched

-- The mark as it was, or that of a block among `first, …, first + k - 1`.
abbrev pub MarkWithin : ℕ → ℕ → Option ℕ → Option ℕ → Type 0
MarkWithin first k before after =
    (after ≡ before) ⊎ ((m : ℕ) × (after ≡ some m) × (first ≤ m) × (m < first + k))

-- A batch ends on a closed channel, or with all of its blocks sent.
abbrev pub Ends : Env → ℕ → ℕ → Option ℕ → ℕ → Option (Option ℕ) × BlockProcessor → Type 0
Ends env b j last count out =
    ((out.0 ≡ none) × (env.is_delivered out.1.sends ≡ false))
    ⊎ ((count ≡ j) × ((last' : Option ℕ) × (out.0 ≡ some last') × MarkWithin b j last last'))

-- What sending the blocks `b, …, b + j - 1` does to the channel.
pub record Sending (env : Env) (b j : ℕ) (last : Option ℕ) (s : BlockProcessor)
    (out : Option (Option ℕ) × BlockProcessor) : Type 0 where
  pub count : ℕ
  pub bounded : count ≤ j
  pub numbers : dispatched_numbers out.1 ≡ dispatched_numbers s ++ run b count
  pub ends : Ends env b j last count out
  pub buffer : out.1.block_buffer ≡ s.block_buffer
  pub batch : out.1.batches ≡ s.batches
  pub mark : out.1.last_processed_block ≡ s.last_processed_block

map_number-append :
    (xs ys : List CorrelatedBlockData)
    → map correlated_number (xs ++ ys) ≡ map correlated_number xs ++ map correlated_number ys
map_number-append [] ys = refl
map_number-append (x ∷ xs) ys = ap (λ l. correlated_number x ∷ l) (map_number-append xs ys)

abbrev sent_to : BlockProcessor → CorrelatedBlockData → BlockProcessor
sent_to s c = record s { sends = s.sends + 1; dispatched = s.dispatched ++ c ∷ [] }

run-cons_append :
    (b k : ℕ) (s : BlockProcessor) (c : CorrelatedBlockData)
    → correlated_number c ≡ b
    → dispatched_numbers (sent_to s c) ++ run (b + 1) k ≡ dispatched_numbers s ++ run b (suc k)
unfolding run
run-cons_append b k s c e =
    ap (λ l. l ++ run (b + 1) k) (map_number-append s.dispatched (c ∷ []))
    ∙ append_assoc (dispatched_numbers s) (correlated_number c ∷ []) (run (b + 1) k)
    ∙ ap (λ n. dispatched_numbers s ++ n ∷ run (b + 1) k) e

MarkWithin-first :
    (b j : ℕ) (last last' : Option ℕ) (n : ℕ)
    → n ≡ b
    → MarkWithin (b + 1) j (some n) last'
    → MarkWithin b (suc j) last last'
MarkWithin-first b j last last' n e (inl same) = inr (n, same, omega arith, omega arith)
MarkWithin-first b j last last' n e (inr (m, marked, low, high)) =
    inr (m, marked, omega arith, omega arith)

first_Sending :
    (env : Env) (c : CorrelatedBlockData) (b j : ℕ) (last : Option ℕ) (s : BlockProcessor)
    (out : Option (Option ℕ) × BlockProcessor)
    → correlated_number c ≡ b
    → Sending env (b + 1) j (some c.block_number) (sent_to s c) out
    → Sending env b (suc j) last s out
first_Sending env c b j last s out e p = record {
  count = suc p.count;
  bounded = omega (arith, p.bounded);
  numbers = p.numbers ∙ run-cons_append b p.count s c e;
  ends = ends_first p.ends;
  buffer = p.buffer;
  batch = p.batch;
  mark = p.mark;
}
  where
    ends_first :
        Ends env (b + 1) j (some c.block_number) p.count out
        → Ends env b (suc j) last (suc p.count) out
    ends_first (inl closed) = inl closed
    ends_first (inr (all, (last', reached, within))) = inr (
      omega (arith, all),
      (last', reached, MarkWithin-first b j last last' c.block_number e within),
    )

pub send_all-Sending :
    (env : Env) (cs : List CorrelatedBlockData) (b j : ℕ) (last : Option ℕ) (s : BlockProcessor)
    → StaysClosed env
    → map correlated_number cs ≡ run b j
    → Sending env b j last s (send_all env cs last s)
unfolding send_all run
send_all-Sending env [] b zero last s stays e = record {
  count = 0;
  bounded = omega arith;
  numbers = sym (append-nil (dispatched_numbers s));
  ends = inr (refl, (last, refl, inl refl));
  buffer = refl;
  batch = refl;
  mark = refl;
}
send_all-Sending env [] b (suc j) last s stays e = cc
send_all-Sending env (c ∷ cs) b zero last s stays e = cc
send_all-Sending env (c ∷ cs) b (suc j) last s stays e =
    elim (Bool-cases (env.is_delivered s.sends)) [
      | inr closed ↦ rw closed (record {
        count = 0;
        bounded = omega arith;
        numbers = sym (append-nil (dispatched_numbers s));
        ends = inl (refl, stays s.sends closed);
        buffer = refl;
        batch = refl;
        mark = refl;
      })
      | inl sent ↦ rw sent (
          first_Sending env c b j last s _ (cons_head e) (
            send_all-Sending env cs (b + 1) j (some c.block_number) (sent_to s c) stays
              (cons_tail e)))
    ]

-- Nothing passes a closed channel.
pub send_all-closed :
    (env : Env) (cs : List CorrelatedBlockData) (s : BlockProcessor)
    → StaysClosed env
    → env.is_delivered s.sends ≡ false
    → (env.is_delivered (record_mark env (send_all env cs none s)).sends ≡ false)
      × ((record_mark env (send_all env cs none s)).dispatched ≡ s.dispatched)
      × ((record_mark env (send_all env cs none s)).last_processed_block ≡ s.last_processed_block)
unfolding send_all record_mark
send_all-closed env [] s stays closed = (closed, refl, refl)
send_all-closed env (c ∷ cs) s stays closed = rw closed (stays s.sends closed, refl, refl)
