-- ===== src/Engine/Processor/Marks.antt =====
-- The mark in the database stays behind what the filtering engine was sent.
use argus_rs.Engine.Processor.Batches.{buffered-Inv}
use argus_rs.Engine.Processor.Sending.{Inv}
use argus_rs.Engine.Processor.Sends.{MarkWithin, dispatched_numbers, StaysClosed}
use argus_rs.Engine.Ingestor.Sent.{map-append}
use argus_rs.Providers.Fetcher.Blocks.{number_of}
use argus_rs.Engine.Processor.{
  run_service, record_mark, send_all, BlockProcessor, receive, process_blocks_batch,
  process_and_dispatch, Env,
}
use argus_rs.Core.Chain.{CorrelatedBlockData, BlockData}
use native.Mathlib.Nat.{zero-add, add-zero}
use mathlib.Core.Path.{ap₂, subst}
use argus_rs.Base.{
  Bool, Bool-cases, List, Option, Option-cases, [], ap, arith, cons_head, cons_tail, false, inl,
  inr, is_empty, leb, length, length-append, map, nat_key, none, refl, run, run-add, some,
  string_key, suc, sym, true, zero, ℕ, ◌++◌, ◌+◌, ◌∙◌, ◌∷◌, ◌≡◌, ◌≤◌, ◌⊎◌,
}

numbers_snoc :
    (ds : List BlockData) (d : BlockData) (a : ℕ)
    → map number_of ds ≡ run a (length ds)
    → number_of d ≡ a + length ds
    → map number_of (ds ++ d ∷ []) ≡ run a (length (ds ++ d ∷ []))
unfolding run
numbers_snoc ds d a e f =
    map-append ds (d ∷ [])
    ∙ ap₂ (λ xs x. xs ++ x ∷ []) e f
    ∙ sym (run-add a (length ds) 1)
    ∙ ap (run a) (sym (length-append ds (d ∷ [])))

pushed-Inv :
    (env : Env) (first n : ℕ) (before : Option ℕ) (d : BlockData) (s : BlockProcessor)
    → number_of d ≡ first + n
    → Inv env first n before s
    → Inv env first (n + 1) before (record s { block_buffer = s.block_buffer ++ d ∷ [] })
pushed-Inv env first n before d s e i = record {
  count = i.count;
  numbers = i.numbers;
  received = elim i.received [
    | inl (counts, f) ↦ inl (
      omega (arith, length-append s.block_buffer (d ∷ [])),
      numbers_snoc s.block_buffer d (first + i.count) f (omega arith),
    )
    | inr (small, closed) ↦ inr (omega arith, closed)
  ];
  within = i.within;
}

receive-Inv :
    (env : Env) (first n : ℕ) (before : Option ℕ) (d : BlockData) (s : BlockProcessor)
    → StaysClosed env
    → ((i : ℕ) → env.is_joined i ≡ true)
    → number_of d ≡ first + n
    → Inv env first n before s
    → Inv env first (n + 1) before (receive env d s)
unfolding receive
receive-Inv env first n before d s stays joins e i =
    let pushed = pushed-Inv env first n before d s e i in
    elim (Bool-cases (leb env.batch_size (length (s.block_buffer ++ d ∷ [])))) [
      | inl enough ↦
          rw enough
            (buffered-Inv env first (n + 1) before (s.block_buffer ++ d ∷ []) s stays joins pushed)
      | inr few ↦ rw few pushed
    ]

-- What a run over the blocks `first, …, first + n - 1` leaves, with the mark at `before`.
pub record Caught (env : Env) (first n : ℕ) (before : Option ℕ) (s : BlockProcessor) : Type 0 where
  pub count : ℕ
  pub bounded : count ≤ n
  pub numbers : dispatched_numbers s ≡ run first count
  pub within : MarkWithin first count before s.last_processed_block
  pub complete : ((i : ℕ) → env.is_delivered i ≡ true) → count ≡ n

Inv-Caught :
    (env : Env) (first n : ℕ) (before : Option ℕ) (s : BlockProcessor)
    → s.block_buffer ≡ []
    → Inv env first n before s
    → Caught env first n before s
Inv-Caught env first n before s empty i = record {
  count = i.count;
  bounded = elim i.received [ inl (counts, f) ↦ omega arith | inr (small, closed) ↦ small ];
  numbers = i.numbers;
  within = i.within;
  complete = λ delivers. elim i.received [
    | inl (counts, f) ↦ omega (arith, counts, ap length empty)
    | inr (small, closed) ↦ absurd (apart closed (delivers s.sends))
  ];
}
  where
    apart : {b : Bool} → b ≡ false → b ≡ true → ⊥
    apart e f = cc

send_all_buffer :
    (env : Env) (cs : List CorrelatedBlockData) (last : Option ℕ) (s : BlockProcessor)
    → (record_mark env (send_all env cs last s)).block_buffer ≡ s.block_buffer
unfolding send_all record_mark
send_all_buffer env [] none s = refl
send_all_buffer env [] (some m) s = ground arith
send_all_buffer env (c ∷ cs) last s = elim (Bool-cases (env.is_delivered s.sends)) [
  | inr closed ↦ rw closed refl
  | inl sent ↦ rw sent (send_all_buffer env cs (some c.block_number) _)
]

process_and_dispatch_buffer :
    (env : Env) (ds : List BlockData) (s : BlockProcessor)
    → (process_and_dispatch env ds s).block_buffer ≡ s.block_buffer
unfolding process_and_dispatch
process_and_dispatch_buffer env ds s = elim (Option-cases (process_blocks_batch env ds s)) [
  | inl lost ↦ rw (lost, process_and_dispatch) refl
  | inr (cs, good) ↦ rw (good, process_and_dispatch) (send_all_buffer env cs none s)
]

empty_or_not :
    {A : Type 0} (xs : List A) → ((xs ≡ []) × (is_empty xs ≡ true)) ⊎ (is_empty xs ≡ false)
empty_or_not [] = inl (refl, refl)
empty_or_not (x ∷ xs) = inr refl

run_service-Caught :
    (env : Env) (first n j : ℕ) (before : Option ℕ) (ds : List BlockData) (s : BlockProcessor)
    → StaysClosed env
    → ((i : ℕ) → env.is_joined i ≡ true)
    → map number_of ds ≡ run (first + n) j
    → Inv env first n before s
    → Caught env first (n + j) before (run_service env ds s)
unfolding run_service run
run_service-Caught env first n zero before [] s stays joins e i =
    subst (λ m. Caught env first m before (run_service env [] s)) (sym (add-zero n))
      (elim (empty_or_not s.block_buffer) [
        | inl (bare, none_left) ↦ rw none_left (Inv-Caught env first n before s bare i)
        | inr full_buffer ↦ rw full_buffer (
            Inv-Caught env first n before _
              (process_and_dispatch_buffer env s.block_buffer (record s { block_buffer = [] }))
              (buffered-Inv env first n before s.block_buffer s stays joins i))
      ])
run_service-Caught env first n (suc j) before [] s stays joins e i = cc
run_service-Caught env first n zero before (d ∷ ds) s stays joins e i = cc
run_service-Caught env first n (suc j) before (d ∷ ds) s stays joins e i =
    subst (λ m. Caught env first m before (run_service env (d ∷ ds) s)) (omega arith)
      (run_service-Caught env first (n + 1) j before ds (receive env d s) stays joins
        (cons_tail e ∙ ap (λ a. run a j) (omega arith))
        (receive-Inv env first n before d s stays joins (cons_head e) i))

-- A processor that starts, with the mark that it finds in the database.
abbrev pub start_service : Option ℕ → BlockProcessor
start_service before = record {
  block_buffer = [];
  dispatched = [];
  last_processed_block = before;
  batches = 0;
  sends = 0;
}

-- A processor that receives consecutive blocks, whose blocking tasks all return and whose channel
-- stays closed once it is closed, has sent a first part of them in order when it ends, and all of
-- them where every send succeeds. The mark in the database is then as it was found, or the number
-- of a block that was sent.
pub run_service_keeps_mark_behind :
    (env : Env) (first n : ℕ) (before : Option ℕ) (ds : List BlockData)
    → StaysClosed env
    → ((i : ℕ) → env.is_joined i ≡ true)
    → map number_of ds ≡ run first n
    → Caught env first n before (run_service env ds (start_service before))
unfolding run
run_service_keeps_mark_behind env first n before ds stays joins e =
    subst (λ m. Caught env first m before (run_service env ds (start_service before))) (zero-add n)
      (run_service-Caught env first 0 n before ds (start_service before) stays joins
        (e ∙ ap (λ a. run a n) (omega arith))
        (record { count = 0; numbers = refl; received = inl (refl, refl); within = inl refl }))
