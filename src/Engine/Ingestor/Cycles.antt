-- ===== src/Engine/Ingestor/Cycles.antt =====
-- Whole cycles, and runs of them.
use mathlib.Core.Path.{subst, ap₂}
use argus_rs.Base.{
  ℕ, zero, suc, ◌+◌, ◌-◌, ◌≤◌, ◌<◌, ◌^◌, ◌≡◌, ◌⊎◌, inl, inr, refl, sym, ap, ◌∙◌, List, [], ◌∷◌,
  ◌++◌, map, arith, run, run-add, ok, Result-cases, Bool-cases, Option, some, max, ltb,
  if◌then◌else◌, length, length-append, cons_tail, Option-cases, ◌>>◌,
}
use argus_rs.Core.Chain.{BlockData}
use argus_rs.Providers.Fetcher.Blocks.{IsNumbered, number_of}
use argus_rs.Engine.Polling.{observe}
use argus_rs.Engine.Ingestor.{
  Env, BlockIngestor, failed, panicked, finished, drain_to_head, observe_block_time, ingest_blocks,
  state_next, cycles,
}
use argus_rs.Engine.Ingestor.Progress.{drain-Progress}
use argus_rs.Engine.Ingestor.Sent.{
  Sent, Sent-none, Progress, Progress-none, Progress-after, map-append,
}

-- The first block of a cycle, and the number of blocks up to the safe head.
abbrev pub first_block : Option ℕ → ℕ → BlockIngestor → ℕ
first_block last current s = max (state_next last current) s.next_block

abbrev pub span : Option ℕ → ℕ → BlockIngestor → ℕ
span last current s =
    if ltb current s.config.confirmation_blocks
    then 0
    else current - s.config.confirmation_blocks + 1 - first_block last current s

Progress-idle : (a n : ℕ) (s : BlockIngestor) → n ≡ 0 → Progress a n s (ok finished, s)
Progress-idle a n s e = record {
  count = 0;
  sent = Sent-none a s s refl refl refl;
  bounded = omega arith;
  complete = λ _. sym e;
  fuelled = λ h. cc;
}

drain_to_head-Progress :
    (env : Env) (last : Option ℕ) (current : ℕ) (s : BlockIngestor)
    → IsNumbered env.source
    → current + s.config.block_chunk_size + 1 < 2 ^ 64
    → Progress
        (first_block last current s)
        (span last current s)
        s
        (drain_to_head env last current s)
unfolding drain_to_head
drain_to_head-Progress env last current s numbered small =
    let safe = current - s.config.confirmation_blocks in
    let a = first_block last current s in
    elim (Bool-cases (ltb current s.config.confirmation_blocks)) [
      | inl short ↦ rw short (Progress-idle a 0 s refl)
      | inr long ↦ rw long (elim (Bool-cases (ltb safe a)) [
        | inl caught_up ↦ rw caught_up (Progress-idle a (safe + 1 - a) s (ground arith))
        | inr behind ↦ rw behind (
            drain-Progress env (suc (suc safe - a)) a safe s.config.block_chunk_size s numbered refl
              (ground arith) (omega arith) (omega arith))
      ])
    ]

observed-Progress :
    (env : Env) (last : Option ℕ) (current : ℕ) (s : BlockIngestor)
    → IsNumbered env.source
    → current + s.config.block_chunk_size + 1 < 2 ^ 64
    → Progress
        (first_block last current s)
        (span last current s)
        s
        ((observe_block_time env current >> drain_to_head env last current) s)
unfolding observe_block_time
observed-Progress env last current s numbered small =
    elim (Option-cases (observe s.calibrator env.now current)) [
      | inl bad ↦
          rw (bad, observe_block_time) (Progress-none _ _ s _ refl refl refl (λ h. cc) (λ h. cc))
      | inr (c, good) ↦
          let t = record s { calibrator = c } in
          rw (good, observe_block_time)
            (Progress-after (first_block last current s) (first_block last current s) 0
              (span last current s) (span last current s) s t _ (omega arith) (omega arith)
              (Sent-none _ s t refl refl refl)
              (drain_to_head-Progress env last current t numbered small))
    ]

-- For a node that numbers its blocks and a head below 2^64 by more than a chunk, a cycle whose reads
-- succeed sends consecutive blocks from the first one that neither the persisted state nor an
-- earlier cycle accounts for, never past the confirmation depth, and all of them if its loop ends by
-- its own test. Cancellation, a closed channel or a failed fetch cut it short and leave the
-- high-water mark behind the last block sent. The fuel is enough.
pub ingest_blocks-Progress :
    (env : Env) (last : Option ℕ) (current : ℕ) (s : BlockIngestor)
    → env.last_processed_block ≡ ok last
    → env.current_block_number ≡ ok current
    → IsNumbered env.source
    → current + s.config.block_chunk_size + 1 < 2 ^ 64
    → Progress (first_block last current s) (span last current s) s (ingest_blocks env s)
unfolding ingest_blocks
ingest_blocks-Progress env last current s reads head numbered small =
    simp (reads, head) (observed-Progress env last current s numbered small)

-- What was sent so far is `start, start + 1, …`, and the high-water mark is behind it.
pub record IsContiguous (start : ℕ) (s : BlockIngestor) : Type 0 where
  pub numbers : map number_of s.sent ≡ run start (length s.sent)
  pub mark :
      ((length s.sent ≡ 0) × (s.next_block ≤ start))
      ⊎ ((0 < length s.sent) × (s.next_block ≡ start + length s.sent))

-- The repository holds the block before the first one, or one that was sent; its reads may fail.
abbrev pub IsBehind : ℕ → BlockIngestor → Env → Type 0
IsBehind start s env =
    (last : Option ℕ)
    → env.last_processed_block ≡ ok last
    → (b : ℕ) × (last ≡ some b)
      × (start ≤ b + 1)
      × (b + 1 ≤ start + length s.sent)
      × (b + 1 < 2 ^ 64)

-- The node numbers its blocks, and its head is below 2^64 by more than a chunk.
abbrev pub HasNode : BlockIngestor → Env → Type 0
HasNode s env =
    IsNumbered env.source
    × ((current : ℕ)
        → env.current_block_number ≡ ok current
        → current + s.config.block_chunk_size + 1 < 2 ^ 64)

-- The surroundings of a run of cycles, each as the state that its cycle meets allows.
abbrev pub AreFaithful : ℕ → List Env → BlockIngestor → Type 0
AreFaithful start [] s = Unit
AreFaithful start (env ∷ envs) s =
    IsBehind start s env × HasNode s env × AreFaithful start envs (ingest_blocks env s).1

length_of_numbers : (ds : List BlockData) (a n : ℕ) → map number_of ds ≡ run a n → length ds ≡ n
unfolding run
length_of_numbers [] a zero h = refl
length_of_numbers [] a (suc n) h = cc
length_of_numbers (d ∷ ds) a zero h = cc
length_of_numbers (d ∷ ds) a (suc n) h = ap suc (length_of_numbers ds (a + 1) n (cons_tail h))

Sent-IsContiguous :
    (start k : ℕ) (s t : BlockIngestor)
    → IsContiguous start s
    → Sent (start + length s.sent) k s t
    → IsContiguous start t
Sent-IsContiguous start k s t c p =
    let shape = length-append s.sent p.blocks in
    let count : length p.blocks ≡ k =
      length_of_numbers p.blocks (start + length s.sent) k p.numbers in
    let total : length t.sent ≡ length s.sent + k = ap length p.appended ∙ omega (arith, shape) in
    record {
      numbers =
          ap (map number_of) p.appended
          ∙ map-append s.sent p.blocks
          ∙ ap₂ (λ l m. l ++ m) c.numbers p.numbers
          ∙ sym (run-add start (length s.sent) k)
          ∙ ap (run start) (sym total);
      mark = ground (arith, total, p.mark, c.mark);
    }

from_here :
    (start : ℕ) (last : Option ℕ) (current b : ℕ) (s : BlockIngestor)
    → IsContiguous start s
    → last ≡ some b
    → start ≤ b + 1
    → b + 1 ≤ start + length s.sent
    → b + 1 < 2 ^ 64
    → first_block last current s ≡ start + length s.sent
unfolding state_next
from_here start last current b s c e low high fits = rw (e, state_next) (ground (arith, c.mark))

ingest_blocks-IsContiguous :
    (start : ℕ) (env : Env) (s : BlockIngestor)
    → IsContiguous start s
    → IsBehind start s env
    → HasNode s env
    → IsContiguous start (ingest_blocks env s).1
unfolding ingest_blocks
ingest_blocks-IsContiguous start env s c behind node =
    elim (Result-cases env.last_processed_block) [
      | inr (x, bad) ↦ simp bad c
      | inl (last, reads) ↦ elim (Result-cases env.current_block_number) [
        | inr (x, bad) ↦ simp (reads, bad) c
        | inl (current, head) ↦
            let p =
              ingest_blocks-Progress env last current s reads head node.0 (node.1 current head) in
            let (b, e, low, high, fits) = behind last reads in
            Sent-IsContiguous start p.count s (ingest_blocks env s).1 c (
              subst (λ a. Sent a p.count s (ingest_blocks env s).1)
                (from_here start last current b s c e low high fits) p.sent)
      ]
    ]

-- However the cycles of a run end, by an error, a cancellation, a closed channel or at the head, all
-- that was sent is a run of consecutive blocks from the first: no block is skipped and none is sent
-- twice, if it is so at the start, each node numbers its blocks and has a head below 2^64 by more
-- than a chunk, and each read of the repository that succeeds finds the block before the first one
-- or one that was sent.
pub cycles-IsContiguous :
    (start : ℕ) (envs : List Env) (s : BlockIngestor)
    → IsContiguous start s
    → AreFaithful start envs s
    → IsContiguous start (cycles envs s)
unfolding cycles
cycles-IsContiguous start [] s c f = c
cycles-IsContiguous start (env ∷ envs) s c f =
    let c' = ingest_blocks-IsContiguous start env s c f.0 f.1 in
    elim (Result-cases (ingest_blocks env s).0) [
      | inl (flow, e) ↦ rw (e, cycles) (cycles-IsContiguous start envs _ c' f.2)
      | inr (failed x, e) ↦ rw (e, cycles) (cycles-IsContiguous start envs _ c' f.2)
      | inr (panicked, e) ↦ rw (e, cycles) c'
    ]
