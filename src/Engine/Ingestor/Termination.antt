-- ===== src/Engine/Ingestor/Termination.antt =====
-- The loop of a cycle ends whatever the node answers.
use argus_rs.Base.{
  Bool-cases, Exec, List, Option, Option-cases, Result, Result-cases, [], arith, continue, err, inl,
  inr, leb, ltb, max, min, nat_key, ok, pair_key, refl, string_key, suc, u64, zero, ℕ, ◌++◌, ◌+◌,
  ◌-◌, ◌<◌, ◌>>=◌, ◌>>◌, ◌^◌, ◌∷◌, ◌≡◌, ◌≢◌,
}
use argus_rs.Core.Chain.{BlockData}
use argus_rs.Providers.Fetcher.{fetch_blocks_concurrent}
use argus_rs.Engine.Ingestor.{
  Env, BlockIngestor, IngestError, Flow, finished, returned, exhausted, poll, send_batch, drain,
  resume, lift, observe_block_time, drain_to_head, ingest_blocks, as_source, state_next,
}
use argus_rs.Core.Errors.{DataSourceError}
use argus_rs.Engine.Polling.{observe}

-- An operation that ends by itself and keeps the size of the chunks.
abbrev Ends : ℕ → Result IngestError Flow × BlockIngestor → Type 0
Ends chunk out = (out.0 ≢ ok exhausted) × (out.1.config.block_chunk_size ≡ chunk)

send_batch-Ends :
    (env : Env) (chunk : ℕ) (ds : List BlockData) (s : BlockIngestor)
    → s.config.block_chunk_size ≡ chunk
    → Ends chunk (send_batch env ds s)
unfolding send_batch
send_batch-Ends env chunk [] s c = ((λ x. cc), c)
send_batch-Ends env chunk (d ∷ ds) s c = elim (Bool-cases (env.is_cancelled s.polls)) [
  | inl stop ↦ rw stop ((λ x. cc), c)
  | inr on ↦ rw on (elim (Bool-cases (env.is_delivered s.sends)) [
    | inl delivered ↦ rw (delivered) (
        send_batch-Ends env chunk ds
          (record s {
            polls = s.polls + 1;
            sends = s.sends + 1;
            sent = s.sent ++ d ∷ [];
            next_block = u64 (d.block.number + 1);
            latest_processed_block = d.block.number;
            latest_processed_block_timestamp_secs = d.block.timestamp;
          })
          c)
    | inr closed ↦ rw closed ((λ x. cc), c)
  ])
]

resume-Ends :
    (chunk : ℕ) (out : Result IngestError Flow × BlockIngestor)
    (rest : Exec BlockIngestor IngestError Flow)
    → Ends chunk out
    → ((t : BlockIngestor) → t.config.block_chunk_size ≡ chunk → Ends chunk (rest t))
    → Ends chunk (continue out.0 (λ flow. resume flow rest) out.1)
resume-Ends chunk (ok finished, t) rest ends h = h t ends.1
resume-Ends chunk (ok returned, t) rest ends h = ((λ x. cc), ends.1)
resume-Ends chunk (ok exhausted, t) rest ends h = absurd (ends.0 refl)
resume-Ends chunk (err x, t) rest ends h = ((λ y. cc), ends.1)

drain-Ends :
    (env : Env) (fuel from_block safe_to_block chunk : ℕ) (s : BlockIngestor)
    → s.config.block_chunk_size ≡ chunk
    → safe_to_block + chunk + 1 < 2 ^ 64
    → safe_to_block + 1 - from_block < fuel
    → Ends chunk (drain fuel env from_block safe_to_block s)
unfolding drain poll
drain-Ends env zero a safe chunk s c small enough = absurd (omega arith)
drain-Ends env (suc fuel) a safe chunk s c small enough =
    let to = min (u64 (a + s.config.block_chunk_size)) safe in
    elim (Bool-cases (leb a safe)) [
      | inr past ↦ rw past ((λ x. cc), c)
      | inl more ↦ rw more (elim (Bool-cases (env.is_cancelled s.polls)) [
        | inl stop ↦ rw stop ((λ x. cc), c)
        | inr on ↦
            rw on
              (elim (Result-cases (
                fetch_blocks_concurrent env.source env.gather env.needs_receipts a to
                  (record { log_chunk_size = s.config.log_chunk_size }))) [
                    | inr (x, bad) ↦ rw bad ((λ y. cc), c)
                    | inl (batch, good) ↦ rw good (
                        resume-Ends chunk (send_batch env batch (record s { polls = s.polls + 1 }))
                          (drain fuel env (u64 (to + 1)) safe)
                          (send_batch-Ends env chunk batch (record s { polls = s.polls + 1 }) c)
                          λ t same.
                            drain-Ends env fuel (u64 (to + 1)) safe chunk t same small
                              (ground arith))
                  ])
      ])
    ]

drain_to_head-Ends :
    (env : Env) (last : Option ℕ) (current : ℕ) (s : BlockIngestor)
    → current + s.config.block_chunk_size + 1 < 2 ^ 64
    → (drain_to_head env last current s).0 ≢ ok exhausted
unfolding drain_to_head
drain_to_head-Ends env last current s small =
    let safe = current - s.config.confirmation_blocks in
    let a = max (state_next last current) s.next_block in
    elim (Bool-cases (ltb current s.config.confirmation_blocks)) [
      | inl short ↦ rw short (λ x. cc)
      | inr long ↦ rw long (elim (Bool-cases (ltb safe a)) [
        | inl caught_up ↦ rw caught_up (λ x. cc)
        | inr behind ↦ rw behind (
            (drain-Ends env (suc (suc safe - a)) a safe s.config.block_chunk_size s refl
              (omega arith) (omega arith)).0)
      ])
    ]

observed-Ends :
    (env : Env) (last : Option ℕ) (current : ℕ) (s : BlockIngestor)
    → current + s.config.block_chunk_size + 1 < 2 ^ 64
    → ((observe_block_time env current >> drain_to_head env last current) s).0 ≢ ok exhausted
unfolding observe_block_time
observed-Ends env last current s small =
    elim (Option-cases (observe s.calibrator env.now current)) [
      | inl panics ↦ rw (panics, observe_block_time) (λ y. cc)
      | inr (c, observed) ↦
          rw (observed, observe_block_time)
            (drain_to_head-Ends env last current (record s { calibrator = c }) small)
    ]

lifted-Ends :
    {A : Type 0}
    → (answer : Result DataSourceError A) (f : A → Exec BlockIngestor IngestError Flow)
    → (s : BlockIngestor) → ((a : A) → answer ≡ ok a → (f a s).0 ≢ ok exhausted)
    → ((lift answer >>= f) s).0 ≢ ok exhausted
unfolding lift
lifted-Ends (ok a) f s ends = ends a refl
lifted-Ends (err x) f s ends = λ y. cc

-- For a head below 2^64 by more than a chunk, a cycle ends by itself, whatever the node, the repository
-- and the channel answer and whatever the chunk size is: its loop never needs more rounds than there
-- are blocks up to the safe head, and one.
pub ingest_blocks_terminates :
    (env : Env) (s : BlockIngestor)
    → ((current : ℕ)
        → env.current_block_number ≡ ok current
        → current + s.config.block_chunk_size + 1 < 2 ^ 64)
    → (ingest_blocks env s).0 ≢ ok exhausted
unfolding ingest_blocks
ingest_blocks_terminates env s small =
    lifted-Ends (as_source env.last_processed_block) _ s λ last reads.
      lifted-Ends env.current_block_number _ s
        λ current head. observed-Ends env last current s (small current head)
