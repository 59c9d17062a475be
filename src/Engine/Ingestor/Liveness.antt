-- ===== src/Engine/Ingestor/Liveness.antt =====
-- A cycle that nothing disturbs reaches the safe head.
use mathlib.Core.Path.{subst}
use argus_rs.Base.{
  ℕ, zero, suc, ◌+◌, ◌-◌, ◌<◌, ◌^◌, ◌≡◌, ◌⊎◌, inl, inr, refl, true, false, List, [], ◌∷◌, ok, err,
  Result, Exec, continue, ◌>>◌, u64, Bool-cases, Option, some, min, leb, ltb,
}
use argus_rs.Core.Chain.{BlockData}
use argus_rs.Providers.Fetcher.{fetch_blocks_concurrent, FetchConfig}
use argus_rs.Providers.Fetcher.Blocks.{IsNumbered}
use argus_rs.Engine.Polling.{BlockTimeCalibrator, observe}
use argus_rs.Engine.Ingestor.{
  Env, BlockIngestor, IngestError, Flow, finished, exhausted, returned, poll, send_batch, resume,
  drain, drain_to_head, observe_block_time, ingest_blocks,
}
use argus_rs.Engine.Ingestor.Sent.{Sent}
use argus_rs.Engine.Ingestor.Cycles.{first_block, span, ingest_blocks-Progress}

-- No cancellation, a receiver that stays, and a node that answers every range.
pub record IsCalm (env : Env) : Type 0 where
  pub goes_on : (k : ℕ) → env.is_cancelled k ≡ false
  pub delivers : (k : ℕ) → env.is_delivered k ≡ true
  pub answers :
      (from_block to_block : ℕ) (cfg : FetchConfig)
      → (batch : List BlockData) × (fetch_blocks_concurrent env.source env.gather env.needs_receipts
            from_block to_block cfg
          ≡ ok batch)

-- A loop that does not end early.
abbrev RunsOut : Result IngestError Flow × BlockIngestor → Type 0
RunsOut out = (out.0 ≡ ok finished) ⊎ (out.0 ≡ ok exhausted)

send_batch-finished :
    (env : Env) (ds : List BlockData) (s : BlockIngestor)
    → IsCalm env
    → (send_batch env ds s).0 ≡ ok finished
unfolding send_batch
send_batch-finished env [] s calm = refl
send_batch-finished env (d ∷ ds) s calm =
    rw (calm.goes_on s.polls, calm.delivers s.sends) (send_batch-finished env ds _ calm)

resume-RunsOut :
    (r : Result IngestError Flow) (t : BlockIngestor) (rest : Exec BlockIngestor IngestError Flow)
    → r ≡ ok finished
    → RunsOut (rest t)
    → RunsOut (continue r (λ flow. resume flow rest) t)
resume-RunsOut (ok finished) t rest e h = h
resume-RunsOut (ok returned) t rest e h = cc
resume-RunsOut (ok exhausted) t rest e h = cc
resume-RunsOut (err x) t rest e h = cc

drain-RunsOut :
    (env : Env) (fuel a safe : ℕ) (s : BlockIngestor)
    → IsCalm env
    → RunsOut (drain fuel env a safe s)
unfolding drain poll
drain-RunsOut env zero a safe s calm = inr refl
drain-RunsOut env (suc fuel) a safe s calm =
    let to = min (u64 (a + s.config.block_chunk_size)) safe in
    let (batch, good) = calm.answers a to (record { log_chunk_size = s.config.log_chunk_size }) in
    elim (Bool-cases (leb a safe)) [
      | inr past ↦ rw past (inl refl)
      | inl more ↦
          rw (more, calm.goes_on s.polls, good)
            (resume-RunsOut _ _ (drain fuel env (u64 (to + 1)) safe)
              (send_batch-finished env batch _ calm)
              (drain-RunsOut env fuel (u64 (to + 1)) safe _ calm))
    ]

observed-RunsOut :
    (env : Env) (last : Option ℕ) (current : ℕ) (s : BlockIngestor) (c : BlockTimeCalibrator)
    → IsCalm env
    → observe s.calibrator env.now current ≡ some c
    → RunsOut ((observe_block_time env current >> drain_to_head env last current) s)
unfolding observe_block_time drain_to_head
observed-RunsOut env last current s c calm seen =
    let safe = current - s.config.confirmation_blocks in
    let a = first_block last current s in
    rw (seen, observe_block_time)
      (elim (Bool-cases (ltb current s.config.confirmation_blocks)) [
        | inl short ↦ rw short (inl refl)
        | inr long ↦ rw long (elim (Bool-cases (ltb safe a)) [
          | inl caught_up ↦ rw caught_up (inl refl)
          | inr behind ↦ rw behind (drain-RunsOut env (suc (suc safe - a)) a safe _ calm)
        ])
      ])

-- Where nothing cancels the service, the channel's receiver stays, the node numbers its blocks,
-- answers every range and has a head below 2^64 by more than a chunk, and the calibrator does not
-- panic, a cycle whose reads succeed ends without an error and has sent
-- every block up to the safe head.
pub ingest_blocks_reaches_head :
    (env : Env) (last : Option ℕ) (current : ℕ) (s : BlockIngestor) (c : BlockTimeCalibrator)
    → IsCalm env
    → env.last_processed_block ≡ ok last
    → env.current_block_number ≡ ok current
    → observe s.calibrator env.now current ≡ some c
    → IsNumbered env.source
    → current + s.config.block_chunk_size + 1 < 2 ^ 64
    → ((ingest_blocks env s).0 ≡ ok finished)
      × Sent (first_block last current s) (span last current s) s (ingest_blocks env s).1
unfolding ingest_blocks
ingest_blocks_reaches_head env last current s c calm reads head seen numbered small =
    let p = ingest_blocks-Progress env last current s reads head numbered small in
    let ends : RunsOut (ingest_blocks env s) =
      simp (reads, head) (observed-RunsOut env last current s c calm seen) in
    elim ends [
      | inr ran_out ↦ absurd (p.fuelled ran_out)
      | inl done ↦ (
        done,
        subst (λ k. Sent (first_block last current s) k s (ingest_blocks env s).1) (p.complete done)
            p.sent,
      )
    ]
