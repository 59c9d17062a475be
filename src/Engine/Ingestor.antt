-- ===== src/Engine/Ingestor.antt =====
-- crates/argus-engine/src/block_ingestor.rs. What the surroundings do during one cycle is `Env`:
-- the answers of the node and of the repository, the polls of the cancellation token and the sends
-- into the channel that find its receiver alive, each by its position.
pub mod Sent
pub mod Progress
pub mod Cycles
pub mod Liveness
pub mod Termination
mod Samples
use argus_rs.Base.{
  ◌>>=◌, ◌>>◌, ℕ, zero, suc, ◌+◌, ◌-◌, min, max, Bool, true, false, Option, none, some, List, [],
  ◌∷◌, ◌++◌, ltb, leb, u64, if◌then◌else◌, Result, ok, err, Exec, pure,
}
use argus_rs.Core.Chain.{BlockData}
use argus_rs.Core.Config.{AppConfig}
use argus_rs.Core.Errors.{PersistenceError, DataSourceError, channel_closed, state_repository}
use argus_rs.Providers.Source.{DataSource}
use argus_rs.Providers.Fetcher.{Gather, fetch_blocks_concurrent}
use argus_rs.Engine.Polling.{BlockTimeCalibrator, observe}

abbrev pub default_backfill_blocks : ℕ
default_backfill_blocks = 100

pub record Env : Type 0 where
  pub source : DataSource
  pub gather : Gather
  pub needs_receipts : Bool
  pub last_processed_block : Result PersistenceError (Option ℕ)
  pub current_block_number : Result DataSourceError ℕ
  pub now : ℕ
  pub is_cancelled : ℕ → Bool
  pub is_delivered : ℕ → Bool

-- The service, with the channel as the list of what was sent, and the counts of polls and sends.
pub record BlockIngestor : Type 0 where
  pub config : AppConfig
  pub next_block : ℕ
  pub calibrator : BlockTimeCalibrator
  pub latest_processed_block : ℕ
  pub latest_processed_block_timestamp_secs : ℕ
  pub sent : List BlockData
  pub polls : ℕ
  pub sends : ℕ

-- A cycle ends by a panic of the calibrator, or by the error that the method returns.
pub data IngestError : Type 0 where
  failed : DataSourceError → IngestError
  panicked : IngestError

-- How a loop ends: by its own test, by an early `return Ok(())`, or for want of fuel.
pub data Flow : Type 0 where
  finished returned exhausted : Flow

unfoldable pub lift : {A : Type 0} → Result DataSourceError A → Exec BlockIngestor IngestError A
lift (ok a) s = (ok a, s)
lift (err e) s = (err (failed e), s)

-- `cancellation_token.is_cancelled()`
unfoldable pub poll : Env → Exec BlockIngestor IngestError Bool
poll env s = (ok (env.is_cancelled s.polls), record s { polls = s.polls + 1 })

-- `send(block_data)`, and what is recorded once it succeeds.
unfoldable pub send_block : Env → BlockData → Exec BlockIngestor IngestError (Unit {0})
send_block env d s =
    if env.is_delivered s.sends
    then (
      ok tt,
      record s {
        sends = s.sends + 1;
        sent = s.sent ++ d ∷ [];
        next_block = u64 (d.block.number + 1);
        latest_processed_block = d.block.number;
        latest_processed_block_timestamp_secs = d.block.timestamp;
      },
    )
    else (err (failed channel_closed), record s { sends = s.sends + 1 })

-- The loop over a fetched batch.
unfoldable pub send_batch : Env → List BlockData → Exec BlockIngestor IngestError Flow
unfolding poll send_block
send_batch env [] = pure finished
send_batch env (d ∷ ds) = do
  cancelled ← poll env
  elim cancelled [ true ↦ pure returned | false ↦ send_block env d >> send_batch env ds ]

-- What follows a batch, unless it returned early.
abbrev pub resume : Flow → Exec BlockIngestor IngestError Flow → Exec BlockIngestor IngestError Flow
resume finished rest = rest
resume returned rest = pure returned
resume exhausted rest = pure exhausted

-- `while from_block <= safe_to_block`
unfoldable pub drain : ℕ → Env → ℕ → ℕ → Exec BlockIngestor IngestError Flow
unfolding lift
drain zero env from_block safe_to_block s = (ok exhausted, s)
drain (suc fuel) env from_block safe_to_block s =
    let to_block = min (u64 (from_block + s.config.block_chunk_size)) safe_to_block in
    let fetched =
      fetch_blocks_concurrent env.source env.gather env.needs_receipts from_block to_block
        (record { log_chunk_size = s.config.log_chunk_size }) in
    let body : Exec BlockIngestor IngestError Flow = (do
      cancelled ← poll env
      elim cancelled [
        | true ↦ pure returned
        | false ↦ do
          batch ← lift fetched
          flow ← send_batch env batch
          resume flow (drain fuel env (u64 (to_block + 1)) safe_to_block)
      ]) in
    if leb from_block safe_to_block then body s else (ok finished, s)

-- `observe_block_time`
unfoldable pub observe_block_time : Env → ℕ → Exec BlockIngestor IngestError (Unit {0})
observe_block_time env head s = elim (observe s.calibrator env.now head) [
  | none ↦ (err panicked, s)
  | some c ↦ (ok tt, record s { calibrator = c })
]

-- The first block that the persisted state asks for.
unfoldable pub state_next : Option ℕ → ℕ → ℕ
state_next none current_block = current_block - default_backfill_blocks
state_next (some block) current_block = u64 (block + 1)

-- The part of `ingest_blocks` behind the reads. A round of the loop takes a block at least.
unfoldable pub drain_to_head : Env → Option ℕ → ℕ → Exec BlockIngestor IngestError Flow
unfolding state_next
drain_to_head env last_processed current_block s =
    let safe_to_block = current_block - s.config.confirmation_blocks in
    let from_block = max (state_next last_processed current_block) s.next_block in
    if ltb current_block s.config.confirmation_blocks
    then (ok finished, s)
    else if ltb safe_to_block from_block
    then (ok finished, s)
    else drain (suc (suc safe_to_block - from_block)) env from_block safe_to_block s

abbrev pub as_source : {A : Type 0} → Result PersistenceError A → Result DataSourceError A
as_source (ok a) = ok a
as_source (err e) = err (state_repository e)

-- `ingest_blocks`
unfoldable pub ingest_blocks : Env → Exec BlockIngestor IngestError Flow
unfolding lift observe_block_time
ingest_blocks env = do
  last_processed ← lift (as_source env.last_processed_block)
  current_block ← lift env.current_block_number
  observe_block_time env current_block
  drain_to_head env last_processed current_block

-- The cycles of `run`: an error is logged and the next cycle starts from what the last one left. A
-- panic ends the task.
unfoldable pub cycles : List Env → BlockIngestor → BlockIngestor
cycles [] s = s
cycles (env ∷ envs) s =
    let after = ingest_blocks env s in
    elim after.0 [
      | ok _ ↦ cycles envs after.1
      | err (failed _) ↦ cycles envs after.1
      | err panicked ↦ after.1
    ]
