-- ===== src/Engine/Ingestor/Samples.antt =====
-- Cycles of the ingestor on a node whose blocks are empty.
use argus_rs.Base.{
  ℕ, ◌≡◌, refl, true, false, none, some, List, [], ◌∷◌, map, arith, ok, err, range, get, remove,
  run, Bool-cases, inl, inr, ◌==◌, nat_key, ltb, ◌||◌, ◌-◌, ◌≢◌,
}
use mathlib.Core.List.{flatten, flat_map}
use argus_rs.Core.Chain.{Block, BlockData, Log, full, from_raw_data, hashes, group_from}
use argus_rs.Core.Errors.{channel_closed}
use argus_rs.Providers.Source.{DataSource}
use argus_rs.Providers.Fetcher.{
  FetchConfig, Gather, collect, chunks, fetch_blocks_only, fetch_logs_chunked,
  fetch_blocks_concurrent, combine, sort_by_number, take_receipts,
}
use argus_rs.Providers.Fetcher.Blocks.{collect_all_ok, number_of}
use argus_rs.Engine.Polling.{calibrator, observe}
use argus_rs.Engine.Ingestor.{
  Env, BlockIngestor, ingest_blocks, cycles, drain_to_head, drain, failed, finished, exhausted,
  send_batch,
}
use argus_rs.Engine.Ingestor.Sent.{Progress, Sent}
use argus_rs.Engine.Ingestor.Cycles.{
  first_block, span, ingest_blocks-Progress, IsContiguous, cycles-IsContiguous, AreFaithful,
}
use argus_rs.Engine.Ingestor.Termination.{ingest_blocks_terminates}
use argus_rs.Engine.Ingestor.Liveness.{IsCalm, ingest_blocks_reaches_head}

abbrev block : ℕ → Block
block n = record { number = n; timestamp = 0; transactions = full [] }

abbrev node : DataSource
node = record {
  fetch_block_only = λ n. ok (block n);
  fetch_logs_for_range = λ from to. ok [];
  fetch_receipts = λ hs. ok [];
}

abbrev in_order : Gather
in_order xs = xs

-- A node at block 23, after block 9 was persisted.
abbrev env : Env
env = record {
  source = node;
  gather = in_order;
  needs_receipts = false;
  last_processed_block = ok (some 9);
  current_block_number = ok 23;
  now = 0;
  is_cancelled = λ k. false;
  is_delivered = λ k. true;
}

-- The same, where the receiver goes away after two blocks.
abbrev closing_env : Env
closing_env = record env { is_delivered = λ k. ltb k 2 }

abbrev start : BlockIngestor
start = record {
  config = record {
    network_id = "testnet";
    block_chunk_size = 1;
    log_chunk_size = 0;
    concurrency = 1;
    polling_interval_ms = 1000;
    expected_block_time_ms = none;
    confirmation_blocks = 10;
  };
  next_block = 0;
  calibrator = calibrator none;
  latest_processed_block = 0;
  latest_processed_block_timestamp_secs = 0;
  sent = [];
  polls = 0;
  sends = 0;
}

closing_env_sends_two :
    ((ingest_blocks closing_env start).0 ≡ err (failed channel_closed))
    × (map number_of (ingest_blocks closing_env start).1.sent ≡ 10 ∷ 11 ∷ [])
    × ((ingest_blocks closing_env start).1.next_block ≡ 12)
unfolding ingest_blocks drain_to_head drain send_batch observe fetch_blocks_concurrent
    fetch_logs_chunked fetch_blocks_only collect range combine from_raw_data take_receipts
    sort_by_number hashes flat_map get group_from remove
closing_env_sends_two = (refl, refl, refl)

numbered : (n : ℕ) (b : Block) → node.fetch_block_only n ≡ ok b → b.number ≡ n
numbered n b e = ground (arith, e)

ingest_blocks-Progress_example :
    Progress
      (first_block (some 9) 23 start)
      (span (some 9) 23 start)
      start
      (ingest_blocks closing_env start)
ingest_blocks-Progress_example =
    ingest_blocks-Progress closing_env (some 9) 23 start refl refl numbered (omega arith)

faithful : AreFaithful 10 (closing_env ∷ env ∷ []) start
unfolding ingest_blocks drain_to_head drain send_batch observe fetch_blocks_concurrent
    fetch_logs_chunked fetch_blocks_only collect range combine from_raw_data take_receipts
    sort_by_number hashes flat_map get group_from remove
faithful = (
  λ last e. (9, cc, omega arith, omega arith, omega arith),
  (numbered, λ current e. ground (arith, e)),
  (
    λ last e. (9, cc, omega arith, omega arith, omega arith),
    (numbered, λ current e. ground (arith, e)),
    tt,
  ),
)

cycles-IsContiguous_example : IsContiguous 10 (cycles (closing_env ∷ env ∷ []) start)
unfolding run
cycles-IsContiguous_example =
    cycles-IsContiguous 10 (closing_env ∷ env ∷ []) start
      (record { numbers = refl; mark = inl (refl, omega arith) }) faithful

logs_answered :
    (from to size : ℕ)
    → (logs : List Log) × (fetch_logs_chunked node in_order from to size ≡ ok logs)
unfolding fetch_logs_chunked
logs_answered from to size = elim (Bool-cases (size == 0 || ltb (to - from) size)) [
  | inl whole ↦ ([], rw whole)
  | inr cut ↦ (
    flatten (map (λ (c : ℕ × ℕ). []) (chunks from to size)),
    rw (cut, collect_all_ok (λ (c : ℕ × ℕ). ok []) (λ c. []) (chunks from to size) (λ c. refl)),
  )
]

blocks_answered : (from to : ℕ) → fetch_blocks_only node from to ≡ ok (map block (range from to))
unfolding fetch_blocks_only
blocks_answered from to = collect_all_ok (λ n. ok (block n)) block (range from to) (λ n. refl)

range_answered_with :
    (from to : ℕ) (cfg : FetchConfig) (logs : List Log)
    → fetch_logs_chunked node in_order from to cfg.log_chunk_size ≡ ok logs
    → (batch : List BlockData) × (fetch_blocks_concurrent node in_order false from to cfg
        ≡ ok batch)
unfolding fetch_blocks_concurrent
range_answered_with from to cfg logs got = (
  sort_by_number
      (combine (map block (range from to)) (group_from (λ (l : Log). l.block_number) logs []) []),
  rw (got, blocks_answered from to, fetch_blocks_concurrent) refl,
)

range_answered :
    (from to : ℕ) (cfg : FetchConfig)
    → (batch : List BlockData) × (fetch_blocks_concurrent node in_order false from to cfg
        ≡ ok batch)
range_answered from to cfg =
    let (logs, got) = logs_answered from to cfg.log_chunk_size in
    range_answered_with from to cfg logs got

calm : IsCalm env
calm = record { goes_on = λ k. refl; delivers = λ k. refl; answers = range_answered }

ingest_blocks_reaches_head_example :
    ((ingest_blocks env start).0 ≡ ok finished)
    × Sent
        (first_block (some 9) 23 start)
        (span (some 9) 23 start)
        start
        (ingest_blocks env start).1
unfolding observe
ingest_blocks_reaches_head_example =
    ingest_blocks_reaches_head env (some 9) 23 start (calibrator none) calm refl refl refl numbered
      (omega arith)

ingest_blocks_terminates_example : (ingest_blocks closing_env start).0 ≢ ok exhausted
ingest_blocks_terminates_example =
    ingest_blocks_terminates closing_env start (λ current e. ground (arith, e))
