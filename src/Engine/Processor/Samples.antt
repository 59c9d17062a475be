-- ===== src/Engine/Processor/Samples.antt =====
-- The block processor on small batches.
use argus_rs.Engine.Ingestor.{state_next}
use argus_rs.Engine.Processor.Restart.{restart_leaves_no_gap}
use argus_rs.Engine.Processor.Correlation.{
  HasDistinctHashes, correlate_matchable_prunes, correlate_all_complete, items_of,
  is_matchable_item,
}
use argus_rs.Engine.Processor.Sends.{dispatched_numbers, correlated_number, StaysClosed}
use argus_rs.Engine.Processor.Marks.{run_service_keeps_mark_behind, start_service, Caught}
use argus_rs.Engine.Processor.{
  process_block, record_mark, send_all, process_blocks_batch, process_and_dispatch, calls_watched,
  receive, is_potentially_matchable, run_service, correlate_matchable, correlate_all, Env,
}
use argus_rs.Core.Registry.{InterestRegistry}
use argus_rs.Core.Chain.{CorrelatedBlockItem, legacy, full, Transaction, Log, BlockData}
use argus_rs.Base.{
  ◌+◌, ◌≤◌, ◌≤◌, HashMap, List, Option, [], arith, contains, false, get, keep, ltb, map, nat_key,
  none, not, refl, remove, run, some, string_key, true, ℕ, ◌==◌, ◌∷◌, ◌≡◌,
}

abbrev tx : ℕ → Option ℕ → Transaction
tx h to = record {
  hash = h;
  sender = 1;
  receiver = to;
  value = 5;
  gas_limit = 21000;
  nonce = 0;
  input = [];
  block_number = some 3;
  transaction_index = none;
  tx_type = legacy;
  gas_price = some 1;
  max_fee_per_gas = 1;
  max_priority_fee_per_gas = none;
}

abbrev log : Log
log = record {
  address = 7;
  topics = 9 ∷ [];
  payload = [];
  block_number = some 3;
  transaction_hash = some 101;
  log_index = some 0;
}

abbrev registry : InterestRegistry
registry = record { log_interests = []; calldata_addresses = 8 ∷ []; global_event_signatures = [] }

abbrev txs : List Transaction
txs = tx 100 none ∷ tx 101 (some 2) ∷ tx 102 (some 8) ∷ tx 103 (some 2) ∷ []

abbrev logs : HashMap ℕ (List Log)
logs = (101, log ∷ []) ∷ []

distinct : HasDistinctHashes txs
distinct = ((refl, (refl, (refl, tt))), ((refl, (refl, tt)), ((refl, tt), (tt, tt))))

correlate_all_complete_example : correlate_all txs logs [] ≡ items_of logs [] txs
correlate_all_complete_example = correlate_all_complete txs logs [] distinct

correlate_matchable_prunes_example :
    correlate_matchable registry txs logs []
    ≡ keep (is_matchable_item registry) (correlate_all txs logs [])
correlate_matchable_prunes_example = correlate_matchable_prunes registry txs logs [] distinct

keeps_two :
    map (λ (i : CorrelatedBlockItem). i.transaction.hash) (correlate_matchable registry txs logs [])
    ≡ 101 ∷ 102 ∷ []
unfolding correlate_matchable is_potentially_matchable calls_watched get remove contains
keeps_two = refl

-- Batches of two, on a channel that closes after three sends.
abbrev env : Env
env = record {
  batch_size = 2;
  snapshot = λ i. record {
    monitors_by_id = [];
    tx_aware_monitors = [];
    log_aware_monitors = [];
    interest_registry = registry;
    requires_receipts = false;
    has_transaction_only_monitors = false;
  };
  is_joined = λ i. true;
  is_delivered = λ i. ltb i 3;
  is_persisted = λ i. true;
}

abbrev data_of : ℕ → BlockData
data_of n = record {
  block = record { number = n; timestamp = n; transactions = full [] };
  receipts = [];
  logs = [];
}

stays_closed : StaysClosed env
stays_closed i closed = ground (arith, closed)

run_service_keeps_mark_behind_example :
    Caught env 10 5
      (some 9)
      (run_service env (map data_of (10 ∷ 11 ∷ 12 ∷ 13 ∷ 14 ∷ [])) (start_service (some 9)))
unfolding run
run_service_keeps_mark_behind_example =
    run_service_keeps_mark_behind env 10 5 (some 9) (map data_of (10 ∷ 11 ∷ 12 ∷ 13 ∷ 14 ∷ []))
      stays_closed (λ i. refl) refl

-- The third block was sent, but its batch ended early: the mark stays at the second.
mark_stays_behind :
    ((run_service env
        (map data_of (10 ∷ 11 ∷ 12 ∷ 13 ∷ []))
        (start_service (some 9))).last_processed_block
      ≡ some 11)
    × (map correlated_number
          (run_service env
            (map data_of (10 ∷ 11 ∷ 12 ∷ 13 ∷ []))
            (start_service (some 9))).dispatched
        ≡ 10 ∷ 11 ∷ 12 ∷ [])
unfolding run_service receive process_and_dispatch process_blocks_batch send_all record_mark
    process_block
mark_stays_behind = (refl, refl)

-- A batch whose blocking task fails is dropped, and a later batch moves the mark past its blocks.
abbrev failing_env : Env
failing_env = record env { is_joined = λ i. not (i == 0); is_delivered = λ i. true }

failed_batch_is_skipped :
    ((run_service failing_env
        (map data_of (10 ∷ 11 ∷ 12 ∷ 13 ∷ []))
        (start_service (some 9))).last_processed_block
      ≡ some 13)
    × (map correlated_number
          (run_service failing_env
            (map data_of (10 ∷ 11 ∷ 12 ∷ 13 ∷ []))
            (start_service (some 9))).dispatched
        ≡ 12 ∷ 13 ∷ [])
unfolding run_service receive process_and_dispatch process_blocks_batch send_all record_mark
    process_block
failed_batch_is_skipped = (refl, refl)

restart_leaves_no_gap_example :
    (count : ℕ) × (dispatched_numbers
        (run_service env (map data_of (10 ∷ 11 ∷ 12 ∷ 13 ∷ [])) (start_service (some 9)))
      ≡ run 10 count)
    × (10
        ≤ state_next
            (run_service env
              (map data_of (10 ∷ 11 ∷ 12 ∷ 13 ∷ []))
              (start_service (some 9))).last_processed_block
            50)
    × (state_next
          (run_service env
            (map data_of (10 ∷ 11 ∷ 12 ∷ 13 ∷ []))
            (start_service (some 9))).last_processed_block
          50
        ≤ 10 + count)
unfolding run
restart_leaves_no_gap_example =
    restart_leaves_no_gap env 9 4 50 (map data_of (10 ∷ 11 ∷ 12 ∷ 13 ∷ [])) stays_closed (λ i. refl)
      refl (omega arith)
