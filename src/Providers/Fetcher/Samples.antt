-- ===== src/Providers/Fetcher/Samples.antt =====
-- The block fetcher on a node that has a log in every block.
use argus_rs.Base.{
  insert, get, remove, ℕ, ◌+◌, ◌≡◌, refl, true, none, some, List, [], ◌∷◌, map, arith, ok, range,
}
use mathlib.Core.List.{flatten, flat_map, Permᴰ}
use mathlib.Core.List.Permᴰ
use argus_rs.Core.Chain.{
  Block, BlockData, Log, Transaction, full, legacy, from_raw_data, hashes, group_from,
}
use argus_rs.Providers.Source.{DataSource}
use argus_rs.Providers.Fetcher.{
  FetchConfig, Gather, collect, chunks, fetch_blocks_only, fetch_logs_chunked,
  fetch_blocks_concurrent, combine, sort_by_number, take_receipts,
}
use argus_rs.Providers.Fetcher.Chunks.{blocks_of, chunks_cover}
use argus_rs.Providers.Fetcher.Blocks.{IsWhole, fetch_blocks_concurrent-IsWhole}
use argus_rs.Providers.Fetcher.Logs.{chunk_answers, fetch_logs_chunked-perm}

chunks_of_ten : chunks 10 20 4 ≡ (10, 13) ∷ (14, 17) ∷ (18, 20) ∷ []
unfolding chunks
chunks_of_ten = refl

chunks_cover_example : blocks_of (chunks 10 20 4) ≡ range 10 20
chunks_cover_example = chunks_cover 10 20 4 (omega arith) (omega arith) (omega arith)

abbrev tx : ℕ → Transaction
tx n = record {
  hash = 100 + n;
  sender = 1;
  receiver = some 2;
  value = 5;
  gas_limit = 21000;
  nonce = n;
  input = [];
  block_number = some n;
  transaction_index = some 0;
  tx_type = legacy;
  gas_price = some 1;
  max_fee_per_gas = 1;
  max_priority_fee_per_gas = none;
}

abbrev log_in : ℕ → Log
log_in n = record {
  address = 7;
  topics = 9 ∷ [];
  payload = [];
  block_number = some n;
  transaction_hash = some (100 + n);
  log_index = some 0;
}

abbrev block : ℕ → Block
block n = record { number = n; timestamp = n; transactions = full (tx n ∷ []) }

abbrev node : DataSource
node = record {
  fetch_block_only = λ n. ok (block n);
  fetch_logs_for_range = λ from to. ok (map log_in (range from to));
  fetch_receipts = λ hs. ok [];
}

abbrev in_order : Gather
in_order xs = xs

abbrev cfg : FetchConfig
cfg = record { log_chunk_size = 1 }

abbrev data_of : ℕ → BlockData
data_of n = record { block = block n; receipts = []; logs = (100 + n, log_in n ∷ []) ∷ [] }

fetches_two : fetch_blocks_concurrent node in_order true 3 4 cfg ≡ ok (data_of 3 ∷ data_of 4 ∷ [])
unfolding fetch_blocks_concurrent fetch_logs_chunked fetch_blocks_only collect chunks range combine
    from_raw_data take_receipts sort_by_number hashes flat_map flatten get group_from remove insert
fetches_two = refl

fetch_blocks_concurrent-IsWhole_example :
    (range_logs : List Log) × (fetch_logs_chunked node in_order 3 4 1 ≡ ok range_logs)
    × IsWhole node 3 4 range_logs (data_of 3 ∷ data_of 4 ∷ [])
fetch_blocks_concurrent-IsWhole_example =
    fetch_blocks_concurrent-IsWhole node in_order true 3 4 cfg (data_of 3 ∷ data_of 4 ∷ [])
      (λ n b e. ground (arith, e)) fetches_two

fetch_logs_chunked-perm_example :
    (parts : List (List Log)) × (collect (chunk_answers node 3 4 1) ≡ ok parts)
    × Permᴰ (log_in 3 ∷ log_in 4 ∷ []) (flatten parts)
unfolding fetch_logs_chunked chunks collect range flatten
fetch_logs_chunked-perm_example =
    fetch_logs_chunked-perm node in_order 3 4 1 (log_in 3 ∷ log_in 4 ∷ []) (λ xs. Permᴰ.refl xs)
      (omega arith) (omega arith) refl
