-- ===== src/Providers/Fetcher.antt =====
-- crates/argus-providers/src/block_fetcher.rs. `gather` is the order in which concurrent requests
-- complete, which `buffer_unordered` chooses.
pub mod Chunks
pub mod Blocks
pub mod Logs
mod Samples
use argus_rs.Base.{
  ℕ, zero, suc, ◌+◌, ◌-◌, ◌*◌, min, ◌==◌, nat_key, ◌||◌, Bool, none, some, List, [], ◌∷◌, map, ltb,
  leb, u64, not, ◌&&◌, is_empty, if◌then◌else◌, HashMap, get, insert, remove, range, Result, ok,
  err,
}
use mathlib.Core.List.{flatten, flat_map}
use argus_rs.Core.Chain.{Block, BlockData, Log, Receipt, hashes, group_from, from_raw_data}
use argus_rs.Core.Errors.{DataSourceError}
use argus_rs.Providers.Source.{DataSource}

-- `FetchConfig`, less the bound on the number of requests in flight.
pub record FetchConfig : Type 0 where
  pub log_chunk_size : ℕ

-- `try_collect`, and the loop of `fetch_blocks_only`: the first error in the list ends it.
unfoldable pub collect {ℓ} :
    {A : Type ℓ} → List (Result DataSourceError A) → Result DataSourceError (List A)
collect [] = ok []
collect (err e ∷ rest) = err e
collect (ok a ∷ rest) = elim (collect rest) [ ok as' ↦ ok (a ∷ as') | err e ↦ err e ]

-- `fetch_blocks_only`
unfoldable pub fetch_blocks_only : DataSource → ℕ → ℕ → Result DataSourceError (List Block)
fetch_blocks_only source from_block to_block =
    collect (map source.fetch_block_only (range from_block to_block))

-- The sub-ranges of `from..=to`, from the `i`-th on. The fuel bounds their number.
unfoldable pub chunks_from : ℕ → ℕ → ℕ → ℕ → ℕ → List (ℕ × ℕ)
chunks_from zero from_block to_block size i = []
chunks_from (suc fuel) from_block to_block size i =
    let start = u64 (from_block + i * size) in
    let rest = chunks_from fuel from_block to_block size (i + 1) in
    if leb start to_block then (start, min (u64 (start + size - 1)) to_block) ∷ rest else []

-- Every sub-range holds a block at least, so there are at most `to - from + 1`.
unfoldable pub chunks : ℕ → ℕ → ℕ → List (ℕ × ℕ)
unfolding chunks_from
chunks from_block to_block size =
    chunks_from (suc (to_block - from_block)) from_block to_block size 0

abbrev pub Gather : Type 0
Gather = List (Result DataSourceError (List Log)) → List (Result DataSourceError (List Log))

-- `fetch_logs_chunked`
unfoldable pub fetch_logs_chunked :
    DataSource → Gather → ℕ → ℕ → ℕ → Result DataSourceError (List Log)
fetch_logs_chunked source gather from_block to_block chunk_size =
    if chunk_size == 0 || ltb (to_block - from_block) chunk_size
    then source.fetch_logs_for_range from_block to_block
    else elim (collect (
        gather (
          map (λ (c : ℕ × ℕ). source.fetch_logs_for_range c.0 c.1)
            (chunks from_block to_block chunk_size)))) [
              | ok results ↦ ok (flatten results)
              | err e ↦ err e
            ]

-- `transactions.hashes().filter_map(|h| receipts_map.remove(&h).map(|r| (h, r))).collect()`
unfoldable pub take_receipts : List ℕ → HashMap ℕ Receipt → HashMap ℕ Receipt × HashMap ℕ Receipt
take_receipts [] receipts_map = ([], receipts_map)
take_receipts (h ∷ hs) receipts_map = elim (get receipts_map h) [
  | none ↦ take_receipts hs receipts_map
  | some r ↦
      let (taken, left) = take_receipts hs (remove receipts_map h) in (insert taken h r, left)
]

-- Combines the blocks with their logs and receipts, each taken out of its map.
unfoldable pub combine : List Block → HashMap ℕ (List Log) → HashMap ℕ Receipt → List BlockData
combine [] logs_by_block receipts_map = []
combine (block ∷ blocks) logs_by_block receipts_map =
    let logs : List Log = elim (get logs_by_block block.number) [ none ↦ [] | some ls ↦ ls ] in
    let taken = take_receipts (hashes block.transactions) receipts_map in
    from_raw_data block taken.0 logs ∷ combine blocks (remove logs_by_block block.number) taken.1

-- `sort_by_key`, which is stable, as an insertion sort.
insert_sorted : BlockData → List BlockData → List BlockData
insert_sorted x [] = x ∷ []
insert_sorted x (y ∷ ys) =
    let rest = insert_sorted x ys in
    if leb x.block.number y.block.number then x ∷ y ∷ ys else y ∷ rest

unfoldable pub sort_by_number : List BlockData → List BlockData
unfolding insert_sorted
sort_by_number [] = []
sort_by_number (x ∷ xs) = insert_sorted x (sort_by_number xs)

-- `fetch_blocks_concurrent`: the error of the log fetch is reported before that of the blocks.
unfoldable pub fetch_blocks_concurrent :
    DataSource → Gather → Bool → ℕ → ℕ → FetchConfig → Result DataSourceError (List BlockData)
fetch_blocks_concurrent source gather needs_receipts from_block to_block cfg =
    elim (fetch_logs_chunked source gather from_block to_block cfg.log_chunk_size) [
      | err e ↦ err e
      | ok range_logs ↦ elim (fetch_blocks_only source from_block to_block) [
        | err e ↦ err e
        | ok blocks ↦
            let logs_by_block = group_from (λ (l : Log). l.block_number) range_logs [] in
            let all_tx_hashes = flat_map (λ (b : Block). hashes b.transactions) blocks in
            let finish = λ (receipts_map : HashMap ℕ Receipt).
              ok (sort_by_number (combine blocks logs_by_block receipts_map)) in
            if needs_receipts && not (is_empty all_tx_hashes)
            then elim (source.fetch_receipts all_tx_hashes) [
              | ok receipts_map ↦ finish receipts_map
              | err e ↦ err e
            ]
            else finish []
      ]
    ]
