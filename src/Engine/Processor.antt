-- ===== src/Engine/Processor.antt =====
-- crates/argus-engine/src/block_processor.rs. What the surroundings do is `Env`: the snapshot that
-- each batch loads, whether its blocking task returns, the sends that find the receiver alive and
-- the writes of the mark that succeed, each by its position.
pub mod Correlation
pub mod Sends
pub mod Sending
pub mod Batches
pub mod Marks
pub mod Restart
mod Samples
use argus_rs.Base.{
  ℕ, ◌+◌, Bool, false, not, ◌||◌, Option, none, some, List, [], ◌∷◌, ◌++◌, map, HashMap, get,
  remove, contains, nat_key, is_empty, length, leb, if◌then◌else◌,
}
use argus_rs.Core.Chain.{
  Log, Receipt, Transaction, full, hashes_only, BlockData, CorrelatedBlockItem, CorrelatedBlockData,
}
use argus_rs.Core.Chain.Grouping.{or_empty}
use argus_rs.Core.Registry.{InterestRegistry}
use argus_rs.Monitor.Assets.{MonitorAssetState}

-- The fast path: every transaction becomes an item, and takes its logs and its receipt along.
unfoldable pub correlate_all :
    List Transaction → HashMap ℕ (List Log) → HashMap ℕ Receipt → List CorrelatedBlockItem
correlate_all [] logs receipts = []
correlate_all (tx ∷ txs) logs receipts =
    record { transaction = tx; logs = or_empty (get logs tx.hash); receipt = get receipts tx.hash }
    ∷ correlate_all txs (remove logs tx.hash) (remove receipts tx.hash)

-- `to_addr.is_some() && calldata_addresses.contains(&to_addr.unwrap())`
unfoldable pub calls_watched : InterestRegistry → Option ℕ → Bool
calls_watched registry none = false
calls_watched registry (some addr) = contains registry.calldata_addresses addr

unfoldable pub is_potentially_matchable : InterestRegistry → List Log → Transaction → Bool
unfolding calls_watched
is_potentially_matchable registry logs tx =
    not (is_empty logs) || calls_watched registry tx.receiver

-- The optimized path: the other transactions are skipped, their receipts stay in the table.
unfoldable pub correlate_matchable :
    InterestRegistry
    → List Transaction
    → HashMap ℕ (List Log)
    → HashMap ℕ Receipt
    → List CorrelatedBlockItem
unfolding is_potentially_matchable
correlate_matchable registry [] logs receipts = []
correlate_matchable registry (tx ∷ txs) logs receipts =
    let own = or_empty (get logs tx.hash) in
    let taken = correlate_matchable registry txs (remove logs tx.hash) (remove receipts tx.hash) in
    let skipped = correlate_matchable registry txs (remove logs tx.hash) receipts in
    if is_potentially_matchable registry own tx
    then record { transaction = tx; logs = own; receipt = get receipts tx.hash } ∷ taken
    else skipped

unfoldable pub process_block : MonitorAssetState → BlockData → CorrelatedBlockData
unfolding correlate_all correlate_matchable
process_block snapshot d = record {
  block_number = d.block.number;
  items = elim d.block.transactions [
    | hashes_only hs ↦ []
    | full txs ↦
        if snapshot.has_transaction_only_monitors
        then correlate_all txs d.logs d.receipts
        else correlate_matchable snapshot.interest_registry txs d.logs d.receipts
  ];
}

pub record Env : Type 0 where
  pub batch_size : ℕ
  pub snapshot : ℕ → MonitorAssetState
  pub is_joined : ℕ → Bool
  pub is_delivered : ℕ → Bool
  pub is_persisted : ℕ → Bool

-- The service, with its buffer, what it sent, the mark of its network in the database, and the
-- counts of batches and sends.
pub record BlockProcessor : Type 0 where
  pub block_buffer : List BlockData
  pub dispatched : List CorrelatedBlockData
  pub last_processed_block : Option ℕ
  pub batches : ℕ
  pub sends : ℕ

-- `process_blocks_batch`: the task on the blocking pool fails as a whole or not at all.
unfoldable pub process_blocks_batch :
    Env → List BlockData → BlockProcessor → Option (List CorrelatedBlockData)
process_blocks_batch env blocks s =
    if is_empty blocks
    then some []
    else if env.is_joined s.batches
    then some (map (process_block (env.snapshot s.batches)) blocks)
    else none

-- The loop that sends a batch: `none` is the early return on a closed channel.
unfoldable pub send_all :
    Env → List CorrelatedBlockData → Option ℕ → BlockProcessor → Option (Option ℕ) × BlockProcessor
send_all env [] last_processed s = (some last_processed, s)
send_all env (c ∷ cs) last_processed s =
    let sent = record s { sends = s.sends + 1; dispatched = s.dispatched ++ c ∷ [] } in
    let rest = send_all env cs (some c.block_number) sent in
    if env.is_delivered s.sends then rest else (none, record s { sends = s.sends + 1 })

-- `set_last_processed_block`, whose failure is only logged.
unfoldable pub record_mark : Env → Option (Option ℕ) × BlockProcessor → BlockProcessor
record_mark env (none, s) = s
record_mark env (some none, s) = s
record_mark env (some (some n), s) =
    if env.is_persisted s.batches then record s { last_processed_block = some n } else s

-- `process_and_dispatch`; the count of batches moves on behind it.
unfoldable pub process_and_dispatch : Env → List BlockData → BlockProcessor → BlockProcessor
unfolding process_blocks_batch send_all record_mark
process_and_dispatch env blocks s =
    let after : BlockProcessor = elim (process_blocks_batch env blocks s) [
      | none ↦ s
      | some correlated ↦ record_mark env (send_all env correlated none s)
    ] in
    record after { batches = after.batches + 1 }

-- What `run` does with a received block.
unfoldable pub receive : Env → BlockData → BlockProcessor → BlockProcessor
receive env d s =
    let buffered = s.block_buffer ++ d ∷ [] in
    if leb env.batch_size (length buffered)
    then process_and_dispatch env buffered (record s { block_buffer = [] })
    else record s { block_buffer = buffered }

-- `run`: the blocks received until the cancellation, then the rest of the buffer.
unfoldable pub run_service : Env → List BlockData → BlockProcessor → BlockProcessor
unfolding receive
run_service env [] s =
    if is_empty s.block_buffer
    then s
    else process_and_dispatch env s.block_buffer (record s { block_buffer = [] })
run_service env (d ∷ ds) s = run_service env ds (receive env d s)
