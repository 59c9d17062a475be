-- ===== src/Providers/Rpc.antt =====
-- crates/argus-providers/src/rpc.rs: the data source over a node. `gather` is the order in which
-- concurrent requests complete.
pub mod TopicFilter
pub mod Screening
mod Samples
use argus_rs.Base.{
  Bool, HashMap, List, Option, Result, [], any, err, false, if◌then◌else◌, insert, is_empty, keep,
  map, nat_key, none, ok, pair_key, some, string_key, true, ℕ, ◌&&◌, ◌++◌, ◌||◌, ◌∷◌,
}
use argus_rs.Core.Chain.{Block, Log, Receipt}
use argus_rs.Core.Errors.{DataSourceError, provider, block_not_found}
use argus_rs.Core.Registry.{InterestRegistry, is_log_interesting}
use argus_rs.Providers.Source.{DataSource}
use argus_rs.Providers.Fetcher.{collect}

-- alloy's filter of `eth_getLogs`, with the first topics that are let through.
pub record Filter : Type 0 where
  pub from_block : ℕ
  pub to_block : ℕ
  pub event_signature : Option (List ℕ)

-- What alloy's provider answers; `none` is a request that failed. The last two say what the bloom
-- filter of a block's header contains.
pub record Provider : Type 0 where
  pub get_block_by_number : ℕ → Option (Option Block)
  pub get_logs : Filter → Option (List Log)
  pub get_transaction_receipt : ℕ → Option (Option Receipt)
  pub get_block_number : Option ℕ
  pub bloom_has_address : Block → ℕ → Bool
  pub bloom_has_topic : Block → ℕ → Bool

pub record EvmRpcSource : Type 0 where
  pub provider : Provider
  pub registry : InterestRegistry

-- `map_err(|e| DataSourceError::Provider(..))`
abbrev pub or_provider_error {ℓ} : {A : Type ℓ} → Option A → Result DataSourceError A
or_provider_error none = err DataSourceError.provider
or_provider_error (some a) = ok a

abbrev pub found_block : ℕ → Option (Option Block) → Result DataSourceError Block
found_block number none = err DataSourceError.provider
found_block number (some none) = err (block_not_found number)
found_block number (some (some block)) = ok block

unfoldable pub fetch_block_only : EvmRpcSource → ℕ → Result DataSourceError Block
fetch_block_only source number = found_block number (source.provider.get_block_by_number number)

unfoldable pub get_current_block_number : EvmRpcSource → Result DataSourceError ℕ
get_current_block_number source = or_provider_error source.provider.get_block_number

-- `filter_map` and `collect` into a map.
unfoldable pub present_receipts : List (ℕ × Option Receipt) → HashMap ℕ Receipt → HashMap ℕ Receipt
present_receipts [] m = m
present_receipts ((hash, none) ∷ results) m = present_receipts results m
present_receipts ((hash, some r) ∷ results) m = present_receipts results (insert m hash r)

abbrev pub request_receipt : Provider → ℕ → Result DataSourceError (ℕ × Option Receipt)
request_receipt p hash =
    or_provider_error (elim (p.get_transaction_receipt hash) as (λ x. Option (ℕ × Option Receipt)) [
      | none ↦ none
      | some receipt ↦ some (hash, receipt)
    ])

abbrev pub GatherReceipts : Type 0
GatherReceipts =
    List (Result DataSourceError (ℕ × Option Receipt))
    → List (Result DataSourceError (ℕ × Option Receipt))

unfoldable pub fetch_receipts :
    EvmRpcSource → GatherReceipts → List ℕ → Result DataSourceError (HashMap ℕ Receipt)
unfolding present_receipts
fetch_receipts source gather [] = ok []
fetch_receipts source gather (h ∷ hs) =
    elim (collect (gather (map (request_receipt source.provider) (h ∷ hs)))) [
      | err e ↦ err e
      | ok results ↦ ok (present_receipts results [])
    ]

abbrev pub is_broad : Option (List ℕ) → Bool
is_broad none = true
is_broad (some signatures) = false

unfoldable pub precise_signatures : HashMap ℕ (Option (List ℕ)) → List ℕ
precise_signatures [] = []
precise_signatures ((address, none) ∷ interests) = precise_signatures interests
precise_signatures ((address, some signatures) ∷ interests) =
    signatures ++ precise_signatures interests

abbrev pub unless_empty : List ℕ → Option (List ℕ)
unless_empty [] = none
unless_empty (t ∷ ts) = some (t ∷ ts)

-- A hash set is a list of its members.
unfoldable pub build_topic_filter : InterestRegistry → Option (List ℕ)
unfolding precise_signatures
build_topic_filter r =
    if any (λ (e : ℕ × Option (List ℕ)). is_broad e.1) r.log_interests
    then none
    else unless_empty (r.global_event_signatures ++ precise_signatures r.log_interests)

abbrev pub fetch_logs_for_block_range :
    Provider → ℕ → ℕ → Option (List ℕ) → Result DataSourceError (List Log)
fetch_logs_for_block_range p from to topic_filter =
    or_provider_error
      (p.get_logs (record { from_block = from; to_block = to; event_signature = topic_filter }))

abbrev pub has_no_interests : InterestRegistry → Bool
has_no_interests r = is_empty r.log_interests && is_empty r.global_event_signatures

abbrev pub interesting_of :
    InterestRegistry → Result DataSourceError (List Log) → Result DataSourceError (List Log)
interesting_of r (err e) = err e
interesting_of r (ok logs) = ok (keep (is_log_interesting r) logs)

unfoldable pub fetch_logs_for_range : EvmRpcSource → ℕ → ℕ → Result DataSourceError (List Log)
unfolding build_topic_filter
fetch_logs_for_range source from to =
    if has_no_interests source.registry
    then ok []
    else interesting_of source.registry
        (fetch_logs_for_block_range source.provider from to (build_topic_filter source.registry))

-- Is an address in the bloom filter, with one of its signatures in precise mode?
abbrev pub might_emit : Provider → Block → ℕ × Option (List ℕ) → Bool
might_emit p block (address, none) = p.bloom_has_address block address
might_emit p block (address, some signatures) =
    p.bloom_has_address block address && any (p.bloom_has_topic block) signatures

unfoldable pub might_contain_relevant_logs : Provider → InterestRegistry → Block → Bool
might_contain_relevant_logs p r block =
    any (p.bloom_has_topic block) r.global_event_signatures
    || any (might_emit p block) r.log_interests

abbrev pub with_block :
    Block → Result DataSourceError (List Log) → Result DataSourceError (Block × List Log)
with_block block (err e) = err e
with_block block (ok logs) = ok (block, logs)

-- The logs of a block that was found.
unfoldable pub fetch_logs_of : EvmRpcSource → ℕ → Block → Result DataSourceError (Block × List Log)
unfolding build_topic_filter might_contain_relevant_logs
fetch_logs_of source number block =
    if has_no_interests source.registry
    then ok (block, [])
    else if might_contain_relevant_logs source.provider source.registry block
    then with_block block (
        fetch_logs_for_block_range source.provider number number
          (build_topic_filter source.registry))
    else ok (block, [])

unfoldable pub fetch_block_and_logs : EvmRpcSource → ℕ → Result DataSourceError (Block × List Log)
unfolding fetch_block_only fetch_logs_of
fetch_block_and_logs source number = elim (fetch_block_only source number) [
  | err e ↦ err e
  | ok block ↦ fetch_logs_of source number block
]

-- Other errors than that of a block that is not there are wrapped.
abbrev pub core_data_error :
    Result DataSourceError (Block × List Log) → Result DataSourceError (Block × List Log)
core_data_error (ok found) = ok found
core_data_error (err (block_not_found n)) = err (block_not_found n)
core_data_error (err other) = err DataSourceError.provider

unfoldable pub fetch_block_core_data : EvmRpcSource → ℕ → Result DataSourceError (Block × List Log)
unfolding fetch_block_and_logs
fetch_block_core_data source number = core_data_error (fetch_block_and_logs source number)

-- The operations of `DataSource` that the block fetcher uses.
abbrev pub rpc_data_source : EvmRpcSource → GatherReceipts → DataSource
rpc_data_source source gather = record {
  fetch_block_only = fetch_block_only source;
  fetch_logs_for_range = fetch_logs_for_range source;
  fetch_receipts = fetch_receipts source gather;
}
