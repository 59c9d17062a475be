-- ===== src/Providers/Rpc/Samples.antt =====
-- A node with two logs in each of its blocks, one of which is interesting.
use argus_rs.Base.{
  All, List, Option, [], any, ap, err, if◌then◌else◌, keep, nat_key, none, ok, pair_key, refl, some,
  some_inj, string_key, true, ℕ, ◌==◌, ◌||◌, ◌∷◌, ◌≡◌,
}
use mathlib.Core.Path.{subst}
use argus_rs.Core.Chain.{Block, Log, full}
use argus_rs.Core.Registry.{InterestRegistry, is_log_interesting}
use argus_rs.Core.Errors.{block_not_found}
use argus_rs.Providers.Rpc.{
  Provider, EvmRpcSource, fetch_logs_for_range, fetch_block_and_logs, build_topic_filter,
  fetch_block_core_data,
}
use argus_rs.Providers.Rpc.Screening.{BloomCovers, fetch_block_and_logs_keeps_interesting}
use argus_rs.Providers.Rpc.TopicFilter.{FiltersTopics, passes_filter, fetch_logs_for_range_exact}

abbrev log_of : ℕ → ℕ → Log
log_of address signature = record {
  address = address;
  topics = signature ∷ [];
  payload = [];
  block_number = some 3;
  transaction_hash = some 101;
  log_index = some 0;
}

abbrev both : List Log
both = log_of 7 11 ∷ log_of 8 12 ∷ []

abbrev answer : Option (List ℕ) → Option (List Log)
answer none = some both
answer (some topics) = some (keep (passes_filter (some topics)) both)

abbrev block : Block
block = record { number = 3; timestamp = 30; transactions = full [] }

abbrev node : Provider
node = record {
  get_block_by_number = λ n. if n == 3 then some (some block) else some none;
  get_logs = λ f. answer f.event_signature;
  get_transaction_receipt = λ h. none;
  get_block_number = some 3;
  bloom_has_address = λ b a. a == 7 || a == 8;
  bloom_has_topic = λ b t. t == 11 || t == 12;
}

abbrev registry : InterestRegistry
registry = record {
  log_interests = (7, some (11 ∷ [])) ∷ [];
  calldata_addresses = [];
  global_event_signatures = [];
}

abbrev source : EvmRpcSource
source = record { provider = node; registry = registry }

topics_are_asked_for : build_topic_filter registry ≡ some (11 ∷ [])
unfolding build_topic_filter any
topics_are_asked_for = refl

missing_block : fetch_block_core_data source 4 ≡ err (block_not_found 4)
unfolding fetch_block_core_data
missing_block = refl

node-FiltersTopics : FiltersTopics node
node-FiltersTopics from to topics logs e =
    ap (λ l. some (keep (passes_filter (some topics)) l)) (some_inj e)

node-BloomCovers : BloomCovers node 3 block
node-BloomCovers logs e =
    subst
      (λ ls.
        All
          (λ (l : Log).
            (node.bloom_has_address block l.address ≡ true)
            × All (λ topic. node.bloom_has_topic block topic ≡ true) l.topics)
          ls)
      (some_inj e) ((refl, (refl, tt)), ((refl, (refl, tt)), tt))

fetch_logs_for_range_exact_example :
    fetch_logs_for_range source 3 3 ≡ ok (keep (is_log_interesting registry) both)
fetch_logs_for_range_exact_example = fetch_logs_for_range_exact source 3 3 node-FiltersTopics refl

fetch_block_and_logs_keeps_interesting_example :
    (returned : List Log) × (fetch_block_and_logs source 3 ≡ ok (block, returned))
    × (keep (is_log_interesting registry) returned ≡ keep (is_log_interesting registry) both)
fetch_block_and_logs_keeps_interesting_example =
    fetch_block_and_logs_keeps_interesting source 3 block node-FiltersTopics node-BloomCovers refl
      refl
