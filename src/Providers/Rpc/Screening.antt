-- ===== src/Providers/Rpc/Screening.antt =====
-- What the topic filter and the bloom filter screen out.
use argus_rs.Base.{
  All, ◌&&◌, not, is_empty, and_right, true-ne-false, ok, or_true, keep, Bool, Bool-cases, HashMap,
  List, Option, [], any, ap, contains, false, get, if◌then◌else◌, inl, inr, nat_key, none,
  none-ne-some, pair_key, refl, some, some_inj, string_key, sym, true, ℕ, ◌==◌, ◌||◌, ◌∙◌, ◌∷◌, ◌≡◌,
}
use argus_rs.Core.Registry.{is_globally_monitored, is_log_interesting, InterestRegistry, first_in}
use argus_rs.Providers.Rpc.{
  with_block, fetch_block_only, might_emit, fetch_logs_of, might_contain_relevant_logs,
  fetch_block_and_logs, Block, has_no_interests, EvmRpcSource, Provider, Log,
}
use argus_rs.Providers.Rpc.TopicFilter.{all_logs, FiltersTopics, filtered_logs, no_interests}

-- Bloom filters have no false negatives: that of a block has the address and the topics of its logs.
abbrev pub BloomCovers : Provider → ℕ → Block → Type 0
BloomCovers p number block =
    (logs : List Log)
    → all_logs p number number ≡ some logs
    → All
        (λ (l : Log).
          (p.bloom_has_address block l.address ≡ true)
          × All (λ topic. p.bloom_has_topic block topic ≡ true) l.topics)
        logs

any-contains :
    (test : ℕ → Bool) (signatures : List ℕ) (topic : ℕ)
    → contains signatures topic ≡ true
    → test topic ≡ true
    → any test signatures ≡ true
unfolding any contains
any-contains test [] topic found h = absurd (true-ne-false (sym found))
any-contains test (s ∷ signatures) topic found h = elim (Bool-cases (s == topic)) [
  | inl same ↦ ap (λ b. b || any test signatures) (ap test ((nat_key.decides s topic).0 same) ∙ h)
  | inr other ↦
      ap (λ b. test s || b)
        (any-contains test signatures topic
          (sym (ap (λ b. b || contains signatures topic) other) ∙ found) h)
      ∙ or_true (test s)
]

any-first_in :
    (test : ℕ → Bool) (topics signatures : List ℕ)
    → first_in topics signatures ≡ true
    → All (λ topic. test topic ≡ true) topics
    → any test signatures ≡ true
any-first_in test [] signatures found h = absurd (true-ne-false (sym found))
any-first_in test (topic0 ∷ rest) signatures found h = any-contains test signatures topic0 found h.0

any-get :
    (test : ℕ × Option (List ℕ) → Bool) (m : HashMap ℕ (Option (List ℕ))) (address : ℕ)
    {mode : Option (List ℕ)}
    → get m address ≡ some mode
    → test (address, mode) ≡ true
    → any test m ≡ true
unfolding any get
any-get test [] address found h = absurd (none-ne-some found)
any-get test ((a, mode') ∷ m) address {mode} found h = elim (Bool-cases (a == address)) [
  | inl same ↦
      let is_mode : mode' ≡ mode =
        some_inj (sym (ap (λ b. if b then some mode' else get m address) same) ∙ found) in
      ap (λ b. b || any test m)
        (ap (λ x. test (x, mode')) ((nat_key.decides a address).0 same)
          ∙ ap (λ x. test (address, x)) is_mode
          ∙ h)
  | inr other ↦
      ap (λ b. test (a, mode') || b)
        (any-get test m address
          (sym (ap (λ b. if b then some mode' else get m address) other) ∙ found) h)
      ∙ or_true (test (a, mode'))
]

-- A block with an interesting log passes its bloom filter.
interesting-might :
    (p : Provider) (r : InterestRegistry) (block : Block) (l : Log)
    → p.bloom_has_address block l.address ≡ true
    → All (λ topic. p.bloom_has_topic block topic ≡ true) l.topics
    → is_log_interesting r l ≡ true
    → might_contain_relevant_logs p r block ≡ true
unfolding is_log_interesting is_globally_monitored might_contain_relevant_logs
interesting-might p r block l has_address has_topics interesting =
    by_entry (get r.log_interests l.address) refl interesting
  where
    globally : Bool
    globally = any (p.bloom_has_topic block) r.global_event_signatures

    by_address :
        any (might_emit p block) r.log_interests ≡ true
        → (globally || any (might_emit p block) r.log_interests) ≡ true
    by_address e = ap (λ b. globally || b) e ∙ or_true globally

    by_entry :
        (entry : Option (Option (List ℕ)))
        → get r.log_interests l.address ≡ entry
        → (elim entry [
          | none ↦ is_globally_monitored r l
          | some none ↦ true
          | some (some specific_signatures) ↦ first_in l.topics specific_signatures
        ])
          ≡ true
        → (globally || any (might_emit p block) r.log_interests) ≡ true
    by_entry none e h =
        ap (λ b. b || any (might_emit p block) r.log_interests)
          (any-first_in (p.bloom_has_topic block) l.topics r.global_event_signatures
            (and_right (not (is_empty r.global_event_signatures))
              (first_in l.topics r.global_event_signatures) h)
            has_topics)
    by_entry (some none) e h =
        by_address (any-get (might_emit p block) r.log_interests l.address e has_address)
    by_entry (some (some signatures)) e h = by_address (
        any-get (might_emit p block) r.log_interests l.address e (
          ap (λ b. b && any (p.bloom_has_topic block) signatures) has_address
          ∙ any-first_in (p.bloom_has_topic block) l.topics signatures h has_topics))

screened_out :
    (p : Provider) (r : InterestRegistry) (block : Block) (logs : List Log)
    → might_contain_relevant_logs p r block ≡ false
    → All
        (λ (l : Log).
          (p.bloom_has_address block l.address ≡ true)
          × All (λ topic. p.bloom_has_topic block topic ≡ true) l.topics)
        logs
    → keep (is_log_interesting r) logs ≡ []
unfolding keep
screened_out p r block [] missed h = refl
screened_out p r block (l ∷ logs) missed h = elim (Bool-cases (is_log_interesting r l)) [
  | inl interesting ↦
      absurd (true-ne-false (sym (interesting-might p r block l h.0.0 h.0.1 interesting) ∙ missed))
  | inr dull ↦ rw dull (screened_out p r block logs missed h.1)
]

-- Where the node has the block, answers for its logs and applies a topic filter as documented, and the
-- block's bloom filter has no false negatives: the fetch of the block returns it with logs of which
-- exactly those are interesting that are interesting in the block, also where the bloom filter makes it
-- skip the request for logs.
pub fetch_block_and_logs_keeps_interesting :
    (source : EvmRpcSource) (number : ℕ) (block : Block) {logs : List Log}
    → FiltersTopics source.provider
    → BloomCovers source.provider number block
    → source.provider.get_block_by_number number ≡ some (some block)
    → all_logs source.provider number number ≡ some logs
    → (answer : List Log) × (fetch_block_and_logs source number ≡ ok (block, answer))
      × (keep (is_log_interesting source.registry) answer
          ≡ keep (is_log_interesting source.registry) logs)
unfolding fetch_block_and_logs fetch_logs_of fetch_block_only keep
fetch_block_and_logs_keeps_interesting source number block {logs} law covers found answered =
    let (answer, of_block, same) = of_found in
    (answer, rw (found, fetch_block_and_logs) of_block, same)
  where
    of_found :
        (answer : List Log) × (fetch_logs_of source number block ≡ ok (block, answer))
        × (keep (is_log_interesting source.registry) answer
            ≡ keep (is_log_interesting source.registry) logs)
    of_found = elim (Bool-cases (has_no_interests source.registry)) [
      | inl idle ↦ ([], rw idle refl, sym (no_interests source.registry logs idle))
      | inr busy ↦
          elim (Bool-cases (might_contain_relevant_logs source.provider source.registry block)) [
            | inl hit ↦
                let (answer, request, same) =
                  filtered_logs source.provider source.registry number number law answered in
                (answer, rw (busy, hit) (ap (with_block block) request), same)
            | inr miss ↦ (
              [],
              rw (busy, miss) refl,
              sym (
                  screened_out source.provider source.registry block logs miss
                    (covers logs answered)),
            )
          ]
    ]
