-- ===== src/Providers/Rpc/TopicFilter.antt =====
-- What the topic filter of a request for logs lets through.
use argus_rs.Base.{
  ◌&&◌, not, keep-keep, is_empty, and_right, true-ne-false, ok, or_true, keep, Bool, Bool-cases,
  HashMap, List, Option, [], any, ap, contains, contains-append, false, get, if◌then◌else◌, inl,
  inr, nat_key, none, none-ne-some, pair_key, refl, some, some_inj, string_key, sym, true, ℕ, ◌++◌,
  ◌==◌, ◌||◌, ◌∙◌, ◌∷◌, ◌≡◌,
}
use argus_rs.Core.Registry.{is_globally_monitored, is_log_interesting, InterestRegistry, first_in}
use argus_rs.Providers.Rpc.{
  or_provider_error, interesting_of, has_no_interests, fetch_logs_for_block_range, EvmRpcSource,
  fetch_logs_for_range, Provider, Log, is_broad, precise_signatures, unless_empty,
  build_topic_filter,
}

abbrev broad_in : HashMap ℕ (Option (List ℕ)) → Bool
broad_in m = any (λ (e : ℕ × Option (List ℕ)). is_broad e.1) m

get-broad :
    (m : HashMap ℕ (Option (List ℕ))) (address : ℕ) → get m address ≡ some none → broad_in m ≡ true
unfolding get any
get-broad [] address found = absurd (none-ne-some found)
get-broad ((a, mode) ∷ m) address found = elim (Bool-cases (a == address)) [
  | inl same ↦
      let is_none : mode ≡ none =
        some_inj (sym (ap (λ b. if b then some mode else get m address) same) ∙ found) in
      ap (λ o. is_broad o || broad_in m) is_none
  | inr other ↦
      ap (λ b. is_broad mode || b)
        (get-broad m address (sym (ap (λ b. if b then some mode else get m address) other) ∙ found))
      ∙ or_true (is_broad mode)
]

get-precise :
    (m : HashMap ℕ (Option (List ℕ))) (address topic : ℕ) {signatures : List ℕ}
    → get m address ≡ some (some signatures)
    → contains signatures topic ≡ true
    → contains (precise_signatures m) topic ≡ true
unfolding get precise_signatures
get-precise [] address topic found h = absurd (none-ne-some found)
get-precise ((a, none) ∷ m) address topic found h = elim (Bool-cases (a == address)) [
  | inl same ↦ absurd (
      none-ne-some (some_inj (sym (ap (λ b. if b then some none else get m address) same) ∙ found)))
  | inr other ↦
      get-precise m address topic
        (sym (ap (λ b. if b then some none else get m address) other) ∙ found) h
]
get-precise ((a, some sigs) ∷ m) address topic {signatures} found h =
    contains-append sigs (precise_signatures m) topic ∙ elim (Bool-cases (a == address)) [
      | inl same ↦
          let is_it : sigs ≡ signatures = some_inj (
            some_inj
              (sym (ap (λ b. if b then some (some sigs) else get m address) same) ∙ found)) in
          ap (λ b. b || contains (precise_signatures m) topic)
            (ap (λ l. contains l topic) is_it ∙ h)
      | inr other ↦
          ap (λ b. contains sigs topic || b)
            (get-precise m address topic
              (sym (ap (λ b. if b then some (some sigs) else get m address) other) ∙ found) h)
          ∙ or_true (contains sigs topic)
    ]

-- Where there is a topic filter, no address is in broad mode, and it has all signatures.
build_topic_filter-parts :
    (r : InterestRegistry) {ts : List ℕ}
    → build_topic_filter r ≡ some ts
    → (broad_in r.log_interests ≡ false)
      × (ts ≡ r.global_event_signatures ++ precise_signatures r.log_interests)
unfolding build_topic_filter
build_topic_filter-parts r {ts} built = elim (Bool-cases (broad_in r.log_interests)) [
  | inl broad ↦
      absurd (none-ne-some (sym (ap (λ b. if b then none else unless_empty all) broad) ∙ built))
  | inr precise ↦
      (precise, whole all (sym (ap (λ b. if b then none else unless_empty all) precise) ∙ built))
]
  where
    all : List ℕ
    all = r.global_event_signatures ++ precise_signatures r.log_interests

    whole : (l : List ℕ) → unless_empty l ≡ some ts → ts ≡ l
    whole [] e = absurd (none-ne-some e)
    whole (t ∷ l) e = sym (some_inj e)

first_in-append :
    (topics globals precise : List ℕ)
    → first_in topics (globals ++ precise) ≡ (first_in topics globals || first_in topics precise)
first_in-append [] globals precise = refl
first_in-append (topic0 ∷ rest) globals precise = contains-append globals precise topic0

-- What is interesting passes the topic filter.
interesting-passes :
    (r : InterestRegistry) (l : Log) {ts : List ℕ}
    → build_topic_filter r ≡ some ts
    → is_log_interesting r l ≡ true
    → first_in l.topics ts ≡ true
unfolding is_log_interesting is_globally_monitored
interesting-passes r l {ts} built interesting =
    let (precise, whole) = build_topic_filter-parts r built in
    ap (first_in l.topics) whole
    ∙ first_in-append l.topics r.global_event_signatures (precise_signatures r.log_interests)
    ∙ by_entry (get r.log_interests l.address) refl precise interesting
  where
    in_precise :
        (topics signatures : List ℕ)
        → get r.log_interests l.address ≡ some (some signatures)
        → first_in topics signatures ≡ true
        → first_in topics (precise_signatures r.log_interests) ≡ true
    in_precise [] signatures found h = absurd (true-ne-false (sym h))
    in_precise (topic0 ∷ rest) signatures found h =
        get-precise r.log_interests l.address topic0 found h

    by_entry :
        (entry : Option (Option (List ℕ)))
        → get r.log_interests l.address ≡ entry
        → broad_in r.log_interests ≡ false
        → (elim entry [
          | none ↦ is_globally_monitored r l
          | some none ↦ true
          | some (some specific_signatures) ↦ first_in l.topics specific_signatures
        ])
          ≡ true
        → (first_in l.topics r.global_event_signatures
            || first_in l.topics (precise_signatures r.log_interests))
          ≡ true
    by_entry none e precise h =
        ap (λ b. b || first_in l.topics (precise_signatures r.log_interests))
          (and_right (not (is_empty r.global_event_signatures))
            (first_in l.topics r.global_event_signatures) h)
    by_entry (some none) e precise h =
        absurd (true-ne-false (sym (get-broad r.log_interests l.address e) ∙ precise))
    by_entry (some (some signatures)) e precise h =
        ap (λ b. first_in l.topics r.global_event_signatures || b)
          (in_precise l.topics signatures e h)
        ∙ or_true (first_in l.topics r.global_event_signatures)

-- The documented effect of a topic filter: the logs whose first topic is one of it.
abbrev pub passes_filter : Option (List ℕ) → Log → Bool
passes_filter none l = true
passes_filter (some topics) l = first_in l.topics topics

abbrev pub all_logs : Provider → ℕ → ℕ → Option (List Log)
all_logs p from to =
    p.get_logs (record { from_block = from; to_block = to; event_signature = none })

abbrev pub FiltersTopics : Provider → Type 0
FiltersTopics p =
    (from to : ℕ) (topics : List ℕ) (logs : List Log)
    → all_logs p from to ≡ some logs
    → p.get_logs (record { from_block = from; to_block = to; event_signature = some topics })
      ≡ some (keep (passes_filter (some topics)) logs)

-- What comes of a filtered request, of which the uninteresting logs are dropped.
pub filtered_logs :
    (p : Provider) (r : InterestRegistry) (from to : ℕ) {logs : List Log}
    → FiltersTopics p
    → all_logs p from to ≡ some logs
    → (answer : List Log) × (fetch_logs_for_block_range p from to (build_topic_filter r)
        ≡ ok answer)
      × (keep (is_log_interesting r) answer ≡ keep (is_log_interesting r) logs)
filtered_logs p r from to {logs} law answered = by_filter (build_topic_filter r) refl
  where
    by_filter :
        (topic_filter : Option (List ℕ))
        → build_topic_filter r ≡ topic_filter
        → (answer : List Log) × (fetch_logs_for_block_range p from to topic_filter ≡ ok answer)
          × (keep (is_log_interesting r) answer ≡ keep (is_log_interesting r) logs)
    by_filter none e = (logs, ap or_provider_error answered, refl)
    by_filter (some topics) e = (
      keep (passes_filter (some topics)) logs,
      ap or_provider_error (law from to topics logs answered),
      keep-keep (is_log_interesting r) (passes_filter (some topics)) logs
          (λ l h. interesting-passes r l e h),
    )

-- Nothing is interesting where there are no interests.
pub no_interests :
    (r : InterestRegistry) (logs : List Log)
    → has_no_interests r ≡ true
    → keep (is_log_interesting r) logs ≡ []
unfolding keep is_log_interesting is_globally_monitored get
no_interests r logs e = by_lists r.log_interests r.global_event_signatures logs e
  where
    by_lists :
        (interests : HashMap ℕ (Option (List ℕ))) (globals : List ℕ) (ls : List Log)
        → (is_empty interests && is_empty globals) ≡ true
        → keep
            (is_log_interesting
              (record r { log_interests = interests; global_event_signatures = globals }))
            ls
          ≡ []
    by_lists interests globals [] h = refl
    by_lists [] [] (l ∷ ls) h = by_lists [] [] ls h
    by_lists [] (g ∷ globals) (l ∷ ls) h = absurd (true-ne-false (sym h))
    by_lists (i ∷ interests) globals (l ∷ ls) h = absurd (true-ne-false (sym h))

-- Where the node applies a topic filter as documented and can answer for a range, its fetch returns
-- exactly the logs of the range that the registry is interested in.
pub fetch_logs_for_range_exact :
    (source : EvmRpcSource) (from to : ℕ) {logs : List Log}
    → FiltersTopics source.provider
    → all_logs source.provider from to ≡ some logs
    → fetch_logs_for_range source from to ≡ ok (keep (is_log_interesting source.registry) logs)
unfolding fetch_logs_for_range
fetch_logs_for_range_exact source from to {logs} law answered =
    elim (Bool-cases (has_no_interests source.registry)) [
      | inl idle ↦ rw idle (ap ok (sym (no_interests source.registry logs idle)))
      | inr busy ↦
          let (answer, request, same) =
            filtered_logs source.provider source.registry from to law answered in
          rw busy (ap (interesting_of source.registry) request ∙ ap ok same)
    ]
