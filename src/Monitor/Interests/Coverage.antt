-- ===== src/Monitor/Interests/Coverage.antt =====
-- The registry covers an event of an address exactly if some monitor of that address asks for it.
use argus_rs.Base.{
  Bool, Bool-cases, List, Option, Option-cases, [], any, ap, arith, contains, contains-append,
  false, get, get-insert, inl, inr, nat_key, none, not, refl, some, string_key, true, ℕ, ◌&&◌, ◌==◌,
  ◌||◌, ◌∙◌, ◌∷◌, ◌≡◌,
}
use argus_rs.Core.Chain.{Log}
use argus_rs.Core.Registry.{is_calldata_interesting, InterestRegistry, is_log_interesting}
use argus_rs.Monitor.Assets.{Services, ClassifiedMonitor}
use argus_rs.Monitor.Interests.{
  InterestRegistryBuilder, default_builder, parsed_address, add_calldata_interest,
  add_global_event_signature, wanted, widened, add_address_interest, is_global, add_log_interest,
  add_monitor, add_monitors, build_registry, build_interest_registry,
}

-- Does an address's entry let an event's signature pass?
abbrev pub covers : Option (Option (List ℕ)) → ℕ → Bool
covers none signature = false
covers (some none) signature = true
covers (some (some signatures)) signature = contains signatures signature

abbrev pub wants : Option (List ℕ) → ℕ → Bool
wants none signature = true
wants (some signatures) signature = contains signatures signature

-- Is it the address, and is the signature wanted of it?
abbrev pub asks_at : Services → ClassifiedMonitor → Option ℕ → ℕ → ℕ → Bool
asks_at services cm none address signature = false
asks_at services cm (some a) address signature =
    a == address && wants (wanted services cm address) signature

-- Does a monitor ask for an event of an address? One of all addresses does not.
abbrev pub asks : Services → ℕ → ℕ → ClassifiedMonitor → Bool
asks services address signature cm =
    cm.caps.log
    && not (is_global cm)
    && asks_at services cm (parsed_address services cm) address signature

widened-covers :
    (found : Option (Option (List ℕ))) (wish : Option (List ℕ)) (signature : ℕ)
    → covers (some (widened found wish)) signature
      ≡ (covers found signature || wants wish signature)
unfolding widened
widened-covers none none signature = refl
widened-covers none (some more) signature = refl
widened-covers (some none) wish signature = refl
widened-covers (some (some signatures)) none signature = ground arith
widened-covers (some (some signatures)) (some more) signature =
    contains-append signatures more signature

abbrev covered : InterestRegistryBuilder → ℕ → ℕ → Bool
covered b address signature = covers (get b.log_interests address) signature

add_address_interest-covered :
    (services : Services) (cm : ClassifiedMonitor) (a : ℕ) (b : InterestRegistryBuilder)
    (address signature : ℕ)
    → covered (add_address_interest services cm a b) address signature
      ≡ (covered b address signature || asks_at services cm (some a) address signature)
unfolding add_address_interest
add_address_interest-covered services cm a b address signature =
    let entry = widened (get b.log_interests a) (wanted services cm a) in
    rw (get-insert b.log_interests a address entry) (elim (Bool-cases (a == address)) [
      | inr other ↦ rw other (ground arith)
      | inl same ↦ rw same (
          widened-covers (get b.log_interests a) (wanted services cm a) signature
          ∙ ap (λ x. covered b x signature || wants (wanted services cm x) signature)
              (same_address same))
    ])
  where
    same_address : (a == address) ≡ true → a ≡ address
    same_address e = ground (arith, e)

add_global-covered :
    (services : Services) (cm : ClassifiedMonitor) (b : InterestRegistryBuilder)
    → (add_global_event_signature services cm b).log_interests ≡ b.log_interests
unfolding add_global_event_signature
add_global-covered services cm b = elim (Option-cases cm.monitor.abi_name) [
  | inl unnamed ↦ rw (unnamed, add_global_event_signature) refl
  | inr (abi_name, named) ↦ elim (Option-cases (services.get_abi_by_name abi_name)) [
    | inl unknown ↦ rw (named, unknown, add_global_event_signature) refl
    | inr (abi, known) ↦ rw (named, known, add_global_event_signature) refl
  ]
]

add_log_interest-covered :
    (services : Services) (cm : ClassifiedMonitor) (b : InterestRegistryBuilder)
    (address signature : ℕ)
    → covered (add_log_interest services cm b) address signature
      ≡ (covered b address signature || asks services address signature cm)
unfolding add_log_interest add_global_event_signature
add_log_interest-covered services cm b address signature = elim (Bool-cases cm.caps.log) [
  | inr off ↦ rw off (ground arith)
  | inl on ↦ rw on (elim (Bool-cases (is_global cm)) [
    | inl global ↦ rw global (
        ap (λ m. covers (get m address) signature) (add_global-covered services cm b)
        ∙ ground arith)
    | inr bound ↦ rw bound (elim (Option-cases (parsed_address services cm)) [
      | inl unparsed ↦ rw unparsed (ground arith)
      | inr (a, parsed) ↦ rw parsed (add_address_interest-covered services cm a b address signature)
    ])
  ])
]

add_calldata_interest-covered :
    (services : Services) (cm : ClassifiedMonitor) (b : InterestRegistryBuilder)
    → (add_calldata_interest services cm b).log_interests ≡ b.log_interests
unfolding add_calldata_interest
add_calldata_interest-covered services cm b = elim (Option-cases (parsed_address services cm)) [
  | inl none_there ↦ rw (none_there, add_calldata_interest) refl
  | inr (a, there) ↦ rw (there, add_calldata_interest) (ground arith)
]

add_monitors-covered :
    (services : Services) (cms : List ClassifiedMonitor) (b : InterestRegistryBuilder)
    (address signature : ℕ)
    → covered (add_monitors services cms b) address signature
      ≡ (covered b address signature || any (asks services address signature) cms)
unfolding add_monitors add_monitor any
add_monitors-covered services [] b address signature = ground arith
add_monitors-covered services (cm ∷ cms) b address signature =
    add_monitors-covered services cms (add_monitor services cm b) address signature
    ∙ ap (λ c. c || any (asks services address signature) cms)
        (add_log_interest-covered services cm (add_calldata_interest services cm b) address
            signature
          ∙ ap (λ m. covers (get m address) signature || asks services address signature cm)
              (add_calldata_interest-covered services cm b))
    ∙ ground arith

-- In the registry built of any monitors, in whatever order, the entry of an address covers an event
-- signature exactly if one of the monitors reads logs, is not of all addresses, has that address
-- and asks for that event or for all.
pub build_interest_registry_exact :
    (services : Services) (cms : List ClassifiedMonitor) (address signature : ℕ)
    → covers (get (build_interest_registry services cms).log_interests address) signature
      ≡ any (asks services address signature) cms
unfolding build_interest_registry build_registry get
build_interest_registry_exact services cms address signature =
    add_monitors-covered services cms default_builder address signature

interesting :
    (r : InterestRegistry) (log : Log) (signature : ℕ) (rest : List ℕ)
    → log.topics ≡ signature ∷ rest
    → covers (get r.log_interests log.address) signature ≡ true
    → is_log_interesting r log ≡ true
unfolding is_log_interesting
interesting r log signature rest e c = ground (arith, e, c)

-- A log that some monitor of its address asks for is interesting to the registry.
pub asked_log_is_interesting :
    (services : Services) (cms : List ClassifiedMonitor) (log : Log) (signature : ℕ) (rest : List ℕ)
    → log.topics ≡ signature ∷ rest
    → any (asks services log.address signature) cms ≡ true
    → is_log_interesting (build_interest_registry services cms) log ≡ true
asked_log_is_interesting services cms log signature rest e asked =
    interesting (build_interest_registry services cms) log signature rest e
      (build_interest_registry_exact services cms log.address signature ∙ asked)

-- Is the address there, and the one?
abbrev pub is_at : ℕ → Option ℕ → Bool
is_at address none = false
is_at address (some a) = a == address

-- Does a monitor look at calls of an address?
abbrev pub calls : Services → ℕ → ClassifiedMonitor → Bool
calls services address cm = cm.caps.call && is_at address (parsed_address services cm)

add_global-calldata :
    (services : Services) (cm : ClassifiedMonitor) (b : InterestRegistryBuilder)
    → (add_global_event_signature services cm b).calldata_addresses ≡ b.calldata_addresses
unfolding add_global_event_signature
add_global-calldata services cm b = elim (Option-cases cm.monitor.abi_name) [
  | inl unnamed ↦ rw (unnamed, add_global_event_signature) refl
  | inr (abi_name, named) ↦ elim (Option-cases (services.get_abi_by_name abi_name)) [
    | inl unknown ↦ rw (named, unknown, add_global_event_signature) refl
    | inr (abi, known) ↦ rw (named, known, add_global_event_signature) refl
  ]
]

add_log_interest-calldata :
    (services : Services) (cm : ClassifiedMonitor) (b : InterestRegistryBuilder)
    → (add_log_interest services cm b).calldata_addresses ≡ b.calldata_addresses
unfolding add_log_interest add_address_interest
add_log_interest-calldata services cm b = elim (Bool-cases cm.caps.log) [
  | inr off ↦ rw off refl
  | inl on ↦ rw on (elim (Bool-cases (is_global cm)) [
    | inl global ↦ rw global (add_global-calldata services cm b)
    | inr bound ↦ rw bound (elim (Option-cases (parsed_address services cm)) [
      | inl unparsed ↦ rw unparsed refl
      | inr (a, parsed) ↦ rw parsed refl
    ])
  ])
]

add_calldata_interest-calldata :
    (services : Services) (cm : ClassifiedMonitor) (b : InterestRegistryBuilder) (address : ℕ)
    → contains (add_calldata_interest services cm b).calldata_addresses address
      ≡ (contains b.calldata_addresses address || calls services address cm)
unfolding add_calldata_interest contains
add_calldata_interest-calldata services cm b address =
    elim (Option-cases (parsed_address services cm)) [
      | inl unparsed ↦ rw (unparsed, add_calldata_interest) (ground arith)
      | inr (a, parsed) ↦ elim (Bool-cases cm.caps.call) [
        | inl on ↦ rw (parsed, on, add_calldata_interest) (ground arith)
        | inr off ↦ rw (parsed, off, add_calldata_interest) (ground arith)
      ]
    ]

add_monitors-calldata :
    (services : Services) (cms : List ClassifiedMonitor) (b : InterestRegistryBuilder) (address : ℕ)
    → contains (add_monitors services cms b).calldata_addresses address
      ≡ (contains b.calldata_addresses address || any (calls services address) cms)
unfolding add_monitors add_monitor any
add_monitors-calldata services [] b address = ground arith
add_monitors-calldata services (cm ∷ cms) b address =
    add_monitors-calldata services cms (add_monitor services cm b) address
    ∙ ap (λ c. c || any (calls services address) cms)
        (ap (λ l. contains l address)
            (add_log_interest-calldata services cm (add_calldata_interest services cm b))
          ∙ add_calldata_interest-calldata services cm b address)
    ∙ ground arith

-- A call of an address is interesting to the registry built of any monitors exactly if one of the
-- monitors reads calls and has that address.
pub is_calldata_interesting_exact :
    (services : Services) (cms : List ClassifiedMonitor) (address : ℕ)
    → is_calldata_interesting (build_interest_registry services cms) (some address)
      ≡ any (calls services address) cms
unfolding build_interest_registry build_registry is_calldata_interesting contains
is_calldata_interesting_exact services cms address =
    add_monitors-calldata services cms default_builder address
