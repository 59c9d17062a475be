-- ===== src/Abi/Service/Peeking.antt =====
-- The event that a log is peeked at by is the one that it decodes to.
use argus_rs.Base.{
  All, List, Option, Option-cases, Result, Result-cases, String, [], arith, err, get, inl, inr,
  nat_key, none, ok, refl, some, string_key, sym, ℕ, ◌∷◌, ◌≡◌, ◌⊎◌,
}
use Prim.Native.String.{◌++◌ as ◌+++◌}
use mathlib.Core.Path.{subst}
use argus_rs.Core.Chain.{Log}
use argus_rs.Abi.Values.{DecodedLog}
use argus_rs.Abi.Contracts.{Event, CachedContract}
use argus_rs.Abi.Service.{
  AbiError, event_not_found, log_has_no_topics, decoding_error, Alloy, AbiService, event_of,
  first_event, peek_signature, peek_event_name, decode_log_direct, try_contracts, decode_signature,
  decode_log,
}
use argus_rs.Abi.Service.Names.{Reach, Reach-NamesEvents}
use argus_rs.Abi.Service.Naming.{IsNamed, NamesEvents}

-- What a decoding by events of one name yields.
abbrev pub Tried : ℕ → String → Result AbiError DecodedLog → Type 0
Tried address name (ok decoded) = name ≡ decoded.name
Tried address name (err e) = e ≡ decoding_error address ("event " +++ name)

-- What is peeked at, and what the decoding yields.
abbrev pub Agrees : ℕ → Option Event → Result AbiError DecodedLog → Type 0
Agrees address (some event) result = Tried address event.name result
Agrees address none (ok decoded) = ⊥
Agrees address none (err e) =
    (e ≡ log_has_no_topics address) ⊎ ((signature : ℕ) × (e ≡ event_not_found signature address))

decode_log_direct-Tried :
    {SolType : Type 0} (alloy : Alloy SolType) (log : Log) (event : Event)
    → Tried log.address event.name (decode_log_direct alloy log event)
unfolding decode_log_direct
decode_log_direct-Tried alloy log event =
    elim (Option-cases (alloy.decode_log_parts event log.topics log.payload)) [
      | inl failed' ↦ rw (failed', decode_log_direct, Tried) refl
      | inr (parts, found) ↦ rw (found, decode_log_direct, Tried) refl
    ]

-- Once an event was tried, the outcome is one of its name.
try_contracts-Tried :
    {SolType : Type 0} (alloy : Alloy SolType) (names : ℕ → String) (log : Log) (signature : ℕ)
    (cs : List (CachedContract SolType)) (last : AbiError)
    → All (IsNamed names) cs
    → last ≡ decoding_error log.address ("event " +++ names signature)
    → (r : Result AbiError DecodedLog) × (try_contracts alloy log signature cs (some last) ≡ some r)
      × Tried log.address (names signature) r
unfolding try_contracts
try_contracts-Tried alloy names log signature [] last h e = (err last, refl, e)
try_contracts-Tried alloy names log signature (c ∷ cs) last h e =
    elim (Option-cases (get c.events signature)) [
      | inl missing ↦
          rw (missing, try_contracts) (try_contracts-Tried alloy names log signature cs last h.1 e)
      | inr (event, found) ↦
          let tried : Tried log.address (names signature) (decode_log_direct alloy log event) =
            subst (λ n. Tried log.address n (decode_log_direct alloy log event))
              (h.0 signature event found) (decode_log_direct-Tried alloy log event) in
          elim (Result-cases (decode_log_direct alloy log event)) [
            | inl (decoded, good) ↦ (
              ok decoded,
              ground (arith, found, good),
              subst (Tried log.address (names signature)) good tried,
            )
            | inr (bad, failed') ↦
                rw (found, failed', try_contracts)
                  (try_contracts-Tried alloy names log signature cs bad h.1
                    (subst (Tried log.address (names signature)) failed' tried))
          ]
    ]

-- The first event of a signature is tried, or there is none.
try_contracts-first :
    {SolType : Type 0} (alloy : Alloy SolType) (names : ℕ → String) (log : Log) (signature : ℕ)
    (cs : List (CachedContract SolType))
    → All (IsNamed names) cs
    → ((first_event cs signature ≡ none) × (try_contracts alloy log signature cs none ≡ none))
      ⊎ ((event : Event) × (first_event cs signature ≡ some event)
          × ((r : Result AbiError DecodedLog) × (try_contracts alloy log signature cs none ≡ some r)
              × Tried log.address event.name r))
unfolding try_contracts first_event
try_contracts-first alloy names log signature [] h = inl (refl, refl)
try_contracts-first alloy names log signature (c ∷ cs) h =
    elim (Option-cases (get c.events signature)) [
      | inl missing ↦
          rw (missing, try_contracts, first_event)
            (try_contracts-first alloy names log signature cs h.1)
      | inr (event, found) ↦ inr (event, rw (found, first_event) refl, first_tried event found)
    ]
  where
    first_tried :
        (event : Event)
        → get c.events signature ≡ some event
        → (r : Result AbiError DecodedLog) × (try_contracts alloy log signature (c ∷ cs) none
            ≡ some r)
          × Tried log.address event.name r
    first_tried event found = elim (Result-cases (decode_log_direct alloy log event)) [
      | inl (decoded, good) ↦ (
        ok decoded,
        ground (arith, found, good),
        subst (Tried log.address event.name) good (decode_log_direct-Tried alloy log event),
      )
      | inr (bad, failed') ↦
          rw (found, failed', try_contracts)
            (subst
              (λ n.
                (r : Result AbiError DecodedLog) × (try_contracts alloy log signature cs (some bad)
                  ≡ some r)
                × Tried log.address n r)
              (sym (h.0 signature event found))
              (try_contracts-Tried alloy names log signature cs bad h.1 (
                subst (λ n. bad ≡ decoding_error log.address ("event " +++ n))
                  (h.0 signature event found)
                  (subst (Tried log.address event.name) failed'
                    (decode_log_direct-Tried alloy log event)))))
    ]

signature-Agrees :
    {SolType : Type 0} (alloy : Alloy SolType) (names : ℕ → String) (s : AbiService SolType)
    (log : Log) (signature : ℕ)
    → NamesEvents names s
    → Agrees log.address
        (peek_signature s log.address signature)
        (decode_signature alloy s log signature)
unfolding peek_signature decode_signature
signature-Agrees alloy names s log signature h =
    elim (Option-cases (event_of (get s.address_specific_cache log.address) signature)) [
      | inr (event, found) ↦
          rw (found, Agrees, peek_signature, decode_signature)
            (decode_log_direct-Tried alloy log event)
      | inl missing ↦ elim (try_contracts-first alloy names log signature _ (h.indexed signature)) [
        | inl (absent, untried) ↦
            rw (missing, absent, untried, Agrees, peek_signature, decode_signature)
              (inr (signature, refl))
        | inr (event, first, (r, tried, agrees)) ↦
            rw (missing, first, tried, Agrees, peek_signature, decode_signature) agrees
      ]
    ]

-- For a service that was told, in any order, of ABIs, of their links to addresses, of global ABIs and
-- of removals, whatever failed of it: a log whose event is peeked at decodes to an event of that
-- name, or fails to decode as one of that name. A log of which no event is peeked at does not
-- decode, since it has no topics or its event is not found. The events of the ABIs that are
-- registered have the names of their selectors.
pub peek_event_name-Agrees :
    {SolType : Type 0} {alloy : Alloy SolType} {names : ℕ → String} {s : AbiService SolType}
    → Reach alloy names s
    → (log : Log) → Agrees log.address (peek_event_name s log) (decode_log alloy s log)
unfolding peek_event_name decode_log
peek_event_name-Agrees {alloy} {names} {s} reached log = by_topics log.topics
  where
    by_topics :
        (topics : List ℕ)
        → Agrees log.address
            (elim topics [ [] ↦ none | topic0 ∷ rest ↦ peek_signature s log.address topic0 ])
            (elim topics [
              | [] ↦ err (log_has_no_topics log.address)
              | topic0 ∷ rest ↦ decode_signature alloy s log topic0
            ])
    by_topics [] = inl refl
    by_topics (topic0 ∷ topics) =
        signature-Agrees alloy names s log topic0 (Reach-NamesEvents reached)
