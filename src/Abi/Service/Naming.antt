-- ===== src/Abi/Service/Naming.antt =====
-- Contracts whose events have the names of their selectors.
use argus_rs.Base.{
  All, HashMap, List, Option, Option-cases, String, [], arith, get, get-insert, inl, inr, insert,
  nat_key, ok, some, string_key, ℕ, ◌∷◌, ◌≡◌,
}
use argus_rs.Abi.Contracts.{Event, JsonAbi, CachedContract, flatten, collect, cached_contract}
use argus_rs.Abi.Service.{Alloy, AbiService, named_contract, list_of}

-- The events of an ABI are called what their selectors are called.
abbrev pub AbiIsNamed : (ℕ → String) → JsonAbi → Type 0
AbiIsNamed names abi = All (λ (e : Event). e.name ≡ names e.selector) (flatten abi.events)

abbrev MapIsNamed : (ℕ → String) → HashMap ℕ Event → Type 0
MapIsNamed names events =
    (signature : ℕ) (e : Event) → get events signature ≡ some e → e.name ≡ names signature

abbrev pub IsNamed : {SolType : Type 0} → (ℕ → String) → CachedContract SolType → Type 0
IsNamed names contract = MapIsNamed names contract.events

-- Every ABI that the service has is named.
pub record NamesEvents {SolType : Type 0} (names : ℕ → String) (s : AbiService SolType)
    : Type 0 where
  pub registered :
      (name : String) (abi : JsonAbi) → get s.named_abis name ≡ some abi → AbiIsNamed names abi
  pub linked :
      (address : ℕ) (c : CachedContract SolType)
      → get s.address_specific_cache address ≡ some c
      → IsNamed names c
  pub indexed : (signature : ℕ) → All (IsNamed names) (list_of (get s.global_event_index signature))

collect-IsNamed :
    (names : ℕ → String) (es : List Event) (m : HashMap ℕ Event)
    → All (λ (e : Event). e.name ≡ names e.selector) es
    → MapIsNamed names m
    → MapIsNamed names (collect (λ (e : Event). e.selector) (λ e. e) es m)
unfolding collect
collect-IsNamed names [] m h k = k
collect-IsNamed names (e ∷ es) m h k = collect-IsNamed names es (insert m e.selector e) h.1 inserted
  where
    inserted : MapIsNamed names (insert m e.selector e)
    inserted signature e' found =
        ground (arith, h.0, get-insert m e.selector signature e, k signature e')

cached_contract-events :
    {SolType : Type 0} (parse_type : String → Option SolType) (abi : JsonAbi)
    {c : CachedContract SolType}
    → cached_contract parse_type abi ≡ some c
    → c.events ≡ collect (λ (e : Event). e.selector) (λ e. e) (flatten abi.events) []
unfolding cached_contract
cached_contract-events parse_type abi made = ground arith

cached_contract-IsNamed :
    {SolType : Type 0} (names : ℕ → String) (parse_type : String → Option SolType) (abi : JsonAbi)
    {c : CachedContract SolType}
    → AbiIsNamed names abi
    → cached_contract parse_type abi ≡ some c
    → IsNamed names c
unfolding get
cached_contract-IsNamed names parse_type abi h made =
    rw (cached_contract-events parse_type abi made)
      (collect-IsNamed names (flatten abi.events) [] h (λ signature e found. absurd (cc)))

named_contract-made :
    {SolType : Type 0} (alloy : Alloy SolType) (abi_name : String) (s : AbiService SolType)
    {c : CachedContract SolType}
    → named_contract alloy abi_name s ≡ ok c
    → (abi : JsonAbi) × (get s.named_abis abi_name ≡ some abi)
      × (cached_contract alloy.parse_type abi ≡ some c)
unfolding named_contract
named_contract-made alloy abi_name s made = elim (Option-cases (get s.named_abis abi_name)) [
  | inl missing ↦ absurd (ground (arith, missing))
  | inr (abi, found) ↦ (abi, found, ground (arith, found))
]

pub named_contract-IsNamed :
    {SolType : Type 0} {names : ℕ → String} (alloy : Alloy SolType) (abi_name : String)
    (s : AbiService SolType) {c : CachedContract SolType}
    → NamesEvents names s
    → named_contract alloy abi_name s ≡ ok c
    → IsNamed names c
named_contract-IsNamed {names} alloy abi_name s h made =
    let (abi, found, built) = named_contract-made alloy abi_name s made in
    cached_contract-IsNamed names alloy.parse_type abi (h.registered abi_name abi found) built
