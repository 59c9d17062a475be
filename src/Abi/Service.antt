-- ===== src/Abi/Service.antt =====
-- `AbiService` of crates/argus-abi/src/lib.rs: registered ABIs, their links to addresses and their
-- global index, and the decoding of logs and calls by them. What alloy decodes is `Alloy`.
pub mod Naming
pub mod Names
pub mod Peeking
pub mod Samples
use argus_rs.Base.{
  or_else, Bool, Exec, HashMap, List, Option, Result, String, [], err, false, get, insert, map,
  nat_key, none, ok, remove, some, string_key, true, ℕ, ◌++◌, ◌∷◌,
}
use Prim.Native.String.{◌++◌ as ◌+++◌}
use argus_rs.Core.Chain.{Log, Transaction, push_under}
use argus_rs.Abi.Values.{DynSolValue, tuple_value, DynSolValues, DecodedLog, DecodedCall}
use argus_rs.Abi.Contracts.{Event, Function, JsonAbi, CachedContract, cached_contract}

pub data AbiError : Type 0 where
  abi_not_found : ℕ → AbiError
  abi_not_found_in_registry : String → AbiError
  event_not_found : ℕ → ℕ → AbiError
  function_not_found : ℕ → ℕ → AbiError
  contract_creation : AbiError
  input_too_short : ℕ → AbiError
  log_has_no_topics : ℕ → AbiError
  decoding_error : ℕ → String → AbiError

pub record Alloy (SolType : Type 0) : Type 0 where
  pub parse_type : String → Option SolType
  pub decode_log_parts : Event → List ℕ → List ℕ → Option (List DynSolValue × List DynSolValue)
  pub abi_decode : List SolType → List ℕ → Option DynSolValue

pub record AbiService (SolType : Type 0) : Type 0 where
  pub named_abis : HashMap String JsonAbi
  pub address_specific_cache : HashMap ℕ (CachedContract SolType)
  pub global_contracts : HashMap String (CachedContract SolType)
  pub global_event_index : HashMap ℕ (List (CachedContract SolType))
  pub global_function_index : HashMap ℕ (List (CachedContract SolType))

abbrev pub new : {SolType : Type 0} → AbiService SolType
new = record {
  named_abis = [];
  address_specific_cache = [];
  global_contracts = [];
  global_event_index = [];
  global_function_index = [];
}

-- How a linking operation fails: by an error, or by a panic at a type that alloy cannot parse.
pub data LinkFailure : Type 0 where
  failed : AbiError → LinkFailure
  panicked : LinkFailure

unfoldable pub register_abi :
    {SolType : Type 0} → String → JsonAbi → AbiService SolType → AbiService SolType
register_abi name abi s = record s { named_abis = insert s.named_abis name abi }

unfoldable pub register_abis :
    {SolType : Type 0} → List (String × JsonAbi) → AbiService SolType → AbiService SolType
unfolding register_abi
register_abis [] s = s
register_abis ((name, abi) ∷ abis) s = register_abis abis (register_abi name abi s)

-- `get_abi_by_name`, `lookup_named_abi`, and the contract of the ABI.
unfoldable pub named_contract :
    {SolType : Type 0}
    → Alloy SolType
    → String
    → AbiService SolType
    → Result LinkFailure (CachedContract SolType)
named_contract alloy abi_name s = elim (get s.named_abis abi_name) [
  | none ↦ err (failed (abi_not_found_in_registry abi_name))
  | some abi ↦ elim (cached_contract alloy.parse_type abi) [
    | none ↦ err panicked
    | some contract ↦ ok contract
  ]
]

-- The contract, under each of its selectors.
unfoldable pub index_under {ℓ} :
    {A : Type 0} {W : Type ℓ} → HashMap ℕ W → A → HashMap ℕ (List A) → HashMap ℕ (List A)
unfolding push_under
index_under [] contract index = index
index_under ((selector, item) ∷ items) contract index =
    index_under items contract (push_under selector contract index)

abbrev pub with_global :
    {SolType : Type 0} → String → CachedContract SolType → AbiService SolType → AbiService SolType
with_global abi_name contract s = record s {
  global_contracts = insert s.global_contracts abi_name contract;
  global_event_index = index_under contract.events contract s.global_event_index;
  global_function_index = index_under contract.functions contract s.global_function_index;
}

unfoldable pub add_global_abi :
    {SolType : Type 0} → Alloy SolType → String → Exec (AbiService SolType) LinkFailure (Unit {0})
unfolding named_contract index_under
add_global_abi alloy abi_name s = elim (named_contract alloy abi_name s) [
  | err e ↦ (err e, s)
  | ok contract ↦ (ok tt, with_global abi_name contract s)
]

unfoldable pub link_abi :
    {SolType : Type 0}
    → Alloy SolType
    → ℕ
    → String
    → Exec (AbiService SolType) LinkFailure (Unit {0})
unfolding named_contract
link_abi alloy address abi_name s = elim (named_contract alloy abi_name s) [
  | err e ↦ (err e, s)
  | ok contract ↦ (
    ok tt,
    record s { address_specific_cache = insert s.address_specific_cache address contract },
  )
]

abbrev pub is_some {ℓ} : {A : Type ℓ} → Option A → Bool
is_some none = false
is_some (some a) = true

unfoldable pub remove_abi : {SolType : Type 0} → ℕ → AbiService SolType → Bool × AbiService SolType
remove_abi address s = (
  is_some (get s.address_specific_cache address),
  record s { address_specific_cache = remove s.address_specific_cache address },
)

-- The event of a contract, if it has one.
abbrev pub event_of : {SolType : Type 0} → Option (CachedContract SolType) → ℕ → Option Event
event_of none signature = none
event_of (some contract) signature = get contract.events signature

abbrev pub list_of : {A : Type 0} → Option (List A) → List A
list_of none = []
list_of (some xs) = xs

-- `find_map`
unfoldable pub first_event : {SolType : Type 0} → List (CachedContract SolType) → ℕ → Option Event
first_event [] signature = none
first_event (contract ∷ contracts) signature =
    let rest = first_event contracts signature in
    elim (get contract.events signature) [ none ↦ rest | some event ↦ some event ]

unfoldable pub peek_signature : {SolType : Type 0} → AbiService SolType → ℕ → ℕ → Option Event
unfolding first_event
peek_signature s address signature =
    or_else (event_of (get s.address_specific_cache address) signature)
      (first_event (list_of (get s.global_event_index signature)) signature)

unfoldable pub peek_event_name : {SolType : Type 0} → AbiService SolType → Log → Option Event
unfolding peek_signature
peek_event_name s log = elim log.topics [
  | [] ↦ none
  | topic0 ∷ topics ↦ peek_signature s log.address topic0
]

-- `zip`
abbrev pub zip {ℓ κ} : {A : Type ℓ} {B : Type κ} → List A → List B → List (A × B)
zip [] bs = []
zip (a ∷ as') [] = []
zip (a ∷ as') (b ∷ bs) = (a, b) ∷ zip as' bs

unfoldable pub decode_log_direct :
    {SolType : Type 0} → Alloy SolType → Log → Event → Result AbiError DecodedLog
decode_log_direct alloy log event = elim (alloy.decode_log_parts event log.topics log.payload) [
  | none ↦ err (decoding_error log.address ("event " +++ event.name))
  | some (indexed, body) ↦ ok (record {
    log = log;
    name = event.name;
    params = zip (map (λ (i : String × String). i.0) event.inputs) (indexed ++ body);
  })
]

-- The first of the contracts whose event decodes, or the last error.
unfoldable pub try_contracts :
    {SolType : Type 0}
    → Alloy SolType
    → Log
    → ℕ
    → List (CachedContract SolType)
    → Option AbiError
    → Option (Result AbiError DecodedLog)
unfolding decode_log_direct
try_contracts alloy log signature [] none = none
try_contracts alloy log signature [] (some e) = some (err e)
try_contracts alloy log signature (contract ∷ contracts) last_error =
    elim (get contract.events signature) [
      | none ↦ try_contracts alloy log signature contracts last_error
      | some event ↦ elim (decode_log_direct alloy log event) [
        | ok decoded ↦ some (ok decoded)
        | err e ↦ try_contracts alloy log signature contracts (some e)
      ]
    ]

unfoldable pub decode_signature :
    {SolType : Type 0} → Alloy SolType → AbiService SolType → Log → ℕ → Result AbiError DecodedLog
unfolding try_contracts
decode_signature alloy s log signature =
    elim (event_of (get s.address_specific_cache log.address) signature) [
      | some event ↦ decode_log_direct alloy log event
      | none ↦
          elim (try_contracts alloy log signature (list_of (get s.global_event_index signature))
            none) [ some result ↦ result | none ↦ err (event_not_found signature log.address) ]
    ]

unfoldable pub decode_log :
    {SolType : Type 0} → Alloy SolType → AbiService SolType → Log → Result AbiError DecodedLog
unfolding decode_signature
decode_log alloy s log = elim log.topics [
  | [] ↦ err (log_has_no_topics log.address)
  | topic0 ∷ topics ↦ decode_signature alloy s log topic0
]
