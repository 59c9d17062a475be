-- ===== src/Abi/Calls.antt =====
-- The decoding of function calls by `AbiService` of crates/argus-abi/src/lib.rs.
use argus_rs.Base.{
  List, Option, Result, String, [], drop, err, get, length, map, nat_key, none, ok, some,
  string_key, ℕ, ◌*◌, ◌+◌, ◌∷◌,
}
use Prim.Native.String.{◌++◌ as ◌+++◌}
use argus_rs.Core.Chain.{Transaction}
use argus_rs.Abi.Values.{DynSolValue, tuple_value, DynSolValues, nil, cons, DecodedCall}
use argus_rs.Abi.Contracts.{Function, CachedContract}
use argus_rs.Abi.Service.{
  Alloy, AbiService, AbiError, contract_creation, input_too_short, function_not_found,
  decoding_error, list_of, zip,
}

-- The selector of the first four bytes.
abbrev pub selector_of : List ℕ → Option ℕ
selector_of (a ∷ b ∷ c ∷ d ∷ rest) = some (((a * 256 + b) * 256 + c) * 256 + d)
selector_of input = none

unfoldable pub extract_address_and_selector : Transaction → Result AbiError (ℕ × ℕ)
extract_address_and_selector tx = elim tx.receiver [
  | none ↦ err contract_creation
  | some to ↦ elim (selector_of tx.input) [
    | none ↦ err (input_too_short (length tx.input))
    | some selector ↦ ok (to, selector)
  ]
]

abbrev pub to_list : DynSolValues → List DynSolValue
to_list nil = []
to_list (cons v vs) = v ∷ to_list vs

-- `tx.to().unwrap_or_default()`
abbrev pub or_zero_address : Option ℕ → ℕ
or_zero_address none = 0
or_zero_address (some a) = a

abbrev pub input_names : Function → List String
input_names function = map (λ (i : String × String). i.0) function.inputs

unfoldable pub named_tokens :
    Transaction → Function → Option DynSolValue → Result AbiError DecodedCall
named_tokens tx function (some (tuple_value tokens)) =
    ok (record { name = function.name; params = zip (input_names function) (to_list tokens) })
named_tokens tx function other =
    err (decoding_error (or_zero_address tx.receiver) ("function " +++ function.name))

unfoldable pub decode_function_direct :
    {SolType : Type 0}
    → Alloy SolType
    → Transaction
    → Function
    → List SolType
    → Result AbiError DecodedCall
unfolding named_tokens
decode_function_direct alloy tx function input_types =
    named_tokens tx function (alloy.abi_decode input_types (drop 4 tx.input))

-- The function of a contract with its input types, decoded.
unfoldable pub try_contract :
    {SolType : Type 0}
    → Alloy SolType
    → Transaction
    → ℕ
    → CachedContract SolType
    → Option (Result AbiError DecodedCall)
unfolding decode_function_direct
try_contract alloy tx selector contract = elim (get contract.function_input_types selector) [
  | none ↦ none
  | some input_types ↦ elim (get contract.functions selector) [
    | none ↦ none
    | some function ↦ some (decode_function_direct alloy tx function input_types)
  ]
]

unfoldable pub try_decode_function_from_address :
    {SolType : Type 0}
    → Alloy SolType
    → AbiService SolType
    → Transaction
    → ℕ
    → ℕ
    → Option (Result AbiError DecodedCall)
unfolding try_contract
try_decode_function_from_address alloy s tx to selector = elim (get s.address_specific_cache to) [
  | none ↦ none
  | some contract ↦ try_contract alloy tx selector contract
]

-- The first contract that has the function, whether or not the call decodes.
unfoldable pub first_function :
    {SolType : Type 0}
    → Alloy SolType
    → Transaction
    → ℕ
    → List (CachedContract SolType)
    → Option (Result AbiError DecodedCall)
unfolding try_contract
first_function alloy tx selector [] = none
first_function alloy tx selector (contract ∷ contracts) =
    let rest = first_function alloy tx selector contracts in
    elim (get contract.functions selector) [
      | none ↦ rest
      | some function ↦ try_contract alloy tx selector contract
    ]

unfoldable pub try_decode_function_from_global :
    {SolType : Type 0}
    → Alloy SolType
    → AbiService SolType
    → Transaction
    → ℕ
    → Option (Result AbiError DecodedCall)
unfolding first_function
try_decode_function_from_global alloy s tx selector =
    first_function alloy tx selector (list_of (get s.global_function_index selector))

unfoldable pub decode_call_at :
    {SolType : Type 0}
    → Alloy SolType
    → AbiService SolType
    → Transaction
    → ℕ
    → ℕ
    → Result AbiError DecodedCall
unfolding try_decode_function_from_address try_decode_function_from_global
decode_call_at alloy s tx to selector =
    elim (try_decode_function_from_address alloy s tx to selector) [
      | some result ↦ result
      | none ↦ elim (try_decode_function_from_global alloy s tx selector) [
        | some result ↦ result
        | none ↦ err (function_not_found selector to)
      ]
    ]

unfoldable pub decode_function_input :
    {SolType : Type 0}
    → Alloy SolType
    → AbiService SolType
    → Transaction
    → Result AbiError DecodedCall
unfolding extract_address_and_selector decode_call_at
decode_function_input alloy s tx = elim (extract_address_and_selector tx) [
  | err e ↦ err e
  | ok (to, selector) ↦ decode_call_at alloy s tx to selector
]
