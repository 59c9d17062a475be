-- ===== src/Abi/Contracts.antt =====
-- Contract ABIs and their index: `CachedContract` of crates/argus-abi/src/lib.rs. An event and a
-- function stand with the names and types of their inputs and the selector that alloy computes.
use argus_rs.Base.{
  HashMap, List, Option, String, [], insert, nat_key, none, some, string_key, ℕ, ◌++◌, ◌∷◌,
}

pub record Event : Type 0 where
  pub name : String
  pub inputs : List (String × String)
  pub selector : ℕ

pub record Function : Type 0 where
  pub name : String
  pub inputs : List (String × String)
  pub selector : ℕ

-- An ABI: which allocation it is, and its functions and events by name.
pub record JsonAbi : Type 0 where
  pub allocation : ℕ
  pub functions : HashMap String (List Function)
  pub events : HashMap String (List Event)

-- `abi.functions()` and `abi.events()`
abbrev pub flatten {ℓ} : {A : Type ℓ} → HashMap String (List A) → List A
flatten [] = []
flatten ((name, xs) ∷ m) = xs ++ flatten m

-- `SolType` is the type of alloy's `DynSolType`.
pub record CachedContract (SolType : Type 0) : Type 0 where
  pub functions : HashMap ℕ Function
  pub events : HashMap ℕ Event
  pub abi : JsonAbi
  pub function_input_types : HashMap ℕ (List SolType)

-- `collect` into a map: of entries with one key the last stays.
unfoldable pub collect {ℓ κ} :
    {A : Type ℓ} {V : Type κ} → (A → ℕ) → (A → V) → List A → HashMap ℕ V → HashMap ℕ V
collect key value [] m = m
collect key value (x ∷ xs) m = collect key value xs (insert m (key x) (value x))

-- `collect` into a result: `none` where one of the types does not parse.
unfoldable pub parse_all :
    {SolType : Type 0} → (String → Option SolType) → List (String × String) → Option (List SolType)
parse_all parse_type [] = some []
parse_all parse_type ((name, ty) ∷ inputs) = elim (parse_type ty) [
  | none ↦ none
  | some t ↦ elim (parse_all parse_type inputs) [ none ↦ none | some ts ↦ some (t ∷ ts) ]
]

unfoldable pub parse_inputs :
    {SolType : Type 0}
    → (String → Option SolType)
    → List Function
    → HashMap ℕ (List SolType)
    → Option (HashMap ℕ (List SolType))
unfolding parse_all
parse_inputs parse_type [] m = some m
parse_inputs parse_type (f ∷ fs) m = elim (parse_all parse_type f.inputs) [
  | none ↦ none
  | some ts ↦ parse_inputs parse_type fs (insert m f.selector ts)
]

-- `CachedContract::from`; `none` where it panics, at an input type that does not parse.
unfoldable pub cached_contract :
    {SolType : Type 0} → (String → Option SolType) → JsonAbi → Option (CachedContract SolType)
unfolding collect parse_inputs
cached_contract parse_type abi = elim (parse_inputs parse_type (flatten abi.functions) []) [
  | none ↦ none
  | some input_types ↦ some (record {
    functions = collect (λ (f : Function). f.selector) (λ f. f) (flatten abi.functions) [];
    events = collect (λ (e : Event). e.selector) (λ e. e) (flatten abi.events) [];
    abi = abi;
    function_input_types = input_types;
  })
]
