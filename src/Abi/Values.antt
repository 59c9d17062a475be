-- ===== src/Abi/Values.antt =====
-- The values that alloy decodes, JSON values, and crates/argus-abi/src/models.rs. How alloy and serde
-- print is `Printers`.
use argus_rs.Base.{Bool, HashMap, List, String, [], insert, nat_key, pos, string_key, ℕ, ℤ, ◌∷◌}
use Prim.Native.String.{◌++◌ as ◌+++◌}
use argus_rs.Core.Chain.{Log}

-- alloy's `DynSolValue`.
mutual
  pub data DynSolValue : Type 0 where
    address_value : ℕ → DynSolValue
    bool_value : Bool → DynSolValue
    bytes_value : List ℕ → DynSolValue
    fixed_bytes : List ℕ → ℕ → DynSolValue
    int_value : ℤ → ℕ → DynSolValue
    uint_value : ℕ → ℕ → DynSolValue
    string_value : String → DynSolValue
    array_value : DynSolValues → DynSolValue
    fixed_array : DynSolValues → DynSolValue
    tuple_value : DynSolValues → DynSolValue
    function_value : List ℕ → DynSolValue

  pub data DynSolValues : Type 0 where
    nil : DynSolValues
    cons : DynSolValue → DynSolValues → DynSolValues

-- serde_json's `Value`, with the integers as its numbers.
mutual
  pub data Json : Type 0 where
    null : Json
    bool : Bool → Json
    number : ℤ → Json
    string : String → Json
    array : Jsons → Json
    object : Fields → Json

  pub data Jsons : Type 0 where
    nil : Jsons
    cons : Json → Jsons → Jsons

  pub data Fields : Type 0 where
    end : Fields
    field : String → Json → Fields → Fields

pub record Printers : Type 0 where
  pub to_checksum : ℕ → String
  pub hash : ℕ → String
  pub hex : List ℕ → String
  pub integer : ℤ → String
  pub json : Json → String

abbrev pub prefixed_hex : Printers → List ℕ → String
prefixed_hex p bytes = "0x" +++ p.hex bytes

-- A JSON object of a map.
abbrev pub object_of : HashMap String Json → Json
object_of m = object (fields m)
  where
    fields : HashMap String Json → Fields
    fields [] = end
    fields ((k, v) ∷ m') = field k v (fields m')

pub record DecodedLog : Type 0 where
  pub log : Log
  pub name : String
  pub params : List (String × DynSolValue)

pub record DecodedCall : Type 0 where
  pub name : String
  pub params : List (String × DynSolValue)

-- `dyn_sol_value_to_json` of models.rs: every integer becomes a text.
unfoldable mutual
  pub serialize_value : Printers → DynSolValue → Json
  serialize_value p (address_value a) = string (p.to_checksum a)
  serialize_value p (bool_value b) = bool b
  serialize_value p (bytes_value b) = string (prefixed_hex p b)
  serialize_value p (fixed_bytes b n) = string (prefixed_hex p b)
  serialize_value p (int_value i n) = string (p.integer i)
  serialize_value p (uint_value u n) = string (p.integer (pos u))
  serialize_value p (string_value s) = string s
  serialize_value p (array_value vs) = array (serialize_values p vs)
  serialize_value p (fixed_array vs) = array (serialize_values p vs)
  serialize_value p (tuple_value vs) = array (serialize_values p vs)
  serialize_value p (function_value f) = null

  pub serialize_values : Printers → DynSolValues → Jsons
  serialize_values p DynSolValues.nil = Jsons.nil
  serialize_values p (DynSolValues.cons v vs) =
      Jsons.cons (serialize_value p v) (serialize_values p vs)

-- Later parameters of one name replace earlier ones.
unfoldable pub serialize_params :
    Printers → List (String × DynSolValue) → HashMap String Json → HashMap String Json
unfolding serialize_value
serialize_params p [] m = m
serialize_params p ((name, value) ∷ params) m =
    serialize_params p params (insert m name (serialize_value p value))

-- `Serialize for DecodedCall`
unfoldable pub serialize_call : Printers → DecodedCall → Json
unfolding serialize_params
serialize_call p call =
    object_of
      (("name", string call.name) ∷ ("params", object_of (serialize_params p call.params [])) ∷ [])
