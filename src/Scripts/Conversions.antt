-- ===== src/Scripts/Conversions.antt =====
-- crates/argus-rhai/src/conversions.rs: Rhai values and JSON of transactions, receipts and decoded
-- values. A map is a list of entries; a JSON object with keys in the order of their insertion.
use argus_rs.Base.{
  Bool, HashMap, List, Option, String, [], as_i64, false, if◌then◌else◌, insert, ltb, nat_key,
  negsuc, none, pos, some, string_key, true, ℕ, ℤ, ◌^◌, ◌∷◌,
}
use argus_rs.Core.Chain.{Transaction, Receipt, legacy, eip1559, other_type}
use argus_rs.Abi.Values.{
  DynSolValue, DynSolValues, Json, Jsons, Printers, prefixed_hex, object_of, address_value,
  bool_value, bytes_value, fixed_bytes, int_value, uint_value, string_value, array_value,
  fixed_array, tuple_value, function_value,
}

-- Rhai's `Dynamic`.
mutual
  pub data Dynamic : Type 0 where
    unit : Dynamic
    boolean : Bool → Dynamic
    integer : ℤ → Dynamic
    big_int : ℤ → Dynamic
    text : String → Dynamic
    items : Dynamics → Dynamic

  pub data Dynamics : Type 0 where
    nil : Dynamics
    cons : Dynamic → Dynamics → Dynamics

unfoldable mutual
  pub dyn_sol_value_to_rhai : Printers → DynSolValue → Dynamic
  dyn_sol_value_to_rhai p (address_value a) = text (p.to_checksum a)
  dyn_sol_value_to_rhai p (bool_value b) = boolean b
  dyn_sol_value_to_rhai p (bytes_value b) = text (prefixed_hex p b)
  dyn_sol_value_to_rhai p (fixed_bytes b n) = text (prefixed_hex p b)
  dyn_sol_value_to_rhai p (int_value i n) = big_int i
  dyn_sol_value_to_rhai p (uint_value u n) = big_int (pos u)
  dyn_sol_value_to_rhai p (string_value s) = text s
  dyn_sol_value_to_rhai p (array_value vs) = items (all_to_rhai p vs)
  dyn_sol_value_to_rhai p (fixed_array vs) = items (all_to_rhai p vs)
  dyn_sol_value_to_rhai p (tuple_value vs) = items (all_to_rhai p vs)
  dyn_sol_value_to_rhai p (function_value f) = unit

  pub all_to_rhai : Printers → DynSolValues → Dynamics
  all_to_rhai p DynSolValues.nil = Dynamics.nil
  all_to_rhai p (DynSolValues.cons v vs) =
      Dynamics.cons (dyn_sol_value_to_rhai p v) (all_to_rhai p vs)

-- The numbers of an `i64`.
abbrev pub fits_i64 : ℤ → Bool
fits_i64 (pos n) = ltb n (2 ^ 63)
fits_i64 (negsuc n) = ltb n (2 ^ 63)

-- A number where it fits into an `i64`, and a text where it does not.
unfoldable pub integer_to_json : Printers → ℤ → Json
integer_to_json p i = if fits_i64 i then Json.number i else Json.string (p.integer i)

unfoldable mutual
  unfolding integer_to_json

  pub dyn_sol_value_to_json : Printers → DynSolValue → Json
  dyn_sol_value_to_json p (address_value a) = Json.string (p.to_checksum a)
  dyn_sol_value_to_json p (bool_value b) = Json.bool b
  dyn_sol_value_to_json p (bytes_value b) = Json.string (prefixed_hex p b)
  dyn_sol_value_to_json p (fixed_bytes b n) = Json.string (prefixed_hex p b)
  dyn_sol_value_to_json p (int_value i n) = integer_to_json p i
  dyn_sol_value_to_json p (uint_value u n) = integer_to_json p (pos u)
  dyn_sol_value_to_json p (string_value s) = Json.string s
  dyn_sol_value_to_json p (array_value vs) = Json.array (all_to_json p vs)
  dyn_sol_value_to_json p (fixed_array vs) = Json.array (all_to_json p vs)
  dyn_sol_value_to_json p (tuple_value vs) = Json.array (all_to_json p vs)
  dyn_sol_value_to_json p (function_value f) = Json.null

  pub all_to_json : Printers → DynSolValues → Jsons
  all_to_json p DynSolValues.nil = Jsons.nil
  all_to_json p (DynSolValues.cons v vs) = Jsons.cons (dyn_sol_value_to_json p v) (all_to_json p vs)

unfoldable pub params_map :
    {V : Type 0}
    → (DynSolValue → V)
    → List (String × DynSolValue)
    → HashMap String V
    → HashMap String V
params_map convert [] m = m
params_map convert ((name, value) ∷ params) m =
    params_map convert params (insert m name (convert value))

unfoldable pub build_params_map : Printers → List (String × DynSolValue) → HashMap String Dynamic
unfolding params_map
build_params_map p params = params_map (dyn_sol_value_to_rhai p) params []

unfoldable pub build_log_params_payload : Printers → List (String × DynSolValue) → Json
unfolding params_map
build_log_params_payload p params = object_of (params_map (dyn_sol_value_to_json p) params [])

-- `if let Some(a) = o { map.insert(key, f(a)) }`
abbrev pub insert_some {ℓ} :
    {A V : Type ℓ} → String → (A → V) → Option A → HashMap String V → HashMap String V
insert_some key f none m = m
insert_some key f (some a) m = insert m key (f a)

abbrev pub or_unit {ℓ} : {A : Type ℓ} → (A → Dynamic) → Option A → Dynamic
or_unit f none = unit
or_unit f (some a) = f a

abbrev pub i64_value : ℕ → Dynamic
i64_value n = integer (as_i64 n)

abbrev pub big_value : ℕ → Dynamic
big_value n = big_int (pos n)

abbrev pub status_number : Bool → ℕ
status_number true = 1
status_number false = 0

abbrev gas_fields : Transaction → HashMap String Dynamic → HashMap String Dynamic
gas_fields tx m = elim tx.tx_type [
  | legacy ↦ insert m "gas_price" (or_unit big_value tx.gas_price)
  | eip1559 ↦
      insert (insert m "max_fee_per_gas" (big_value tx.max_fee_per_gas)) "max_priority_fee_per_gas"
        (or_unit big_value tx.max_priority_fee_per_gas)
  | other_type ↦ m
]

abbrev receipt_values : Option Receipt → HashMap String Dynamic → HashMap String Dynamic
receipt_values receipt m =
    insert
      (insert (insert m "gas_used" (or_unit (λ (r : Receipt). i64_value r.gas_used) receipt))
        "status" (or_unit (λ (r : Receipt). i64_value (status_number r.status)) receipt))
      "effective_gas_price" (or_unit (λ (r : Receipt). big_value r.effective_gas_price) receipt)

abbrev common_fields : Printers → Transaction → HashMap String Dynamic
common_fields p tx =
    insert
      (insert
        (insert
          (insert
            (insert
              (insert
                (insert
                  (insert (insert_some "to" (λ (a : ℕ). text (p.to_checksum a)) tx.receiver [])
                    "from" (text (p.to_checksum tx.sender)))
                  "hash" (text (p.hash tx.hash)))
                "value" (big_value tx.value))
              "gas_limit" (i64_value tx.gas_limit))
            "nonce" (i64_value tx.nonce))
          "input" (text (prefixed_hex p tx.input)))
        "block_number" (or_unit i64_value tx.block_number))
      "transaction_index" (or_unit i64_value tx.transaction_index)

unfoldable pub build_transaction_map :
    Printers → Transaction → Option Receipt → HashMap String Dynamic
build_transaction_map p tx receipt = receipt_values receipt (gas_fields tx (common_fields p tx))

abbrev json_number : ℕ → Json
json_number n = Json.number (pos n)

abbrev json_text : Printers → ℕ → Json
json_text p n = Json.string (p.integer (pos n))

abbrev gas_details : Printers → Transaction → HashMap String Json → HashMap String Json
gas_details p tx m = elim tx.tx_type [
  | legacy ↦ insert_some "gas_price" (json_text p) tx.gas_price m
  | eip1559 ↦
      insert_some "max_priority_fee_per_gas" (json_text p) tx.max_priority_fee_per_gas
        (insert m "max_fee_per_gas" (json_text p tx.max_fee_per_gas))
  | other_type ↦ m
]

abbrev receipt_details : Printers → Option Receipt → HashMap String Json → HashMap String Json
receipt_details p none m = m
receipt_details p (some r) m =
    insert
      (insert (insert m "gas_used" (json_text p r.gas_used)) "status"
        (json_number (status_number r.status)))
      "effective_gas_price" (json_text p r.effective_gas_price)

abbrev common_details : Printers → Transaction → HashMap String Json
common_details p tx = insert_some "transaction_index" json_number tx.transaction_index (
    insert
      (insert
        (insert
          (insert
            (insert
              (insert (insert_some "to" (λ (a : ℕ). Json.string (p.to_checksum a)) tx.receiver [])
                "from" (Json.string (p.to_checksum tx.sender)))
              "hash" (Json.string (p.hash tx.hash)))
            "value" (json_text p tx.value))
          "gas_limit" (json_number tx.gas_limit))
        "nonce" (json_number tx.nonce))
      "input" (Json.string (prefixed_hex p tx.input)))

unfoldable pub build_transaction_details_payload : Printers → Transaction → Option Receipt → Json
build_transaction_details_payload p tx receipt =
    object_of (receipt_details p receipt (gas_details p tx (common_details p tx)))
