-- ===== src/Core/Chain.antt =====
-- Blocks, transactions, receipts and logs (crates/argus-core/src/models). Addresses, hashes and
-- topics are the numbers that their bytes spell.
pub mod Grouping
use argus_rs.Base.{
  ℕ, Bool, Option, none, some, List, [], ◌∷◌, ◌++◌, map, HashMap, get, insert, nat_key,
}

pub record Log : Type 0 where
  pub address : ℕ
  pub topics : List ℕ
  pub payload : List ℕ
  pub block_number : Option ℕ
  pub transaction_hash : Option ℕ
  pub log_index : Option ℕ

pub record Receipt : Type 0 where
  pub gas_used : ℕ
  pub status : Bool
  pub effective_gas_price : ℕ

pub data TxType : Type 0 where
  legacy eip1559 other_type : TxType

pub record Transaction : Type 0 where
  pub hash : ℕ
  pub sender : ℕ
  pub receiver : Option ℕ
  pub value : ℕ
  pub gas_limit : ℕ
  pub nonce : ℕ
  pub input : List ℕ
  pub block_number : Option ℕ
  pub transaction_index : Option ℕ
  pub tx_type : TxType
  pub gas_price : Option ℕ
  pub max_fee_per_gas : ℕ
  pub max_priority_fee_per_gas : Option ℕ

-- alloy's `BlockTransactions`.
pub data BlockTransactions : Type 0 where
  full : List Transaction → BlockTransactions
  hashes_only : List ℕ → BlockTransactions

-- `BlockTransactions::hashes`
unfoldable pub hashes : BlockTransactions → List ℕ
hashes (full txs) = map (λ t. t.hash) txs
hashes (hashes_only hs) = hs

pub record Block : Type 0 where
  pub number : ℕ
  pub timestamp : ℕ
  pub transactions : BlockTransactions

pub record BlockData : Type 0 where
  pub block : Block
  pub receipts : HashMap ℕ Receipt
  pub logs : HashMap ℕ (List Log)

pub record CorrelatedBlockItem : Type 0 where
  pub transaction : Transaction
  pub logs : List Log
  pub receipt : Option Receipt

pub record CorrelatedBlockData : Type 0 where
  pub block_number : ℕ
  pub items : List CorrelatedBlockItem

-- `map.entry(key).or_default().push(value)`
unfoldable pub push_under {ℓ} : {A : Type ℓ} → ℕ → A → HashMap ℕ (List A) → HashMap ℕ (List A)
push_under key value m = elim (get m key) [
  | none ↦ insert m key (value ∷ [])
  | some vs ↦ insert m key (vs ++ value ∷ [])
]

-- `if let Some(key) = key_of(log) { map.entry(key).or_default().push(log) }`, for each log in turn.
unfoldable pub group_from {ℓ} :
    {A : Type ℓ} → (A → Option ℕ) → List A → HashMap ℕ (List A) → HashMap ℕ (List A)
unfolding push_under
group_from key_of [] m = m
group_from key_of (log ∷ logs) m =
    group_from key_of logs (elim (key_of log) [ none ↦ m | some key ↦ push_under key log m ])

-- `BlockData::from_raw_data`
unfoldable pub from_raw_data : Block → HashMap ℕ Receipt → List Log → BlockData
from_raw_data block receipts raw_logs = record {
  block = block;
  receipts = receipts;
  logs = group_from (λ (l : Log). l.transaction_hash) raw_logs [];
}
