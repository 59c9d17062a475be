-- ===== src/Context/Samples.antt =====
-- A fresh network, one with a mark, and configured numbers.
use argus_rs.Base.{
  pos, negsuc, [], arith, false, get, min, nat_key, ok, refl, some, string_key, ◌-◌, ◌∷◌, ◌≡◌,
}
use argus_rs.Store.Transactions.{Faults}
use argus_rs.Store.Progress.{BlockDatabase, to_block_number}
use argus_rs.Engine.Ingestor.{state_next}
use argus_rs.Context.{
  saturating_add_signed, offset, latest, visit_i64, target_block, final_start_block,
  initialize_block_state,
}
use argus_rs.Context.Start.{initialize_block_state_starts}

abbrev sound : Faults
sound k = false

abbrev fresh_db : BlockDatabase
fresh_db = record { processed_blocks = ("testnet", pos 3) ∷ []; statements = 0 }

zero_is_default : visit_i64 (pos 0) ≡ offset (negsuc 99)
unfolding visit_i64
zero_is_default = refl

-- The offset would reach back to 900, and 12 confirmations only to 988.
offset_is_relative : final_start_block (offset (negsuc 99)) 12 1000 ≡ 900
unfolding target_block saturating_add_signed
offset_is_relative = refl

latest_is_safe : final_start_block latest 12 1000 ≡ 988
unfolding target_block
latest_is_safe = refl

-- A chain of no more than 12 blocks starts at 0, and the ingestor behind the mark 0 at 1.
start_at_genesis_skips :
    (final_start_block latest 12 10 ≡ 0)
    × (state_next (some (final_start_block latest 12 10 - 1)) 10 ≡ 1)
unfolding target_block state_next
start_at_genesis_skips = (refl, refl)

initialize_block_state_starts_example :
    ((initialize_block_state sound "mainnet" (offset (negsuc 99)) 12 (ok 1000) fresh_db).0 ≡ ok tt)
    × (to_block_number (
          get
            (initialize_block_state sound "mainnet"
              (offset (negsuc 99))
              12
              (ok 1000)
              fresh_db).1.processed_blocks
            "mainnet")
        ≡ ok (some (final_start_block (offset (negsuc 99)) 12 1000 - 1)))
    × (state_next (some (final_start_block (offset (negsuc 99)) 12 1000 - 1)) 1000
        ≡ min (target_block (offset (negsuc 99)) 1000) (1000 - 12))
unfolding target_block saturating_add_signed get
initialize_block_state_starts_example =
    initialize_block_state_starts sound "mainnet" (offset (negsuc 99)) 12 1000 1000 fresh_db refl
      (λ i. refl) (omega arith) (omega arith)
