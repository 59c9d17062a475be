-- ===== src/Context/Start.antt =====
-- The first block of a fresh network, and the mark of one that is not.
use argus_rs.Base.{
  ℤ, pos, negsuc, ==_refl, Result, String, arith, false, get, get-insert, ltb, lt→ltb, min, nat_key,
  none, ok, some, string_key, true, ℕ, ◌+◌, ◌-◌, ◌<◌, ◌^◌, ◌≡◌,
}
use argus_rs.Core.Errors.{DataSourceError}
use argus_rs.Store.Transactions.{Faults}
use argus_rs.Store.Progress.{
  BlockDatabase, to_block_number, get_last_processed_block, set_last_processed_block,
}
use argus_rs.Engine.Ingestor.{state_next}
use argus_rs.Context.{
  InitialStartBlock, target_block, final_start_block, initialize_block_state, start_if_unset,
}

-- Where the database has no mark for a network, its statements and the node's answer succeed and the
-- start block is not 0 and below 2^63, the initialization succeeds, and from the mark that it leaves
-- the ingestor starts exactly at the requested block, or at the safe head if that comes first.
pub initialize_block_state_starts :
    (fails : Faults) (network_id : String) (start : InitialStartBlock)
    (confirmation_blocks head current : ℕ) (db : BlockDatabase)
    → get db.processed_blocks network_id ≡ none
    → ((i : ℕ) → fails i ≡ false)
    → 0 < final_start_block start confirmation_blocks head
    → final_start_block start confirmation_blocks head < 2 ^ 63
    → ((initialize_block_state fails network_id start confirmation_blocks (ok head) db).0 ≡ ok tt)
      × (to_block_number (
            get
              (initialize_block_state fails network_id start confirmation_blocks
                (ok head)
                db).1.processed_blocks
              network_id)
          ≡ ok (some (final_start_block start confirmation_blocks head - 1)))
      × (state_next (some (final_start_block start confirmation_blocks head - 1)) current
          ≡ min (target_block start head) (head - confirmation_blocks))
unfolding initialize_block_state start_if_unset get_last_processed_block set_last_processed_block
    to_block_number state_next
initialize_block_state_starts fails network_id start confirmation_blocks head current db fresh sound
      low high =
    (
      ground (arith, fresh, sound db.statements, sound (db.statements + 1), sub_small),
      ground (
        arith,
        fresh,
        sound db.statements,
        sound (db.statements + 1),
        sub_small,
        ==_refl network_id,
        get-insert db.processed_blocks network_id network_id
            (pos (final_start_block start confirmation_blocks head - 1)),
      ),
      ground arith,
    )
  where
    sub_small : ltb (final_start_block start confirmation_blocks head - 1) (2 ^ 63) ≡ true
    sub_small = lt→ltb _ _ (omega arith)

-- A mark that the database already holds for a network is kept, with every other, whatever is
-- configured and whatever fails.
initialize_block_state_keeps :
    (fails : Faults) (network_id : String) (start : InitialStartBlock) (confirmation_blocks : ℕ)
    (head : Result DataSourceError ℕ) (db : BlockDatabase) (mark : ℤ)
    → get db.processed_blocks network_id ≡ some mark
    → (initialize_block_state fails network_id start confirmation_blocks head db).1.processed_blocks
      ≡ db.processed_blocks
unfolding initialize_block_state start_if_unset get_last_processed_block to_block_number
initialize_block_state_keeps fails network_id start confirmation_blocks head db (pos n) found =
    ground (arith, found)
initialize_block_state_keeps fails network_id start confirmation_blocks head db (negsuc n) found =
    ground (arith, found)
