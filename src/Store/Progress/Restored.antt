-- ===== src/Store/Progress/Restored.antt =====
-- What was set is what is read.
use argus_rs.Base.{
  pos, Bool-cases, String, arith, false, get, get-insert, if◌then◌else◌, inl, inr, insert, ltb,
  nat_key, ok, refl, some, string_key, ℕ, ◌+◌, ◌==◌, ◌^◌, ◌≡◌, ◌≢◌, ◌⊎◌,
}
use argus_rs.Store.Transactions.{Faults}
use argus_rs.Store.Progress.{
  BlockDatabase, to_block_number, get_last_processed_block, set_last_processed_block, flush_wal,
  save_emergency_state,
}

-- Where the mark of a network is set without an error, a read that does not fail finds it under that
-- network, and under every other network what was there before.
set_then_get :
    (fails : Faults) (network_id other : String) (block_number : ℕ) (db : BlockDatabase)
    → (set_last_processed_block fails network_id block_number db).0 ≡ ok tt
    → fails (db.statements + 1) ≡ false
    → (get_last_processed_block fails other
        (set_last_processed_block fails network_id block_number db).1).0
      ≡ (if network_id == other
          then ok (some block_number)
          else to_block_number (get db.processed_blocks other))
unfolding set_last_processed_block get_last_processed_block to_block_number
set_then_get fails network_id other block_number db done sound =
    ground (arith, done, sound, get-insert db.processed_blocks network_id other (pos block_number))

flush_wal-frame :
    (fails : Faults) (db : BlockDatabase)
    → (flush_wal fails db).1.processed_blocks ≡ db.processed_blocks
unfolding flush_wal
flush_wal-frame fails db = ground arith

-- An emergency save sets the mark of its network and changes no other, or it fails and changes no
-- mark. So the mark is set where it ends without an error, and may be set where only the flush fails.
save_emergency_state_sets :
    (fails : Faults) (network_id : String) (block_number : ℕ) (db : BlockDatabase)
    → ((save_emergency_state fails network_id block_number db).1.processed_blocks
        ≡ insert db.processed_blocks network_id (pos block_number))
      ⊎ (((save_emergency_state fails network_id block_number db).0 ≢ ok tt)
          × ((save_emergency_state fails network_id block_number db).1.processed_blocks
              ≡ db.processed_blocks))
unfolding save_emergency_state set_last_processed_block
save_emergency_state_sets fails network_id block_number db =
    elim (Bool-cases (ltb block_number (2 ^ 63))) [
      | inr big ↦ rw big (inr (λ x. cc, refl))
      | inl small ↦ rw small (elim (Bool-cases (fails db.statements)) [
        | inl faulty ↦ rw faulty (inr (λ x. cc, refl))
        | inr sound ↦ rw sound (inl (flush_wal-frame fails _))
      ])
    ]
