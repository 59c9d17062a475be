-- ===== src/Engine/Filtering/Service.antt =====
-- `run` of crates/argus-engine/src/filtering.rs. Which evaluations of a block panic, each by the
-- position of the block, and which sends fail, each by its position, are arguments.
use argus_rs.Base.{
  Bool, List, Result, [], err, if◌then◌else◌, nat_key, ok, pair_key, string_key, ℕ, ◌++◌, ◌+◌, ◌∷◌,
}
use argus_rs.Core.Chain.{CorrelatedBlockItem, CorrelatedBlockData}
use argus_rs.Core.Matches.{MonitorMatch}
use argus_rs.Engine.Evaluation.{Env, RhaiError}
use argus_rs.Engine.Filtering.{evaluate_item}

-- The matches of an item, or none where its evaluation fails.
abbrev pub or_no_matches : Result RhaiError (List MonitorMatch) → List MonitorMatch
or_no_matches (ok ms) = ms
or_no_matches (err e) = []

unfoldable pub evaluate_items : Env → List CorrelatedBlockItem → List MonitorMatch
evaluate_items env [] = []
evaluate_items env (item ∷ items) =
    or_no_matches (evaluate_item env item) ++ evaluate_items env items

-- What was sent, and how many blocks and sends there were.
pub record FilterState : Type 0 where
  pub sent : List (List MonitorMatch)
  pub blocks : ℕ
  pub sends : ℕ

unfoldable pub send_matches : (ℕ → Bool) → List MonitorMatch → FilterState → FilterState
send_matches send_fails [] s = s
send_matches send_fails (m ∷ ms) s =
    if send_fails s.sends
    then record s { sends = s.sends + 1 }
    else record s { sent = s.sent ++ (m ∷ ms) ∷ []; sends = s.sends + 1 }

unfoldable pub filter_block :
    Env → (ℕ → Bool) → (ℕ → Bool) → CorrelatedBlockData → FilterState → FilterState
unfolding evaluate_items send_matches
filter_block env panics send_fails block s =
    let s' = record s { blocks = s.blocks + 1 } in
    if panics s.blocks then s' else send_matches send_fails (evaluate_items env block.items) s'

-- The loop over what the channel yields until it is closed.
unfoldable pub run_filtering :
    Env → (ℕ → Bool) → (ℕ → Bool) → List CorrelatedBlockData → FilterState → FilterState
unfolding filter_block
run_filtering env panics send_fails [] s = s
run_filtering env panics send_fails (block ∷ blocks) s =
    run_filtering env panics send_fails blocks (filter_block env panics send_fails block s)
