-- ===== src/Engine/Processor/Restart.antt =====
-- Where the ingestor resumes from the mark that the block processor left.
use argus_rs.Engine.Processor.Marks.{run_service_keeps_mark_behind, start_service}
use argus_rs.Providers.Fetcher.Blocks.{number_of}
use argus_rs.Engine.Processor.Sends.{dispatched_numbers, StaysClosed, MarkWithin}
use argus_rs.Engine.Processor.{run_service, BlockData, Env}
use argus_rs.Engine.Ingestor.{state_next}
use argus_rs.Base.{
  List, Option, arith, inl, inr, map, nat_key, run, some, string_key, true, ℕ, ◌+◌, ◌<◌, ◌^◌, ◌≡◌,
  ◌≤◌,
}

resumed :
    (last count current : ℕ) (after : Option ℕ)
    → last + count + 1 < 2 ^ 64
    → MarkWithin (last + 1) count (some last) after
    → (last + 1 ≤ state_next after current) × (state_next after current ≤ last + 1 + count)
unfolding state_next
resumed last count current after small (inl same) = rw same (omega arith, omega arith)
resumed last count current after small (inr (m, marked, low, high)) =
    rw marked (omega arith, omega arith)

-- Where the processor starts with block `last` as its mark and receives the blocks behind it one by
-- one, its blocking tasks all return and its channel stays closed once it is closed, the ingestor
-- resumes from its mark neither before the block behind `last` nor behind a block that was not
-- sent, while the numbers stay below 2^64.
pub restart_leaves_no_gap :
    (env : Env) (last n current : ℕ) (ds : List BlockData)
    → StaysClosed env
    → ((i : ℕ) → env.is_joined i ≡ true)
    → map number_of ds ≡ run (last + 1) n
    → last + n + 1 < 2 ^ 64
    → (count : ℕ) × (dispatched_numbers (run_service env ds (start_service (some last)))
        ≡ run (last + 1) count)
      × (last + 1
          ≤ state_next
              (run_service env ds (start_service (some last))).last_processed_block
              current)
      × (state_next (run_service env ds (start_service (some last))).last_processed_block current
          ≤ last + 1 + count)
restart_leaves_no_gap env last n current ds stays joins e small =
    let caught = run_service_keeps_mark_behind env (last + 1) n (some last) ds stays joins e in
    let (low, high) =
      resumed last caught.count current _ (omega (arith, caught.bounded)) caught.within in
    (caught.count, caught.numbers, low, high)
