-- ===== src/Engine/Processor/Batches.antt =====
-- What a batch that takes the whole buffer leaves.
use argus_rs.Providers.Fetcher.Blocks.{number_of}
use argus_rs.Engine.Processor.Sending.{sent-Inv, Inv}
use argus_rs.Engine.Processor.Sends.{
  send_all-Sending, send_all-closed, MarkWithin, dispatched_numbers, correlated_number, StaysClosed,
}
use argus_rs.Engine.Processor.{
  record_mark, send_all, CorrelatedBlockData, MonitorAssetState, BlockProcessor, BlockData,
  process_blocks_batch, process_block, process_and_dispatch, Env,
}
use mathlib.Core.Path.{subst}
use argus_rs.Base.{
  List, Option, [], ap, false, inl, inr, length, map, nat_key, none, refl, run, some, string_key,
  sym, true, ℕ, ◌+◌, ◌∙◌, ◌∷◌, ◌≡◌, ◌≤◌,
}

correlated_numbers :
    (snapshot : MonitorAssetState) (ds : List BlockData)
    → map correlated_number (map (process_block snapshot) ds) ≡ map number_of ds
unfolding process_block
correlated_numbers snapshot [] = refl
correlated_numbers snapshot (d ∷ ds) = ap (λ l. number_of d ∷ l) (correlated_numbers snapshot ds)

-- A batch whose task returns has its blocks' numbers.
batch_joined :
    (env : Env) (ds : List BlockData) (s : BlockProcessor)
    → ((i : ℕ) → env.is_joined i ≡ true)
    → (cs : List CorrelatedBlockData) × (process_blocks_batch env ds s ≡ some cs)
      × (map correlated_number cs ≡ map number_of ds)
unfolding process_blocks_batch
batch_joined env [] s joins = ([], refl, refl)
batch_joined env (d ∷ ds) s joins = (
  map (process_block (env.snapshot s.batches)) (d ∷ ds),
  rw (joins s.batches) refl,
  correlated_numbers (env.snapshot s.batches) (d ∷ ds),
)

-- The count of batches does not matter.
counted-Inv :
    (env : Env) (first n b : ℕ) (before : Option ℕ) (s : BlockProcessor)
    → Inv env first n before s
    → Inv env first n before (record s { batches = b })
counted-Inv env first n b before s i = record {
  count = i.count;
  numbers = i.numbers;
  received = i.received;
  within = i.within;
}

process_and_dispatch-Inv :
    (env : Env) (first k j : ℕ) (before : Option ℕ) (ds : List BlockData) (s : BlockProcessor)
    → StaysClosed env
    → ((i : ℕ) → env.is_joined i ≡ true)
    → s.block_buffer ≡ []
    → dispatched_numbers s ≡ run first k
    → MarkWithin first k before s.last_processed_block
    → map number_of ds ≡ run (first + k) j
    → Inv env first (k + j) before (process_and_dispatch env ds s)
unfolding process_and_dispatch
process_and_dispatch-Inv env first k j before ds s stays joins empty e w f =
    let (cs, good, numbers) = batch_joined env ds s joins in
    let out = send_all env cs none s in
    rw (good, process_and_dispatch)
      (counted-Inv env first (k + j) _ before (record_mark env out) (
        sent-Inv env first k j before s out.0 out.1 empty e w
          (send_all-Sending env cs (first + k) j none s stays (numbers ∙ f))))

process_and_dispatch-closed :
    (env : Env) (first k n : ℕ) (before : Option ℕ) (ds : List BlockData) (s : BlockProcessor)
    → StaysClosed env
    → ((i : ℕ) → env.is_joined i ≡ true)
    → dispatched_numbers s ≡ run first k
    → MarkWithin first k before s.last_processed_block
    → env.is_delivered s.sends ≡ false
    → k ≤ n
    → Inv env first n before (process_and_dispatch env ds s)
unfolding process_and_dispatch
process_and_dispatch-closed env first k n before ds s stays joins e w closed small =
    let (cs, good, numbers) = batch_joined env ds s joins in
    let (closed', same, mark) = send_all-closed env cs s stays closed in
    rw (good, process_and_dispatch)
      (record {
        count = k;
        numbers = ap (map correlated_number) same ∙ e;
        received = inr (small, closed');
        within = subst (λ m. MarkWithin first k before m) (sym mark) w;
      })

-- A batch that takes the whole buffer, with what was received.
pub buffered-Inv :
    (env : Env) (first n : ℕ) (before : Option ℕ) (ds : List BlockData) (s : BlockProcessor)
    → StaysClosed env
    → ((i : ℕ) → env.is_joined i ≡ true)
    → Inv env first n before (record s { block_buffer = ds })
    → Inv env first n before (process_and_dispatch env ds (record s { block_buffer = [] }))
buffered-Inv env first n before ds s stays joins i = elim i.received [
  | inl (counts, f) ↦
      subst
        (λ m. Inv env first m before (process_and_dispatch env ds (record s { block_buffer = [] })))
        counts
        (process_and_dispatch-Inv env first i.count (length ds) before ds _ stays joins refl
          i.numbers i.within f)
  | inr (small, closed) ↦
      process_and_dispatch-closed env first i.count n before ds _ stays joins i.numbers i.within
        closed small
]
