-- ===== src/Providers/Fetcher/Blocks.antt =====
-- What a successful fetch of a range holds: every block once, in order, with its own logs.
use argus_rs.Base.{
  Result, ℕ, zero, suc, ◌+◌, ◌-◌, ◌≤◌, ◌≡◌, refl, sym, ap, ◌∙◌, Bool, List, [], ◌∷◌, map, run,
  range, All, keep, arith, ok, Result-cases, cons_head, cons_tail, HashMap, get, get-remove,
  nat_key, Bool-cases, inl, inr, not, ◌&&◌, is_empty,
}
use mathlib.Core.List.{flat_map}
use argus_rs.Core.Chain.{Block, BlockData, Log, Receipt, group_from, hashes, from_raw_data}
use argus_rs.Core.Chain.Grouping.{or_empty, has_key, group_from_lem}
use argus_rs.Core.Errors.{DataSourceError}
use argus_rs.Providers.Source.{DataSource}
use argus_rs.Providers.Fetcher.{
  FetchConfig, Gather, collect, combine, insert_sorted, sort_by_number, fetch_blocks_only,
  fetch_logs_chunked, fetch_blocks_concurrent,
}

abbrev pub number_of : BlockData → ℕ
number_of d = d.block.number

abbrev pub block_number_of : Block → ℕ
block_number_of b = b.number

-- The node answers a request for block `n` with block `n`.
abbrev pub IsNumbered : DataSource → Type 0
IsNumbered source = (n : ℕ) (b : Block) → source.fetch_block_only n ≡ ok b → b.number ≡ n

-- The logs of `range_logs` that stand in the transaction `h` of block `d`, in order.
abbrev pub HasItsLogs : List Log → BlockData → Type 0
HasItsLogs range_logs d =
    (h : ℕ)
    → or_empty (get d.logs h)
      ≡ keep (λ (l : Log). has_key l.transaction_hash h)
          (keep (λ (l : Log). has_key l.block_number d.block.number) range_logs)

collect-numbered :
    (source : DataSource) (numbers : List ℕ) (blocks : List Block)
    → IsNumbered source
    → collect (map source.fetch_block_only numbers) ≡ ok blocks
    → map block_number_of blocks ≡ numbers
unfolding collect
collect-numbered source [] blocks numbered h = ground arith
collect-numbered source (n ∷ rest) blocks numbered h =
    elim (Result-cases (source.fetch_block_only n)) [
      | inr (e, bad) ↦ ground (arith, bad)
      | inl (b, good) ↦ elim (Result-cases (collect (map source.fetch_block_only rest))) [
        | inr (e, bad) ↦ ground (arith, good, bad)
        | inl (bs, ih) ↦
            let whole : blocks ≡ b ∷ bs = ground (arith, good, ih) in
            rw whole
              (ground (arith, numbered n b good, collect-numbered source rest bs numbered ih))
      ]
    ]

combine-number :
    (blocks : List Block) (m : HashMap ℕ (List Log)) (r : HashMap ℕ Receipt)
    → map number_of (combine blocks m r) ≡ map block_number_of blocks
unfolding combine from_raw_data
combine-number [] m r = refl
combine-number (b ∷ bs) m r = ap (λ l. b.number ∷ l) (combine-number bs _ _)

insert_first :
    (d : BlockData) (ds : List BlockData) (a n : ℕ)
    → number_of d ≡ a
    → map number_of ds ≡ run (a + 1) n
    → insert_sorted d ds ≡ d ∷ ds
unfolding insert_sorted run
insert_first d [] a n h t = refl
insert_first d (y ∷ ys) a zero h t = cc
insert_first d (y ∷ ys) a (suc n) h t = let next : number_of y ≡ a + 1 = cons_head t in ground arith

sort_by_number-run :
    (ds : List BlockData) (a n : ℕ) → map number_of ds ≡ run a n → sort_by_number ds ≡ ds
unfolding sort_by_number run
sort_by_number-run [] a n h = refl
sort_by_number-run (d ∷ ds) a zero h = cc
sort_by_number-run (d ∷ ds) a (suc n) h =
    rw (sort_by_number-run ds (a + 1) n (cons_tail h))
      (insert_first d ds a n (cons_head h) (cons_tail h))

combine-logs :
    (range_logs : List Log) (blocks : List Block) (m : HashMap ℕ (List Log)) (r : HashMap ℕ Receipt)
    (a n : ℕ)
    → map block_number_of blocks ≡ run a n
    → ((k : ℕ)
        → a ≤ k
        → or_empty (get m k) ≡ keep (λ (l : Log). has_key l.block_number k) range_logs)
    → All (HasItsLogs range_logs) (combine blocks m r)
unfolding combine from_raw_data run get
combine-logs range_logs [] m r a n e h = tt
combine-logs range_logs (b ∷ bs) m r a zero e h = cc
combine-logs range_logs (b ∷ bs) m r a (suc n) e h =
    let first : b.number ≡ a = cons_head e in
    (
      λ k.
          group_from_lem _ _ [] k
          ∙ ap (keep (λ (l : Log). has_key l.transaction_hash k)) (h b.number (omega arith)),
      combine-logs range_logs bs _ _ (a + 1) n (cons_tail e)
          λ k low. ground (arith, get-remove m b.number k, h k (omega arith)),
    )

combine-block :
    (blocks : List Block) (m : HashMap ℕ (List Log)) (r : HashMap ℕ Receipt)
    → map (λ (d : BlockData). d.block) (combine blocks m r) ≡ blocks
unfolding combine from_raw_data
combine-block [] m r = refl
combine-block (b ∷ bs) m r = ap (λ l. b ∷ l) (combine-block bs _ _)

-- A range that was fetched whole: its blocks are the node's answers, each has its own number, they
-- stand in ascending order, and each holds the range's logs of each of its transactions.
pub record IsWhole (source : DataSource) (from_block to_block : ℕ) (range_logs : List Log)
    (out : List BlockData) : Type 0 where
  pub answers :
      fetch_blocks_only source from_block to_block ≡ ok (map (λ (d : BlockData). d.block) out)
  pub numbers : map number_of out ≡ range from_block to_block
  pub logs : All (HasItsLogs range_logs) out

combined-IsWhole :
    (source : DataSource) (from_block to_block : ℕ) (range_logs : List Log) (blocks : List Block)
    (r : HashMap ℕ Receipt)
    → IsNumbered source
    → fetch_blocks_only source from_block to_block ≡ ok blocks
    → IsWhole source from_block to_block range_logs
        (sort_by_number (combine blocks (group_from (λ (l : Log). l.block_number) range_logs []) r))
unfolding fetch_blocks_only range get
combined-IsWhole source from_block to_block range_logs blocks r numbered h =
    let m = group_from (λ (l : Log). l.block_number) range_logs [] in
    let nums = collect-numbered source (range from_block to_block) blocks numbered h in
    let sorted =
      sort_by_number-run (combine blocks m r) from_block (to_block + 1 - from_block)
        (combine-number blocks m r ∙ nums) in
    rw sorted (record {
      answers = h ∙ ap ok (sym (combine-block blocks m r));
      numbers = combine-number blocks m r ∙ nums;
      logs =
          combine-logs range_logs blocks m r from_block (to_block + 1 - from_block) nums
            λ k low. group_from_lem _ range_logs [] k;
    })

-- The receipts that a successful fetch combines, whether it asked for any or not.
received :
    (source : DataSource) (gather : Gather) (needs_receipts : Bool) (from_block to_block : ℕ)
    (cfg : FetchConfig) (out : List BlockData) (range_logs : List Log) (blocks : List Block)
    → fetch_logs_chunked source gather from_block to_block cfg.log_chunk_size ≡ ok range_logs
    → fetch_blocks_only source from_block to_block ≡ ok blocks
    → fetch_blocks_concurrent source gather needs_receipts from_block to_block cfg ≡ ok out
    → (r : HashMap ℕ Receipt) × (out
        ≡ sort_by_number
            (combine blocks (group_from (λ (l : Log). l.block_number) range_logs []) r))
unfolding fetch_blocks_concurrent
received source gather needs_receipts from_block to_block cfg out range_logs blocks got fetched h =
    let asked = flat_map (λ (b : Block). hashes b.transactions) blocks in
    elim (Bool-cases (needs_receipts && not (is_empty asked))) [
      | inr none_needed ↦ ([], ground (arith, got, fetched, none_needed))
      | inl needed ↦ elim (Result-cases (source.fetch_receipts asked)) [
        | inl (r, e) ↦ (r, ground (arith, got, fetched, needed, e))
        | inr (x, e) ↦ ground (arith, got, fetched, needed, e)
      ]
    ]

-- Where `fetch_blocks_concurrent` succeeds, for a node that numbers its blocks, it returns every
-- block of the range once and in ascending order, as the node answered it, each with exactly the
-- logs of the range fetch that carry its number and one of its transactions, in order.
pub fetch_blocks_concurrent-IsWhole :
    (source : DataSource) (gather : Gather) (needs_receipts : Bool) (from_block to_block : ℕ)
    (cfg : FetchConfig) (out : List BlockData)
    → IsNumbered source
    → fetch_blocks_concurrent source gather needs_receipts from_block to_block cfg ≡ ok out
    → (range_logs : List Log) × (fetch_logs_chunked source gather from_block to_block
          cfg.log_chunk_size
        ≡ ok range_logs)
      × IsWhole source from_block to_block range_logs out
unfolding fetch_blocks_concurrent
fetch_blocks_concurrent-IsWhole source gather needs_receipts from_block to_block cfg out numbered
      h =
    elim (Result-cases (fetch_logs_chunked source gather from_block to_block cfg.log_chunk_size)) [
      | inr (e, bad) ↦ ground (arith, bad)
      | inl (range_logs, got) ↦ elim (Result-cases (fetch_blocks_only source from_block to_block)) [
        | inr (e, bad) ↦ ground (arith, got, bad)
        | inl (blocks, fetched) ↦
            let (r, e) =
              received source gather needs_receipts from_block to_block cfg out range_logs blocks
                got fetched h in
            (
              range_logs,
              got,
              rw e (
                  combined-IsWhole source from_block to_block range_logs blocks r numbered fetched),
            )
      ]
    ]

-- Requests that all succeed are collected whole.
pub collect_all_ok :
    {A B : Type 0} (f : A → Result DataSourceError B) (g : A → B) (xs : List A)
    → ((x : A) → f x ≡ ok (g x))
    → collect (map f xs) ≡ ok (map g xs)
unfolding collect
collect_all_ok f g [] h = refl
collect_all_ok f g (x ∷ xs) h = rw (h x, collect_all_ok f g xs h)
