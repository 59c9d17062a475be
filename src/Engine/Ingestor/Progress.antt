-- ===== src/Engine/Ingestor/Progress.antt =====
-- One cycle sends a run of consecutive blocks.
use mathlib.Core.Path.{subst}
use argus_rs.Base.{
  leb→le, ◌>>=◌, continue, Exec, ℕ, zero, suc, ◌+◌, ◌-◌, ◌≤◌, ◌<◌, ◌^◌, ◌≡◌, inl, inr, refl, ap,
  ◌∙◌, List, [], ◌∷◌, map, arith, run, range, ok, err, Result, u64, Result-cases, Bool-cases, leb,
  min, cons_head, cons_tail,
}
use argus_rs.Core.Chain.{BlockData}
use argus_rs.Providers.Fetcher.{fetch_blocks_concurrent}
use argus_rs.Providers.Fetcher.Blocks.{IsNumbered, number_of, fetch_blocks_concurrent-IsWhole}
use argus_rs.Engine.Ingestor.{
  Env, BlockIngestor, IngestError, Flow, finished, returned, exhausted, poll, send_batch, drain,
  resume,
}
use argus_rs.Engine.Ingestor.Sent.{
  Sent, Sent-none, Sent-one, Progress, Progress-none, Progress-after,
}

-- A batch of the blocks `from, …, from + n - 1`.
pub send_batch-Progress :
    (env : Env) (ds : List BlockData) (from_block n : ℕ) (s : BlockIngestor)
    → map number_of ds ≡ run from_block n
    → from_block + n < 2 ^ 64
    → Progress from_block n s (send_batch env ds s)
unfolding send_batch run
send_batch-Progress env [] a zero s e h = record {
  count = 0;
  sent = Sent-none a s s refl refl refl;
  bounded = omega arith;
  complete = λ _. refl;
  fuelled = λ x. cc;
}
send_batch-Progress env [] a (suc n) s e h = cc
send_batch-Progress env (d ∷ ds) a zero s e h = cc
send_batch-Progress env (d ∷ ds) a (suc n) s e h = elim (Bool-cases (env.is_cancelled s.polls)) [
  | inl stop ↦ rw stop (Progress-none a (suc n) s _ refl refl refl (λ x. cc) (λ x. cc))
  | inr more ↦ elim (Bool-cases (env.is_delivered s.sends)) [
    | inr closed ↦
        rw (more, closed) (Progress-none a (suc n) s _ refl refl refl (λ x. cc) (λ x. cc))
    | inl sent ↦
        rw (more, sent)
          (Progress-after a (a + 1) 1 n (suc n) s _ _ refl (omega arith)
            (Sent-one d a s _ (cons_head e) (omega arith) refl refl refl)
            (send_batch-Progress env ds (a + 1) n _ (cons_tail e) (omega arith)))
  ]
]

resume-Progress :
    (a b j n m : ℕ) (s t : BlockIngestor) (r : Result IngestError Flow)
    (rest : Exec BlockIngestor IngestError Flow)
    → b ≡ a + j
    → m ≡ j + n
    → Progress a j s (r, t)
    → (t.config ≡ s.config → Progress b n t (rest t))
    → Progress a m s (continue r (λ flow. resume flow rest) t)
resume-Progress a b j n m s t (err x) rest e f p more = record {
  count = p.count;
  sent = p.sent;
  bounded = omega arith;
  complete = λ h. cc;
  fuelled = λ h. cc;
}
resume-Progress a b j n m s t (ok returned) rest e f p more = record {
  count = p.count;
  sent = p.sent;
  bounded = omega arith;
  complete = λ h. cc;
  fuelled = λ h. cc;
}
resume-Progress a b j n m s t (ok exhausted) rest e f p more = absurd (p.fuelled refl)
resume-Progress a b j n m s t (ok finished) rest e f p more =
    Progress-after a b j n m s t (rest t) e f (subst (λ k. Sent a k s t) (p.complete refl) p.sent)
      (more p.sent.config)

abbrev polled : BlockIngestor → BlockIngestor
polled s = record s { polls = s.polls + 1 }

-- One round of the loop, once its batch is there, with the rest of the loop.
module _ (env : Env) (a safe chunk : ℕ) (s : BlockIngestor) where
  abbrev chunk_end : ℕ
  chunk_end = min (u64 (a + s.config.block_chunk_size)) safe

  round-Progress :
      (batch : List BlockData) (rest : Exec BlockIngestor IngestError Flow)
      → IsNumbered env.source
      → s.config.block_chunk_size ≡ chunk
      → a ≤ safe
      → safe + chunk + 1 < 2 ^ 64
      → fetch_blocks_concurrent env.source env.gather env.needs_receipts a chunk_end
          (record { log_chunk_size = s.config.log_chunk_size })
        ≡ ok batch
      → ((t : BlockIngestor)
          → t.config ≡ s.config
          → Progress (u64 (chunk_end + 1)) (safe + 1 - u64 (chunk_end + 1)) t (rest t))
      → Progress a (safe + 1 - a) s ((send_batch env batch >>= λ flow. resume flow rest) (polled s))
  unfolding range
  round-Progress batch rest numbered c more small good later =
      let whole =
        (fetch_blocks_concurrent-IsWhole env.source env.gather env.needs_receipts a chunk_end _
          batch numbered good).2 in
      let out = send_batch env batch (polled s) in
      Progress-after a a 0 (safe + 1 - a) (safe + 1 - a) s (polled s) _ (omega arith) (omega arith)
        (Sent-none a s (polled s) refl refl refl)
        (resume-Progress a (u64 (chunk_end + 1)) (chunk_end + 1 - a)
          (safe + 1 - u64 (chunk_end + 1)) (safe + 1 - a) (polled s) out.1 out.0 rest (omega arith)
          (omega arith)
          (send_batch-Progress env batch a (chunk_end + 1 - a) (polled s) whole.numbers
            (omega arith))
          (later out.1))

-- The fetch loop, from a block up to the safe head.
pub drain-Progress :
    (env : Env) (fuel from_block safe_to_block chunk : ℕ) (s : BlockIngestor)
    → IsNumbered env.source
    → s.config.block_chunk_size ≡ chunk
    → from_block ≤ safe_to_block + 1
    → safe_to_block + chunk + 1 < 2 ^ 64
    → safe_to_block + 1 - from_block < fuel
    → Progress from_block
        (safe_to_block + 1 - from_block)
        s
        (drain fuel env from_block safe_to_block s)
unfolding drain poll
drain-Progress env zero a safe chunk s numbered c low small enough = absurd (omega arith)
drain-Progress env (suc fuel) a safe chunk s numbered c low small enough =
    let to = min (u64 (a + s.config.block_chunk_size)) safe in
    elim (Bool-cases (leb a safe)) [
      | inr past ↦ rw past (record {
        count = 0;
        sent = Sent-none a s s refl refl refl;
        bounded = omega arith;
        complete = λ _. ground arith;
        fuelled = λ x. cc;
      })
      | inl more ↦ rw more (elim (Bool-cases (env.is_cancelled s.polls)) [
        | inl stop ↦ rw stop (Progress-none a _ s _ refl refl refl (λ x. cc) (λ x. cc))
        | inr on ↦
            rw on
              (elim (Result-cases (
                fetch_blocks_concurrent env.source env.gather env.needs_receipts a to
                  (record { log_chunk_size = s.config.log_chunk_size }))) [
                    | inr (x, bad) ↦
                        rw bad (Progress-none a _ s _ refl refl refl (λ x. cc) (λ x. cc))
                    | inl (batch, good) ↦ rw good (
                        round-Progress env a safe chunk s batch (drain fuel env (u64 (to + 1)) safe)
                          numbered c (leb→le _ _ more) small good
                          λ t same.
                            drain-Progress env fuel (u64 (to + 1)) safe chunk t numbered
                              (ap (λ k. k.block_chunk_size) same ∙ c) (ground arith) small
                              (ground arith))
                  ])
      ])
    ]
