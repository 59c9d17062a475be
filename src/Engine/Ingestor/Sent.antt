-- ===== src/Engine/Ingestor/Sent.antt =====
-- What a part of a cycle sends.
use mathlib.Core.Path.{ap₂, subst}
use argus_rs.Base.{
  run-add, ℕ, ◌+◌, ◌≤◌, ◌<◌, ◌^◌, ◌≡◌, ◌≢◌, ◌⊎◌, inl, inr, refl, sym, ap, ◌∙◌, List, [], ◌∷◌, ◌++◌,
  map, arith, append_assoc, append-nil, run, ok, Result, u64,
}
use argus_rs.Core.Chain.{BlockData}
use argus_rs.Providers.Fetcher.Blocks.{number_of}
use argus_rs.Engine.Ingestor.{BlockIngestor, IngestError, Flow, finished, exhausted}

-- From `s` to `t` the blocks `from, …, from + k - 1` were sent, and the high-water mark is behind
-- the last of them.
pub record Sent (from_block k : ℕ) (s t : BlockIngestor) : Type 0 where
  pub blocks : List BlockData
  pub appended : t.sent ≡ s.sent ++ blocks
  pub numbers : map number_of blocks ≡ run from_block k
  pub mark : ((k ≡ 0) × (t.next_block ≡ s.next_block)) ⊎ ((0 < k) × (t.next_block ≡ from_block + k))
  pub config : t.config ≡ s.config

pub Sent-none :
    (from_block : ℕ) (s t : BlockIngestor)
    → t.sent ≡ s.sent
    → t.next_block ≡ s.next_block
    → t.config ≡ s.config
    → Sent from_block 0 s t
unfolding run
Sent-none from_block s t e n c = record {
  blocks = [];
  appended = e ∙ sym (append-nil s.sent);
  numbers = refl;
  mark = inl (refl, n);
  config = c;
}

pub map-append :
    (xs ys : List BlockData) → map number_of (xs ++ ys) ≡ map number_of xs ++ map number_of ys
map-append [] ys = refl
map-append (x ∷ xs) ys = ap (λ l. number_of x ∷ l) (map-append xs ys)

Sent-trans :
    (a j k : ℕ) (s t u : BlockIngestor) → Sent a j s t → Sent (a + j) k t u → Sent a (j + k) s u
Sent-trans a j k s t u p q = record {
  blocks = p.blocks ++ q.blocks;
  appended =
      q.appended ∙ ap (λ l. l ++ q.blocks) p.appended ∙ append_assoc s.sent p.blocks q.blocks;
  numbers =
      map-append p.blocks q.blocks ∙ ap₂ (λ l m. l ++ m) p.numbers q.numbers ∙ sym (run-add a j k);
  mark = mark_trans p.mark q.mark;
  config = q.config ∙ p.config;
}
  where
    mark_trans :
        ((j ≡ 0) × (t.next_block ≡ s.next_block)) ⊎ ((0 < j) × (t.next_block ≡ a + j))
        → ((k ≡ 0) × (u.next_block ≡ t.next_block)) ⊎ ((0 < k) × (u.next_block ≡ a + j + k))
        → ((j + k ≡ 0) × (u.next_block ≡ s.next_block))
          ⊎ ((0 < j + k) × (u.next_block ≡ a + (j + k)))
    mark_trans (inl (a0, b0)) (inl (c0, d0)) = inl (omega arith, omega arith)
    mark_trans (inl (a0, b0)) (inr (c0, d0)) = inr (omega arith, omega arith)
    mark_trans (inr (a0, b0)) (inl (c0, d0)) = inr (omega arith, omega arith)
    mark_trans (inr (a0, b0)) (inr (c0, d0)) = inr (omega arith, omega arith)

pub Sent-one :
    (d : BlockData) (a : ℕ) (s t : BlockIngestor)
    → number_of d ≡ a
    → a + 1 < 2 ^ 64
    → t.sent ≡ s.sent ++ d ∷ []
    → t.next_block ≡ u64 (d.block.number + 1)
    → t.config ≡ s.config
    → Sent a 1 s t
unfolding run
Sent-one d a s t e small appended mark config = record {
  blocks = d ∷ [];
  appended = appended;
  numbers = ap (λ n. n ∷ []) e;
  mark = inr (omega arith, omega arith);
  config = config;
}

-- From `s` a loop over the blocks `from, …, from + n - 1` ends as `out`: it has sent the first of
-- them, and all of them if it ends by its own test. It does not run out of fuel.
pub record Progress (from_block n : ℕ) (s : BlockIngestor)
    (out : Result IngestError Flow × BlockIngestor) : Type 0 where
  pub count : ℕ
  pub sent : Sent from_block count s out.1
  pub bounded : count ≤ n
  pub complete : out.0 ≡ ok finished → count ≡ n
  pub fuelled : out.0 ≢ ok exhausted

pub Progress-none :
    (a n : ℕ) (s : BlockIngestor) (out : Result IngestError Flow × BlockIngestor)
    → out.1.sent ≡ s.sent
    → out.1.next_block ≡ s.next_block
    → out.1.config ≡ s.config
    → out.0 ≢ ok finished
    → out.0 ≢ ok exhausted
    → Progress a n s out
Progress-none a n s out e m c unfinished fuelled = record {
  count = 0;
  sent = Sent-none a s out.1 e m c;
  bounded = omega arith;
  complete = λ h. absurd (unfinished h);
  fuelled = fuelled;
}

pub Progress-after :
    (a b j n m : ℕ) (s t : BlockIngestor) (out : Result IngestError Flow × BlockIngestor)
    → b ≡ a + j
    → m ≡ j + n
    → Sent a j s t
    → Progress b n t out
    → Progress a m s out
Progress-after a b j n m s t out e f first rest = record {
  count = j + rest.count;
  sent =
      Sent-trans a j rest.count s t out.1 first
        (subst (λ x. Sent x rest.count t out.1) e rest.sent);
  bounded = omega arith;
  complete = λ h. omega (arith, rest.complete h);
  fuelled = rest.fuelled;
}
