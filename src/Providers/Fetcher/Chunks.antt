-- ===== src/Providers/Fetcher/Chunks.antt =====
-- The sub-ranges of a log fetch partition the range.
use argus_rs.Base.{
  run-add, ℕ, zero, suc, ◌+◌, ◌-◌, ◌*◌, ◌≤◌, ◌<◌, ◌^◌, ◌≡◌, sym, ap, ◌∙◌, List, [], ◌∷◌, ◌++◌, leb,
  u64, min, run, range, All, arith, append-nil, Bool-cases, leb→le, ltb, ltb→lt, inl, inr,
}
use argus_rs.Providers.Fetcher.{chunks_from, chunks}

abbrev pub blocks_of : List (ℕ × ℕ) → List ℕ
blocks_of [] = []
blocks_of ((start, end) ∷ rest) = range start end ++ blocks_of rest

range-split :
    (a b next c : ℕ) → next ≡ b + 1 → a ≤ next → b < c → range a c ≡ range a b ++ range next c
unfolding range
range-split a b next c e h k =
    ap (run a) l1
    ∙ run-add a (b + 1 - a) (c + 1 - next)
    ∙ ap (λ s. run a (b + 1 - a) ++ run s (c + 1 - next)) l2
  where
    l1 : c + 1 - a ≡ b + 1 - a + (c + 1 - next)
    l1 = omega arith

    l2 : a + (b + 1 - a) ≡ next
    l2 = omega arith

range_empty : (a b : ℕ) → b < a → range a b ≡ []
unfolding range
range_empty a b h = ap (run a) l
  where
    l : b + 1 - a ≡ 0
    l = omega arith

module _ (from_block to_block size : ℕ) (pos : 0 < size) (fits : to_block + size < 2 ^ 64) where
  cover_step :
      (start : ℕ)
      → start ≤ to_block
      → range start (min (u64 (start + size - 1)) to_block) ++ range (start + size) to_block
        ≡ range start to_block
  cover_step start h = elim (Bool-cases (ltb (start + size - 1) to_block)) [
    | inl inside ↦
        let e1 : min (u64 (start + size - 1)) to_block ≡ start + size - 1 = ground arith in
        rw e1 (
          sym (
            range-split start (start + size - 1) (start + size) to_block (omega arith) (omega arith)
              (ltb→lt _ _ inside)))
    | inr last ↦
        let e1 : min (u64 (start + size - 1)) to_block ≡ to_block = ground arith in
        rw (e1, range_empty (start + size) to_block (ground arith))
          (append-nil (range start to_block))
  ]

  chunks_from_cover :
      (fuel i start : ℕ)
      → start ≡ from_block + i * size
      → start ≤ to_block + size
      → to_block + 1 - start ≤ fuel
      → blocks_of (chunks_from fuel from_block to_block size i) ≡ range start to_block
  unfolding chunks_from
  chunks_from_cover zero i start e low enough = sym (range_empty start to_block (omega arith))
  chunks_from_cover (suc fuel) i start e low enough =
      let at : u64 (from_block + i * size) ≡ start = omega arith in
      rw at (elim (Bool-cases (leb start to_block)) [
        | inl more ↦ rw more (
            ap (λ l. range start (min (u64 (start + size - 1)) to_block) ++ l)
              (chunks_from_cover fuel (i + 1) (start + size) (omega arith) (ground arith)
                (omega arith))
            ∙ cover_step start (leb→le _ _ more))
        | inr done ↦ rw done (sym (range_empty start to_block (ground arith)))
      ])

-- The sub-ranges of a log fetch cover every block of the range once, in ascending order, for any
-- positive chunk size, while no bound passes 2^64.
pub chunks_cover :
    (from_block to_block size : ℕ)
    → 0 < size
    → from_block ≤ to_block
    → to_block + size < 2 ^ 64
    → blocks_of (chunks from_block to_block size) ≡ range from_block to_block
unfolding chunks
chunks_cover from_block to_block size pos h fits =
    chunks_from_cover from_block to_block size pos fits (suc (to_block - from_block)) 0 from_block
      (omega arith) (omega arith) (omega arith)

-- A sub-range that is not empty, does not leave the range, and holds at most `size` blocks.
abbrev pub ChunkFits : ℕ → ℕ → ℕ → ℕ × ℕ → Type 0
ChunkFits from_block to_block size (start, end) =
    (from_block ≤ start) × (start ≤ end) × (end ≤ to_block) × (end < start + size)

module _ (from_block to_block size : ℕ) (pos : 0 < size) (fits : to_block + size < 2 ^ 64) where
  chunks_from-fit :
      (fuel i : ℕ)
      → from_block + i * size ≤ to_block + size
      → All (ChunkFits from_block to_block size) (chunks_from fuel from_block to_block size i)
  unfolding chunks_from
  chunks_from-fit zero i low = tt
  chunks_from-fit (suc fuel) i low =
      let at : u64 (from_block + i * size) ≡ from_block + i * size = omega arith in
      rw at (elim (Bool-cases (leb (from_block + i * size) to_block)) [
        | inl more ↦ rw more (
          (omega arith, ground arith, omega arith, ground arith),
          chunks_from-fit fuel (i + 1) (ground arith),
        )
        | inr done ↦ rw done tt
      ])

-- No sub-range of a log fetch holds more than `size` blocks, and none is empty or leaves the
-- range, for any positive chunk size, while no bound passes 2^64.
chunks-fit :
    (from_block to_block size : ℕ)
    → 0 < size
    → from_block ≤ to_block
    → to_block + size < 2 ^ 64
    → All (ChunkFits from_block to_block size) (chunks from_block to_block size)
unfolding chunks
chunks-fit from_block to_block size pos h fits =
    chunks_from-fit from_block to_block size pos fits (suc (to_block - from_block)) 0 (omega arith)
