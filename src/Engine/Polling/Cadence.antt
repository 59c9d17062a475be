-- ===== src/Engine/Polling/Cadence.antt =====
-- What the poll cadence and the calibrator promise.
use argus_rs.Base.{
  ℕ, ◌+◌, ◌-◌, ◌*◌, ◌/◌, ◌^◌, ◌<◌, false, Option, none, some, ◌≡◌, arith, List, [], ◌∷◌, All, refl,
  Option-cases, inl, inr, Bool-cases, ltb, ap, u32,
}
use mathlib.Core.Path.{subst}
use native.Mathlib.Nat.{div-eq_of_eq-mul_left}
use argus_rs.Engine.Polling.{
  BlockTimeCalibrator, calibrator, diverges, judge, observe, calibration_min_blocks,
}

-- A run of observations, each a time and a head; `none` is a panic in one of them.
unfoldable pub observe_all : BlockTimeCalibrator → List (ℕ × ℕ) → Option BlockTimeCalibrator
observe_all c [] = some c
observe_all c ((now, head) ∷ rest) = elim (observe c now head) [
  | none ↦ none
  | some c' ↦ observe_all c' rest
]

-- The chain as configured: block `h` arrives at `start + h * expected`.
abbrev pub OnTime : ℕ → ℕ → ℕ × ℕ → Type 0
OnTime start expected (now, head) = (now ≡ start + head * expected) × (head < 2 ^ 32)

abbrev SampleOnTime : ℕ → ℕ → Option (ℕ × ℕ) → Type 0
SampleOnTime start expected none = Unit
SampleOnTime start expected (some p) = OnTime start expected p

record OnTrack (start expected : ℕ) (c : BlockTimeCalibrator) : Type 0 where
  known : c.expected ≡ some expected
  quiet : c.warned ≡ false
  punctual : SampleOnTime start expected c.sample

-- With `delta` blocks in `delta * expected`, the observed block time is `expected`.
observed_exact :
    (start expected t0 h0 now head : ℕ)
    → OnTime start expected (t0, h0)
    → OnTime start expected (now, head)
    → 0 < head - h0
    → (now - t0) / u32 (head - h0) ≡ expected
observed_exact start expected t0 h0 now head a b pos =
    let gap : head ≡ h0 + (head - h0) = omega arith in
    rw (low (head - h0) (omega arith))
      (div-eq_of_eq-mul_left pos (omega (arith, ap (λ (t : ℕ). t * expected) gap)))
  where
    low : (n : ℕ) → n < 2 ^ 32 → u32 n ≡ n
    low n h = omega arith

steady_diverges :
    (expected : ℕ) → expected * 2 < 2 ^ 64 * 1_000_000_000 → diverges expected expected ≡ some false
unfolding diverges
steady_diverges expected h = ground arith

judge-OnTime :
    (start expected : ℕ) (c : BlockTimeCalibrator) (t0 h0 now head : ℕ)
    → c.warned ≡ false
    → expected * 2 < 2 ^ 64 * 1_000_000_000
    → OnTime start expected (t0, h0)
    → OnTime start expected (now, head)
    → ltb (head - h0) calibration_min_blocks ≡ false
    → judge c expected t0 (head - h0) now head
      ≡ some (record c { sample = some (now, head); warned = false })
unfolding judge
judge-OnTime start expected c t0 h0 now head quiet small a b due =
    let exact = observed_exact start expected t0 h0 now head a b (ground arith) in
    ground (arith, exact, steady_diverges expected small)

observe-OnTrack :
    (start expected : ℕ) (c : BlockTimeCalibrator) (now head : ℕ)
    → expected * 2 < 2 ^ 64 * 1_000_000_000
    → OnTrack start expected c
    → OnTime start expected (now, head)
    → (c' : BlockTimeCalibrator) × (observe c now head ≡ some c') × OnTrack start expected c'
unfolding observe
observe-OnTrack start expected c now head small track time = elim (Option-cases c.sample) [
  | inl first ↦ (
    record c { sample = some (now, head) },
    ground (arith, track.known),
    record { known = track.known; quiet = track.quiet; punctual = time },
  )
  | inr ((t0, h0), seen) ↦
      let earlier : OnTime start expected (t0, h0) =
        subst (SampleOnTime start expected) seen track.punctual in
      elim (Bool-cases (ltb (head - h0) calibration_min_blocks)) [
        | inl early ↦ (c, ground (arith, track.known, seen, early), track)
        | inr due ↦ (
          record c { sample = some (now, head); warned = false },
          ground (
            arith,
            track.known,
            seen,
            due,
            judge-OnTime start expected c t0 h0 now head track.quiet small earlier time,
          ),
          record { known = track.known; quiet = refl; punctual = time },
        )
      ]
]

observe_all_quiet :
    (start expected : ℕ) (c : BlockTimeCalibrator) (seen : List (ℕ × ℕ))
    → expected * 2 < 2 ^ 64 * 1_000_000_000
    → OnTrack start expected c
    → All (OnTime start expected) seen
    → (c' : BlockTimeCalibrator) × (observe_all c seen ≡ some c') × (c'.warned ≡ false)
unfolding observe_all
observe_all_quiet start expected c [] small track times = (c, refl, track.quiet)
observe_all_quiet start expected c ((now, head) ∷ rest) small track times =
    let (c1, step, track1) = observe-OnTrack start expected c now head small track times.0 in
    let (c2, all, quiet) = observe_all_quiet start expected c1 rest small track1 times.1 in
    (c2, rw (step, observe_all) all, quiet)

-- A calibrator that sees a chain with exactly the expected block time, at any heads below 2^32 and
-- in any order, never panics and never warns, while the doubled block time fits a `Duration`.
pub observe_all-calibrator_quiet :
    (start expected : ℕ) (seen : List (ℕ × ℕ))
    → expected * 2 < 2 ^ 64 * 1_000_000_000
    → All (OnTime start expected) seen
    → (c : BlockTimeCalibrator) × (observe_all (calibrator (some expected)) seen ≡ some c)
      × (c.warned ≡ false)
observe_all-calibrator_quiet start expected seen small times =
    observe_all_quiet start expected (calibrator (some expected)) seen small
      (record { known = refl; quiet = refl; punctual = tt }) times
