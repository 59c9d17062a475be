-- ===== src/Engine/Polling.antt =====
-- crates/argus-engine/src/polling.rs. Durations are counted in nanoseconds; `none` is a panic, on
-- an overflow of `Duration` or a division by zero.
pub mod Cadence
mod Samples
use argus_rs.Base.{
  ℕ, ◌-◌, ◌*◌, ◌/◌, ◌^◌, min, max, Bool, true, false, Option, none, some, ltb, u32, ◌==◌, nat_key,
  if◌then◌else◌,
}
use argus_rs.Core.Config.{AppConfig}

-- 250 milliseconds.
abbrev pub min_live_poll_interval : ℕ
min_live_poll_interval = 250_000_000

abbrev pub calibration_min_blocks : ℕ
calibration_min_blocks = 4

abbrev pub calibration_divergence_factor : ℕ
calibration_divergence_factor = 2

-- `live_poll_interval` of the expected block time and the polling interval.
unfoldable pub live_poll_interval : AppConfig → ℕ
live_poll_interval config = elim config.expected_block_time_ms [
  | some block_time ↦ min (max block_time min_live_poll_interval) config.polling_interval_ms
  | none ↦ config.polling_interval_ms
]

pub record BlockTimeCalibrator : Type 0 where
  pub expected : Option ℕ
  pub sample : Option (ℕ × ℕ)
  pub warned : Bool

-- `BlockTimeCalibrator::new`
abbrev pub calibrator : Option ℕ → BlockTimeCalibrator
calibrator expected = record { expected = expected; sample = none; warned = false }

-- `Duration` holds at most 2^64 seconds, and panics past that.
unfoldable pub mul_duration : ℕ → ℕ → Option ℕ
mul_duration d k = if ltb (d * k) (2 ^ 64 * 1_000_000_000) then some (d * k) else none

-- `a * factor < b || c > d * factor`, the second product being computed only if the first test
-- fails.
unfoldable pub diverges : ℕ → ℕ → Option Bool
unfolding mul_duration
diverges observed expected = elim (mul_duration observed calibration_divergence_factor) [
  | none ↦ none
  | some doubled ↦
      if ltb doubled expected
      then some true
      else elim (mul_duration expected calibration_divergence_factor) [
        | none ↦ none
        | some limit ↦ some (ltb limit observed)
      ]
]

-- The part of `observe` behind its early returns.
unfoldable pub judge : BlockTimeCalibrator → ℕ → ℕ → ℕ → ℕ → ℕ → Option BlockTimeCalibrator
judge c expected t0 delta now head =
    if u32 delta == 0
    then none
    else let next = record c { sample = some (now, head) } in
      if c.warned then some next else elim (diverges ((now - t0) / u32 delta) expected) [
        | none ↦ none
        | some far ↦ some (record next { warned = far })
      ]

-- `head.saturating_sub(h0)` is the truncated difference.
unfoldable pub observe : BlockTimeCalibrator → ℕ → ℕ → Option BlockTimeCalibrator
unfolding judge
observe c now head = elim c.expected [
  | none ↦ some c
  | some expected ↦ elim c.sample [
    | none ↦ some (record c { sample = some (now, head) })
    | some (t0, h0) ↦
        if ltb (head - h0) calibration_min_blocks
        then some c
        else judge c expected t0 (head - h0) now head
  ]
]
