-- ===== src/Engine/Polling/Samples.antt =====
-- The polling cadence and the calibrator at concrete inputs, after the tests of polling.rs.
use argus_rs.Base.{ℕ, ◌*◌, ◌≡◌, refl, true, false, some, [], ◌∷◌, arith}
use argus_rs.Core.Config.{AppConfig}
use argus_rs.Engine.Polling.{BlockTimeCalibrator, calibrator, diverges, observe}
use argus_rs.Engine.Polling.Cadence.{observe_all, observe_all-calibrator_quiet}

abbrev second : ℕ
second = 1_000_000_000

abbrev config : AppConfig
config = record {
  network_id = "testnet";
  block_chunk_size = 5;
  log_chunk_size = 2000;
  concurrency = 8;
  polling_interval_ms = 10 * second;
  expected_block_time_ms = some (2 * second);
  confirmation_blocks = 12;
}

-- Six blocks in 120 seconds, where two seconds each were expected.
warns_on_divergence :
    observe_all
      (calibrator (some (2 * second)))
      ((0, 100) ∷ (100 * second, 102) ∷ (120 * second, 106) ∷ [])
    ≡ some
        (record { expected = some (2 * second); sample = some (120 * second, 106); warned = true })
unfolding observe_all observe diverges
warns_on_divergence = refl

observe_all-calibrator_quiet_example :
    (c : BlockTimeCalibrator) × (observe_all
        (calibrator (some (2 * second)))
        ((200 * second, 100) ∷ (208 * second, 104) ∷ [])
      ≡ some c)
    × (c.warned ≡ false)
observe_all-calibrator_quiet_example =
    observe_all-calibrator_quiet 0 (2 * second) ((200 * second, 100) ∷ (208 * second, 104) ∷ [])
      (omega arith) (omega arith)
