-- ===== src/Replay/Examples.antt =====
-- The test of the guard of scripts/chaos/replay_offsets.py, on two versions of a payment that came in two batches.
use payments_cdc_pipeline.Prelude.{[], ◌∷◌, true, false, HasUniqueKeys, ◌≡◌}
use payments_cdc_pipeline.Exec.{acknowledged}
use payments_cdc_pipeline.Validator.Gate.{validate_exact}
use payments_cdc_pipeline.Job.{World, process_batch}
use payments_cdc_pipeline.Job.Merge.{entry_key}
use payments_cdc_pipeline.Job.Batch.{process_batch-Concluded}
use payments_cdc_pipeline.Job.Arrivals.{called}
use payments_cdc_pipeline.Job.Named.{Named, process_batch-Named}
use payments_cdc_pipeline.Job.Examples.{fresh-keys}
use payments_cdc_pipeline.Job.Examples.Data.{env_with, fresh}
use payments_cdc_pipeline.Job.Examples.Converge.{early, late, call, call_again, turned}
use payments_cdc_pipeline.Replay.{run_lsn_guard_test}
use payments_cdc_pipeline.Replay.Guard.{AreOld, lsn_guard_test_passes}

abbrev loaded : World
loaded = called (call 5 (early ∷ [])) call_again

call_again-keys : HasUniqueKeys entry_key call_again.table
call_again-keys =
    (process_batch-Concluded (env_with acknowledged) 4 true (late ∷ []) fresh fresh-keys).0

loaded-keys : HasUniqueKeys entry_key loaded.table
loaded-keys =
    (process_batch-Concluded (env_with acknowledged) 5 true (early ∷ []) call_again
      call_again-keys).0

loaded-Named : Named loaded
loaded-Named =
    process_batch-Named (env_with acknowledged) 5 true (early ∷ []) call_again
      (process_batch-Named (env_with acknowledged) 4 true (late ∷ []) fresh (λ e i. absurd i))

both-AreOld : AreOld (env_with acknowledged) (early ∷ late ∷ []) loaded (early ∷ late ∷ [])
both-AreOld ids frames p q c i =
    (((validate_exact (env_with acknowledged).rlike ids (early ∷ late ∷ []) frames.0 frames.1 q).0
        c).0
      i).0

lsn_guard_test_passes_example :
    ((run_lsn_guard_test (env_with acknowledged) (early ∷ late ∷ []) loaded).0
      ≡ (process_batch (env_with acknowledged) 999999999 false (early ∷ late ∷ []) loaded).0)
    × ((run_lsn_guard_test (env_with acknowledged) (early ∷ late ∷ []) loaded).1.ledger
        ≡ loaded.ledger)
lsn_guard_test_passes_example =
    lsn_guard_test_passes (env_with acknowledged) (early ∷ late ∷ []) turned loaded-keys
      loaded-Named both-AreOld
