-- ===== src/Parity/Examples/Mirror.antt =====
-- Two versions of a payment that reach the table in two batches, the later version first.
use payments_cdc_pipeline.Prelude.{
  String, [], ◌∷◌, none, some, In, find, HasUniqueKeys, ◌≡◌, refl, ap, inl, inr,
}
use payments_cdc_pipeline.Change.{Change}
use payments_cdc_pipeline.Sql.{greater, holds}
use payments_cdc_pipeline.Job.Guard.{Exceeds}
use payments_cdc_pipeline.Job.Arrivals.{called}
use payments_cdc_pipeline.Job.Examples.Converge.{early, late, call, call_again, turned}
use payments_cdc_pipeline.Parity.{load_delta}
use payments_cdc_pipeline.Parity.Rows.{row_of}
use payments_cdc_pipeline.Parity.Mirror.{lake_mirrors_postgres}
use payments_cdc_pipeline.Parity.Log.{row_key, postgres, IsLog}

above_early : (d : Change) → In d (late ∷ []) → Exceeds d.lsn early.lsn
above_early d (inl e) = ap (λ (d : Change). holds (greater d.lsn early.lsn)) e
above_early d (inr m) = absurd m

pub log : IsLog (early ∷ late ∷ [])
log = ((5, refl), refl, above_early, ((7, refl), refl, (λ d m. absurd m), tt))

replayed : postgres (λ j. none) (early ∷ late ∷ []) "t1" ≡ some (row_of late)
replayed = refl

lake_mirrors_postgres_example :
    HasUniqueKeys row_key (load_delta (called (call 5 (early ∷ [])) call_again).table)
    × ((k : String)
        → find row_key k (load_delta (called (call 5 (early ∷ [])) call_again).table)
          ≡ postgres (λ j. none) (early ∷ late ∷ []) k)
lake_mirrors_postgres_example =
    lake_mirrors_postgres (early ∷ late ∷ []) refl turned (λ c. (λ i. i, λ i. i)) log
