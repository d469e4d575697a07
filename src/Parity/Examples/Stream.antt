-- ===== src/Parity/Examples/Stream.antt =====
-- Two versions of a payment, streamed in two batches, and the table of Postgres that has the later one.
use payments_cdc_pipeline.Prelude.{
  String, [], ◌∷◌, none, some, In, HasUniqueKeys, text_eq, Bool-cases, ◌≡◌, refl, ap, inl, inr,
  arith,
}
use payments_cdc_pipeline.Job.Arrivals.{called}
use payments_cdc_pipeline.Job.Examples.Converge.{early, late, call, call_again, turned}
use payments_cdc_pipeline.Parity.{Row, Verdict, check_parity}
use payments_cdc_pipeline.Parity.Rows.{row_of}
use payments_cdc_pipeline.Parity.Log.{row_key}
use payments_cdc_pipeline.Parity.Stream.{IsTable, streamed_passes}
use payments_cdc_pipeline.Parity.Examples.Mirror.{log}

unique : HasUniqueKeys row_key (row_of late ∷ [])
unique k = elim (Bool-cases (text_eq k "t1")) [
  | inl t ↦ rw t (omega arith)
  | inr f ↦ rw f (omega arith)
]

named : (p : Row) → In p (row_of late ∷ []) → (k : String) × (p.transaction_id ≡ some k)
named p (inl e) = ("t1", ap (λ (p : Row). p.transaction_id) e)
named p (inr m) = absurd m

table : IsTable (early ∷ late ∷ []) (row_of late ∷ [])
table = record {
  unique = unique;
  named = named;
  current = λ k. elim (Bool-cases (text_eq k "t1")) [ inl t ↦ rw t refl | inr f ↦ rw f refl ];
}

streamed_passes_example :
    check_parity 0 (row_of late ∷ []) (called (call 5 (early ∷ [])) call_again).table none
    ≡ Verdict.pass
streamed_passes_example =
    streamed_passes (early ∷ late ∷ []) (row_of late ∷ []) none refl turned (λ c. (λ i. i, λ i. i))
      log table
