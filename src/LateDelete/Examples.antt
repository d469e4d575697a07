-- ===== src/LateDelete/Examples.antt =====
-- The suite of scripts/inject_late_delete.py against a fresh pipeline.
use payments_cdc_pipeline.Prelude.{
  ℕ, ◌*◌, String, List, [], ◌∷◌, true, false, none, some, In, HasUniqueKeys, ◌≡◌, refl, ◌⊎◌, inl,
  inr, arith,
}
use payments_cdc_pipeline.Prelude.Int.{pos}
use payments_cdc_pipeline.Errors.{ok}
use payments_cdc_pipeline.Exec.{acknowledged}
use payments_cdc_pipeline.Change.{Change}
use payments_cdc_pipeline.Avro.{Casts, flatten_envelope}
use payments_cdc_pipeline.Dlq.{
  merchants, refresh, fetch, distinct_ids, get_merchant_registry, write_to_dlq, payload,
}
use payments_cdc_pipeline.Metrics.{push_metrics, lines}
use payments_cdc_pipeline.Validator.{
  validate, check, rule_amount, rule_currency, rule_uuid, rule_merchant,
}
use payments_cdc_pipeline.Window.Reference.{plain_window, sort, insert, number}
use payments_cdc_pipeline.Job.{
  World, Env, already_committed, load_merchants, process_batch, process_rows, quarantine,
  merge_batch, commit_ledger, emit_metrics, dedup_latest,
}
use payments_cdc_pipeline.Job.Merge.{entry_key}
use payments_cdc_pipeline.Job.Batch.{process_batch-Concluded}
use payments_cdc_pipeline.Job.Clean.{clean_call_commits}
use payments_cdc_pipeline.Job.Examples.Data.{env_with, fresh}
use payments_cdc_pipeline.LateDelete.{event, make_envelope, test_intra_batch, test_cross_batch}
use payments_cdc_pipeline.LateDelete.Pipeline.{Sent, row, Processed}
use payments_cdc_pipeline.LateDelete.Verdicts.{
  after, first_insert, late_update, intra_batch_passes, cross_batch_passes,
}

abbrev env : Env
env = record (env_with acknowledged) { postgres = some (some "MERCH_001" ∷ []) }

abbrev cast : Casts String
cast = record { of_raw = λ s. none; of_millis = λ t. some (t * 1000) }

abbrev known : List String
known = "MERCH_001" ∷ []

abbrev sent : ℕ → Sent
sent offset = record {
  now_ms = 5;
  now_iso = "2026-01-01T00:00:00.000Z";
  partition = 0;
  offset = offset;
}

-- The arrival order of the test.
abbrev batch : List Change
batch =
    row cast (event "c" "t1" 100) (sent 0)
    ∷ row cast (event "d" "t1" 140) (sent 1)
    ∷ row cast (late_update "t1" 120 9999) (sent 2)
    ∷ []

empty_keys : HasUniqueKeys entry_key fresh.table
empty_keys k = omega arith

new : (n : ℕ) → already_committed n fresh ≡ false
unfolding already_committed
new n = refl

loads : (load_merchants env fresh).0 ≡ ok known
unfolding load_merchants merchants get_merchant_registry refresh fetch distinct_ids
loads = refl

processed : Processed cast env 1 batch fresh known
processed = (
  empty_keys,
  new 1,
  loads,
  (clean_call_commits env 1 batch fresh "MERCH_001" [] empty_keys (new 1) loads refl refl refl).0,
)

only_three :
    (r : Change)
    → In r batch
    → r.transaction_id ≡ some "t1"
    → (r ≡ row cast (event "c" "t1" 100) (sent 0))
      ⊎ (r ≡ row cast (event "d" "t1" 140) (sent 1))
      ⊎ (r ≡ row cast (late_update "t1" 120 9999) (sent 2))
only_three r (inl e) k = inl e
only_three r (inr (inl e)) k = inr (inl e)
only_three r (inr (inr (inl e))) k = inr (inr e)
only_three r (inr (inr (inr e))) k = absurd e

intra_batch_passes_example :
    test_intra_batch "t1" (pos 6) (pos 7) (process_batch env 1 true batch fresh).1.table ≡ ok true
intra_batch_passes_example =
    intra_batch_passes cast env 1 batch fresh known "t1" 6 (sent 0) (sent 1) (sent 2) processed
      (refl, refl) refl (inr (inl refl)) only_three

abbrev inserted : List Change
inserted = row cast (first_insert "t1") (sent 0) ∷ []

abbrev deleted : List Change
deleted = row cast (event "d" "t1" 240) (sent 1) ∷ []

abbrev updated : List Change
updated = row cast (late_update "t1" 220 8888) (sent 2) ∷ []

only : (x r : Change) → In r (x ∷ []) → r ≡ x
only x r (inl e) = e
only x r (inr e) = absurd e

kept :
    (n : ℕ) (df : List Change) (w : World)
    → HasUniqueKeys entry_key w.table
    → HasUniqueKeys entry_key (after env n df w).table
kept n df w u = (process_batch-Concluded env n true df w u).0

abbrev once : World
once = after env 1 inserted fresh

abbrev twice : World
twice = after env 2 deleted once

second : (already_committed 2 once ≡ false) × ((load_merchants env once).0 ≡ ok known)
unfolding already_committed process_batch process_rows load_merchants merchants
    get_merchant_registry refresh fetch distinct_ids validate check rule_amount rule_currency
    rule_uuid rule_merchant quarantine write_to_dlq payload merge_batch dedup_latest commit_ledger
    emit_metrics push_metrics lines plain_window sort insert number flatten_envelope make_envelope
second = (refl, refl)

third : (already_committed 3 twice ≡ false) × ((load_merchants env twice).0 ≡ ok known)
unfolding already_committed process_batch process_rows load_merchants merchants
    get_merchant_registry refresh fetch distinct_ids validate check rule_amount rule_currency
    rule_uuid rule_merchant quarantine write_to_dlq payload merge_batch dedup_latest commit_ledger
    emit_metrics push_metrics lines plain_window sort insert number flatten_envelope make_envelope
third = (refl, refl)

started :
    (n : ℕ) (df : List Change) (w : World)
    → HasUniqueKeys entry_key w.table
    → (already_committed n w ≡ false) × ((load_merchants env w).0 ≡ ok known)
    → Processed cast env n df w known
started n df w u (f, l) =
    (u, f, l, (clean_call_commits env n df w "MERCH_001" [] u f l refl refl refl).0)

cross_batch_passes_example :
    test_cross_batch "t1" once.table twice.table (after env 3 updated twice).table ≡ ok true
cross_batch_passes_example =
    cross_batch_passes cast env env env 1 2 3 inserted deleted updated fresh known known known "t1"
      (sent 0) (sent 1) (sent 2) (started 1 inserted fresh empty_keys (new 1, loads), (refl, refl))
      (started 2 deleted once (kept 1 inserted fresh empty_keys) second, (refl, refl))
      (
        started 3 updated twice (kept 2 deleted once (kept 1 inserted fresh empty_keys)) third,
        (refl, refl),
      )
      refl (inl refl, λ r i k. only (row cast (first_insert "t1") (sent 0)) r i)
      (inl refl, λ r i k. only (row cast (event "d" "t1" 240) (sent 1)) r i)
      (inl refl, λ r i k. only (row cast (late_update "t1" 220 8888) (sent 2)) r i)
