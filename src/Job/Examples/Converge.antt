-- ===== src/Job/Examples/Converge.antt =====
-- Two versions of a payment in one batch, and in two batches with the later version first.
use payments_cdc_pipeline.Prelude.{
  ℕ, List, [], ◌∷◌, ◌++◌, true, In, some, find, HasUniqueKeys, ◌≡◌, refl, sym, ap, ◌∙◌, inl, inr,
  arith,
}
use payments_cdc_pipeline.Exec.{acknowledged}
use payments_cdc_pipeline.Change.{Change}
use payments_cdc_pipeline.Delta.{to_entry}
use payments_cdc_pipeline.Validator.{
  validate, check, rule_amount, rule_currency, rule_uuid, rule_merchant,
}
use payments_cdc_pipeline.Window.Reference.{plain_window, sort, insert, number}
use payments_cdc_pipeline.Dlq.{
  merchants, write_to_dlq, payload, refresh, fetch, distinct_ids, get_merchant_registry,
}
use payments_cdc_pipeline.Metrics.{push_metrics, lines}
use payments_cdc_pipeline.Job.{
  World, already_committed, process_batch, process_rows, load_merchants, quarantine, merge_batch,
  dedup_latest, commit_ledger, emit_metrics,
}
use payments_cdc_pipeline.Job.Merge.{entry_key}
use payments_cdc_pipeline.Job.Batch.{process_batch-Concluded}
use payments_cdc_pipeline.Job.History.{Call}
use payments_cdc_pipeline.Job.Converge.{IsVersioned, histories_converge}
use payments_cdc_pipeline.Job.Arrivals.{History, called, returned-Taken}
use payments_cdc_pipeline.Job.Examples.{fresh-keys}
use payments_cdc_pipeline.Job.Examples.Data.{payment, two_versions, env_with, fresh}

abbrev pub early : Change
early = payment "t1" "AUTHORIZED" 5 0

abbrev pub late : Change
late = payment "t1" "CAPTURED" 7 1

abbrev pub call : ℕ → List Change → Call
call id df = record { env = env_with acknowledged; batch_id = id; commit = true; batch_df = df }

abbrev pub call_again : World
call_again = called (call 4 (late ∷ [])) fresh

at_once : History fresh (two_versions ++ []) (called (call 4 two_versions) fresh)
unfolding process_batch already_committed process_rows load_merchants merchants
    get_merchant_registry refresh fetch distinct_ids validate check rule_amount rule_currency
    rule_uuid rule_merchant quarantine write_to_dlq payload merge_batch dedup_latest commit_ledger
    emit_metrics push_metrics lines plain_window sort insert number
at_once =
    History.takes History.start (call 4 two_versions) ("m1" ∷ []) (two_versions, []) refl refl
      (returned-Taken (call 4 two_versions) fresh ("m1" ∷ []) (two_versions, []) fresh-keys refl
        refl (λ z. omega (arith, z)) refl refl)

again-keys : HasUniqueKeys entry_key call_again.table
again-keys = (process_batch-Concluded (env_with acknowledged) 4 true (late ∷ []) fresh fresh-keys).0

pub turned : History fresh (early ∷ late ∷ []) (called (call 5 (early ∷ [])) call_again)
unfolding process_batch already_committed process_rows load_merchants merchants
    get_merchant_registry refresh fetch distinct_ids validate check rule_amount rule_currency
    rule_uuid rule_merchant quarantine write_to_dlq payload merge_batch dedup_latest commit_ledger
    emit_metrics push_metrics lines plain_window sort insert number
turned =
    History.takes
      (History.takes History.start (call 4 (late ∷ [])) ("m1" ∷ []) (late ∷ [], []) refl refl
        (returned-Taken (call 4 (late ∷ [])) fresh ("m1" ∷ []) (late ∷ [], []) fresh-keys refl refl
          (λ z. omega (arith, z)) refl refl))
      (call 5 (early ∷ [])) ("m1" ∷ []) (early ∷ [], []) refl refl
      (returned-Taken (call 5 (early ∷ [])) call_again ("m1" ∷ []) (early ∷ [], []) again-keys refl
        refl (λ z. omega (arith, z)) refl refl)

versioned : IsVersioned (early ∷ late ∷ [])
versioned = (known, told_apart)
  where
    known : (c : Change) → In c (early ∷ late ∷ []) → (n : ℕ) × (c.lsn ≡ some n)
    known c (inl e) = (5, ap (λ (x : Change). x.lsn) e)
    known c (inr (inl e)) = (7, ap (λ (x : Change). x.lsn) e)
    known c (inr (inr e)) = absurd e

    apart : early.lsn ≡ late.lsn → ⊥
    apart p = ground (arith, p)

    told_apart :
        (c d : Change)
        → In c (early ∷ late ∷ [])
        → In d (early ∷ late ∷ [])
        → c.transaction_id ≡ d.transaction_id
        → c.lsn ≡ d.lsn
        → to_entry c ≡ to_entry d
    told_apart c d (inl e) (inl f) k l = ap to_entry (e ∙ sym f)
    told_apart c d (inl e) (inr (inl f)) k l =
        absurd (apart (sym (ap (λ (x : Change). x.lsn) e) ∙ l ∙ ap (λ (x : Change). x.lsn) f))
    told_apart c d (inr (inl e)) (inl f) k l =
        absurd (apart (sym (ap (λ (x : Change). x.lsn) f) ∙ sym l ∙ ap (λ (x : Change). x.lsn) e))
    told_apart c d (inr (inl e)) (inr (inl f)) k l = ap to_entry (e ∙ sym f)
    told_apart c d (inr (inr e)) j k l = absurd e
    told_apart c d i (inr (inr f)) k l = absurd f

histories_converge_example :
    find entry_key "t1" (called (call 4 two_versions) fresh).table
    ≡ find entry_key "t1" (called (call 5 (early ∷ [])) call_again).table
histories_converge_example =
    histories_converge (λ k. refl) at_once turned (λ c. (λ i. i, λ i. i)) versioned "t1"
