-- ===== src/Parity/Examples/Load.antt =====
-- A first load of two payments, checked by scripts/parity_checker.py.
use payments_cdc_pipeline.Prelude.{
  String, List, [], ◌∷◌, true, false, In, map, text_eq, eq_iff, Bool-cases, ◌≡◌, refl, ap, inl, inr,
  arith, some, HasUniqueKeys,
}
use payments_cdc_pipeline.Exec.{acknowledged}
use payments_cdc_pipeline.Errors.{ok}
use payments_cdc_pipeline.Change.{Change}
use payments_cdc_pipeline.Window.Reference.{plain_window, sort, insert, number}
use payments_cdc_pipeline.Validator.{
  validate, check, rule_amount, rule_currency, rule_uuid, rule_merchant,
}
use payments_cdc_pipeline.Dlq.{
  merchants, get_merchant_registry, refresh, fetch, distinct_ids, write_to_dlq, payload,
}
use payments_cdc_pipeline.Metrics.{push_metrics, lines}
use payments_cdc_pipeline.Job.{
  already_committed, process_batch, process_rows, load_merchants, quarantine, merge_batch,
  dedup_latest, commit_ledger, emit_metrics,
}
use payments_cdc_pipeline.Job.Dedup.{key_of}
use payments_cdc_pipeline.Job.Examples.Data.{payment, env_with, fresh}
use payments_cdc_pipeline.Parity.{Verdict, check_parity}
use payments_cdc_pipeline.Parity.Rows.{row_of, IsLoad}
use payments_cdc_pipeline.Parity.Load.{first_load_passes}

abbrev first : Change
first = payment "t1" "SETTLED" 5 0

abbrev second : Change
second = payment "t2" "CAPTURED" 6 1

abbrev snapshot : List Change
snapshot = first ∷ second ∷ []

unique : HasUniqueKeys key_of snapshot
unique k = elim (Bool-cases (text_eq k "t1")) [
  | inl t ↦ rw ((eq_iff k "t1").0 t) (omega arith)
  | inr f ↦ rw f (elim (Bool-cases (text_eq k "t2")) [
    | inl u ↦ rw u (omega arith)
    | inr g ↦ rw g (omega arith)
  ])
]

named : (c : Change) → In c snapshot → (t : String) × (c.transaction_id ≡ some t)
named c (inl e) = ("t1", ap (λ (c : Change). c.transaction_id) e)
named c (inr (inl e)) = ("t2", ap (λ (c : Change). c.transaction_id) e)
named c (inr (inr e)) = absurd e

load : IsLoad snapshot
load = record { unique = unique; named = named; live = live }
  where
    live : (c : Change) → In c snapshot → c.is_delete ≡ some false
    live c (inl e) = ap (λ (c : Change). c.is_delete) e
    live c (inr (inl e)) = ap (λ (c : Change). c.is_delete) e
    live c (inr (inr e)) = absurd e

valid : validate (env_with acknowledged).rlike snapshot ("m1" ∷ []) ≡ ok (snapshot, [])
unfolding validate check rule_amount rule_currency rule_uuid rule_merchant
valid = refl

loads : (load_merchants (env_with acknowledged) fresh).0 ≡ ok ("m1" ∷ [])
unfolding load_merchants merchants get_merchant_registry refresh fetch distinct_ids
loads = refl

new : already_committed 4 fresh ≡ false
unfolding already_committed
new = refl

returns : (process_batch (env_with acknowledged) 4 true snapshot fresh).0 ≡ ok tt
unfolding process_batch already_committed process_rows load_merchants merchants
    get_merchant_registry refresh fetch distinct_ids validate check rule_amount rule_currency
    rule_uuid rule_merchant quarantine write_to_dlq payload merge_batch dedup_latest commit_ledger
    emit_metrics push_metrics lines plain_window sort insert number
returns = refl

first_load_passes_example :
    let w' = (process_batch (env_with acknowledged) 4 true snapshot fresh).1 in
    check_parity 0 (map row_of snapshot) w'.table (some w'.dlq) ≡ Verdict.pass
first_load_passes_example =
    first_load_passes (env_with acknowledged) 4 true snapshot ("m1" ∷ []) (snapshot, []) fresh refl
      new refl load loads valid (inl refl) returns
