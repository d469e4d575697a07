-- ===== src/Parity/Examples.antt =====
-- The parity checker of scripts/parity_checker.py on one row that is in both stores.
mod Load
mod Mirror
mod Stream
use payments_cdc_pipeline.Prelude.{
  ◌≤◌, String, [], ◌∷◌, true, false, Option, none, some, In, count_if, ◌≡◌, ◌⊎◌, refl, ap, inl, inr,
  Bool-cases, text_eq, arith,
}
use payments_cdc_pipeline.Prelude.Int.{pos}
use payments_cdc_pipeline.Sql.{equal, holds}
use payments_cdc_pipeline.Change.{Entry}
use payments_cdc_pipeline.Grouping.{distinct, same_value}
use payments_cdc_pipeline.Parity.{
  Row, select, load_delta, load_dlq_keys, differs, mismatches, dupes, measure, decide, Verdict,
  check_parity,
}
use payments_cdc_pipeline.Parity.Complete.{parity_complete}
use payments_cdc_pipeline.Parity.Sound.{parity_pass_sound}

abbrev entry : Entry
entry = record {
  transaction_id = some "t1";
  merchant_id = some "m1";
  amount_minor = some (pos 5);
  currency = some "EUR";
  status = some "SETTLED";
  event_type = none;
  created_at = none;
  updated_at = none;
  lsn = some 3;
  source_ts = none;
  is_delete = some false;
}

runs : check_parity 0 (select entry ∷ []) (entry ∷ []) none ≡ Verdict.pass
unfolding check_parity load_delta load_dlq_keys distinct mismatches dupes measure decide
runs = refl

parity_pass_sound_example :
    ((p : Row)
      → In p (select entry ∷ [])
      → ((d : Row) × In d (load_delta (entry ∷ []))
          × (holds (equal p.transaction_id d.transaction_id) ≡ true))
        ⊎ ((k : Option String) × In k (load_dlq_keys none)
            × (holds (equal p.transaction_id k) ≡ true)))
    × ((d : Row)
        → In d (load_delta (entry ∷ []))
        → (p : Row) × In p (select entry ∷ [])
          × (holds (equal d.transaction_id p.transaction_id) ≡ true))
    × ((p d : Row)
        → In p (select entry ∷ [])
        → In d (load_delta (entry ∷ []))
        → holds (equal p.transaction_id d.transaction_id) ≡ true
        → holds (differs p d) ≡ false)
    × ((k : String)
        → count_if (λ (d : Row). same_value (some k) d.transaction_id) (load_delta (entry ∷ []))
          ≤ 1)
parity_pass_sound_example = parity_pass_sound (select entry ∷ []) (entry ∷ []) none runs

-- A second row, deleted in Delta.
abbrev gone : Entry
gone = record entry { transaction_id = some "t2"; is_delete = some true }

same_id : (p : Row) → In p (select entry ∷ []) → holds (equal p.transaction_id (some "t1")) ≡ true
same_id p (inl e) = ap (λ (r : Row). holds (equal r.transaction_id (some "t1"))) e
same_id p (inr m) = absurd m

agrees :
    (p d : Row)
    → In p (select entry ∷ [])
    → In d (load_delta (entry ∷ gone ∷ []))
    → holds (equal p.transaction_id d.transaction_id) ≡ true
    → holds (differs p d) ≡ false
unfolding load_delta
agrees p d (inl e) (inl f) t = rw (e, f) refl
agrees p d (inr m) n t = absurd m
agrees p d m (inr n) t = absurd n

one :
    (k : String)
    → count_if (λ (d : Row). same_value (some k) d.transaction_id) (load_delta (entry ∷ gone ∷ []))
      ≤ 1
unfolding load_delta
one k = elim (Bool-cases (text_eq k "t1")) [
  | inl t ↦ rw t (omega arith)
  | inr f ↦ rw f (omega arith)
]

parity_complete_example : check_parity 0 (select entry ∷ []) (entry ∷ gone ∷ []) none ≡ Verdict.pass
unfolding load_delta load_dlq_keys distinct
parity_complete_example =
    parity_complete (select entry ∷ []) (entry ∷ gone ∷ []) none
      (λ p m. inl (select entry, inl refl, same_id p m))
      (λ d m. (select entry, inl refl, same_id d m)) agrees one (inl refl)
