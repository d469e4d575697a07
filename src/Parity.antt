-- ===== src/Parity.antt =====
-- The parity checker, scripts/parity_checker.py: the live rows of the Delta table against Postgres,
-- with the keys of the dead letter topic. A count is the length of a joined list; the tolerance is a
-- natural number, and `max(0, a - b)` is subtraction that stops at 0.
pub mod Sound
pub mod Order
pub mod Complete
pub mod Rows
pub mod Load
pub mod Log
pub mod Mirror
pub mod Stream
mod Examples
use payments_cdc_pipeline.Prelude.{
  ℕ, ◌+◌, ◌-◌, String, List, [], ◌∷◌, Bool, true, false, Option, none, some, map, not, ◌&&◌, ◌||◌,
  keep, any, length, count_if, ltb, ◌==◌, if◌then◌else◌,
}
use payments_cdc_pipeline.Prelude.Int.{ℤ, ltb_ℤ}
use payments_cdc_pipeline.Sql.{Condition, negate, either, lift₂, equal, holds, where_holds}
use payments_cdc_pipeline.Change.{Entry}
use payments_cdc_pipeline.Dlq.{Message}
use payments_cdc_pipeline.Grouping.{distinct, same_value, text_key}

pub record Row : Type 0 where
  pub transaction_id : Option String
  pub merchant_id : Option String
  pub amount_minor : Option ℤ
  pub currency : Option String
  pub status : Option String
  pub event_type : Option String

-- The columns that are selected.
abbrev pub select : Entry → Row
select e = record {
  transaction_id = e.transaction_id;
  merchant_id = e.merchant_id;
  amount_minor = e.amount_minor;
  currency = e.currency;
  status = e.status;
  event_type = e.event_type;
}

-- is_delete = FALSE
abbrev pub is_live : Entry → Condition
is_live e = elim e.is_delete [ none ↦ none | some b ↦ some (not b) ]

pub load_delta : List Entry → List Row
load_delta table = map select (where_holds is_live table)

-- The keys of the messages. A topic that cannot be read gives none.
pub load_dlq_keys : Option (List Message) → List (Option String)
load_dlq_keys none = []
load_dlq_keys (some messages) = distinct text_key (map (λ (m : Message). some m.key) messages)

-- `a.join(b, on="transaction_id", how="left_anti")`
abbrev pub left_anti : List Row → List Row → List Row
left_anti a b = keep (λ r. not (any (λ s. holds (equal r.transaction_id s.transaction_id)) b)) a

-- The rows of `a.join(keys, on="transaction_id", how="inner")`, counted.
abbrev pub inner_count : List Row → List (Option String) → ℕ
inner_count [] keys = 0
inner_count (r ∷ rows) keys =
    count_if (λ k. holds (equal r.transaction_id k)) keys + inner_count rows keys

abbrev pub equal_ℤ : Option ℤ → Option ℤ → Condition
equal_ℤ = lift₂ (λ a b. not (ltb_ℤ a b || ltb_ℤ b a))

-- The filter on the joined pair.
abbrev pub differs : Row → Row → Condition
differs p d =
    either
      (either
        (either
          (either (negate (equal p.merchant_id d.merchant_id))
            (negate (equal_ℤ p.amount_minor d.amount_minor)))
          (negate (equal p.currency d.currency)))
        (negate (equal p.status d.status)))
      (negate (equal p.event_type d.event_type))

abbrev pub is_mismatch : Row → Row → Bool
is_mismatch p d = holds (equal p.transaction_id d.transaction_id) && holds (differs p d)

pub mismatches : List Row → List Row → ℕ
mismatches [] delta = 0
mismatches (p ∷ pg) delta = count_if (is_mismatch p) delta + mismatches pg delta

-- The groups with more than one row.
pub dupes : List Row → ℕ
dupes delta =
    count_if (λ k. ltb 1 (count_if (λ (d : Row). same_value k d.transaction_id) delta))
      (distinct text_key (map (λ (d : Row). d.transaction_id) delta))

pub record Report : Type 0 where
  pub missing_in_delta_total : ℕ
  pub quarantined : ℕ
  pub unaccounted : ℕ
  pub extra_count : ℕ
  pub mismatch_count : ℕ
  pub dupes : ℕ

pub measure : List Row → List Row → List (Option String) → Report
unfolding mismatches dupes
measure pg delta dlq_keys =
    let missing = left_anti pg delta in
    record {
      missing_in_delta_total = length missing;
      quarantined = inner_count missing dlq_keys;
      unaccounted = length missing - inner_count missing dlq_keys;
      extra_count = length (left_anti delta pg);
      mismatch_count = mismatches pg delta;
      dupes = dupes delta;
    }

abbrev pub expected_quarantine_after_injection : ℕ
expected_quarantine_after_injection = 53

pub data Verdict : Type 0 where
  oracle_fail fail pass : Verdict

abbrev pub passed : ℕ → Report → Bool
passed tolerate_inflight r =
    ((r.unaccounted - tolerate_inflight) == 0)
    && (r.extra_count == 0)
    && (r.mismatch_count == 0)
    && (r.dupes == 0)

pub decide : ℕ → Report → Verdict
decide tolerate_inflight r =
    if not ((r.quarantined == 0) || (r.quarantined == expected_quarantine_after_injection))
    then Verdict.oracle_fail
    else if passed tolerate_inflight r
    then Verdict.pass
    else Verdict.fail

abbrev pub exit_code : Verdict → ℕ
exit_code Verdict.pass = 0
exit_code _ = 1

-- The counts and the verdict of one run.
pub check_parity : ℕ → List Row → List Entry → Option (List Message) → Verdict
unfolding load_delta load_dlq_keys measure decide
check_parity tolerate_inflight pg table messages =
    decide tolerate_inflight (measure pg (load_delta table) (load_dlq_keys messages))
