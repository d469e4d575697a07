-- ===== src/Delta.antt =====
-- The MERGE of spark/jobs/payments_cdc_job.py (`merge_batch`). Delta Lake executes it: `merge` is a
-- parameter, with the documented effect of its clauses as a law.
pub mod Reference
use payments_cdc_pipeline.Prelude.{
  ℕ, ◌≤◌, List, [], ◌∷◌, ◌++◌, map, Bool, Option, some, not, any, keep, ◌≡◌, In, count_if,
  if◌then◌else◌,
}
use payments_cdc_pipeline.Sql.{Condition, holds}
use payments_cdc_pipeline.Change.{Change, Entry}
use mathlib.Core.List.{Permᴰ}

-- The values that UPDATE * and INSERT * write: the source's columns that the target has.
abbrev pub to_entry : Change → Entry
to_entry c = record {
  transaction_id = c.transaction_id;
  merchant_id = c.merchant_id;
  amount_minor = c.amount_minor;
  currency = c.currency;
  status = c.status;
  event_type = c.event_type;
  created_at = c.created_at;
  updated_at = c.updated_at;
  lsn = c.lsn;
  source_ts = c.source_ts;
  is_delete = c.is_delete;
}

module _ (on : Entry → Change → Condition) (update_when : Change → Entry → Condition) where
  -- WHEN MATCHED AND update_when THEN UPDATE *, for one target row.
  abbrev pub updated : List Change → Entry → Entry
  updated [] e = e
  updated (c ∷ staged) e =
      let rest = updated staged e in
      if holds (on e c) then (if holds (update_when c e) then to_entry c else e) else rest

  -- WHEN NOT MATCHED THEN INSERT *.
  abbrev pub inserted : List Entry → List Change → List Entry
  inserted table staged = map to_entry (keep (λ c. not (any (λ e. holds (on e c)) table)) staged)

  abbrev pub merged : List Entry → List Change → List Entry
  merged table staged = map (updated staged) table ++ inserted table staged

pub record Delta : Type 0 where
  -- `none` is the error that Delta raises where two source rows match one target row.
  pub merge :
      (Entry → Change → Condition)
      → (Change → Entry → Condition)
      → List Entry
      → List Change
      → Option (List Entry)
  -- Where no target row is matched twice the clauses are applied row by row, in no set order.
  pub merge_lem :
      (on : Entry → Change → Condition) (update_when : Change → Entry → Condition)
      (table : List Entry) (staged : List Change)
      → ((e : Entry) → In e table → count_if (λ c. holds (on e c)) staged ≤ 1)
      → (table' : List Entry) × (merge on update_when table staged ≡ some table')
        × Permᴰ table' (merged on update_when table staged)
