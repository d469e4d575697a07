-- ===== src/Change.antt =====
-- The rows of the pipeline: the flattened change event of spark/utils/avro_deserializer.py
-- (`flatten_envelope`, `_empty_result`) and the row of the Delta table that
-- scripts/init_delta_table.py creates. Log positions and Kafka offsets are naturals; a timestamp is
-- a number of microseconds.
use payments_cdc_pipeline.Prelude.{ℕ, String, Option, Bool}
use payments_cdc_pipeline.Prelude.Int.{ℤ}

pub record Change : Type 0 where
  pub op : Option String
  pub transaction_id : Option String
  pub merchant_id : Option String
  pub amount_minor : Option ℤ
  pub currency : Option String
  pub status : Option String
  pub event_type : Option String
  pub created_at : Option ℕ
  pub updated_at : Option ℕ
  pub lsn : Option ℕ
  pub source_ts : Option ℕ
  pub partition : ℕ
  pub offset : ℕ
  pub is_delete : Option Bool

-- The columns of the Delta table. It has none for `op`, `partition` and `offset`.
pub record Entry : Type 0 where
  pub transaction_id : Option String
  pub merchant_id : Option String
  pub amount_minor : Option ℤ
  pub currency : Option String
  pub status : Option String
  pub event_type : Option String
  pub created_at : Option ℕ
  pub updated_at : Option ℕ
  pub lsn : Option ℕ
  pub source_ts : Option ℕ
  pub is_delete : Option Bool
