-- ===== src/Job/Examples/Data.antt =====
-- Rows and calls for the examples.
use payments_cdc_pipeline.Prelude.{ℕ, String, List, [], ◌∷◌, true, false, none, some}
use payments_cdc_pipeline.Prelude.Int.{pos}
use payments_cdc_pipeline.Exec.{Outcome, acknowledged}
use payments_cdc_pipeline.Change.{Change}
use payments_cdc_pipeline.Window.Reference.{plain_window}
use payments_cdc_pipeline.Delta.Reference.{plain_delta}
use payments_cdc_pipeline.Dlq.{Encoder, Sink}
use payments_cdc_pipeline.Job.{World, Env}

abbrev pub payment : String → String → ℕ → ℕ → Change
payment t status lsn offset = record {
  op = some "u";
  transaction_id = some t;
  merchant_id = some "m1";
  amount_minor = some (pos 1250);
  currency = some "EUR";
  status = some status;
  event_type = some "payment";
  created_at = some 10;
  updated_at = some 20;
  lsn = some lsn;
  source_ts = some 30;
  partition = 0;
  offset = offset;
  is_delete = some false;
}

-- Two versions of one payment.
abbrev pub two_versions : List Change
two_versions = payment "t1" "AUTHORIZED" 5 0 ∷ payment "t1" "CAPTURED" 7 1 ∷ []

abbrev pub encoder : Encoder
encoder = record { uuid = λ n. "u"; to_json = λ r n. "{}" }

-- A save to Kafka that goes through.
abbrev pub sink : Sink
sink = record {
  returns = true;
  arrived = λ rows. rows;
  arrived-In = λ rows m i. i;
  In-arrived = λ e rows m i. i;
}

abbrev pub env_with : Outcome → Env
env_with ledger_save = record {
  rlike = λ s pattern. true;
  window = plain_window;
  delta = plain_delta;
  encoder = encoder;
  postgres = some (some "m1" ∷ []);
  started_at = 0;
  refreshed_at = 1;
  rejected_at = 2;
  committed_at = 3;
  finished_at = 4;
  pushed_at = 5;
  dlq_save = sink;
  merge_save = acknowledged;
  ledger_save = ledger_save;
  push_save = true;
}

abbrev pub fresh : World
fresh = record {
  table = [];
  ledger = none;
  dlq = [];
  metrics = [];
  registry = none;
  last_commit_ts = 0;
  processed_offsets = [];
}
