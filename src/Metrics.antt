-- ===== src/Metrics.antt =====
-- The metrics push and the offsets of a progress report, spark/utils/metrics_listener.py. A body is
-- the list of its samples, one for each line; times are in milliseconds, which is what three
-- decimals of a second show.
pub mod Json
pub mod Offsets
pub mod Recover
mod Examples
use Prim.Native.Char.{Char, code}
use payments_cdc_pipeline.Prelude.{
  ℕ, String, List, [], ◌∷◌, ◌++◌, map, Bool, Option, none, some, ◌==◌, if◌then◌else◌,
}
use payments_cdc_pipeline.Prelude.Int.{ℤ, pos}

pub data Value : Type 0 where
  whole : ℤ → Value
  seconds : ℕ → Value

pub record Sample : Type 0 where
  pub metric : String
  pub partition : Option String
  pub value : Value

abbrev pub gauge : String → Value → Sample
gauge m v = record { metric = m; partition = none; value = v }

-- `text.replace('"', "")`
abbrev pub strip_quotes : String → String
strip_quotes String.[] = String.[]
strip_quotes (String.◌∷◌ c s) =
    let rest = strip_quotes s in if code c == 34 then rest else String.◌∷◌ c rest

abbrev pub offset_samples : List (String × ℤ) → List Sample
offset_samples [] = []
offset_samples ((part, off) ∷ offsets) =
    record {
      metric = "payments_cdc_processed_offset";
      partition = some (strip_quotes part);
      value = Value.whole off;
    }
    ∷ offset_samples offsets

-- The arguments of `push_metrics`, less the clock reading for the heartbeat.
pub record Batch : Type 0 where
  pub batch_id : ℕ
  pub n_in : ℕ
  pub n_merged : ℕ
  pub n_dlq : ℕ
  pub batch_seconds : ℕ
  pub last_commit_ts : ℕ
  pub processed_offsets : List (String × ℤ)

unfoldable pub lines : Batch → ℕ → List Sample
lines b now =
    (gauge "payments_cdc_batch_id" (Value.whole (pos b.batch_id))
      ∷ gauge "payments_cdc_batch_duration_seconds" (Value.seconds b.batch_seconds)
      ∷ gauge "payments_cdc_batch_input_rows" (Value.whole (pos b.n_in))
      ∷ gauge "payments_cdc_batch_merged_rows" (Value.whole (pos b.n_merged))
      ∷ gauge "payments_cdc_batch_dlq_rows" (Value.whole (pos b.n_dlq))
      ∷ gauge "payments_cdc_last_ledger_commit_timestamp_seconds" (Value.seconds b.last_commit_ts)
      ∷ gauge "payments_cdc_heartbeat_timestamp_seconds" (Value.seconds now)
      ∷ [])
    ++ offset_samples b.processed_offsets

-- The state is what the Pushgateway has received. A failed post is logged and forgotten: the
-- function returns in every case.
unfoldable pub push_metrics : Bool → ℕ → Batch → List (List Sample) → List (List Sample)
unfolding lines
push_metrics posted now b received = if posted then received ++ lines b now ∷ [] else received
