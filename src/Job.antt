-- ===== src/Job.antt =====
-- The streaming job, spark/jobs/payments_cdc_job.py: the batch ledger, the deduplication, the MERGE
-- under the LSN guard, and `process_batch`, which puts them in order.
pub mod Dedup
pub mod Merge
pub mod Guard
pub mod Steps
pub mod Rows
pub mod Batch
pub mod Registered
pub mod Recovery
pub mod Newest
pub mod Contract
pub mod Clean
pub mod History
pub mod Arrivals
pub mod Converge
pub mod Load
pub mod Named
pub mod Latest
pub mod Examples
use payments_cdc_pipeline.Prelude.{
  ℕ, ◌-◌, String, List, [], ◌∷◌, ◌++◌, Bool, true, false, Option, none, some, map, keep, any,
  length, text_eq, ◌&&◌, ◌==◌, if◌then◌else◌,
}
use payments_cdc_pipeline.Prelude.Int.{ℤ}
use payments_cdc_pipeline.Sql.{Condition, greater, equal}
use payments_cdc_pipeline.Errors.{Error, Result, ok, err}
use payments_cdc_pipeline.Exec.{Exec, Outcome, pure, raise, gets, embed, modify, write, ◌>>=◌, ◌>>◌}
use payments_cdc_pipeline.Change.{Change, Entry}
use payments_cdc_pipeline.Validator.{Checked, validate}
use payments_cdc_pipeline.Window.{Window, Column, desc}
use payments_cdc_pipeline.Delta.{Delta}
use payments_cdc_pipeline.Dlq.{Registry, Message, Encoder, Sink, merchants, write_to_dlq}
use payments_cdc_pipeline.Metrics.{Sample, push_metrics}

abbrev pub app_id : String
app_id = "payments_cdc_v1"

-- A row of the ledger table.
pub record Commit : Type 0 where
  pub app_id : String
  pub batch_id : ℕ
  pub committed_at : ℕ

-- The stores that the job writes and the globals of its modules. A ledger that is no Delta table
-- yet is `none`.
pub record World : Type 0 where
  pub table : List Entry
  pub ledger : Option (List Commit)
  pub dlq : List Message
  pub metrics : List (List Sample)
  pub registry : Option Registry
  pub last_commit_ts : ℕ
  pub processed_offsets : List (String × ℤ)

-- One run of the job against the outside: Spark, Delta and Postgres, the readings of the clock, and
-- how each write ends.
pub record Env : Type 0 where
  pub rlike : String → String → Bool
  pub window : Window
  pub delta : Delta
  pub encoder : Encoder
  pub postgres : Option (List (Option String))
  pub started_at : ℕ
  pub refreshed_at : ℕ
  pub rejected_at : ℕ
  pub committed_at : ℕ
  pub finished_at : ℕ
  pub pushed_at : ℕ
  pub dlq_save : Sink
  pub merge_save : Outcome
  pub ledger_save : Outcome
  pub push_save : Bool

abbrev is_commit : ℕ → Commit → Bool
is_commit batch_id c = text_eq c.app_id app_id && (c.batch_id == batch_id)

unfoldable pub already_committed : ℕ → World → Bool
already_committed batch_id w = elim w.ledger [
  | none ↦ false
  | some commits ↦ any (is_commit batch_id) commits
]

abbrev rows_of : Option (List Commit) → List Commit
rows_of none = []
rows_of (some commits) = commits

-- An append creates the table where there is none.
abbrev append_commit : Commit → World → World
append_commit c w = record w { ledger = some (rows_of w.ledger ++ c ∷ []) }

unfoldable pub commit_ledger : Env → ℕ → Bool → Exec World Bool
commit_ledger env batch_id commit =
    if commit
    then (do
      write env.ledger_save Error.ledger_error (
          append_commit
            (record { app_id = app_id; batch_id = batch_id; committed_at = env.committed_at }))
      modify (λ w. record w { last_commit_ts = env.committed_at })
      pure true)
    else pure false

-- The columns of the window's `orderBy`.
abbrev pub latest_first : Bool → List Column
latest_first has_offset =
    if has_offset
    then desc (λ c. c.lsn) ∷ desc (λ c. some c.offset) ∷ []
    else desc (λ c. c.lsn) ∷ []

-- `has_offset` is the test `"offset" in df.columns`.
unfoldable pub dedup_latest : Window → Bool → List Change → List Change
dedup_latest window has_offset df =
    map (λ (e : Change × ℕ). e.0)
      (keep (λ e. e.1 == 1)
        (window.row_number (λ c. c.transaction_id) (latest_first has_offset) df))

-- target.transaction_id = staged.transaction_id
abbrev pub same_key : Entry → Change → Condition
same_key target staged = equal target.transaction_id staged.transaction_id

-- staged.lsn > target.lsn
abbrev pub is_newer : Change → Entry → Condition
is_newer staged target = greater staged.lsn target.lsn

unfoldable pub merge_batch : Env → List Change → Exec World ℕ
merge_batch env staged = if length staged == 0 then pure 0 else do
  t ← gets (λ (w : World). env.delta.merge same_key is_newer w.table staged)
  elim t [
    | none ↦ raise Error.delta_error
    | some table ↦
        write env.merge_save Error.delta_error (λ w. record w { table = table })
        >> pure (length staged)
  ]

unfoldable pub emit_metrics : Env → ℕ → ℕ → ℕ → ℕ → ℕ → Exec World (Unit {0})
emit_metrics env batch_id n_in n_merged n_dlq batch_seconds = modify (λ w. record w {
  metrics =
      push_metrics env.push_save env.pushed_at
        (record {
          batch_id = batch_id;
          n_in = n_in;
          n_merged = n_merged;
          n_dlq = n_dlq;
          batch_seconds = batch_seconds;
          last_commit_ts = w.last_commit_ts;
          processed_offsets = w.processed_offsets;
        })
        w.metrics;
})

-- `merchants()` of spark/utils/dlq_writer.py, on the module's global registry.
unfoldable pub load_merchants : Env → Exec World (List String)
load_merchants env w =
    let (r, global) = merchants env.refreshed_at env.postgres w.registry in
    (r, record w { registry = global })

-- `write_to_dlq` of spark/utils/dlq_writer.py, on the dead letter topic.
unfoldable pub quarantine : Env → List Checked → Exec World ℕ
quarantine env invalid w =
    let (r, topic) = write_to_dlq env.encoder env.rejected_at env.dlq_save invalid w.dlq in
    (r, record w { dlq = topic })

-- The part of `process_batch` behind the two early returns.
unfoldable pub process_rows : Env → ℕ → Bool → List Change → Exec World (Unit {0})
unfolding load_merchants quarantine merge_batch commit_ledger emit_metrics dedup_latest
process_rows env batch_id commit batch_df = do
  ids ← load_merchants env
  frames ← embed (validate env.rlike batch_df ids)
  n_dlq ← quarantine env frames.1
  n_merged ← merge_batch env (dedup_latest env.window true frames.0)
  commit_ledger env batch_id commit
  emit_metrics env batch_id (length batch_df) n_merged n_dlq (env.finished_at - env.started_at)

unfoldable pub process_batch : Env → ℕ → Bool → List Change → Exec World (Unit {0})
unfolding process_rows commit_ledger emit_metrics already_committed
process_batch env batch_id commit batch_df = do
  seen ← gets (already_committed batch_id)
  if seen
      then pure tt
      else if length batch_df == 0
      then (do
        commit_ledger env batch_id commit
        emit_metrics env batch_id 0 0 0 (env.finished_at - env.started_at))
      else process_rows env batch_id commit batch_df
