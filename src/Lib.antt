-- ===== src/Lib.antt =====
-- The payments CDC pipeline: a Spark job reads Debezium change events from Kafka, validates them,
-- and merges them into a Delta table, once each although every batch may be delivered again.
--
-- Which file models what:
-- - Avro, Avro/SchemaCache, Avro/Decode: spark/utils/avro_deserializer.py: the wire header, the schema cache, the
--   flattening of the envelope, and the batch decoded schema by schema; Avro/Wire: the format that a producer
--   writes.
-- - Sidecar: scripts/lag_sidecar.py, a round of its loop.
-- - Replay: scripts/chaos/replay_offsets.py; Replay/Guard its test of the guard, Replay/Totals what it measures.
-- - Setup: scripts/init_delta_table.py.
-- - LateDelete: scripts/inject_late_delete.py, its envelopes and verdicts. LateDelete/Pipeline takes an event
--   through the deserializer, the gate and `process_batch`, LateDelete/Verdicts both tests.
-- - Inject and its children: scripts/inject_bad_records.py. Postgres holds what the suite writes,
--   Polling has the loops that read the dead letter topic, Suite the five tests, Oracle and
--   Cleanup what a run leaves behind, Rejected its rows at the gate, Sound what a PASS shows.
-- - Generator: scripts/data_generator.py, its draws and writes. Generator/Loop has its loop, Generator/Rows
--   its rows at the gate, Generator/Deletes what its deletes take, Generator/Moves and
--   Generator/Totals what it counts.
-- - Stream, Stream/Query: `foreach_batch_wrapper` and `run_stream` of the job. What happens to the query is
--   a list in the order of time.
-- - Skew, Skew/Equal, Skew/Modes: scripts/aggregation_skew_job.py. Grouping, Grouping/Order, Grouping/Sums: `distinct`,
--   `groupBy`, the order of rows, and sums over groups.
-- - Trend: great_expectations/payments_trend_monitor.py.
-- - Parity: scripts/parity_checker.py; Parity/Sound and Parity/Complete when it says PASS, Parity/Order the order
--   of its frames, Parity/Rows and Parity/Load a first load by the job and its check,
--   Parity/Log and Parity/Mirror the log of Postgres against the rows that are
--   read back, Parity/Stream their check.
-- - Snapshot: scripts/snapshot_transition_checker.py.
-- - Validator, Validator/Silence, Validator/Gate: spark/utils/validator.py, the four rules and `validate`.
-- - Dlq, Dlq/Refresh, Dlq/Delivery: spark/utils/dlq_writer.py, the merchant registry and
--   `write_to_dlq`.
-- - Metrics and its children: spark/utils/metrics_listener.py.
-- - Job and its children: spark/jobs/payments_cdc_job.py. `process_batch` reads the ledger, loads
--   the merchants, validates, writes the rejected rows to the dead letter topic, merges the
--   deduplicated rows, commits to the ledger and pushes metrics, in this order. Job/Dedup,
--   Job/Merge and Job/Guard treat the deduplication, the MERGE and the LSN guard; Job/Steps, Job/Rows and
--   Job/Batch the ends of one call; Job/Newest when a change is
--   no later than another; Job/Contract what a call promises, Job/Clean one
--   whose writes go through; Job/Recovery redelivery;
--   Job/History runs of any calls; Job/Arrivals and Job/Converge histories of
--   calls; Job/Load a load
--   into empty stores; Job/Named the keys of the table.
-- - Change: the flattened change event and the row of the Delta table.
-- - Sql: column expressions with NULL. Errors and Exec: exceptions and writes. Prelude: shared lists,
--   tests and lemmas.
--
-- A call of Python code that raises is a value of `Result`; the state comes back beside it, for
-- what was stored before an exception stays stored. A write to Delta or Postgres ends
-- acknowledged, refused, or stored with the caller dead before it hears of it; the save to Kafka
-- is a parameter (`Sink`), for it may store any part of its rows before it raises. Time is in
-- whole milliseconds.
--
-- Parameters stand for what is not in the repository, each with its documented laws and a concrete
-- instance: Spark's `row_number` (Window, Window/Reference), Delta's MERGE (Delta,
-- Delta/Reference), and `distinct` on schema ids (in Avro), and the save to Kafka (in Dlq). Avro's
-- decoder, the casts to timestamps, the schema registry, the regular expression engine, `uuid()`,
-- `to_json`, `json.loads` and `int` of a text are arguments without laws, as are Python's random
-- numbers, ids and the decoding of bytes in the scripts; a theorem that needs a law of one, such
-- as distinct ids, names it. Nothing runs on fuel: a loop is over a list, and one that waits or
-- polls is over the list of what it meets.
--
-- Not modelled: the settings of Spark (`build_spark`), the command lines, the signal handler of the job,
-- `latest_schema`, which is one request, and the Avro serializers of the injection scripts.
pub mod Prelude
pub mod Sql
pub mod Errors
pub mod Exec
pub mod Change
pub mod Avro
pub mod Validator
pub mod Window
pub mod Delta
pub mod Dlq
pub mod Metrics
pub mod Job
pub mod Stream
pub mod Parity
pub mod Snapshot
pub mod Trend
pub mod Replay
pub mod Setup
pub mod Grouping
pub mod Skew
pub mod LateDelete
pub mod Inject
pub mod Generator
pub mod Sidecar
