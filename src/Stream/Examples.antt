-- ===== src/Stream/Examples.antt =====
-- The stream of spark/jobs/payments_cdc_job.py on a small batch.
use payments_cdc_pipeline.Prelude.{
  List, [], ◌∷◌, Bool, true, none, some, count_if, find, HasUniqueKeys, arith, ◌≡◌, refl,
}
use payments_cdc_pipeline.Exec.{acknowledged}
use payments_cdc_pipeline.Change.{Change, Entry}
use payments_cdc_pipeline.Delta.{to_entry}
use payments_cdc_pipeline.Metrics.Json.{Json}
use payments_cdc_pipeline.Metrics.Offsets.{Parser}
use payments_cdc_pipeline.Job.Merge.{entry_key}
use payments_cdc_pipeline.Job.Guard.{Step}
use payments_cdc_pipeline.Stream.Query.{Happening, run_stream, run_stream_never_regresses}
use payments_cdc_pipeline.Avro.{Cache}
use payments_cdc_pipeline.Avro.Decode.{decode_each}
use payments_cdc_pipeline.Avro.SchemaCache.{IsCoherent}
use payments_cdc_pipeline.Avro.Examples.{
  exact, plain_distinct, schema, reachable, reader, mixed, empty-IsCoherent,
}
use payments_cdc_pipeline.Job.{World, process_batch}
use payments_cdc_pipeline.Job.Examples.Data.{env_with, fresh, payment}
use payments_cdc_pipeline.Stream.{State, foreach_batch_wrapper, stream_processes_decoded}

stream_processes_decoded_example :
    (flat : List Change) × (cache' : Cache) × (foreach_batch_wrapper exact reader plain_distinct
        (env_with acknowledged)
        reachable
        mixed
        4
        (fresh, [])
      ≡ (
        (process_batch (env_with acknowledged) 4 true flat fresh).0,
        ((process_batch (env_with acknowledged) 4 true flat fresh).1, cache'),
      ))
    × IsCoherent reachable cache'
    × ((p : Change → Bool) → count_if p flat ≡ count_if p (decode_each exact reader schema mixed))
stream_processes_decoded_example =
    stream_processes_decoded exact reader plain_distinct schema (env_with acknowledged) mixed 4
      fresh [] refl empty-IsCoherent

abbrev held : Entry
held = to_entry (payment "t1" "AUTHORIZED" 5 0)

abbrev world : World
world = record fresh { table = held ∷ [] }

world-HasUniqueKeys : HasUniqueKeys entry_key world.table
world-HasUniqueKeys k = ground arith

abbrev parser : Parser
parser = record { loads = λ s. none; int_of = λ s. none }

abbrev happenings : List Happening
happenings =
    Happening.progress none
    ∷ Happening.delivered (env_with acknowledged) reachable mixed 4
    ∷ Happening.progress (some Json.null)
    ∷ []

abbrev ended : State
ended =
    (run_stream exact reader plain_distinct parser 1 (some (some "m1" ∷ [])) happenings
      (world, [])).1

run_stream_never_regresses_example :
    HasUniqueKeys entry_key ended.0.table
    × (e' : Entry) × (find entry_key "t1" ended.0.table ≡ some e')
    × Step held e'
run_stream_never_regresses_example =
    run_stream_never_regresses exact reader plain_distinct parser 1 (some (some "m1" ∷ []))
      happenings (world, []) "t1" held world-HasUniqueKeys refl
