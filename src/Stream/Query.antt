-- ===== src/Stream/Query.antt =====
-- `run_stream` of spark/jobs/payments_cdc_job.py: the start of the registry, and the streaming query beside
-- the loop that reads its progress. What happens comes as a list in the order of time, until the query
-- stops; a handler that raises ends the query, and `awaitTermination` raises.
use payments_cdc_pipeline.Prelude.{
  ℕ, String, List, [], ◌∷◌, true, Option, none, some, find, HasUniqueKeys, length, ◌==◌, Bool-cases,
  ◌≡◌, refl, inl, inr,
}
use payments_cdc_pipeline.Errors.{Result, ok, err}
use payments_cdc_pipeline.Exec.{Exec, pure, modify, ◌>>◌, Keeps, bind-Keeps}
use payments_cdc_pipeline.Change.{Change, Entry}
use payments_cdc_pipeline.Avro.{Casts, Envelope, Record, Distinct, deserialize_by_schema_id}
use payments_cdc_pipeline.Dlq.{Registry, get_merchant_registry}
use payments_cdc_pipeline.Metrics.Json.{Json}
use payments_cdc_pipeline.Metrics.Offsets.{Parser, extract_processed_offsets}
use payments_cdc_pipeline.Job.{World, Env, process_batch}
use payments_cdc_pipeline.Job.Merge.{entry_key}
use payments_cdc_pipeline.Job.Guard.{Step, Step-trans}
use payments_cdc_pipeline.Job.History.{Call, run, Follows, never_regresses}
use payments_cdc_pipeline.Stream.{State, on_cache, on_world, foreach_batch_wrapper}

-- A reading of `lastProgress`, `none` where it raises, or a micro-batch.
pub data Happening : Type 0 where
  progress : Option Json → Happening
  delivered : Env → (ℕ → Result String) → List Record → ℕ → Happening

module _ {Raw : Type 0} (cast : Casts Raw) (from_avro : String → List ℕ → Option (Envelope Raw))
    (spark : Distinct) (parser : Parser) where
  -- The body of the loop: the offsets of the last progress that could be read.
  abbrev pub read_progress : Option Json → State → State
  read_progress none s = s
  read_progress (some report) s =
      (record s.0 { processed_offsets = extract_processed_offsets parser report }, s.1)

  unfoldable pub query : List Happening → Exec State (Unit {0})
  query [] = pure tt
  query (progress p ∷ happenings) = modify (read_progress p) >> query happenings
  query (delivered env registry raw_batch batch_id ∷ happenings) =
      foreach_batch_wrapper cast from_avro spark env registry raw_batch batch_id >> query happenings

  -- The call of `get_merchant_registry`, at the time and with the answer of Postgres.
  abbrev pub start_registry : ℕ → Option (List (Option String)) → Exec State (Unit {0})
  start_registry now answer s =
      let (r, global) = get_merchant_registry now answer s.0.registry in
      elim r [
        | ok reg ↦ (ok tt, (record s.0 { registry = global }, s.1))
        | err e ↦ (err e, (record s.0 { registry = global }, s.1))
      ]

  pub run_stream : ℕ → Option (List (Option String)) → List Happening → Exec State (Unit {0})
  unfolding query
  run_stream now answer happenings = start_registry now answer >> query happenings

-- The keys are unique, and the key still holds the row or a later one.
abbrev Holds : String → Entry → State → Type 0
Holds k e s = HasUniqueKeys entry_key s.0.table × Follows k e s.0.table

process_batch-Holds :
    (k : String) (e : Entry) (env : Env) (batch_id : ℕ) (flat : List Change)
    → Keeps (Holds k e) (on_world (process_batch env batch_id true flat))
unfolding run
process_batch-Holds k e env batch_id flat s (u, (e', f, t)) =
    let call : Call = record { env = env; batch_id = batch_id; commit = true; batch_df = flat } in
    let (v, e'', g, t') = never_regresses (call ∷ []) s.0 k e' u f in
    (v, (e'', g, Step-trans e e' e'' t t'))

module _ {Raw : Type 0} (cast : Casts Raw) (from_avro : String → List ℕ → Option (Envelope Raw))
    (spark : Distinct) (parser : Parser) (k : String) (e : Entry) where
  foreach_batch_wrapper-Holds :
      (env : Env) (registry : ℕ → Result String) (raw_batch : List Record) (batch_id : ℕ)
      → Keeps
          (Holds k e)
          (foreach_batch_wrapper cast from_avro spark env registry raw_batch batch_id)
  unfolding foreach_batch_wrapper
  foreach_batch_wrapper-Holds env registry raw_batch batch_id s h =
      elim (Bool-cases (length raw_batch == 0)) [
        | inl t ↦ rw t h
        | inr t ↦ rw t (
            bind-Keeps (Holds k e)
              (on_cache (deserialize_by_schema_id cast from_avro spark registry raw_batch))
              (λ flat. on_world (process_batch env batch_id true flat)) (λ s h. h)
              (λ flat. process_batch-Holds k e env batch_id flat) s h)
      ]

  query-Holds :
      (happenings : List Happening)
      → Keeps (Holds k e) (query cast from_avro spark parser happenings)
  unfolding query
  query-Holds [] s h = h
  query-Holds (progress none ∷ happenings) s h = query-Holds happenings s h
  query-Holds (progress (some report) ∷ happenings) s h = query-Holds happenings _ h
  query-Holds (delivered env registry raw_batch batch_id ∷ happenings) s h =
      bind-Keeps (Holds k e)
        (foreach_batch_wrapper cast from_avro spark env registry raw_batch batch_id)
        (λ _. query cast from_avro spark parser happenings)
        (foreach_batch_wrapper-Holds env registry raw_batch batch_id) (λ _. query-Holds happenings)
        s h

  start_registry-Holds :
      (now : ℕ) (answer : Option (List (Option String)))
      → Keeps (Holds k e) (start_registry cast from_avro spark parser now answer)
  start_registry-Holds now answer s h = go (get_merchant_registry now answer s.0.registry).0
    where
      started : World
      started = record s.0 { registry = (get_merchant_registry now answer s.0.registry).1 }

      ending : Result Registry → Result (Unit {0}) × State
      ending r = elim r [ ok reg ↦ (ok tt, (started, s.1)) | err x ↦ (err x, (started, s.1)) ]

      go : (r : Result Registry) → Holds k e (ending r).1
      go (ok reg) = h
      go (err x) = h

-- However a run of the stream goes and ends, with whatever batches, readings of the progress, exceptions and
-- failed writes, it loses no key and turns none back: where the keys are unique at the start they are so at
-- the end, and what a key held then is there still or has given way to a row with a greater log position.
pub run_stream_never_regresses :
    {Raw : Type 0} (cast : Casts Raw) (from_avro : String → List ℕ → Option (Envelope Raw))
    (spark : Distinct) (parser : Parser) (now : ℕ) (answer : Option (List (Option String)))
    (happenings : List Happening) (s : State) (k : String) (e : Entry)
    → HasUniqueKeys entry_key s.0.table
    → find entry_key k s.0.table ≡ some e
    → let s' = (run_stream cast from_avro spark parser now answer happenings s).1 in
      HasUniqueKeys entry_key s'.0.table
      × (e' : Entry) × (find entry_key k s'.0.table ≡ some e')
      × Step e e'
unfolding run_stream
run_stream_never_regresses cast from_avro spark parser now answer happenings s k e u f =
    let (v, w) =
      bind-Keeps (Holds k e) (start_registry cast from_avro spark parser now answer)
        (λ _. query cast from_avro spark parser happenings)
        (start_registry-Holds cast from_avro spark parser k e now answer)
        (λ _. query-Holds cast from_avro spark parser k e happenings) s (u, (e, f, inl refl)) in
    let (e', g, t) = w in (v, e', g, t)
