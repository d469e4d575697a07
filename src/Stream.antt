-- ===== src/Stream.antt =====
-- One micro-batch of the stream, `foreach_batch_wrapper` of spark/jobs/payments_cdc_job.py: the records
-- are decoded and handed to `process_batch`. The state is the job's and the schema cache.
pub mod Query
mod Examples
use payments_cdc_pipeline.Prelude.{
  ℕ, String, List, Bool, true, false, Option, length, count_if, ◌==◌, if◌then◌else◌, Bool-cases,
  ◌≡◌, refl, sym, ap, ◌∙◌,
}
use mathlib.Core.Path.{subst}
use payments_cdc_pipeline.Errors.{Error, Result, ok, err}
use payments_cdc_pipeline.Exec.{Exec, pure, bind_ok, ◌>>=◌}
use payments_cdc_pipeline.Change.{Change}
use payments_cdc_pipeline.Avro.{Casts, Envelope, Record, Cache, Distinct, deserialize_by_schema_id}
use payments_cdc_pipeline.Avro.Decode.{decode_each, decode_by_writer_schema}
use payments_cdc_pipeline.Avro.SchemaCache.{IsCoherent}
use payments_cdc_pipeline.Job.{World, Env, process_batch}

abbrev pub State : Type 0
State = World × Cache

abbrev pub on_cache : {A : Type 0} → Exec Cache A → Exec State A
on_cache m s = let (r, cache) = m s.1 in (r, (s.0, cache))

abbrev pub on_world : {A : Type 0} → Exec World A → Exec State A
on_world m s = let (r, w) = m s.0 in (r, (w, s.1))

module _ {Raw : Type 0} (cast : Casts Raw) (from_avro : String → List ℕ → Option (Envelope Raw))
    (spark : Distinct) where
  unfoldable pub foreach_batch_wrapper :
      Env → (ℕ → Result String) → List Record → ℕ → Exec State (Unit {0})
  foreach_batch_wrapper env registry raw_batch batch_id =
      if length raw_batch == 0 then pure tt else do
        flat ← on_cache (deserialize_by_schema_id cast from_avro spark registry raw_batch)
        on_world (process_batch env batch_id true flat)

-- Where the batch has records, the registry has every schema and the cache is coherent, the stream's
-- handler is `process_batch` on rows that are the batch's records, each decoded with its writer's
-- schema: it returns or raises as that does, with its effect on the stores, and the cache stays coherent.
pub stream_processes_decoded :
    {Raw : Type 0} (cast : Casts Raw) (from_avro : String → List ℕ → Option (Envelope Raw))
    (spark : Distinct) (schemas : ℕ → String) (env : Env) (raw_batch : List Record) (batch_id : ℕ)
    (w : World) (cache : Cache)
    → (length raw_batch == 0) ≡ false
    → IsCoherent (λ i. ok (schemas i)) cache
    → (flat : List Change) × (cache' : Cache) × (foreach_batch_wrapper cast from_avro spark env
          (λ i. ok (schemas i))
          raw_batch
          batch_id
          (w, cache)
        ≡ (
          (process_batch env batch_id true flat w).0,
          ((process_batch env batch_id true flat w).1, cache'),
        ))
      × IsCoherent (λ i. ok (schemas i)) cache'
      × ((p : Change → Bool)
          → count_if p flat ≡ count_if p (decode_each cast from_avro schemas raw_batch))
unfolding foreach_batch_wrapper
stream_processes_decoded cast from_avro spark schemas env raw_batch batch_id w cache n h =
    let (flat, cache', e, k, c) =
      decode_by_writer_schema cast from_avro schemas spark raw_batch cache h in
    (
      flat,
      cache',
      rw n (
          bind_ok
            (on_cache
              (deserialize_by_schema_id cast from_avro spark (λ i. ok (schemas i)) raw_batch))
            (λ flat. on_world (process_batch env batch_id true flat)) (w, cache) (w, cache') flat
            (ap (λ (x : Result (List Change) × Cache). (x.0, (w, x.1))) e)),
      k,
      c,
    )
