-- ===== src/Inject/Postgres.antt =====
-- The writes of scripts/inject_bad_records.py to Postgres and to the topic of changes. A transaction ends as
-- `Outcome` says.
use payments_cdc_pipeline.Prelude.{
  ℕ, String, List, [], ◌∷◌, ◌++◌, Bool, true, false, Option, none, some, not, keep,
}
use payments_cdc_pipeline.Sql.{member}
use payments_cdc_pipeline.Errors.{Error}
use payments_cdc_pipeline.Exec.{Exec, Outcome, write, pure, raise, modify}
use payments_cdc_pipeline.Avro.{Envelope}
use payments_cdc_pipeline.Inject.{Row, rogue, envelope}

-- The rows of the table, and the messages of the topic with their keys.
pub record Stores : Type 0 where
  pub rows : List Row
  pub topic : List (String × Envelope String)

abbrev pub insert_rows : Outcome → List Row → Exec Stores (Unit {0})
insert_rows save new = write save Error.postgres_error (λ st. record st { rows = st.rows ++ new })

abbrev pub insert_row : Outcome → Row → Exec Stores (Unit {0})
insert_row save r = insert_rows save (r ∷ [])

abbrev pub publish : String → ℕ → String → Stores → Stores
publish tid now_ms now_str st = record st {
  topic = st.topic ++ (tid, envelope "c" (rogue tid) 9000000001 now_ms now_str) ∷ [];
}

-- What the callback of the producer reports within the 15 seconds, if it does: without a report the call
-- returns all the same.
abbrev pub publish_rogue_avro : Option Bool → String → ℕ → String → Exec Stores (Unit {0})
publish_rogue_avro none tid now_ms now_str = pure tt
publish_rogue_avro (some true) tid now_ms now_str = modify (publish tid now_ms now_str)
publish_rogue_avro (some false) tid now_ms now_str = raise Error.system_exit

-- DELETE ... WHERE transaction_id = ANY(ids)
abbrev pub without : List String → List Row → List Row
without ids rows = keep (λ (r : Row). not (member ids r.transaction_id)) rows

unfoldable pub cleanup_injected : Outcome → List String → Exec Stores (Unit {0})
cleanup_injected save [] = pure tt
cleanup_injected save (id ∷ ids) =
    write save Error.postgres_error (λ st. record st { rows = without (id ∷ ids) st.rows })
