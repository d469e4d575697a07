-- ===== src/Dlq.antt =====
-- The merchant registry and the dead letter queue, spark/utils/dlq_writer.py. `time.time()` is read
-- in whole milliseconds, Postgres answers by an argument, and Spark's `uuid` and `to_json` are
-- parameters.
pub mod Refresh
pub mod Delivery
mod Examples
use payments_cdc_pipeline.Prelude.{
  ℕ, suc, ◌+◌, ◌-◌, ◌*◌, String, List, [], ◌∷◌, Bool, true, false, Option, none, some, not, ◌&&◌,
  text_eq, ltb, length, ◌==◌, ◌++◌, if◌then◌else◌, In, ◌≡◌,
}
use payments_cdc_pipeline.Sql.{coalesce, member}
use payments_cdc_pipeline.Errors.{Error, Result, ok, err}
use payments_cdc_pipeline.Exec.{Exec, pure, ◌>>◌}
use payments_cdc_pipeline.Change.{Change}
use payments_cdc_pipeline.Validator.{Checked}

-- `MERCHANT_REFRESH_SECONDS`, in milliseconds.
abbrev pub merchant_refresh : ℕ
merchant_refresh = 120 * 1000

pub record Registry : Type 0 where
  pub merchant_ids : List String
  pub loaded_at : ℕ

-- The fields that `__init__` sets before its first `refresh`.
abbrev pub blank : Registry
blank = record { merchant_ids = []; loaded_at = 0 }

abbrev pub age : ℕ → Registry → ℕ
age now reg = now - reg.loaded_at

abbrev add : String → List String → List String
add m ms = if member ms m then ms else m ∷ ms

-- `{r[0] for r in rows if r[0]}`
unfoldable pub distinct_ids : List (Option String) → List String
distinct_ids [] = []
distinct_ids (none ∷ rows) = distinct_ids rows
distinct_ids (some m ∷ rows) =
    let rest = distinct_ids rows in if text_eq m "" then rest else add m rest

-- The body of the `try`: what `SELECT merchant_id FROM merchants` gives, or the exception.
unfoldable pub fetch : Option (List (Option String)) → Result (List String)
unfolding distinct_ids
fetch none = err Error.postgres_error
fetch (some rows) = elim (distinct_ids rows) [ [] ↦ err Error.runtime_error | m ∷ ms ↦ ok (m ∷ ms) ]

-- The `except`: the stale set stays, and the exception is raised again if there is none.
abbrev settle : Result (List String) → ℕ → Registry → Result (Unit {0}) × Registry
settle (ok ids) now reg = (ok tt, record { merchant_ids = ids; loaded_at = now })
settle (err e) now reg = (elim reg.merchant_ids [ [] ↦ err e | _ ∷ _ ↦ ok tt ], reg)

-- `refresh` reads the clock at `now`.
unfoldable pub refresh :
    Bool → ℕ → Option (List (Option String)) → Registry → Result (Unit {0}) × Registry
refresh force now answer reg =
    if not force && ltb (age now reg) merchant_refresh
    then (ok tt, reg)
    else settle (fetch answer) now reg

-- The constructor's outcome: the module's global is set only where it returns.
abbrev constructed : Result (Unit {0}) × Registry → Result Registry × Option Registry
constructed (ok _, reg) = (ok reg, some reg)
constructed (err e, reg) = (err e, none)

unfoldable pub get_merchant_registry :
    ℕ → Option (List (Option String)) → Option Registry → Result Registry × Option Registry
get_merchant_registry now answer (some reg) = (ok reg, some reg)
get_merchant_registry now answer none = constructed (refresh true now answer blank)

-- `reg.refresh()`, then `return reg.merchant_ids`.
abbrev answered : Result (Unit {0}) × Registry → Result (List String) × Option Registry
answered (ok _, reg) = (ok reg.merchant_ids, some reg)
answered (err e, reg) = (err e, some reg)

abbrev from_registry :
    ℕ
    → Option (List (Option String))
    → Result Registry × Option Registry
    → Result (List String) × Option Registry
from_registry now answer (ok reg, global) = answered (refresh false now answer reg)
from_registry now answer (err e, global) = (err e, global)

-- The registry may ask Postgres twice, in its constructor and in `refresh`; the second time is
-- within the refresh interval.
unfoldable pub merchants :
    ℕ → Option (List (Option String)) → Option Registry → Result (List String) × Option Registry
unfolding get_merchant_registry
merchants now answer global = from_registry now answer (get_merchant_registry now answer global)

-- A message of the dead letter topic.
pub record Message : Type 0 where
  pub key : String
  pub row : Checked
  pub rejected_at : ℕ
  pub value : String

-- What the writer asks of Spark: `uuid()` for the n-th row of the frame, and `to_json` of a row with
-- its `rejected_at` column.
pub record Encoder : Type 0 where
  pub uuid : ℕ → String
  pub to_json : Checked → ℕ → String

abbrev pub payload_from : Encoder → ℕ → ℕ → List Checked → List Message
payload_from enc rejected_at n [] = []
payload_from enc rejected_at n (r ∷ rows) =
    record {
      key = elim r.change.transaction_id [ some t ↦ t | none ↦ enc.uuid n ];
      row = r;
      rejected_at = rejected_at;
      value = enc.to_json r rejected_at;
    }
    ∷ payload_from enc rejected_at (suc n) rows

-- The frame that `write_to_dlq` sends.
unfoldable pub payload : Encoder → ℕ → List Checked → List Message
payload enc rejected_at invalid = payload_from enc rejected_at 0 invalid

-- Spark's save to Kafka, for one frame. Tasks write side by side and are tried again: a save that returns has
-- put every row on the topic, in some order and perhaps more than once, and one that raises any of them.
pub record Sink : Type 0 where
  pub returns : Bool
  pub arrived : List Message → List Message
  pub arrived-In : (rows : List Message) (m : Message) → In m (arrived rows) → In m rows
  pub In-arrived :
      returns ≡ true → (rows : List Message) (m : Message) → In m rows → In m (arrived rows)

abbrev pub save : Sink → List Message → Exec (List Message) (Unit {0})
save sink rows topic =
    (if sink.returns then ok tt else err Error.kafka_error, topic ++ sink.arrived rows)

-- The state is the topic's messages.
unfoldable pub write_to_dlq : Encoder → ℕ → Sink → List Checked → Exec (List Message) ℕ
unfolding payload
write_to_dlq enc rejected_at sink invalid =
    if length invalid == 0
    then pure 0
    else do save sink (payload enc rejected_at invalid); pure (length invalid)
