-- ===== src/Inject.antt =====
-- The injection suite, scripts/inject_bad_records.py: its constants, the rows that it inserts, the
-- messages that it reads from the dead letter topic, and the live ids that it reads from Delta. Texts and
-- bytes are decoded by parameters.
pub mod Polling
pub mod Postgres
pub mod Suite
pub mod Oracle
pub mod Cleanup
pub mod Rejected
pub mod Sound
mod Examples
use text.Mathlib.Text.{starts_with}
use payments_cdc_pipeline.Prelude.{
  ℕ, suc, ◌+◌, ◌*◌, String, List, [], ◌∷◌, Bool, true, false, Option, none, some, map, keep, any,
  not, ◌||◌, ◌&&◌, text_eq, if◌then◌else◌,
}
use payments_cdc_pipeline.Prelude.Int.{ℤ, pos, negsuc}
use payments_cdc_pipeline.Sql.{equal, where_holds, is_in, member}
use payments_cdc_pipeline.Errors.{Error, Result, ok, err}
use payments_cdc_pipeline.Change.{Entry}
use payments_cdc_pipeline.Avro.{Image, Source, Envelope}
use payments_cdc_pipeline.Parity.{is_live}
use payments_cdc_pipeline.Metrics.Json.{
  Json, null, str, obj, Fields, end, field, get_or_null, or_else, set,
}

abbrev pub known_merchant : String
known_merchant = "MERCH_007"

abbrev pub ghost_merchant : String
ghost_merchant = "MERCH_GHOST_000"

abbrev pub valid_currency : String
valid_currency = "USD"

abbrev pub invalid_currency : String
invalid_currency = "XYZ"

abbrev pub valid_status : String
valid_status = "PENDING"

abbrev pub valid_event_type : String
valid_event_type = "AUTHORIZATION"

-- `sub in s`, for texts
pub contains : String → String → Bool
contains sub String.[] = starts_with String.[] sub
contains sub (String.◌∷◌ c s) = starts_with (String.◌∷◌ c s) sub || contains sub s

-- The lines of `pgrep -af`.
pub check_streaming_job_alive : List String → Result (Unit {0})
unfolding contains
check_streaming_job_alive lines =
    if any (λ ln. contains "spark.jobs.payments_cdc_job" ln && not (contains "pgrep" ln)) lines
    then ok tt
    else err Error.system_exit

-- The data types that the catalog gives for the column.
pub assert_transaction_id_is_uuid : List String → Result (Unit {0})
assert_transaction_id_is_uuid [] = err Error.system_exit
assert_transaction_id_is_uuid (t ∷ rows) = if text_eq t "uuid" then ok tt else err Error.system_exit

-- The arguments of an INSERT.
pub record Row : Type 0 where
  pub transaction_id : String
  pub merchant_id : String
  pub amount_minor : ℤ
  pub currency : String
  pub status : String
  pub event_type : String

abbrev pub payment : String → String → ℤ → String → Row
payment tid merchant amount currency = record {
  transaction_id = tid;
  merchant_id = merchant;
  amount_minor = amount;
  currency = currency;
  status = valid_status;
  event_type = valid_event_type;
}

abbrev image : Row → String → Image String
image r now_str = record {
  transaction_id = some r.transaction_id;
  merchant_id = some r.merchant_id;
  amount_minor = some r.amount_minor;
  currency = some r.currency;
  status = some r.status;
  event_type = some r.event_type;
  created_at = some now_str;
  updated_at = some now_str;
}

-- The fields of the envelope that the pipeline reads.
pub envelope : String → Row → ℕ → ℕ → String → Envelope String
envelope op r lsn now_ms now_str = record {
  op = some op;
  before = if text_eq op "d" || text_eq op "u" then some (image r now_str) else none;
  after = if text_eq op "d" then none else some (image r now_str);
  source = some (record { lsn = some lsn; ts_ms = some now_ms });
}

-- The envelope that the third test publishes.
abbrev pub rogue : String → Row
rogue tid = payment tid known_merchant (pos 1000) valid_currency

-- A message of Kafka, with its bytes.
pub record Message : Type 0 where
  pub value : Option (List ℕ)
  pub key : Option (List ℕ)

-- `json.loads` of the decoded bytes, `none` where either raises, `decode` with replacement, and `str` of a
-- value that is no text.
pub record Codec : Type 0 where
  pub loads : List ℕ → Option Json
  pub decode : List ℕ → String
  pub show : Json → String

module _ (codec : Codec) where
  abbrev bytes_of : Option (List ℕ) → List ℕ
  bytes_of none = []
  bytes_of (some bytes) = bytes

  -- The dict of a message, before its key is set.
  abbrev parsed : List ℕ → Option Json → Fields
  parsed raw (some (obj fs)) = fs
  parsed raw (some v) = field "_raw" v end
  parsed raw none = field "_raw" (str (codec.decode raw)) end

  -- An empty key is as good as none.
  abbrev key_of : Option (List ℕ) → Json
  key_of none = null
  key_of (some []) = null
  key_of (some (b ∷ bytes)) = str (codec.decode (b ∷ bytes))

  pub record_of : Message → Fields
  record_of msg =
      let raw = bytes_of msg.value in set "_key" (key_of msg.key) (parsed raw (codec.loads raw))

  -- `str(v)`
  abbrev text_of : Json → String
  text_of (str s) = s
  text_of v = codec.show v

  pub tid_of : Fields → String
  tid_of rec =
      text_of
        (or_else (get_or_null "transaction_id" rec) (or_else (get_or_null "_key" rec) (str "")))

  pub reason_of : Fields → String
  reason_of rec =
      text_of
        (or_else (get_or_null "rejection_reason" rec) (or_else (get_or_null "reason" rec) (str "")))

  -- The first message of the id, and its reason.
  unfoldable pub dlq_hit : String → List Fields → Bool × String
  unfolding tid_of reason_of
  dlq_hit tid [] = (false, "")
  dlq_hit tid (rec ∷ blob) =
      let rest = dlq_hit tid blob in
      if text_eq (tid_of rec) tid then (true, reason_of rec) else rest

abbrev pub add : String → List String → List String
add s ss = if member ss s then ss else s ∷ ss

abbrev pub present : List Entry → List String
present [] = []
present (e ∷ rows) =
    let rest = present rows in elim e.transaction_id [ none ↦ rest | some t ↦ add t rest ]

-- The set of the ids, among those given, that have a live row.
pub delta_live_ids : List Entry → List String → List String
delta_live_ids table ids =
    present (where_holds (λ (e : Entry). is_in ids e.transaction_id) (where_holds is_live table))
