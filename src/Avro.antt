-- ===== src/Avro.antt =====
-- The Avro deserializer, spark/utils/avro_deserializer.py: the wire format's header, the schema cache,
-- the flattening of the Debezium envelope, and the batch that is decoded schema by schema. Avro's
-- decoder, the schema registry and Spark's `distinct` and timestamp casts are parameters. A batch with
-- short values or ids from 2 ^ 31 on follows Spark's casts: such an id is NULL.
pub mod SchemaCache
pub mod Decode
pub mod Wire
pub mod Examples
use payments_cdc_pipeline.Prelude.{
  ℕ, ◌+◌, ◌*◌, ◌^◌, ◌≤◌, String, List, [], ◌∷◌, ◌++◌, Bool, true, false, Option, none, some, map,
  keep, count_if, ltb, ◌==◌, text_eq, if◌then◌else◌, ◌≡◌,
}
use payments_cdc_pipeline.Prelude.Int.{ℤ}
use payments_cdc_pipeline.Sql.{Condition, coalesce, lift, holds}
use payments_cdc_pipeline.Errors.{Error, Result, ok, err}
use payments_cdc_pipeline.Exec.{Exec, pure, ◌>>=◌}
use payments_cdc_pipeline.Change.{Change}

-- The row images of the envelope; the type of a raw timestamp is the writer's.
pub record Image (Raw : Type 0) : Type 0 where
  pub transaction_id : Option String
  pub merchant_id : Option String
  pub amount_minor : Option ℤ
  pub currency : Option String
  pub status : Option String
  pub event_type : Option String
  pub created_at : Option Raw
  pub updated_at : Option Raw

pub record Source : Type 0 where
  pub lsn : Option ℕ
  pub ts_ms : Option ℕ

pub record Envelope (Raw : Type 0) : Type 0 where
  pub op : Option String
  pub before : Option (Image Raw)
  pub after : Option (Image Raw)
  pub source : Option Source

-- A field of a NULL struct is NULL.
abbrev pub get_field : {S A : Type 0} → (S → Option A) → Option S → Option A
get_field column none = none
get_field column (some s) = column s

-- `F.coalesce(e.after.column, e.before.column)`
abbrev pub after_or_before : {Raw A : Type 0} → (Image Raw → Option A) → Envelope Raw → Option A
after_or_before column e = coalesce (get_field column e.after) (get_field column e.before)

-- Spark's casts of a number to a timestamp in microseconds, with the division of the number as a double
-- before: of a raw timestamp, and of a time in milliseconds.
pub record Casts (Raw : Type 0) : Type 0 where
  pub of_raw : Raw → Option ℕ
  pub of_millis : ℕ → Option ℕ

-- `F.when(raw.isNotNull(), (raw / 1_000_000).cast("timestamp"))`
abbrev pub timestamp_of : {Raw : Type 0} → Casts Raw → Option Raw → Option ℕ
timestamp_of cast none = none
timestamp_of cast (some raw) = cast.of_raw raw

-- `(ts_ms / 1000.0).cast("timestamp")`
abbrev pub source_time : {Raw : Type 0} → Casts Raw → Option ℕ → Option ℕ
source_time cast none = none
source_time cast (some t) = cast.of_millis t

unfoldable pub flatten_envelope : {Raw : Type 0} → Casts Raw → Envelope Raw → ℕ → ℕ → Change
flatten_envelope cast e partition offset = record {
  op = e.op;
  transaction_id = after_or_before (λ i. i.transaction_id) e;
  merchant_id = after_or_before (λ i. i.merchant_id) e;
  amount_minor = after_or_before (λ i. i.amount_minor) e;
  currency = after_or_before (λ i. i.currency) e;
  status = after_or_before (λ i. i.status) e;
  event_type = after_or_before (λ i. i.event_type) e;
  created_at = timestamp_of cast (after_or_before (λ i. i.created_at) e);
  updated_at = timestamp_of cast (after_or_before (λ i. i.updated_at) e);
  lsn = get_field (λ (s : Source). s.lsn) e.source;
  source_ts = source_time cast (get_field (λ (s : Source). s.ts_ms) e.source);
  partition = partition;
  offset = offset;
  is_delete = lift (λ op. text_eq op "d") e.op;
}

-- A record read from Kafka. Its value is a list of bytes, NULL for a tombstone.
pub record Record : Type 0 where
  pub value : Option (List ℕ)
  pub partition : ℕ
  pub offset : ℕ

-- `conv(hex(bytes), 16, 10)`
abbrev pub big_endian : ℕ → List ℕ → ℕ
big_endian acc [] = acc
big_endian acc (b ∷ bytes) = big_endian (acc * 256 + b) bytes

-- `substring(value, 2, 4)`: the second to the fifth byte, as many as there are.
abbrev pub id_bytes : List ℕ → List ℕ
id_bytes (m ∷ a ∷ b ∷ c ∷ d ∷ rest) = a ∷ b ∷ c ∷ d ∷ []
id_bytes (m ∷ rest) = rest
id_bytes [] = []

-- The cast to an integer of 32 bits gives NULL where the number does not fit, and the empty text
-- has none.
abbrev pub as_int : List ℕ → Option ℕ
as_int [] = none
as_int (b ∷ bytes) = let n = big_endian 0 (b ∷ bytes) in if ltb n (2 ^ 31) then some n else none

unfoldable pub schema_id : Record → Option ℕ
schema_id r = elim r.value [ none ↦ none | some bytes ↦ as_int (id_bytes bytes) ]

-- The filter of the subset with one schema id.
abbrev pub has_id : ℕ → Record → Bool
has_id sid r = holds (lift (λ i. i == sid) (schema_id r))

-- `substring(value, 6, length(value) - 5)`
abbrev pub avro_value : List ℕ → List ℕ
avro_value (m ∷ a ∷ b ∷ c ∷ d ∷ rest) = rest
avro_value bytes = []

-- `_schema_cache`
abbrev pub Cache : Type 0
Cache = List (ℕ × String)

abbrev pub lookup : ℕ → Cache → Option String
lookup sid [] = none
lookup sid ((i, schema) ∷ cache) =
    let rest = lookup sid cache in if i == sid then some schema else rest

abbrev pub store : ℕ → Result String → Exec Cache String
store sid (ok schema) cache = (ok schema, (sid, schema) ∷ cache)
store sid (err e) cache = (err e, cache)

-- `registry` is what the schema registry answers, or the exception of the request.
pub schema_by_id : (ℕ → Result String) → ℕ → Exec Cache String
schema_by_id registry sid cache = elim (lookup sid cache) [
  | some schema ↦ (ok schema, cache)
  | none ↦ store sid (registry sid) cache
]

-- Equality of nullable ids, where NULL is one value, as for `distinct`.
abbrev pub same_id : Option ℕ → Option ℕ → Bool
same_id none none = true
same_id (some i) (some j) = i == j
same_id _ _ = false

-- `distinct().collect()`: every value once, in any order.
pub record Distinct : Type 0 where
  pub distinct : List (Option ℕ) → List (Option ℕ)
  pub distinct-counts :
      (ids : List (Option ℕ)) (i : Option ℕ)
      → count_if (same_id i) (distinct ids) ≡ (if ltb 0 (count_if (same_id i) ids) then 1 else 0)

-- `[row.schema_id for row in ... if row.schema_id is not None]`
abbrev pub not_none : List (Option ℕ) → List ℕ
not_none [] = []
not_none (none ∷ ids) = not_none ids
not_none (some i ∷ ids) = i ∷ not_none ids

module _ {Raw : Type 0} (cast : Casts Raw)
    (from_avro : String → List ℕ → Option (Envelope Raw)) where
  -- `from_avro`, the filter on NULL and `flatten_envelope`, for one record.
  abbrev pub decoded : String → Record → List Change
  unfolding flatten_envelope
  decoded schema r = elim r.value [
    | none ↦ []
    | some bytes ↦ elim (from_avro schema (avro_value bytes)) [
      | none ↦ []
      | some e ↦ flatten_envelope cast e r.partition r.offset ∷ []
    ]
  ]

  abbrev pub decode_all : String → List Record → List Change
  decode_all schema [] = []
  decode_all schema (r ∷ rows) = decoded schema r ++ decode_all schema rows

  -- `deserialize`, the path with one schema
  pub deserialize : List Record → String → List Change
  deserialize df schema = decode_all schema df

  -- The loop over the schema ids, with the union of its frames.
  pub decode_by_id : (ℕ → Result String) → List ℕ → List Record → Exec Cache (List Change)
  unfolding schema_by_id
  decode_by_id registry [] df = pure []
  decode_by_id registry (sid ∷ sids) df = do
    schema ← schema_by_id registry sid
    rest ← decode_by_id registry sids df
    pure (decode_all schema (keep (has_id sid) df) ++ rest)

  -- Without a schema id the loop gives the empty frame, as `_empty_result` does.
  pub deserialize_by_schema_id :
      Distinct → (ℕ → Result String) → List Record → Exec Cache (List Change)
  unfolding decode_by_id
  deserialize_by_schema_id spark registry df =
      decode_by_id registry (not_none (spark.distinct (map schema_id df))) df
