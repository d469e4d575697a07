-- ===== src/Avro/Examples.antt =====
-- The decoder of spark/utils/avro_deserializer.py on a small batch with two schemas.
use payments_cdc_pipeline.Prelude.{
  ℕ, ◌*◌, String, List, [], ◌∷◌, Bool, true, false, Option, none, some, count_if, ltb, ◌==◌, ==_iff,
  if◌then◌else◌, Bool-cases, ◌≡◌, refl, sym, ap, arith, inl, inr,
}
use payments_cdc_pipeline.Errors.{Error, Result, ok, err}
use payments_cdc_pipeline.Change.{Change}
use payments_cdc_pipeline.Avro.{
  Casts, Image, Envelope, Record, Cache, Distinct, flatten_envelope, same_id, schema_by_id,
  deserialize_by_schema_id, schema_id, avro_value,
}
use payments_cdc_pipeline.Avro.Wire.{framed, sent, schema_id-framed}
use payments_cdc_pipeline.Avro.Decode.{
  Kept, flatten_keeps_payload, decode_each, decode_by_writer_schema,
}
use payments_cdc_pipeline.Avro.SchemaCache.{IsCoherent, schema_by_id-IsCoherent}

pub once : List (Option ℕ) → List (Option ℕ)
once [] = []
once (x ∷ xs) = let rest = once xs in if ltb 0 (count_if (same_id x) rest) then rest else x ∷ rest

same_id-eq : (i x : Option ℕ) → same_id i x ≡ true → i ≡ x
same_id-eq none none h = refl
same_id-eq none (some j) h = ground arith
same_id-eq (some i) none h = ground arith
same_id-eq (some i) (some j) h = ap some ((==_iff i j).0 h)

pub once-counts :
    (ids : List (Option ℕ)) (i : Option ℕ)
    → count_if (same_id i) (once ids) ≡ (if ltb 0 (count_if (same_id i) ids) then 1 else 0)
unfolding once
once-counts [] i = ground arith
once-counts (x ∷ xs) i = elim (Bool-cases (same_id i x)) [
  | inl t ↦ let e : x ≡ i = sym (same_id-eq i x t) in ground (arith, once-counts xs i)
  | inr f ↦ ground (arith, once-counts xs i)
]

abbrev pub plain_distinct : Distinct
plain_distinct = record { distinct = once; distinct-counts = once-counts }

abbrev image : Image ℕ
image = record {
  transaction_id = some "t1";
  merchant_id = some "m1";
  amount_minor = none;
  currency = some "EUR";
  status = some "SETTLED";
  event_type = none;
  created_at = some 5;
  updated_at = none;
}

abbrev deletion : Envelope ℕ
deletion = record { op = some "d"; before = some image; after = none; source = none }

-- The casts without loss, for times in microseconds.
abbrev pub exact : Casts ℕ
exact = record { of_raw = some; of_millis = λ t. some (t * 1000) }

abbrev updating : Envelope ℕ
updating = record {
  op = some "u";
  before = some (record image { currency = some "USD"; event_type = some "refund" });
  after = some image;
  source = none;
}

flatten_keeps_payload_example :
    let c = flatten_envelope exact updating 0 7 in
    Kept (some "t1") c.transaction_id
    × Kept (some "m1") c.merchant_id
    × Kept none c.amount_minor
    × Kept (some "EUR") c.currency
    × Kept (some "SETTLED") c.status
    × Kept none c.event_type
    × (c.is_delete ≡ some false)
flatten_keeps_payload_example = flatten_keeps_payload exact updating image "u" 0 7 refl (inl refl)

abbrev pub schema : ℕ → String
schema i = if i == 1 then "v1" else "v2"

abbrev pub reachable : ℕ → Result String
reachable i = ok (schema i)

abbrev down : ℕ → Result String
down i = err Error.registry_error

pub empty-IsCoherent : IsCoherent reachable []
empty-IsCoherent i s e = cc

schema_by_id-IsCoherent_example :
    ((schema_by_id reachable 1 []).0 ≡ reachable 1)
    × IsCoherent reachable (schema_by_id reachable 1 []).1
    × ((s : String)
        → reachable 1 ≡ ok s
        → schema_by_id down 1 (schema_by_id reachable 1 []).1
          ≡ (ok s, (schema_by_id reachable 1 []).1))
schema_by_id-IsCoherent_example = schema_by_id-IsCoherent reachable down 1 [] empty-IsCoherent

-- Every value is a deletion.
abbrev pub reader : String → List ℕ → Option (Envelope ℕ)
reader s bytes = some deletion

abbrev pub mixed : List Record
mixed =
    record { value = some (0 ∷ 0 ∷ 0 ∷ 0 ∷ 1 ∷ 9 ∷ []); partition = 0; offset = 1 }
    ∷ record { value = none; partition = 0; offset = 2 }
    ∷ record { value = some (0 ∷ 0 ∷ 0 ∷ 0 ∷ 2 ∷ []); partition = 1; offset = 1 }
    ∷ []

decode_by_writer_schema_example :
    (rows : List Change) × (cache' : Cache) × (deserialize_by_schema_id exact reader plain_distinct
        reachable mixed []
      ≡ (ok rows, cache'))
    × IsCoherent reachable cache'
    × ((p : Change → Bool) → count_if p rows ≡ count_if p (decode_each exact reader schema mixed))
decode_by_writer_schema_example =
    decode_by_writer_schema exact reader schema plain_distinct mixed [] empty-IsCoherent

schema_id-framed_example :
    (schema_id (sent 258 (7 ∷ []) 0 3) ≡ some 258) × (avro_value (framed 258 (7 ∷ [])) ≡ 7 ∷ [])
schema_id-framed_example = schema_id-framed 258 (7 ∷ []) 0 3 (omega arith)
