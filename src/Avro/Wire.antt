-- ===== src/Avro/Wire.antt =====
-- The header that spark/utils/avro_deserializer.py cuts off a record, against the format in which the
-- serializer of the schema registry writes it: a zero byte, the schema id as four bytes, and the payload.
use payments_cdc_pipeline.Prelude.{
  ℕ, ◌/◌, ◌%◌, ◌^◌, ◌<◌, List, [], ◌∷◌, none, some, ltb, if◌then◌else◌, ◌≡◌, refl, ap, arith,
}
use payments_cdc_pipeline.Avro.{Record, schema_id, avro_value, big_endian}

abbrev pub framed : ℕ → List ℕ → List ℕ
framed i payload = 0 ∷ i / 2 ^ 24 % 256 ∷ i / 2 ^ 16 % 256 ∷ i / 2 ^ 8 % 256 ∷ i % 256 ∷ payload

abbrev pub sent : ℕ → List ℕ → ℕ → ℕ → Record
sent i payload partition offset = record {
  value = some (framed i payload);
  partition = partition;
  offset = offset;
}

big_endian-framed :
    (i : ℕ)
    → i < 2 ^ 32
    → big_endian 0 (i / 2 ^ 24 % 256 ∷ i / 2 ^ 16 % 256 ∷ i / 2 ^ 8 % 256 ∷ i % 256 ∷ []) ≡ i
big_endian-framed i h = omega (arith, h)

-- What a producer frames is read back: of a schema id of 32 bits the deserializer reads the same id, if it
-- fits a signed number, and NULL otherwise, so that the record is left out; and it reads the same payload.
pub schema_id-framed :
    (i : ℕ) (payload : List ℕ) (partition offset : ℕ)
    → i < 2 ^ 32
    → (schema_id (sent i payload partition offset) ≡ (if ltb i (2 ^ 31) then some i else none))
      × (avro_value (framed i payload) ≡ payload)
unfolding schema_id
schema_id-framed i payload partition offset h =
    (ap (λ n. if ltb n (2 ^ 31) then some n else none) (big_endian-framed i h), refl)
