-- ===== src/Avro/Decode.antt =====
-- What spark/utils/avro_deserializer.py makes of a batch: each record decoded with its writer's schema,
-- whatever the order of the groups, and rows that keep their image's columns.
use payments_cdc_pipeline.Prelude.{
  ◌⊎◌, text_eq, ℕ, ◌+◌, ◌*◌, ◌≤◌, String, List, [], ◌∷◌, ◌++◌, Bool, Option, none, some, map, keep,
  count_if, count_if-append, ltb, ◌==◌, ==_iff, if◌then◌else◌, Bool-cases, ◌≡◌, refl, sym, ap, ◌∙◌,
  arith, inl, inr, In, count_if-In, map-In,
}
use mathlib.Core.Path.{subst}
use payments_cdc_pipeline.Sql.{coalesce, lift, holds}
use payments_cdc_pipeline.Errors.{ok}
use payments_cdc_pipeline.Exec.{bind_ok, pure, ◌>>=◌}
use payments_cdc_pipeline.Change.{Change}
use payments_cdc_pipeline.Avro.{
  Casts, Image, Envelope, Record, Cache, Distinct, flatten_envelope, schema_by_id, same_id,
  not_none, schema_id, has_id, decoded, decode_all, decode_by_id, deserialize_by_schema_id,
}
use payments_cdc_pipeline.Avro.SchemaCache.{IsCoherent, schema_by_id-IsCoherent}

-- The columns of an image against those of the row: a column is the image's, unless the image has none.
abbrev pub Kept : {A : Type 0} → Option A → Option A → Type 0
Kept x y = (y ≡ x) ⊎ (x ≡ none)

coalesce-Kept : {A : Type 0} (x y : Option A) → Kept x (coalesce x y)
coalesce-Kept none y = inr refl
coalesce-Kept (some a) y = inl refl

-- The business columns of an event come from its `after` image, whatever its `before` image has, each where
-- the image has it; those of an event without one, such as a delete, come from its `before` image. The event is
-- marked as a delete if and only if its operation is "d".
pub flatten_keeps_payload :
    {Raw : Type 0} (cast : Casts Raw) (e : Envelope Raw) (image : Image Raw) (op : String)
    (partition offset : ℕ)
    → e.op ≡ some op
    → (e.after ≡ some image) ⊎ (e.after ≡ none) × (e.before ≡ some image)
    → let c = flatten_envelope cast e partition offset in
      Kept image.transaction_id c.transaction_id
      × Kept image.merchant_id c.merchant_id
      × Kept image.amount_minor c.amount_minor
      × Kept image.currency c.currency
      × Kept image.status c.status
      × Kept image.event_type c.event_type
      × (c.is_delete ≡ some (text_eq op "d"))
unfolding flatten_envelope
flatten_keeps_payload cast e image op partition offset o (inl a) =
    rw (o, a)
      (
        coalesce-Kept _ _,
        coalesce-Kept _ _,
        coalesce-Kept _ _,
        coalesce-Kept _ _,
        coalesce-Kept _ _,
        coalesce-Kept _ _,
        refl,
      )
flatten_keeps_payload cast e image op partition offset o (inr (a, b)) =
    rw (o, a, b) (inl refl, inl refl, inl refl, inl refl, inl refl, inl refl, refl)

-- The loop with schemas that are all at hand.
module _ {Raw : Type 0} (cast : Casts Raw) (from_avro : String → List ℕ → Option (Envelope Raw))
    (schemas : ℕ → String) where
  abbrev frames : List ℕ → List Record → List Change
  frames [] df = []
  frames (sid ∷ sids) df =
      decode_all cast from_avro (schemas sid) (keep (has_id sid) df) ++ frames sids df

  -- The reference: each record decoded by itself, with the schema that its header names.
  abbrev pub decode_each : List Record → List Change
  decode_each [] = []
  decode_each (r ∷ df) =
      elim (schema_id r) [ none ↦ [] | some i ↦ decoded cast from_avro (schemas i) r ]
      ++ decode_each df

  decode_by_id-frames :
      (sids : List ℕ) (df : List Record) (cache : Cache)
      → IsCoherent (λ i. ok (schemas i)) cache
      → (cache' : Cache) × (decode_by_id cast from_avro (λ i. ok (schemas i)) sids df cache
          ≡ (ok (frames sids df), cache'))
        × IsCoherent (λ i. ok (schemas i)) cache'
  unfolding decode_by_id
  decode_by_id-frames [] df cache h = (cache, refl, h)
  decode_by_id-frames (sid ∷ sids) df cache h =
      let (a, k, u) =
        schema_by_id-IsCoherent (λ i. ok (schemas i)) (λ i. ok (schemas i)) sid cache h in
      let cache₁ = (schema_by_id (λ i. ok (schemas i)) sid cache).1 in
      let (cache', e, k') = decode_by_id-frames sids df cache₁ k in
      (
        cache',
        bind_ok (schema_by_id (λ i. ok (schemas i)) sid)
              (λ s. decode_by_id cast from_avro (λ i. ok (schemas i)) sids df >>= λ rest.
                pure (decode_all cast from_avro s (keep (has_id sid) df) ++ rest))
              cache cache₁ (schemas sid) (ap (λ r. (r, cache₁)) a)
            ∙ bind_ok (decode_by_id cast from_avro (λ i. ok (schemas i)) sids df)
                (λ rest.
                  pure (decode_all cast from_avro (schemas sid) (keep (has_id sid) df) ++ rest))
                cache₁ cache' (frames sids df) e,
        k',
      )

  -- What a record adds to the count, where its id stands in the list.
  abbrev weight : (ℕ → ℕ) → Option ℕ → List ℕ → ℕ
  weight c none sids = 0
  weight c (some i) sids = count_if (λ j. i == j) sids * c i

  weight-nil : (c : ℕ → ℕ) (o : Option ℕ) → weight c o [] ≡ 0
  weight-nil c none = refl
  weight-nil c (some i) = omega arith

  weight-cons :
      (c : ℕ → ℕ) (o : Option ℕ) (sid : ℕ) (sids : List ℕ)
      → weight c o (sid ∷ sids)
        ≡ (if holds (lift (λ i. i == sid) o) then c sid else 0) + weight c o sids
  weight-cons c none sid sids = refl
  weight-cons c (some i) sid sids = elim (Bool-cases (i == sid)) [
    | inl t ↦ let e : sid ≡ i = sym ((==_iff i sid).0 t) in rw (t, e) (ground arith)
    | inr n ↦ rw n (omega arith)
  ]

  count_frame :
      (p : Change → Bool) (sid : ℕ) (r : Record) (df : List Record)
      → count_if p (decode_all cast from_avro (schemas sid) (keep (has_id sid) (r ∷ df)))
        ≡ (if has_id sid r then count_if p (decoded cast from_avro (schemas sid) r) else 0)
          + count_if p (decode_all cast from_avro (schemas sid) (keep (has_id sid) df))
  count_frame p sid r df = elim (Bool-cases (has_id sid r)) [
    | inl t ↦ rw t (
        count_if-append p (decoded cast from_avro (schemas sid) r)
          (decode_all cast from_avro (schemas sid) (keep (has_id sid) df)))
    | inr n ↦ rw n (omega arith)
  ]

  count_frames :
      (p : Change → Bool) (sids : List ℕ) (r : Record) (df : List Record)
      → count_if p (frames sids (r ∷ df))
        ≡ weight (λ i. count_if p (decoded cast from_avro (schemas i) r)) (schema_id r) sids
          + count_if p (frames sids df)
  count_frames p [] r df =
      omega
        (arith, weight-nil (λ i. count_if p (decoded cast from_avro (schemas i) r)) (schema_id r))
  count_frames p (sid ∷ sids) r df =
      let c : ℕ → ℕ = λ i. count_if p (decoded cast from_avro (schemas i) r) in
      omega (
        arith,
        count_if-append p (decode_all cast from_avro (schemas sid) (keep (has_id sid) (r ∷ df)))
            (frames sids (r ∷ df)),
        count_if-append p (decode_all cast from_avro (schemas sid) (keep (has_id sid) df))
            (frames sids df),
        count_frame p sid r df,
        weight-cons c (schema_id r) sid sids,
        count_frames p sids r df,
      )

  count_each :
      (p : Change → Bool) (sids : List ℕ) (df : List Record)
      → ((r : Record) (i : ℕ) → In r df → schema_id r ≡ some i → count_if (λ j. i == j) sids ≡ 1)
      → count_if p (frames sids df) ≡ count_if p (decode_each df)
  count_each p sids [] h = nothing sids
    where
      nothing : (sids : List ℕ) → count_if p (frames sids []) ≡ 0
      nothing [] = refl
      nothing (sid ∷ sids) = nothing sids
  count_each p sids (r ∷ df) h =
      count_frames p sids r df
      ∙ omega (
        arith,
        count_if-append p
            (elim (schema_id r) [ none ↦ [] | some i ↦ decoded cast from_avro (schemas i) r ])
            (decode_each df),
        count_each p sids df (λ s i m. h s i (inr m)),
        once (schema_id r) (λ i. h r i (inl refl)),
      )
    where
      once :
          (o : Option ℕ)
          → ((i : ℕ) → o ≡ some i → count_if (λ j. i == j) sids ≡ 1)
          → weight (λ i. count_if p (decoded cast from_avro (schemas i) r)) o sids
            ≡ count_if p (elim o [ none ↦ [] | some i ↦ decoded cast from_avro (schemas i) r ])
      once none k = refl
      once (some i) k = rw (k i refl) (omega arith)

not_none-count :
    (i : ℕ) (ids : List (Option ℕ))
    → count_if (λ j. i == j) (not_none ids) ≡ count_if (same_id (some i)) ids
not_none-count i [] = refl
not_none-count i (none ∷ ids) = not_none-count i ids
not_none-count i (some j ∷ ids) = ground (arith, not_none-count i ids)

-- Whatever the order in which the schema ids come, a batch is decoded record by record: where the
-- registry has a schema under every id and the cache is coherent, the call returns, the cache stays
-- coherent, and of every kind of row the result has as many as decoding each record by itself with the
-- schema that its header names, so none is lost, doubled or read with another's schema.
pub decode_by_writer_schema :
    {Raw : Type 0} (cast : Casts Raw) (from_avro : String → List ℕ → Option (Envelope Raw))
    (schemas : ℕ → String) (spark : Distinct) (df : List Record) (cache : Cache)
    → IsCoherent (λ i. ok (schemas i)) cache
    → (rows : List Change) × (cache' : Cache) × (deserialize_by_schema_id cast from_avro spark
          (λ i. ok (schemas i))
          df
          cache
        ≡ (ok rows, cache'))
      × IsCoherent (λ i. ok (schemas i)) cache'
      × ((p : Change → Bool) → count_if p rows ≡ count_if p (decode_each cast from_avro schemas df))
unfolding deserialize_by_schema_id
decode_by_writer_schema cast from_avro schemas spark df cache h =
    let ids = not_none (spark.distinct (map schema_id df)) in
    let (cache', e, k) = decode_by_id-frames cast from_avro schemas ids df cache h in
    (
      frames cast from_avro schemas ids df,
      cache',
      e,
      k,
      λ p. count_each cast from_avro schemas p ids df (λ r i m q.
          not_none-count i (spark.distinct (map schema_id df))
          ∙ spark.distinct-counts (map schema_id df) (some i)
          ∙ present i (
              count_if-In (same_id (some i)) (some i) (map schema_id df)
                (subst (λ o. In o (map schema_id df)) q (map-In schema_id r df m))
                ((==_iff i i).1 refl))),
    )
  where
    present : (i : ℕ) {n : ℕ} → 1 ≤ n → ◌≡◌ {A = ℕ} (if ltb 0 n then 1 else 0) 1
    present i h = ground arith
