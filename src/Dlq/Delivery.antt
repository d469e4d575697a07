-- ===== src/Dlq/Delivery.antt =====
-- The dead letter queue of spark/utils/dlq_writer.py: what `write_to_dlq` puts on the topic.
use payments_cdc_pipeline.Prelude.{
  ℕ, suc, String, List, [], ◌∷◌, ◌++◌, append_nil, false, Option, none, some, map, In, In-map,
  map-In, Bool, true, Bool-cases, if◌then◌else◌, length, ◌==◌, ◌≡◌, refl, sym, ap, ◌⊎◌, inl, inr,
  arith,
}
use mathlib.Core.Path.{subst}
use payments_cdc_pipeline.Errors.{Error, Result, ok, err}
use payments_cdc_pipeline.Exec.{pure, ◌>>=◌}
use payments_cdc_pipeline.Validator.{Checked}
use payments_cdc_pipeline.Dlq.{Message, Encoder, Sink, payload_from, payload, write_to_dlq}

suc_not_zero : (n : ℕ) → (suc n == 0) ≡ false
suc_not_zero n = ground arith

module _ (enc : Encoder) (now : ℕ) where
  payload_from-rows :
      (n : ℕ) (rows : List Checked)
      → map (λ (m : Message). m.row) (payload_from enc now n rows) ≡ rows
  payload_from-rows n [] = refl
  payload_from-rows n (r ∷ rows) = ap (◌∷◌ r) (payload_from-rows (suc n) rows)

  -- What a message of the payload carries: its row, its key where the row has one, the time.
  abbrev pub Carries : Message → Type 0
  Carries m =
      ((t : String) → m.row.change.transaction_id ≡ some t → m.key ≡ t)
      × (m.rejected_at ≡ now)
      × (m.value ≡ enc.to_json m.row now)

  keyed :
      (t : Option String) (other : String) (s : String)
      → t ≡ some s
      → elim t [ some t ↦ t | none ↦ other ] ≡ s
  keyed t other s e = rw e refl

  payload_from-Carries :
      (n : ℕ) (rows : List Checked) (m : Message) → In m (payload_from enc now n rows) → Carries m
  payload_from-Carries n [] m i = absurd i
  payload_from-Carries n (r ∷ rows) m (inl e) =
      rw e ((λ t h. keyed r.change.transaction_id (enc.uuid n) t h), refl, refl)
  payload_from-Carries n (r ∷ rows) m (inr i) = payload_from-Carries (suc n) rows m i

  payload-row :
      (invalid : List Checked) (m : Message) → In m (payload enc now invalid) → In m.row invalid
  unfolding payload
  payload-row invalid m i =
      subst (λ rows. In m.row rows) (payload_from-rows 0 invalid)
        (map-In (λ (m : Message). m.row) m (payload_from enc now 0 invalid) i)

  row-payload :
      (invalid : List Checked) (r : Checked)
      → In r invalid
      → (m : Message) × In m (payload enc now invalid) × (m.row ≡ r)
  unfolding payload
  row-payload invalid r i =
      let (m, n, e) =
        In-map (λ (m : Message). m.row) r (payload_from enc now 0 invalid)
          (subst (λ rows. In r rows) (sym (payload_from-rows 0 invalid)) i) in
      (m, n, sym e)

-- What a call may leave: `new` behind the topic, and its result.
abbrev pub Delivered :
    Encoder → ℕ → Sink → List Checked → List Message → Result ℕ × List Message → Type 0
Delivered enc now sink invalid topic p =
    (new : List Message) × (p.1 ≡ topic ++ new)
    × ((m : Message) → In m new → In m.row invalid × Carries enc now m)
    × ((p.0 ≡ ok (length invalid))
          × ((r : Checked) → In r invalid → (m : Message) × In m new × (m.row ≡ r))
        ⊎ (p.0 ≡ err Error.kafka_error) × (sink.returns ≡ false))

saving-Delivered :
    (enc : Encoder) (now : ℕ) (sink : Sink) (invalid : List Checked) (topic : List Message)
    → Delivered enc now sink invalid topic (
      if sink.returns then ok (length invalid) else err Error.kafka_error,
      topic ++ sink.arrived (payload enc now invalid),
    )
unfolding payload
saving-Delivered enc now sink invalid topic = (
  sink.arrived (payload enc now invalid),
  refl,
  λ m i.
      let n = sink.arrived-In (payload enc now invalid) m i in
      (payload-row enc now invalid m n, payload_from-Carries enc now 0 invalid m n),
  elim (Bool-cases sink.returns) [
    | inl t ↦ inl (
      rw t refl,
      λ r i.
          let (m, n, e) = row-payload enc now invalid r i in
          (m, sink.In-arrived t (payload enc now invalid) m n, e),
    )
    | inr f ↦ inr (rw f refl, f)
  ],
)

-- Whatever the save to Kafka does, a call of `write_to_dlq` puts behind what the topic held only messages
-- that carry a rejected row, the row's transaction id as their key where it has one, and the time of the
-- rejection. Either it returns the number of the rejected rows and each of them is among the new messages, or
-- it raises, which it does only where the save has raised.
pub dlq_delivers :
    (enc : Encoder) (now : ℕ) (sink : Sink) (invalid : List Checked) (topic : List Message)
    → (new : List Message) × ((write_to_dlq enc now sink invalid topic).1 ≡ topic ++ new)
      × ((m : Message) → In m new → In m.row invalid × Carries enc now m)
      × (((write_to_dlq enc now sink invalid topic).0 ≡ ok (length invalid))
            × ((r : Checked) → In r invalid → (m : Message) × In m new × (m.row ≡ r))
          ⊎ ((write_to_dlq enc now sink invalid topic).0 ≡ err Error.kafka_error)
            × (sink.returns ≡ false))
unfolding write_to_dlq
dlq_delivers enc now sink [] topic =
    ([], sym (append_nil topic), (λ m i. absurd i), inl (refl, λ r i. absurd i))
dlq_delivers enc now sink (r ∷ rows) topic = rw (suc_not_zero (length rows)) (
    subst (Delivered enc now sink (r ∷ rows) topic) (ended sink.returns)
      (saving-Delivered enc now sink (r ∷ rows) topic))
  where
    new : List Message
    new = topic ++ sink.arrived (payload enc now (r ∷ rows))

    ended :
        (b : Bool)
        → (if b then ok (suc (length rows)) else err Error.kafka_error, new)
          ≡ ((λ (t : List Message). (if b then ok tt else err Error.kafka_error, new))
                >>= λ (u : Unit {0}). pure (suc (length rows)))
              topic
    ended true = refl
    ended false = refl
