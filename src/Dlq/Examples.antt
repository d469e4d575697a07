-- ===== src/Dlq/Examples.antt =====
-- The merchant registry and the dead letter queue of spark/utils/dlq_writer.py on small inputs.
use payments_cdc_pipeline.Prelude.{◌++◌, [], ◌∷◌, List, false, true, none, inl, inr, ◌≡◌, ◌⊎◌, In}
use payments_cdc_pipeline.Errors.{Error, ok, err}
use payments_cdc_pipeline.Validator.{Checked}
use payments_cdc_pipeline.Dlq.{Registry, Message, Encoder, Sink, write_to_dlq}
use payments_cdc_pipeline.Dlq.Delivery.{Carries, dlq_delivers}

abbrev loaded : Registry
loaded = record { merchant_ids = "m1" ∷ []; loaded_at = 5 }

abbrev encoder : Encoder
encoder = record { uuid = λ n. "u"; to_json = λ r n. "{}" }

abbrev nameless : Checked
nameless = record {
  change = record {
    op = none;
    transaction_id = none;
    merchant_id = none;
    amount_minor = none;
    currency = none;
    status = none;
    event_type = none;
    created_at = none;
    updated_at = none;
    lsn = none;
    source_ts = none;
    partition = 0;
    offset = 0;
    is_delete = none;
  };
  rejection_reason = "INVALID_UUID,UNKNOWN_MERCHANT";
}

-- A save that puts the first message on the topic and raises.
abbrev first_only : List Message → List Message
first_only [] = []
first_only (m ∷ rows) = m ∷ []

first_only-In : (rows : List Message) (m : Message) → In m (first_only rows) → In m rows
first_only-In [] m i = i
first_only-In (x ∷ rows) m (inl e) = inl e
first_only-In (x ∷ rows) m (inr i) = absurd i

never : false ≡ true → ⊥
never e = cc

abbrev broken : Sink
broken = record {
  returns = false;
  arrived = first_only;
  arrived-In = first_only-In;
  In-arrived = λ e. absurd (never e);
}

dlq_delivers_example :
    (new : List Message) × ((write_to_dlq encoder 7 broken (nameless ∷ nameless ∷ []) []).1
      ≡ [] ++ new)
    × ((m : Message) → In m new → In m.row (nameless ∷ nameless ∷ []) × Carries encoder 7 m)
    × (((write_to_dlq encoder 7 broken (nameless ∷ nameless ∷ []) []).0 ≡ ok 2)
          × ((r : Checked)
              → In r (nameless ∷ nameless ∷ [])
              → (m : Message) × In m new × (m.row ≡ r))
        ⊎ ((write_to_dlq encoder 7 broken (nameless ∷ nameless ∷ []) []).0 ≡ err Error.kafka_error)
          × (false ≡ false))
dlq_delivers_example = dlq_delivers encoder 7 broken (nameless ∷ nameless ∷ []) []
