-- ===== src/Validator/Examples.antt =====
-- The gate of spark/utils/validator.py on one good row, a delete and a rejected row.
use payments_cdc_pipeline.Prelude.{
  ◌+◌, String, List, [], ◌∷◌, Bool, true, false, none, some, ◌≡◌, ◌≢◌, ◌↔◌, refl, In, length,
}
use payments_cdc_pipeline.Prelude.Int.{ℤ, pos, negsuc}
use payments_cdc_pipeline.Errors.{ok}
use payments_cdc_pipeline.Change.{Change}
use payments_cdc_pipeline.Validator.{
  Checked, validate, check, rule_amount, rule_currency, rule_uuid, rule_merchant,
}
use payments_cdc_pipeline.Validator.Gate.{Passes, validate_exact}

abbrev row : ℤ → Bool → Change
row amount is_delete = record {
  op = none;
  transaction_id = some "t1";
  merchant_id = some "m1";
  amount_minor = some amount;
  currency = some "EUR";
  status = none;
  event_type = none;
  created_at = none;
  updated_at = none;
  lsn = none;
  source_ts = none;
  partition = 0;
  offset = 0;
  is_delete = some is_delete;
}

abbrev batch : List Change
batch = row (pos 5) false ∷ row (negsuc 0) false ∷ row (negsuc 0) true ∷ []

abbrev accepted : List Change
accepted = row (pos 5) false ∷ row (negsuc 0) true ∷ []

abbrev rejected : List Checked
rejected = record { change = row (negsuc 0) false; rejection_reason = "NEGATIVE_AMOUNT" } ∷ []

abbrev any_uuid : String → String → Bool
any_uuid s pattern = true

runs : validate any_uuid batch ("m1" ∷ []) ≡ ok (accepted, rejected)
unfolding validate check rule_amount rule_currency rule_uuid rule_merchant
runs = refl

validate_exact_example :
    ((c : Change) → In c accepted ↔ (In c batch × Passes any_uuid ("m1" ∷ []) c))
    × ((r : Checked)
        → In r rejected
        → In r.change batch × (¬ Passes any_uuid ("m1" ∷ []) r.change) × (r.rejection_reason ≢ ""))
    × (length accepted + length rejected ≡ length batch)
validate_exact_example = validate_exact any_uuid ("m1" ∷ []) batch accepted rejected runs
