-- ===== src/Inject/Rejected.antt =====
-- The rows of scripts/inject_bad_records.py at the validation gate of spark/utils/validator.py. A row
-- comes as the change event that `_envelope` builds of it, through `flatten_envelope`.
use payments_cdc_pipeline.Prelude.{
  ℕ, ◌+◌, String, List, Bool, true, false, ltb, text_eq, if◌then◌else◌, Bool-cases, arith, ◌≡◌,
  refl, inl, inr,
}
use payments_cdc_pipeline.Prelude.Int.{pos, negsuc, ltb_ℤ}
use payments_cdc_pipeline.Sql.{member}
use payments_cdc_pipeline.Avro.{Casts, flatten_envelope}
use payments_cdc_pipeline.Validator.{
  check, uuid4_regex, rule_amount, rule_currency, rule_uuid, rule_merchant,
}
use payments_cdc_pipeline.Inject.{
  Row, payment, rogue, envelope, known_merchant, ghost_merchant, valid_currency, invalid_currency,
}
use payments_cdc_pipeline.Inject.Suite.{invalid_row, not_a_uuid}

-- The batch job and the database around a row: the cast of a timestamp, `rlike`, the merchants, and what
-- stands in the event beside the row.
pub record Around : Type 0 where
  pub cast : Casts String
  pub rlike : String → String → Bool
  pub merchant_ids : List String
  pub op : String
  pub lsn : ℕ
  pub now_ms : ℕ
  pub now_str : String
  pub partition : ℕ
  pub offset : ℕ

-- The reason that the gate writes for a row.
abbrev pub rejection : Around → Row → String
unfolding check flatten_envelope envelope rule_amount rule_currency rule_uuid rule_merchant
rejection a r =
    (check a.rlike a.merchant_ids (
      flatten_envelope a.cast (envelope a.op r a.lsn a.now_ms a.now_str) a.partition
        a.offset)).rejection_reason

-- The reason for the i-th bad row of the mixed batch.
abbrev pub reason_at : ℕ → String
reason_at i =
    if ltb i 20
    then "NEGATIVE_AMOUNT"
    else if ltb i 35
    then "INVALID_CURRENCY"
    else "UNKNOWN_MERCHANT"

below : (n : ℕ) → ltb_ℤ (negsuc n) (pos 0) ≡ true
below n = ground arith

not_below : (n : ℕ) → ltb_ℤ (pos n) (pos 0) ≡ false
not_below n = ground arith

module _ (a : Around) (tid : String) (known : member a.merchant_ids known_merchant ≡ true)
    (ghost : member a.merchant_ids ghost_merchant ≡ false) (upsert : text_eq a.op "d" ≡ false) where
  rejection-rogue : a.rlike tid uuid4_regex ≡ false → rejection a (rogue tid) ≡ "INVALID_UUID"
  unfolding check flatten_envelope envelope rule_amount rule_currency rule_uuid rule_merchant
  rejection-rogue bad = rw (upsert, bad, known) refl

  module _ (uuid : a.rlike tid uuid4_regex ≡ true) where
    rejection-negative :
        (n : ℕ)
        → rejection a (payment tid known_merchant (negsuc n) valid_currency) ≡ "NEGATIVE_AMOUNT"
    unfolding check flatten_envelope envelope rule_amount rule_currency rule_uuid rule_merchant
    rejection-negative n = rw (upsert, uuid, known, below n) refl

    rejection-currency :
        (n : ℕ)
        → rejection a (payment tid known_merchant (pos n) invalid_currency) ≡ "INVALID_CURRENCY"
    unfolding check flatten_envelope envelope rule_amount rule_currency rule_uuid rule_merchant
    rejection-currency n = rw (upsert, uuid, known, not_below n) refl

    rejection-ghost :
        (n : ℕ)
        → rejection a (payment tid ghost_merchant (pos n) valid_currency) ≡ "UNKNOWN_MERCHANT"
    unfolding check flatten_envelope envelope rule_amount rule_currency rule_uuid rule_merchant
    rejection-ghost n = rw (upsert, uuid, ghost, not_below n) refl

    rejection-valid : (n : ℕ) → rejection a (payment tid known_merchant (pos n) valid_currency) ≡ ""
    unfolding check flatten_envelope envelope rule_amount rule_currency rule_uuid rule_merchant
    rejection-valid n = rw (upsert, uuid, known, not_below n) refl

    rejection-mixed : (i : ℕ) → rejection a (invalid_row i tid) ≡ reason_at i
    rejection-mixed i = elim (Bool-cases (ltb i 20)) [
      | inl t ↦ rw t (rejection-negative (3999 + i))
      | inr f ↦ elim (Bool-cases (ltb i 35)) [
        | inl t ↦ rw (f, t) (rejection-currency (4000 + i))
        | inr g ↦ rw (f, g) (rejection-ghost (4000 + i))
      ]
    ]

-- The gate gives every row of the suite the one reason that its test looks for, and the valid rows none:
-- for an event that is no delete, with a transaction id that matches the pattern, a registry that has the
-- known merchant and has not the ghost, and the rogue id that does not match the pattern.
pub rejection-suite :
    (a : Around) (tid : String)
    → member a.merchant_ids known_merchant ≡ true
    → member a.merchant_ids ghost_merchant ≡ false
    → text_eq a.op "d" ≡ false
    → a.rlike tid uuid4_regex ≡ true
    → a.rlike not_a_uuid uuid4_regex ≡ false
    → (rejection a (payment tid known_merchant (negsuc 1499) valid_currency) ≡ "NEGATIVE_AMOUNT")
      × (rejection a (payment tid known_merchant (pos 2500) invalid_currency) ≡ "INVALID_CURRENCY")
      × (rejection a (rogue not_a_uuid) ≡ "INVALID_UUID")
      × (rejection a (payment tid ghost_merchant (pos 3300) valid_currency) ≡ "UNKNOWN_MERCHANT")
      × ((i : ℕ) → rejection a (invalid_row i tid) ≡ reason_at i)
      × (rejection a (payment tid known_merchant (pos 5000) valid_currency) ≡ "")
rejection-suite a tid known ghost upsert uuid bad = (
  rejection-negative a tid known ghost upsert uuid 1499,
  rejection-currency a tid known ghost upsert uuid 2500,
  rejection-rogue a not_a_uuid known ghost upsert bad,
  rejection-ghost a tid known ghost upsert uuid 3300,
  rejection-mixed a tid known ghost upsert uuid,
  rejection-valid a tid known ghost upsert uuid 5000,
)
