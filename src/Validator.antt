-- ===== src/Validator.antt =====
-- The validation gate, spark/utils/validator.py: four rules that give a reason or NULL, the text
-- that joins the reasons, and the two frames that `validate` returns. The regular expression engine
-- behind `rlike` is a parameter.
mod Silence
pub mod Gate
mod Examples
use Prim.Native.String.{◌++◌}
use payments_cdc_pipeline.Prelude.{
  String, List, [], ◌∷◌, Bool, true, false, Option, none, some, map, text_eq, not, if◌then◌else◌,
}
use payments_cdc_pipeline.Prelude.Int.{ℤ}
use payments_cdc_pipeline.Sql.{
  Condition, negate, both, either, when, coalesce, is_null, negative, is_in, lift, equal,
  where_holds,
}
use payments_cdc_pipeline.Errors.{Error, Result, ok, err}
use payments_cdc_pipeline.Change.{Change}

abbrev pub allowed_currencies : List String
allowed_currencies =
    "USD" ∷ "EUR" ∷ "GBP" ∷ "JPY" ∷ "CAD" ∷ "AUD" ∷ "CHF" ∷ "SGD" ∷ "HKD" ∷ "INR" ∷ []

abbrev pub uuid4_regex : String
uuid4_regex = "^[0-9a-f]{8}-[0-9a-f]{4}-4[0-9a-f]{3}-[89ab][0-9a-f]{3}-[0-9a-f]{12}$"

unfoldable pub rule_amount : Option ℤ → Condition → Option String
rule_amount amount is_delete = when (both (negate is_delete) (negative amount)) "NEGATIVE_AMOUNT"

unfoldable pub rule_currency : Option String → Condition → Option String
rule_currency currency is_delete =
    when (both (negate is_delete) (negate (is_in allowed_currencies currency))) "INVALID_CURRENCY"

-- `rlike text pattern`
unfoldable pub rule_uuid : (String → String → Bool) → Option String → Option String
rule_uuid rlike tid =
    when (either (is_null tid) (negate (lift (λ t. rlike t uuid4_regex) tid))) "INVALID_UUID"

unfoldable pub rule_merchant : Option String → Condition → List String → Option String
rule_merchant merchant is_delete merchant_ids =
    when
      (both (negate is_delete) (either (is_null merchant) (negate (is_in merchant_ids merchant))))
      "UNKNOWN_MERCHANT"

-- `F.concat_ws(sep, ...)` leaves NULLs out.
abbrev join_from : String → String → List (Option String) → String
join_from sep acc [] = acc
join_from sep acc (none ∷ cols) = join_from sep acc cols
join_from sep acc (some t ∷ cols) = join_from sep (acc ++ sep ++ t) cols

abbrev pub concat_ws : String → List (Option String) → String
concat_ws sep [] = ""
concat_ws sep (none ∷ cols) = concat_ws sep cols
concat_ws sep (some t ∷ cols) = join_from sep t cols

-- A row of the `checks` frame, less the four helper columns.
pub record Checked : Type 0 where
  pub change : Change
  pub rejection_reason : String

abbrev pub delete_flag : Change → Condition
delete_flag c = coalesce c.is_delete (some false)

unfoldable pub check : (String → String → Bool) → List String → Change → Checked
unfolding rule_amount rule_currency rule_uuid rule_merchant
check rlike merchant_ids c = record {
  change = c;
  rejection_reason = concat_ws "," (
      rule_amount c.amount_minor (delete_flag c)
      ∷ rule_currency c.currency (delete_flag c)
      ∷ rule_uuid rlike c.transaction_id
      ∷ rule_merchant c.merchant_id (delete_flag c) merchant_ids
      ∷ []);
}

abbrev pub split : List Checked → List Change × List Checked
split checks = (
  map (λ r. r.change) (where_holds (λ r. equal (some r.rejection_reason) (some "")) checks),
  where_holds (λ r. negate (equal (some r.rejection_reason) (some ""))) checks,
)

unfoldable pub validate :
    (String → String → Bool) → List Change → List String → Result (List Change × List Checked)
unfolding check
validate rlike df [] = err Error.value_error
validate rlike df (m ∷ ms) = ok (split (map (check rlike (m ∷ ms)) df))
