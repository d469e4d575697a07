-- ===== src/Setup.antt =====
-- The setup of the Delta table, scripts/init_delta_table.py. The state is the table, `none` where there
-- is none; the properties that SHOW TBLPROPERTIES gives and `str.lower` are arguments.
use payments_cdc_pipeline.Prelude.{
  String, List, [], Bool, true, false, Option, none, some, any, ◌&&◌, text_eq, if◌then◌else◌,
  Bool-cases, ◌≡◌, refl, inl, inr,
}
use payments_cdc_pipeline.Errors.{Error, ok, err}
use payments_cdc_pipeline.Exec.{Exec, pure, raise, modify, ◌>>◌}
use payments_cdc_pipeline.Change.{Entry}

-- CREATE TABLE IF NOT EXISTS
abbrev pub create_if_not_exists : Option (List Entry) → Option (List Entry)
create_if_not_exists none = some []
create_if_not_exists (some table) = some table

abbrev pub cdf_enabled : (String → String) → List (String × String) → Bool
cdf_enabled lower props =
    any (λ p. text_eq p.0 "delta.enableChangeDataFeed" && text_eq (lower p.1) "true") props

-- `main`. The exit with code 1 is the raised error.
pub init_delta_table :
    Bool → (String → String) → List (String × String) → Exec (Option (List Entry)) (Unit {0})
init_delta_table drop lower props = do
  if drop then modify (λ t. none) else pure tt
  modify create_if_not_exists
  if cdf_enabled lower props then pure tt else raise Error.value_error

-- Without the drop flag a table that is there keeps its rows, and one that is not is created empty; with
-- it the table is empty. The script succeeds exactly where the change feed is shown as enabled.
pub init_keeps_rows :
    (lower : String → String) (props : List (String × String)) (rows : List Entry)
    (old : Option (List Entry))
    → ((init_delta_table false lower props (some rows)).1 ≡ some rows)
      × ((init_delta_table false lower props none).1 ≡ some [])
      × ((init_delta_table true lower props old).1 ≡ some [])
      × ((init_delta_table false lower props old).0
          ≡ (if cdf_enabled lower props then ok tt else err Error.value_error))
unfolding init_delta_table
init_keeps_rows lower props rows old = elim (Bool-cases (cdf_enabled lower props)) [
  | inl t ↦ rw t (refl, refl, refl, refl)
  | inr f ↦ rw f (refl, refl, refl, refl)
]
