-- ===== src/Sql.antt =====
-- SQL's column expressions: a nullable column is an `Option`, a condition has three values, and
-- `none` is NULL. These are the operators in which spark/utils/validator.py,
-- spark/utils/avro_deserializer.py and the scripts write their column expressions.
use payments_cdc_pipeline.Prelude.{
  ℕ, String, List, [], ◌∷◌, Bool, true, false, Option, none, some, not, ◌||◌, ltb, text_eq, keep,
  if◌then◌else◌,
}
use payments_cdc_pipeline.Prelude.Int.{ℤ, ltb_ℤ}

abbrev pub Condition : Type 0
Condition = Option Bool

-- `~c`
abbrev pub negate : Condition → Condition
negate none = none
negate (some b) = some (not b)

-- `a & b`: FALSE wins over NULL.
abbrev pub both : Condition → Condition → Condition
both (some false) b = some false
both (some true) b = b
both none (some false) = some false
both none (some true) = none
both none none = none

-- `a | b`: TRUE wins over NULL.
abbrev pub either : Condition → Condition → Condition
either (some true) b = some true
either (some false) b = b
either none (some true) = some true
either none (some false) = none
either none none = none

-- `filter`, `when` and a MERGE clause act only where the condition is TRUE.
abbrev pub holds : Condition → Bool
holds none = false
holds (some b) = b

abbrev pub where_holds {ℓ} : {A : Type ℓ} → (A → Condition) → List A → List A
where_holds c = keep (λ r. holds (c r))

-- `F.when(c, F.lit(v))` with no `otherwise`
abbrev pub when {ℓ} : {A : Type ℓ} → Condition → A → Option A
when c v = if holds c then some v else none

-- `F.coalesce(a, b)`
abbrev pub coalesce {ℓ} : {A : Type ℓ} → Option A → Option A → Option A
coalesce (some v) b = some v
coalesce none b = b

abbrev pub is_null {ℓ} : {A : Type ℓ} → Option A → Condition
is_null none = some true
is_null (some v) = some false

-- A comparison with NULL is NULL.
abbrev pub lift {ℓ} : {A : Type ℓ} → (A → Bool) → Option A → Condition
lift test none = none
lift test (some v) = some (test v)

abbrev pub lift₂ {ℓ} : {A : Type ℓ} → (A → A → Bool) → Option A → Option A → Condition
lift₂ test none b = none
lift₂ test (some v) none = none
lift₂ test (some v) (some w) = some (test v w)

-- `a > b` on BIGINT columns that hold log positions
abbrev pub greater : Option ℕ → Option ℕ → Condition
greater = lift₂ (λ a b. ltb b a)

-- `col < 0`
abbrev pub negative : Option ℤ → Condition
negative = lift (λ a. ltb_ℤ a (ℤ.pos 0))

abbrev pub equal : Option String → Option String → Condition
equal = lift₂ text_eq

abbrev pub member : List String → String → Bool
member [] s = false
member (t ∷ ts) s = text_eq t s || member ts s

-- `col.isin(list)`
abbrev pub is_in : List String → Option String → Condition
is_in ts = lift (member ts)
