-- ===== src/Validator/Silence.antt =====
-- When the rules of spark/utils/validator.py give no reason.
use payments_cdc_pipeline.Prelude.{
  String, [], ◌∷◌, Bool, true, false, Option, none, some, text_eq, not, ◌||◌, arith, ◌≡◌, refl, ◌≢◌,
  ◌⊎◌, inl, inr, if◌then◌else◌,
}
use payments_cdc_pipeline.Sql.{Condition, negate, both, either, coalesce, is_null, lift, holds}
use payments_cdc_pipeline.Validator.{concat_ws}

pub reason-empty :
    (a b c d : Bool)
    → text_eq
        (concat_ws "," (
          (if a then some "NEGATIVE_AMOUNT" else none)
          ∷ (if b then some "INVALID_CURRENCY" else none)
          ∷ (if c then some "INVALID_UUID" else none)
          ∷ (if d then some "UNKNOWN_MERCHANT" else none)
          ∷ []))
        ""
      ≡ not (a || b || c || d)
reason-empty true true true true = refl
reason-empty true true true false = refl
reason-empty true true false true = refl
reason-empty true true false false = refl
reason-empty true false true true = refl
reason-empty true false true false = refl
reason-empty true false false true = refl
reason-empty true false false false = refl
reason-empty false true true true = refl
reason-empty false true true false = refl
reason-empty false true false true = refl
reason-empty false true false false = refl
reason-empty false false true true = refl
reason-empty false false true false = refl
reason-empty false false false true = refl
reason-empty false false false false = refl

pub none_flags :
    (a b c d : Bool)
    → (a || b || c || d) ≡ false
    → (a ≡ false) × (b ≡ false) × (c ≡ false) × (d ≡ false)
none_flags a b c d h = ground arith

-- A rule that exempts deletes is silent on a delete, and elsewhere where its condition is not TRUE.
pub exempt :
    (d x : Condition)
    → holds (both (negate (coalesce d (some false))) x) ≡ false
    → (d ≡ some true) ⊎ (holds x ≡ false)
exempt d x h = ground arith

pub present :
    (test : String → Bool) (t : Option String)
    → holds (either (is_null t) (negate (lift test t))) ≡ false
    → (s : String) × (t ≡ some s) × (test s ≡ true)
present test none h = cc
present test (some s) h = (s, refl, ground arith)

pub clean_quiet :
    (d x : Condition)
    → (d ≡ some true) ⊎ (holds x ≡ false)
    → holds (both (negate (coalesce d (some false))) x) ≡ false
clean_quiet d x h = ground arith

pub present_quiet :
    (test : String → Bool) (t : Option String) (s : String)
    → t ≡ some s
    → test s ≡ true
    → holds (either (is_null t) (negate (lift test t))) ≡ false
present_quiet test t s e h = rw e (rw h)

pub not_true : (x : Condition) → x ≢ some true → holds x ≡ false
not_true none h = refl
not_true (some true) h = absurd (h refl)
not_true (some false) h = refl

pub not_false : (x : Condition) → x ≢ some false → holds (negate x) ≡ false
not_false none h = refl
not_false (some true) h = refl
not_false (some false) h = absurd (h refl)

pub all_quiet :
    (a b c d : Bool) → a ≡ false → b ≡ false → c ≡ false → d ≡ false → (a || b || c || d) ≡ false
all_quiet a b c d p q r s = ground arith

pub clash : (b : Bool) → b ≡ true → not b ≡ true → ⊥
clash b p q = ground arith

pub of_not : (b : Bool) → not b ≡ true → b ≡ false
of_not b h = ground arith

pub ⊎-map {ℓ κ μ} : {A : Type ℓ} {B : Type κ} {C : Type μ} → A ⊎ B → (B → C) → A ⊎ C
⊎-map (inl a) f = inl a
⊎-map (inr b) f = inr (f b)
