-- ===== src/Generator/Rows.antt =====
-- The rows that scripts/data_generator.py inserts: their amounts, and what the validation gate of
-- spark/utils/validator.py says of them.
use mathlib.Core.Path.{subst}
use payments_cdc_pipeline.Prelude.{
  ℕ, zero, suc, ◌≤◌, ◌<◌, String, List, ◌∷◌, Bool, true, false, some, In, if◌then◌else◌, Bool-cases,
  ◌==◌, ◌-◌, ◌≡◌, refl, sym, ap, ◌∙◌, inl, inr, arith,
}
use payments_cdc_pipeline.Prelude.Int.{pos}
use payments_cdc_pipeline.Sql.{member, negative, is_in}
use payments_cdc_pipeline.Change.{Change}
use payments_cdc_pipeline.Validator.{uuid4_regex, allowed_currencies}
use payments_cdc_pipeline.Validator.Gate.{Passes}
use payments_cdc_pipeline.Generator.{
  Transaction, Random, choice, generate_amount, pick_merchant, new_row, new_rows, whale_merchant_id,
  currencies,
}
use payments_cdc_pipeline.Generator.Deletes.{nth-member}

-- What Python says of `random.randrange(n)`.
abbrev pub IsBelow : {Seed : Type 0} → Random Seed → Type 0
IsBelow {Seed} random = (n : ℕ) (s : Seed) → (random.randbelow (suc n) s).0 < suc n

-- Every amount is at least one dollar and at most 50,000, and outside the whale mode less than 1,000.
pub generate_amount_bounds :
    {Seed : Type 0} (random : Random Seed) (whale_mode : Bool) (s : Seed)
    → IsBelow random
    → (100 ≤ (generate_amount random whale_mode s).0)
      × ((generate_amount random whale_mode s).0 ≤ 5000000)
      × (whale_mode ≡ false → (generate_amount random whale_mode s).0 ≤ 99900)
unfolding generate_amount
generate_amount_bounds random false s h =
    let l = h 99800 s in (omega arith, omega (arith, l), λ e. omega (arith, l))
generate_amount_bounds random true s h = elim (Bool-cases (random.percent 3 s).0) [
  | inl t ↦
      let l = h 4500000 (random.percent 3 s).1 in
      rw t (omega arith, omega (arith, l), λ e. absurd (ground (arith, e)))
  | inr f ↦
      let l = h 99800 (random.percent 3 s).1 in
      rw f (omega arith, omega (arith, l), λ e. omega (arith, l))
]

-- The change event of a row, by the columns that the gate reads.
pub record Carries (r : Transaction) (c : Change) : Type 0 where
  pub transaction_id : c.transaction_id ≡ some r.transaction_id
  pub merchant_id : c.merchant_id ≡ some r.merchant_id
  pub amount_minor : c.amount_minor ≡ some (pos r.amount_minor)
  pub currency : c.currency ≡ some r.currency

four_allowed :
    (a b c : Bool)
    → member allowed_currencies
        (if a then "USD" else if b then "EUR" else if c then "GBP" else "JPY")
      ≡ true
four_allowed true b c = refl
four_allowed false true c = refl
four_allowed false false true = refl
four_allowed false false false = refl

module _ {Seed : Type 0} (random : Random Seed) where
  choice-member :
      (x : String) (xs : List String) (s : Seed)
      → member (x ∷ xs) (choice random (x ∷ xs) s).0 ≡ true
  choice-member x xs s = nth-member x xs _

  pick_merchant-member :
      (ms : List String) (m : String) (merchants : List String) (whale_mode : Bool) (s : Seed)
      → ((t : String) → member (m ∷ merchants) t ≡ true → member ms t ≡ true)
      → member ms whale_merchant_id ≡ true
      → member ms (pick_merchant random (m ∷ merchants) whale_mode s).0 ≡ true
  unfolding pick_merchant
  pick_merchant-member ms m merchants false s h k = h _ (choice-member m merchants s)
  pick_merchant-member ms m merchants true s h k = elim (Bool-cases (random.percent 40 s).0) [
    | inl t ↦ rw t k
    | inr f ↦ rw f (h _ (choice-member m merchants _))
  ]

  new_rows-In :
      (merchants : List String) (whale_mode : Bool) (now n : ℕ) (s : Seed) (r : Transaction)
      → In r (new_rows random merchants whale_mode now n s).0
      → (s' : Seed) × (r ≡ (new_row random merchants whale_mode now s').0)
  new_rows-In merchants whale_mode now zero s r i = absurd i
  new_rows-In merchants whale_mode now (suc n) s r (inl e) = (s, e)
  new_rows-In merchants whale_mode now (suc n) s r (inr i) =
      new_rows-In merchants whale_mode now n (new_row random merchants whale_mode now s).1 r i

  currency_allowed : (s : Seed) → member allowed_currencies (choice random currencies s).0 ≡ true
  currency_allowed s = four_allowed (k == 0) (k - 1 == 0) (k - 1 - 1 == 0)
    where
      k : ℕ
      k = (random.randbelow 4 s).0

-- The generator's rows pass the gate: an event that carries any row of an insert, in either mode, passes
-- where the registry has the merchants that the generator loaded and the whale, and its ids are version 4.
pub new_rows-Passes :
    {Seed : Type 0} (random : Random Seed) (rlike : String → String → Bool) (ms : List String)
    (m : String) (merchants : List String) (whale_mode : Bool) (now count : ℕ) (s : Seed)
    (r : Transaction) (c : Change)
    → ((s' : Seed) → rlike (random.uuid4 s').0 uuid4_regex ≡ true)
    → ((t : String) → member (m ∷ merchants) t ≡ true → member ms t ≡ true)
    → member ms whale_merchant_id ≡ true
    → In r (new_rows random (m ∷ merchants) whale_mode now count s).0
    → Carries r c
    → Passes rlike ms c
new_rows-Passes random rlike ms m merchants whale_mode now count s r c uuid known whale i h =
    let (s', e) = new_rows-In random (m ∷ merchants) whale_mode now count s r i in
    record {
      uuid = (
        r.transaction_id,
        h.transaction_id,
        subst (λ (x : Transaction). rlike x.transaction_id uuid4_regex ≡ true) (sym e) (uuid s'),
      );
      rules = inr (record {
        amount = λ k. absurd (not_negative r.amount_minor (sym (ap negative h.amount_minor) ∙ k));
        currency = λ k. absurd (
            allowed r.currency
              (subst (λ (x : Transaction). member allowed_currencies x.currency ≡ true) (sym e)
                (currency_allowed random _))
              (sym (ap (is_in allowed_currencies) h.currency) ∙ k));
        merchant = (
          r.merchant_id,
          h.merchant_id,
          subst (λ (x : Transaction). member ms x.merchant_id ≡ true) (sym e)
              (pick_merchant-member random ms m merchants whale_mode _ known whale),
        );
      });
    }
  where
    not_negative : (n : ℕ) → negative (some (pos n)) ≡ some true → ⊥
    not_negative n k = ground (arith, k)

    allowed :
        (t : String)
        → member allowed_currencies t ≡ true
        → is_in allowed_currencies (some t) ≡ some false
        → ⊥
    allowed t p q = clash (member allowed_currencies t) p q
      where
        clash : (b : Bool) → b ≡ true → some b ≡ some false → ⊥
        clash b p q = ground (arith, p, q)
