-- ===== src/Validator/Gate.antt =====
-- What the gate of spark/utils/validator.py lets through, as a predicate that names no rule.
use payments_cdc_pipeline.Prelude.{
  ◌+◌, String, List, [], ◌∷◌, Bool, true, false, some, map, text_eq, not, ◌||◌, arith, ◌≡◌, refl,
  sym, ◌∙◌, ap, ◌≢◌, ◌↔◌, ◌⊎◌, inl, inr, In, In-map, In-keep, keep-In, length, length-keep,
  length-map, count_if-not, keep, Bool-cases,
}
use mathlib.Core.Path.{subst}
use payments_cdc_pipeline.Sql.{negate, both, either, is_null, negative, is_in, member, lift, holds}
use payments_cdc_pipeline.Errors.{Error, ok, err}
use payments_cdc_pipeline.Change.{Change}
use payments_cdc_pipeline.Validator.{
  Checked, allowed_currencies, uuid4_regex, delete_flag, check, validate, split,
}
use payments_cdc_pipeline.Validator.Silence.{
  reason-empty, none_flags, exempt, present, clean_quiet, present_quiet, not_true, not_false,
  all_quiet, clash, of_not, ⊎-map,
}

module _ (rlike : String → String → Bool) (ms : List String) where
  -- The business rules, which a delete need not meet. A NULL amount or currency meets its rule.
  pub record IsClean (c : Change) : Type 0 where
    pub amount : negative c.amount_minor ≢ some true
    pub currency : is_in allowed_currencies c.currency ≢ some false
    pub merchant : (m : String) × (c.merchant_id ≡ some m) × (member ms m ≡ true)

  pub record Passes (c : Change) : Type 0 where
    pub uuid : (t : String) × (c.transaction_id ≡ some t) × (rlike t uuid4_regex ≡ true)
    pub rules : (c.is_delete ≡ some true) ⊎ IsClean c

  abbrev pub passes : Change → Bool
  passes c = text_eq (check rlike ms c).rejection_reason ""

  flags : Change → Bool
  flags c =
      holds (both (negate (delete_flag c)) (negative c.amount_minor))
      || holds (both (negate (delete_flag c)) (negate (is_in allowed_currencies c.currency)))
      || holds (
          either (is_null c.transaction_id)
            (negate (lift (λ t. rlike t uuid4_regex) c.transaction_id)))
      || holds (
          both (negate (delete_flag c))
            (either (is_null c.merchant_id) (negate (is_in ms c.merchant_id))))

  passes-flags : (c : Change) → passes c ≡ not (flags c)
  unfolding check flags
  passes-flags c = reason-empty _ _ _ _

  rules_of_flags :
      (c : Change)
      → (c.is_delete ≡ some true) ⊎ (holds (negative c.amount_minor) ≡ false)
      → (c.is_delete ≡ some true) ⊎ (holds (negate (is_in allowed_currencies c.currency)) ≡ false)
      → (c.is_delete ≡ some true)
        ⊎ (holds (either (is_null c.merchant_id) (negate (is_in ms c.merchant_id))) ≡ false)
      → (c.is_delete ≡ some true) ⊎ IsClean c
  rules_of_flags c (inl d) k m = inl d
  rules_of_flags c (inr a) (inl d) m = inl d
  rules_of_flags c (inr a) (inr k) (inl d) = inl d
  rules_of_flags c (inr a) (inr k) (inr m) = inr (record {
    amount = λ e. cc (ap holds e);
    currency = λ e. cc (ap negate e);
    merchant = present (member ms) c.merchant_id m;
  })

  flags-Passes : (c : Change) → flags c ≡ false → Passes c
  unfolding flags
  flags-Passes c h =
      let (a, k, u, m) = none_flags _ _ _ _ h in
      record {
        uuid = present (λ t. rlike t uuid4_regex) c.transaction_id u;
        rules =
            rules_of_flags c (exempt c.is_delete _ a) (exempt c.is_delete _ k)
              (exempt c.is_delete _ m);
      }

  Passes-flags : (c : Change) → Passes c → flags c ≡ false
  unfolding flags
  Passes-flags c h =
      let (t, e, m) = h.uuid in
      all_quiet _ _ _ _ (clean_quiet c.is_delete _ (⊎-map h.rules (λ k. not_true _ k.amount)))
        (clean_quiet c.is_delete _ (⊎-map h.rules (λ k. not_false _ k.currency)))
        (present_quiet (λ t. rlike t uuid4_regex) c.transaction_id t e m)
        (clean_quiet c.is_delete _ (
          ⊎-map h.rules
            (λ k. let (n, f, g) = k.merchant in present_quiet (member ms) c.merchant_id n f g)))

  pub passes-Passes : (c : Change) → passes c ≡ true → Passes c
  passes-Passes c h = flags-Passes c (of_not _ (sym (passes-flags c) ∙ h))

  pub Passes-passes : (c : Change) → Passes c → passes c ≡ true
  Passes-passes c h = passes-flags c ∙ ap not (Passes-flags c h)

  change-check : (c : Change) → (check rlike ms c).change ≡ c
  unfolding check
  change-check c = refl

  split_valid : (df : List Change) → (split (map (check rlike ms) df)).0 ≡ keep passes df
  split_valid [] = refl
  split_valid (c ∷ df) = elim (Bool-cases (passes c)) [
    | inl e ↦ rw (e, change-check c, split_valid df)
    | inr e ↦ rw e (split_valid df)
  ]

  split_invalid :
      (df : List Change)
      → (split (map (check rlike ms) df)).1 ≡ map (check rlike ms) (keep (λ c. not (passes c)) df)
  split_invalid [] = refl
  split_invalid (c ∷ df) = elim (Bool-cases (passes c)) [
    | inl e ↦ rw e (split_invalid df)
    | inr e ↦ rw (e, split_invalid df)
  ]

  In-invalid :
      (r : Checked) (df : List Change)
      → In r (map (check rlike ms) (keep (λ c. not (passes c)) df))
      → In r.change df × (¬ Passes r.change) × (r.rejection_reason ≢ "")
  In-invalid r df m =
      let (c, n, e) = In-map (check rlike ms) r (keep (λ c. not (passes c)) df) m in
      let (d, f) = In-keep (λ c. not (passes c)) c df n in
      (
        rw (e, change-check c) d,
        rw (e, change-check c) (λ p. clash _ (Passes-passes c p) f),
        rw e (λ t. clash _ (rw t) f),
      )

  abbrev IsExact : List Change → List Change → List Checked → Type 0
  IsExact df v i =
      ((c : Change) → In c v ↔ (In c df × Passes c))
      × ((r : Checked) → In r i → In r.change df × (¬ Passes r.change) × (r.rejection_reason ≢ ""))
      × (length v + length i ≡ length df)

  split-IsExact :
      (df : List Change)
      → IsExact df (split (map (check rlike ms) df)).0 (split (map (check rlike ms) df)).1
  split-IsExact df =
      rw (split_valid df, split_invalid df)
        (
          λ c. (
            (λ m. let (a, e) = In-keep passes c df m in (a, passes-Passes c e)),
            (λ m. keep-In passes c df m.0 (Passes-passes c m.1)),
          ),
          λ r m. In-invalid r df m,
          rw length-map (
              omega (
                arith,
                length-keep passes df,
                length-keep (λ c. not (passes c)) df,
                count_if-not passes df,
              )),
        )

-- The two frames are exactly the rows that pass and the rows that do not, each once: a row is
-- valid if and only if it stands in the batch and passes, every rejected row comes from the batch,
-- does not pass and has a reason, and together the frames have as many rows as the batch.
pub validate_exact :
    (rlike : String → String → Bool) (ms : List String) (df : List Change) (v : List Change)
    (i : List Checked)
    → validate rlike df ms ≡ ok (v, i)
    → ((c : Change) → In c v ↔ (In c df × Passes rlike ms c))
      × ((r : Checked)
          → In r i
          → In r.change df × (¬ Passes rlike ms r.change) × (r.rejection_reason ≢ ""))
      × (length v + length i ≡ length df)
unfolding validate
validate_exact rlike [] df v i h = cc
validate_exact rlike (m ∷ ms) df v i h =
    let e : split (map (check rlike (m ∷ ms)) df) ≡ (v, i) = cc in
    subst (λ (p : List Change × List Checked). IsExact rlike (m ∷ ms) df p.0 p.1) e
      (split-IsExact rlike (m ∷ ms) df)

-- The frames are two filters of the batch.
pub validate_frames :
    (rlike : String → String → Bool) (ms : List String) (df : List Change)
    (frames : List Change × List Checked)
    → validate rlike df ms ≡ ok frames
    → (frames.0 ≡ keep (passes rlike ms) df)
      × (frames.1 ≡ map (check rlike ms) (keep (λ c. not (passes rlike ms c)) df))
unfolding validate
validate_frames rlike [] df frames h = absurd (ground (arith, h))
validate_frames rlike (m ∷ ms) df frames h =
    let e : split (map (check rlike (m ∷ ms)) df) ≡ frames = cc in
    (
      sym (ap (λ (f : List Change × List Checked). f.0) e) ∙ split_valid rlike (m ∷ ms) df,
      sym (ap (λ (f : List Change × List Checked). f.1) e) ∙ split_invalid rlike (m ∷ ms) df,
    )

-- Without merchants the gate raises, and with any it never does.
pub validate_total :
    (rlike : String → String → Bool) (df : List Change) (m : String) (ms : List String)
    → (validate rlike df [] ≡ err Error.value_error)
      × (r : List Change × List Checked) × (validate rlike df (m ∷ ms) ≡ ok r)
unfolding validate
validate_total rlike df m ms = (refl, _, refl)
