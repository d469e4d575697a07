-- ===== src/Parity/Complete.antt =====
-- When scripts/parity_checker.py says PASS: the converse of Parity/Sound.
use payments_cdc_pipeline.Prelude.{
  ℕ, ◌≤◌, String, List, [], ◌∷◌, Bool, true, false, Option, none, some, map, not, any, any-In,
  length, length-keep, count_if, count_if-In, ltb, In, In-keep, Bool-cases, ◌≡◌, refl, ap, ◌∙◌, ◌⊎◌,
  inl, inr, arith,
}
use payments_cdc_pipeline.Sql.{equal, holds}
use payments_cdc_pipeline.Change.{Entry}
use payments_cdc_pipeline.Dlq.{Message}
use payments_cdc_pipeline.Grouping.{distinct, same_value, text_key}
use payments_cdc_pipeline.Parity.{
  Row, load_delta, load_dlq_keys, left_anti, inner_count, differs, is_mismatch, mismatches, dupes,
  expected_quarantine_after_injection, measure, Report, decide, Verdict, check_parity,
}

-- A count is zero where no row passes the test.
count_zero_of :
    {A : Type 0} (p : A → Bool) (xs : List A)
    → ((a : A) → In a xs → p a ≡ false)
    → count_if p xs ≡ 0
count_zero_of p [] h = refl
count_zero_of p (x ∷ xs) h = rw (h x (inl refl)) (count_zero_of p xs (λ a m. h a (inr m)))

abbrev pub matches : Row → Row → Bool
matches r s = holds (equal r.transaction_id s.transaction_id)

pub left_anti-empty :
    (a b : List Row)
    → ((r : Row)
        → In r a
        → (s : Row) × In s b × (holds (equal r.transaction_id s.transaction_id) ≡ true))
    → length (left_anti a b) ≡ 0
left_anti-empty a b h =
    length-keep (λ (r : Row). not (any (matches r) b)) a
    ∙ count_zero_of (λ (r : Row). not (any (matches r) b)) a
        (λ r m. let (s, n, e) = h r m in ap not (any-In (matches r) s b n e))

-- Each of the rows has a key.
pub inner_count_ge :
    (rows : List Row) (keys : List (Option String))
    → ((r : Row)
        → In r rows
        → (k : Option String) × In k keys × (holds (equal r.transaction_id k) ≡ true))
    → length rows ≤ inner_count rows keys
inner_count_ge [] keys h = omega arith
inner_count_ge (r ∷ rows) keys h =
    let (k, m, e) = h r (inl refl) in
    omega (
      arith,
      count_if-In (λ k. holds (equal r.transaction_id k)) k keys m e,
      inner_count_ge rows keys (λ s n. h s (inr n)),
    )

-- Rows without a partner are quarantined, where every row is accounted for.
pub missing_quarantined :
    (pg delta : List Row) (keys : List (Option String))
    → ((p : Row)
        → In p pg
        → ((d : Row) × In d delta × (matches p d ≡ true))
          ⊎ ((k : Option String) × In k keys × (holds (equal p.transaction_id k) ≡ true)))
    → (r : Row) → In r (left_anti pg delta)
    → (k : Option String) × In k keys × (holds (equal r.transaction_id k) ≡ true)
missing_quarantined pg delta keys accounted r m =
    let (i, e) = In-keep (λ (r : Row). not (any (matches r) delta)) r pg m in
    elim (accounted r i) [
      | inl (d, j, t) ↦ absurd (clash (any-In (matches r) d delta j t) e)
      | inr q ↦ q
    ]
  where
    clash : {b : Bool} → b ≡ true → not b ≡ true → ⊥
    clash p q = ground (arith, p, q)

mismatches_zero :
    (pg delta : List Row)
    → ((p d : Row) → In p pg → In d delta → is_mismatch p d ≡ false)
    → mismatches pg delta ≡ 0
unfolding mismatches
mismatches_zero [] delta h = refl
mismatches_zero (p ∷ pg) delta h = omega (
  arith,
  count_zero_of (is_mismatch p) delta (λ d n. h p d (inl refl) n),
  mismatches_zero pg delta (λ q d m n. h q d (inr m) n),
)

dupes_zero :
    (delta : List Row)
    → ((k : Option String) → count_if (λ (d : Row). same_value k d.transaction_id) delta ≤ 1)
    → dupes delta ≡ 0
unfolding dupes
dupes_zero delta h =
    count_zero_of (λ k. ltb 1 (count_if (λ (d : Row). same_value k d.transaction_id) delta))
      (distinct text_key (map (λ (d : Row). d.transaction_id) delta))
      (λ k m. few (count_if (λ (d : Row). same_value k d.transaction_id) delta) (h k))
  where
    few : (n : ℕ) → n ≤ 1 → ltb 1 n ≡ false
    few n h = ground arith

-- A row that has a partner has a key.
no_null :
    (delta pg : List Row)
    → ((d : Row)
        → In d delta
        → (p : Row) × In p pg × (holds (equal d.transaction_id p.transaction_id) ≡ true))
    → count_if (λ (d : Row). same_value none d.transaction_id) delta ≡ 0
no_null delta pg h =
    count_zero_of (λ (d : Row). same_value none d.transaction_id) delta
      (λ d m. let (p, n, e) = h d m in go d.transaction_id p.transaction_id e)
  where
    go : (t s : Option String) → holds (equal t s) ≡ true → same_value none t ≡ false
    go none s e = absurd (ground (arith, e))
    go (some t) s e = refl

passes_decide :
    (r : Report)
    → (r.quarantined ≡ 0) ⊎ (r.quarantined ≡ expected_quarantine_after_injection)
    → r.unaccounted ≡ 0
    → r.extra_count ≡ 0
    → r.mismatch_count ≡ 0
    → r.dupes ≡ 0
    → decide 0 r ≡ Verdict.pass
unfolding decide
passes_decide r (inl q) u x m g = ground arith
passes_decide r (inr q) u x m g = ground arith

-- No false alarm: where every row of Postgres has a live row of its key in Delta or is quarantined under
-- its key, every live row of Delta has a row of its key in Postgres, no two rows of one key differ, no key
-- is twice among Delta's live rows, and the rows that are quarantined instead are none or as many as the
-- injection suite makes, the verdict without tolerance is a PASS.
pub parity_complete :
    (pg : List Row) (table : List Entry) (messages : Option (List Message))
    → ((p : Row)
        → In p pg
        → ((d : Row) × In d (load_delta table) × (matches p d ≡ true))
          ⊎ ((k : Option String) × In k (load_dlq_keys messages)
              × (holds (equal p.transaction_id k) ≡ true)))
    → ((d : Row) → In d (load_delta table) → (p : Row) × In p pg × (matches d p ≡ true))
    → ((p d : Row)
        → In p pg
        → In d (load_delta table)
        → matches p d ≡ true
        → holds (differs p d) ≡ false)
    → ((k : String)
        → count_if (λ (d : Row). same_value (some k) d.transaction_id) (load_delta table) ≤ 1)
    → (inner_count (left_anti pg (load_delta table)) (load_dlq_keys messages) ≡ 0)
      ⊎ (inner_count (left_anti pg (load_delta table)) (load_dlq_keys messages)
          ≡ expected_quarantine_after_injection)
    → check_parity 0 pg table messages ≡ Verdict.pass
unfolding check_parity measure
parity_complete pg table messages accounted known agree once oracle =
    passes_decide (measure pg delta keys) oracle
      (omega (
        arith,
        inner_count_ge (left_anti pg delta) keys (missing_quarantined pg delta keys accounted),
      ))
      (left_anti-empty delta pg known) (mismatches_zero pg delta mismatch) (dupes_zero delta alone)
  where
    delta : List Row
    delta = load_delta table

    keys : List (Option String)
    keys = load_dlq_keys messages

    mismatch : (p d : Row) → In p pg → In d delta → is_mismatch p d ≡ false
    mismatch p d i j = elim (Bool-cases (matches p d)) [
      | inl t ↦ rw t (agree p d i j t)
      | inr f ↦ rw f refl
    ]

    alone : (k : Option String) → count_if (λ (d : Row). same_value k d.transaction_id) delta ≤ 1
    alone none = omega (arith, no_null delta pg known)
    alone (some k) = once k
