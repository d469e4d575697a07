-- ===== src/Inject/Cleanup.antt =====
-- What the cleanup of scripts/inject_bad_records.py leaves in Postgres after a run.
use mathlib.Core.Path.{subst, ap₂}
use payments_cdc_pipeline.Prelude.{
  ℕ, zero, suc, ◌+◌, String, List, [], ◌∷◌, ◌++◌, Bool, true, false, ◌||◌, map, append_nil, ltb,
  text_eq, text_eq_refl, eq_iff, ◌≤◌, ◌<◌, ◌⊎◌, inl, inr, ◌≡◌, refl, sym, ap, ◌∙◌, arith,
  Bool-cases,
}
use payments_cdc_pipeline.Prelude.Int.{pos, negsuc}
use payments_cdc_pipeline.Errors.{ok}
use payments_cdc_pipeline.Sql.{member}
use payments_cdc_pipeline.Inject.Postgres.{Stores, without, cleanup_injected}
use payments_cdc_pipeline.Exec.{Outcome}
use payments_cdc_pipeline.Inject.{
  Row, Codec, payment, known_merchant, ghost_merchant, valid_currency, invalid_currency,
}
use payments_cdc_pipeline.Inject.Suite.{
  Dump, Run, ids_from, valid_rows, invalid_row, invalid_spec, valid_ids, invalid_ids, run_suite,
}
use payments_cdc_pipeline.Inject.Oracle.{run_suite-inversion}

invalid_row-id : (i : ℕ) (t : String) → (invalid_row i t).transaction_id ≡ t
invalid_row-id i t = elim (Bool-cases (ltb i 20)) [
  | inl a ↦ rw a
  | inr a ↦ elim (Bool-cases (ltb i 35)) [ inl b ↦ rw (a, b) | inr b ↦ rw (a, b) ]
]

module _ (ids : List String) where
  without-append : (xs ys : List Row) → without ids (xs ++ ys) ≡ without ids xs ++ without ids ys
  without-append [] ys = refl
  without-append (x ∷ xs) ys = elim (Bool-cases (member ids x.transaction_id)) [
    | inl t ↦ rw (t, without-append xs ys)
    | inr f ↦ rw (f, without-append xs ys)
  ]

  without-fresh :
      (xs : List Row)
      → ((t : String)
          → member ids t ≡ true
          → member (map (λ (r : Row). r.transaction_id) xs) t ≡ false)
      → without ids xs ≡ xs
  without-fresh [] h = refl
  without-fresh (x ∷ xs) h = elim (Bool-cases (member ids x.transaction_id)) [
    | inl t ↦
        absurd
          (let m = h x.transaction_id t in let r = text_eq_refl x.transaction_id in ground arith)
    | inr f ↦ rw (f, without-fresh xs (λ t m. let n = h t m in ground arith))
  ]

  without-invalid_spec :
      (i : ℕ) (ts : List String)
      → ((t : String) → member ts t ≡ true → member ids t ≡ true)
      → without ids (invalid_spec i ts) ≡ []
  without-invalid_spec i [] h = refl
  without-invalid_spec i (t ∷ ts) h = rw (
    invalid_row-id i t,
    h t (rw (text_eq_refl t) refl),
    without-invalid_spec (suc i) ts (λ u m. h u (ground arith)),
  )

  without-bad : (r : Row) → member ids r.transaction_id ≡ true → without ids (r ∷ []) ≡ []
  without-bad r h = rw h refl

  -- Of what a run leaves in the table, the old rows and the valid rows are kept.
  without-run :
      (rows valid bad : List Row) (a b c : Row)
      → without ids rows ≡ rows
      → without ids valid ≡ valid
      → without ids bad ≡ []
      → member ids a.transaction_id ≡ true
      → member ids b.transaction_id ≡ true
      → member ids c.transaction_id ≡ true
      → without ids ((((rows ++ (a ∷ [])) ++ (b ∷ [])) ++ (c ∷ [])) ++ (valid ++ bad))
        ≡ rows ++ valid
  without-run rows valid bad a b c hr hv hb ha hb' hc =
      without-append (((rows ++ (a ∷ [])) ++ (b ∷ [])) ++ (c ∷ [])) (valid ++ bad)
      ∙ ap₂ (◌++◌)
          (step ((rows ++ (a ∷ [])) ++ (b ∷ [])) c hc
            ∙ step (rows ++ (a ∷ [])) b hb'
            ∙ step rows a ha
            ∙ hr)
          (without-append valid bad ∙ ap₂ (◌++◌) hv hb ∙ append_nil valid)
    where
      step :
          (xs : List Row) (r : Row)
          → member ids r.transaction_id ≡ true
          → without ids (xs ++ (r ∷ [])) ≡ without ids xs
      step xs r h =
          without-append xs (r ∷ [])
          ∙ ap (◌++◌ (without ids xs)) (without-bad r h)
          ∙ append_nil (without ids xs)

ids_from-member :
    (uuid : ℕ → String) (t : String) (n k : ℕ)
    → member (ids_from uuid n k) t ≡ true
    → (i : ℕ) × (n ≤ i) × (i < n + k) × (uuid i ≡ t)
ids_from-member uuid t n zero h = absurd (ground (arith, h))
ids_from-member uuid t n (suc k) h = elim (Bool-cases (text_eq (uuid n) t)) [
  | inl e ↦ (n, omega arith, omega arith, (eq_iff (uuid n) t).0 e)
  | inr f ↦
      let (i, a, b, e) = ids_from-member uuid t (suc n) k (rw f at h) in
      (i, omega (arith, a), omega (arith, b), e)
]

valid_rows-ids : (ts : List String) → map (λ (r : Row). r.transaction_id) (valid_rows ts) ≡ ts
valid_rows-ids [] = refl
valid_rows-ids (t ∷ ts) = ap (◌∷◌ t) (valid_rows-ids ts)

module _ (uuid : ℕ → String) (unique : (i j : ℕ) → uuid i ≡ uuid j → i ≡ j) where
  -- The ids that the file names are those of the calls before the third and from the 53rd.
  bad_ids-member :
      (more : List String) (t : String)
      → member (uuid 0 ∷ uuid 1 ∷ uuid 2 ∷ more) t ≡ true
      → ((i : ℕ) × (i < 3) × (uuid i ≡ t)) ⊎ (member more t ≡ true)
  bad_ids-member more t h = elim (Bool-cases (text_eq (uuid 0) t)) [
    | inl e ↦ inl (0, omega arith, (eq_iff (uuid 0) t).0 e)
    | inr e₀ ↦ elim (Bool-cases (text_eq (uuid 1) t)) [
      | inl e ↦ inl (1, omega arith, (eq_iff (uuid 1) t).0 e)
      | inr e₁ ↦ elim (Bool-cases (text_eq (uuid 2) t)) [
        | inl e ↦ inl (2, omega arith, (eq_iff (uuid 2) t).0 e)
        | inr e₂ ↦ inr (ground (arith, h))
      ]
    ]
  ]

  -- No call gives both a valid id and a bad one.
  ids-apart :
      (k n : ℕ) (t : String)
      → member (uuid 0 ∷ uuid 1 ∷ uuid 2 ∷ ids_from uuid (3 + k) n) t ≡ true
      → member (ids_from uuid 3 k) t ≡ false
  ids-apart k n t h = elim (Bool-cases (member (ids_from uuid 3 k) t)) [
    | inr f ↦ f
    | inl v ↦
        let (i, a, b, e) = ids_from-member uuid t 3 k v in
        elim (bad_ids-member (ids_from uuid (3 + k) n) t h) [
          | inl (j, c, e') ↦ absurd (let q = unique i j (e ∙ sym e') in omega (arith, a, c, q))
          | inr m ↦
              let (j, c, d, e') = ids_from-member uuid t (3 + k) n m in
              absurd (let q = unique i j (e ∙ sym e') in omega (arith, b, c, q))
        ]
  ]

  bad_ids-fresh :
      (k n : ℕ) (rows : List Row)
      → ((i : ℕ) → member (map (λ (r : Row). r.transaction_id) rows) (uuid i) ≡ false)
      → (t : String) → member (uuid 0 ∷ uuid 1 ∷ uuid 2 ∷ ids_from uuid k n) t ≡ true
      → member (map (λ (r : Row). r.transaction_id) rows) t ≡ false
  bad_ids-fresh k n rows fresh t h = elim (bad_ids-member (ids_from uuid k n) t h) [
    | inl (j, c, e) ↦
        subst (λ (u : String). member (map (λ (r : Row). r.transaction_id) rows) u ≡ false) e
          (fresh j)
    | inr m ↦
        let (j, c, d, e) = ids_from-member uuid t k n m in
        subst (λ (u : String). member (map (λ (r : Row). r.transaction_id) rows) u ≡ false) e
          (fresh j)
  ]

  -- What the DELETE keeps of the rows of a run with k valid and n bad ones.
  cleanup_keeps :
      (k n : ℕ) (rows : List Row) (a b c : Row)
      → ((i : ℕ) → member (map (λ (r : Row). r.transaction_id) rows) (uuid i) ≡ false)
      → a.transaction_id ≡ uuid 0
      → b.transaction_id ≡ uuid 1
      → c.transaction_id ≡ uuid 2
      → without (uuid 0 ∷ uuid 1 ∷ uuid 2 ∷ ids_from uuid (3 + k) n) (
          (((rows ++ (a ∷ [])) ++ (b ∷ [])) ++ (c ∷ []))
          ++ (valid_rows (ids_from uuid 3 k) ++ invalid_spec 0 (ids_from uuid (3 + k) n)))
        ≡ rows ++ valid_rows (ids_from uuid 3 k)
  cleanup_keeps k n rows a b c fresh ea eb ec =
      let ids = uuid 0 ∷ uuid 1 ∷ uuid 2 ∷ ids_from uuid (3 + k) n in
      without-run ids rows (valid_rows (ids_from uuid 3 k))
        (invalid_spec 0 (ids_from uuid (3 + k) n)) a b c
        (without-fresh ids rows (bad_ids-fresh (3 + k) n rows fresh))
        (without-fresh ids (valid_rows (ids_from uuid 3 k)) (λ t m.
          subst (λ (ts : List String). member ts t ≡ false)
            (sym (valid_rows-ids (ids_from uuid 3 k))) (ids-apart k n t m)))
        (without-invalid_spec ids 0 (ids_from uuid (3 + k) n)
          (λ t m. rw m (or_true (text_eq (uuid 0) t) (text_eq (uuid 1) t) (text_eq (uuid 2) t))))
        (rw (ea, text_eq_refl (uuid 0)) refl)
        (rw (eb, text_eq_refl (uuid 1)) (or_true₁ (text_eq (uuid 0) (uuid 1))))
        (rw (ec, text_eq_refl (uuid 2))
          (or_true₂ (text_eq (uuid 0) (uuid 2)) (text_eq (uuid 1) (uuid 2))))
    where
      or_true : (x y z : Bool) → (x || (y || (z || true))) ≡ true
      or_true x y z = ground arith

      or_true₁ : (x : Bool) → (x || true) ≡ true
      or_true₁ x = ground arith

      or_true₂ : (x y : Bool) → (x || (y || true)) ≡ true
      or_true₂ x y = ground arith

abbrev bad_ids : Run → List String
bad_ids run = run.uuid 0 ∷ run.uuid 1 ∷ run.uuid 2 ∷ invalid_ids run

-- Cleaning up after a run takes back exactly the rows that must not be there: if the run returned, its ids
-- are distinct and none of them was in Postgres before, and the DELETE of the ids in its file is
-- acknowledged, then Postgres holds the old rows and the fifty valid rows of the fifth test. The topic stays
-- as the run left it.
pub cleanup_injected-run_suite :
    (codec : Codec) (run : Run) (st st' : Stores) (code : ℕ) (dump : Dump)
    → ((i j : ℕ) → run.uuid i ≡ run.uuid j → i ≡ j)
    → ((i : ℕ) → member (map (λ (r : Row). r.transaction_id) st.rows) (run.uuid i) ≡ false)
    → run_suite codec run st ≡ (ok (code, dump), st')
    → cleanup_injected Outcome.acknowledged dump.postgres_ids st'
      ≡ (ok tt, record st' { rows = st.rows ++ valid_rows (valid_ids run) })
unfolding cleanup_injected
cleanup_injected-run_suite codec run st st' code dump unique fresh h =
    let (e, s) = run_suite-inversion codec run st st' (code, dump) h in
    let d = ap (λ (o : ℕ × Dump). o.1.postgres_ids) e in
    let deleted =
      cleanup_keeps run.uuid unique 50 50 st.rows
        (payment (run.uuid 0) known_merchant (negsuc 1499) valid_currency)
        (payment (run.uuid 1) known_merchant (pos 2500) invalid_currency)
        (payment (run.uuid 2) ghost_merchant (pos 3300) valid_currency) fresh refl refl refl in
    let ids : bad_ids run ≡ dump.postgres_ids =
      ap (λ (ts : List String). run.uuid 0 ∷ run.uuid 1 ∷ run.uuid 2 ∷ ts)
        (sym (append_nil (invalid_ids run)))
      ∙ d in
    subst
      (λ (ts : List String).
        cleanup_injected Outcome.acknowledged ts st'
        ≡ (ok tt, record st' { rows = st.rows ++ valid_rows (valid_ids run) }))
      ids
      (ap (λ (now : List Row). (ok tt, record st' { rows = now }))
        (ap (without (bad_ids run)) (sym s) ∙ deleted))
