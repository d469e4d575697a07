-- ===== src/LateDelete/Pipeline.antt =====
-- The suite of scripts/inject_late_delete.py against the pipeline: its envelopes through
-- `flatten_envelope`, the gate and `process_batch`, and what it then reads.
use payments_cdc_pipeline.Prelude.{
  ℕ, ◌≤◌, ◌<◌, String, List, [], ◌∷◌, Bool, true, false, Option, none, some, In, find, names,
  has_key, HasUniqueKeys, count_if, length, text_eq, text_eq_refl, eq_iff, keep, keep-ext, ◌≡◌,
  refl, sym, ap, ◌∙◌, ◌⊎◌, inl, inr, arith, Bool-cases,
}
use payments_cdc_pipeline.Prelude.Int.{pos}
use mathlib.Core.Path.{subst}
use payments_cdc_pipeline.Sql.{member, equal, holds}
use payments_cdc_pipeline.Errors.{Error, Result, ok, err}
use payments_cdc_pipeline.Change.{Change, Entry}
use payments_cdc_pipeline.Avro.{Casts, flatten_envelope}
use payments_cdc_pipeline.Window.{rank}
use payments_cdc_pipeline.Validator.{Checked, uuid4_regex, validate}
use payments_cdc_pipeline.Validator.Gate.{Passes, validate_exact}
use payments_cdc_pipeline.Job.{World, Env, already_committed, load_merchants, process_batch}
use payments_cdc_pipeline.Job.Merge.{entry_key, guarded}
use payments_cdc_pipeline.Job.Latest.{Leads, Takes-leader}
use payments_cdc_pipeline.Job.Rows.{Took}
use payments_cdc_pipeline.Job.Batch.{process_batch-Concluded}
use payments_cdc_pipeline.Job.Contract.{return_means_done}
use payments_cdc_pipeline.LateDelete.{Event, make_envelope, query_delta}

text_eq_comm : (j k : String) → text_eq j k ≡ text_eq k j
text_eq_comm j k = elim (Bool-cases (text_eq j k)) [
  | inl t ↦ let e : j ≡ k = (eq_iff j k).0 t in rw (t, e) (sym (text_eq_refl k))
  | inr f ↦ elim (Bool-cases (text_eq k j)) [
    | inl u ↦
        let e : j ≡ k = sym ((eq_iff k j).0 u) in
        absurd (clash (subst (λ x. text_eq x k ≡ true) (sym e) (text_eq_refl k)) f)
    | inr g ↦ f ∙ sym g
  ]
]
  where
    clash : {b : Bool} → b ≡ true → b ≡ false → ⊥
    clash p q = cc

same_key_test : (k : String) (o : Option String) → holds (equal o (some k)) ≡ names k o
same_key_test k none = refl
same_key_test k (some j) = text_eq_comm j k

-- What a list of at most one row is read as.
abbrev single : List Entry → Result (Option Entry)
single [] = ok none
single (r ∷ rows) = elim rows [ [] ↦ ok (some r) | _ ∷ _ ↦ err Error.assertion_error ]

none_kept : (p : Entry → Bool) (xs : List Entry) → count_if p xs ≡ 0 → keep p xs ≡ []
none_kept p [] z = refl
none_kept p (x ∷ xs) z = ground (arith, none_kept p xs)

single-find :
    (k : String) (table : List Entry)
    → count_if (has_key entry_key k) table ≤ 1
    → single (keep (has_key entry_key k) table) ≡ ok (find entry_key k table)
single-find k [] u = refl
single-find k (e ∷ table) u = elim (Bool-cases (has_key entry_key k e)) [
  | inl t ↦ rw (t, none_kept (has_key entry_key k) table (omega (arith, rw t at u)))
  | inr f ↦ rw f (single-find k table (rw f at u))
]

-- On a table with unique keys the read finds the key's row, and does not raise.
pub query_delta-find :
    (table : List Entry) (tid : String)
    → HasUniqueKeys entry_key table
    → query_delta table tid ≡ ok (find entry_key tid table)
unfolding query_delta
query_delta-find table tid u =
    ap single (
      keep-ext (λ (e : Entry). holds (equal e.transaction_id (some tid))) (has_key entry_key tid)
        table (λ e. same_key_test tid e.transaction_id))
    ∙ single-find tid table (u tid)

-- The clock's readings for an event, and its place in Kafka.
pub record Sent : Type 0 where
  pub now_ms : ℕ
  pub now_iso : String
  pub partition : ℕ
  pub offset : ℕ

module _ (cast : Casts String) where
  abbrev pub row : Event → Sent → Change
  row e s = flatten_envelope cast (make_envelope e s.now_ms s.now_iso) s.partition s.offset

  row-columns :
      (e : Event) (s : Sent)
      → ((row e s).transaction_id ≡ some e.transaction_id)
        × ((row e s).lsn ≡ some e.lsn)
        × ((row e s).amount_minor ≡ some e.amount_minor)
        × ((row e s).currency ≡ some e.currency)
        × ((row e s).merchant_id ≡ some e.merchant_id)
        × ((row e s).is_delete ≡ some (text_eq e.op "d"))
  unfolding flatten_envelope make_envelope
  row-columns e s = elim (Bool-cases (text_eq e.op "d")) [
    | inl t ↦ rw t (refl, refl, refl, refl, refl, refl)
    | inr f ↦ rw f (refl, refl, refl, refl, refl, ap some f)
  ]

  -- What the gate asks of an event.
  abbrev pub IsGood : (String → String → Bool) → List String → Event → Type 0
  IsGood rlike ids e =
      (rlike e.transaction_id uuid4_regex ≡ true)
      × (e.currency ≡ "USD")
      × (e.merchant_id ≡ "MERCH_001")
      × (member ids "MERCH_001" ≡ true)
      × ((n : ℕ) × (e.amount_minor ≡ pos n))

  row-Passes :
      (rlike : String → String → Bool) (ids : List String) (e : Event) (s : Sent)
      → IsGood rlike ids e
      → Passes rlike ids (row e s)
  row-Passes rlike ids e s (u, c, m, k, (n, a)) =
      let (t, l, am, cu, me, d) = row-columns e s in
      record {
        uuid = (e.transaction_id, t, u);
        rules = inr (record {
          amount = rw (am, a) (λ h. ground arith);
          currency = rw (cu, c) (λ h. cc);
          merchant = ("MERCH_001", me ∙ ap some m, k);
        });
      }

  -- The call read the merchants, returned, and had not seen the batch before.
  abbrev pub Processed : Env → ℕ → List Change → World → List String → Type 0
  Processed env batch_id df w ids =
      HasUniqueKeys entry_key w.table
      × (already_committed batch_id w ≡ false)
      × ((load_merchants env w).0 ≡ ok ids)
      × ((process_batch env batch_id true df w).0 ≡ ok tt)

  -- The event has the greatest log position of its key in the batch.
  abbrev pub IsLast : Event → Sent → List Change → Type 0
  IsLast e s df =
      In (row e s) df
      × ((r : Change)
          → In r df
          → r.transaction_id ≡ some e.transaction_id
          → (r ≡ row e s) ⊎ ((n : ℕ) × (r.lsn ≡ some n) × (n < e.lsn)))

  -- After a call that returns, the key of a good event that is last in the batch holds what the guard
  -- makes of it.
  pub Processed-find :
      (env : Env) (batch_id : ℕ) (df : List Change) (w : World) (ids : List String) (e : Event)
      (s : Sent)
      → Processed env batch_id df w ids
      → IsGood env.rlike ids e
      → IsLast e s df
      → HasUniqueKeys entry_key (process_batch env batch_id true df w).1.table
        × (find entry_key e.transaction_id (process_batch env batch_id true df w).1.table
            ≡ guarded (find entry_key e.transaction_id w.table) (some (row e s)))
  Processed-find env batch_id df w ids e s (u, new, loaded, r) good (m, least) = (
    (process_batch-Concluded env batch_id true df w u).0,
    go (return_means_done env batch_id true df w u new r).0,
  )
    where
      leads :
          (got : List String) (frames : List Change × List Checked)
          → got ≡ ids
          → validate env.rlike df got ≡ ok frames
          → Leads (row e s) e.transaction_id frames.0
      leads got frames g q =
          let (t, l, am, cu, me, d) = row-columns e s in
          let exact = (validate_exact env.rlike got df frames.0 frames.1 q).0 in
          (
            (exact (row e s)).1 (
              m,
              subst (λ x. Passes env.rlike x (row e s)) (sym g) (row-Passes env.rlike ids e s good),
            ),
            t,
            λ r i k. beneath r l (least r ((exact r).0 i).0 k),
          )
        where
          beneath :
              (r : Change)
              → (row e s).lsn ≡ some e.lsn
              → (r ≡ row e s) ⊎ ((n : ℕ) × (r.lsn ≡ some n) × (n < e.lsn))
              → (r ≡ row e s) ⊎ (rank r.lsn < rank (row e s).lsn)
          beneath r l (inl q) = inl q
          beneath r l (inr (n, f, b)) = inr (rw (f, l) (omega (arith, b)))

      ok_inj : {a b : List String} → ok a ≡ ok b → a ≡ b
      ok_inj e = cc

      not_none : (df : List Change) → In (row e s) df → length df ≡ 0 → ⊥
      not_none [] i z = i
      not_none (c ∷ df) i z = ground arith

      go :
          (length df ≡ 0) ⊎ Took env df w (process_batch env batch_id true df w).1
          → find entry_key e.transaction_id (process_batch env batch_id true df w).1.table
            ≡ guarded (find entry_key e.transaction_id w.table) (some (row e s))
      go (inl z) = absurd (not_none df m z)
      go (inr (got, frames, p, q, (v, t))) =
          Takes-leader env.window frames.0 w.table (process_batch env batch_id true df w).1.table
            e.transaction_id (row e s) t (leads got frames (ok_inj (sym p ∙ loaded)) q)
