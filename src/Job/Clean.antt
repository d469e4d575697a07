-- ===== src/Job/Clean.antt =====
-- A call of `process_batch` (spark/jobs/payments_cdc_job.py) whose writes are all acknowledged.
use payments_cdc_pipeline.Prelude.{
  ℕ, String, List, ◌∷◌, true, false, HasUniqueKeys, length, ◌==◌, ◌≡◌, refl, sym, ap, ◌∙◌, ◌⊎◌, inl,
  inr, Bool-cases,
}
use mathlib.Core.Path.{subst}
use payments_cdc_pipeline.Errors.{Result, ok}
use payments_cdc_pipeline.Exec.{Exec, bind_ok, acknowledged, ◌>>=◌, embed}
use payments_cdc_pipeline.Change.{Change}
use payments_cdc_pipeline.Validator.{Checked, validate}
use payments_cdc_pipeline.Validator.Gate.{validate_total}
use payments_cdc_pipeline.Dlq.Delivery.{dlq_delivers}
use payments_cdc_pipeline.Job.{
  World, Env, already_committed, commit_ledger, dedup_latest, merge_batch, load_merchants,
  process_batch, process_rows, quarantine, emit_metrics,
}
use payments_cdc_pipeline.Job.Dedup.{dedup-HasUniqueKeys}
use payments_cdc_pipeline.Job.Merge.{entry_key, merge_keys}
use payments_cdc_pipeline.Job.Steps.{load_merchants-SameStores, last_part, quarantining, validating}
use payments_cdc_pipeline.Job.Contract.{opposite, return_means_done}

-- A call that returns, and leaves the table's keys alone.
abbrev Succeeds : {A : Type 0} → Exec World A → World → Type 0
Succeeds {A} n w = (a : A) × (w' : World) × (n w ≡ (ok a, w')) × (w'.table ≡ w.table)

quarantine-Succeeds :
    (env : Env) (invalid : List Checked) (w : World)
    → env.dlq_save.returns ≡ true
    → Succeeds (quarantine env invalid) w
unfolding quarantine
quarantine-Succeeds env invalid w d =
    let (new, e, carried, ends) =
      dlq_delivers env.encoder env.rejected_at env.dlq_save invalid w.dlq in
    elim ends [
      | inl (r, all) ↦ (
        length invalid,
        (quarantine env invalid w).1,
        λ i. (r i, (quarantine env invalid w).1),
        refl,
      )
      | inr (r, f) ↦ absurd (opposite d f)
    ]

merge_batch-returns :
    (env : Env) (rows : List Change) (w : World)
    → HasUniqueKeys entry_key w.table
    → env.merge_save ≡ acknowledged
    → (n : ℕ) × (w' : World) × (merge_batch env (dedup_latest env.window true rows) w ≡ (ok n, w'))
unfolding merge_batch
merge_batch-returns env rows w u g =
    let staged = dedup_latest env.window true rows in
    let (t, e, v, k) =
      merge_keys w.table staged env.delta u (dedup-HasUniqueKeys env.window true rows) in
    elim (Bool-cases (length staged == 0)) [
      | inl z ↦ (0, w, rw z refl)
      | inr n ↦ (length staged, record w { table = t }, rw (n, e, g) refl)
    ]

last_part-returns :
    (env : Env) (batch_id : ℕ) (df : List Change) (n_dlq n_merged : ℕ) (w : World)
    → env.ledger_save ≡ acknowledged
    → (last_part env batch_id true df n_dlq n_merged w).0 ≡ ok tt
unfolding commit_ledger emit_metrics
last_part-returns env batch_id df n_dlq n_merged w l = rw l refl

quarantining-returns :
    (env : Env) (batch_id : ℕ) (df : List Change) (frames : List Change × List Checked) (w : World)
    → HasUniqueKeys entry_key w.table
    → env.dlq_save.returns ≡ true
    → env.merge_save ≡ acknowledged
    → env.ledger_save ≡ acknowledged
    → (quarantining env batch_id true df frames w).0 ≡ ok tt
quarantining-returns env batch_id df frames w u d g l =
    let (n, s, e, t) = quarantine-Succeeds env frames.1 w d in
    let (k, s', f) =
      merge_batch-returns env frames.0 s (subst (HasUniqueKeys entry_key) (sym t) u) g in
    ap (λ (x : Result (Unit {0}) × World). x.0)
      (bind_ok (quarantine env frames.1)
          (λ n.
            merge_batch env (dedup_latest env.window true frames.0)
            >>= last_part env batch_id true df n)
          w s n e
        ∙ bind_ok (merge_batch env (dedup_latest env.window true frames.0))
            (last_part env batch_id true df n) s s' k f)
    ∙ last_part-returns env batch_id df n k s' l

validating-returns :
    (env : Env) (batch_id : ℕ) (df : List Change) (m : String) (ms : List String) (w : World)
    → HasUniqueKeys entry_key w.table
    → env.dlq_save.returns ≡ true
    → env.merge_save ≡ acknowledged
    → env.ledger_save ≡ acknowledged
    → (validating env batch_id true df (m ∷ ms) w).0 ≡ ok tt
validating-returns env batch_id df m ms w u d g l =
    let (refused, frames, e) = validate_total env.rlike df m ms in
    ap (λ (x : Result (Unit {0}) × World). x.0)
      (bind_ok (embed (validate env.rlike df (m ∷ ms))) (quarantining env batch_id true df) w w
        frames (ap (λ r. (r, w)) e))
    ∙ quarantining-returns env batch_id df frames w u d g l

process_rows-returns :
    (env : Env) (batch_id : ℕ) (df : List Change) (m : String) (ms : List String) (w : World)
    → HasUniqueKeys entry_key w.table
    → (load_merchants env w).0 ≡ ok (m ∷ ms)
    → env.dlq_save.returns ≡ true
    → env.merge_save ≡ acknowledged
    → env.ledger_save ≡ acknowledged
    → (process_rows env batch_id true df w).0 ≡ ok tt
unfolding process_rows
process_rows-returns env batch_id df m ms w u loaded d g l =
    let s = (load_merchants env w).1 in
    let same = load_merchants-SameStores env w in
    ap (λ (x : Result (Unit {0}) × World). x.0)
      (bind_ok (load_merchants env) (validating env batch_id true df) w s (m ∷ ms)
        (ap (λ r. (r, s)) loaded))
    ∙ validating-returns env batch_id df m ms s (subst (HasUniqueKeys entry_key) (sym same.0) u) d g
        l

-- Where the keys are unique, the merchants load with at least one of them, and the three writes are
-- acknowledged, a call for a batch that was not committed returns and commits it.
pub clean_call_commits :
    (env : Env) (batch_id : ℕ) (df : List Change) (w : World) (m : String) (ms : List String)
    → HasUniqueKeys entry_key w.table
    → already_committed batch_id w ≡ false
    → (load_merchants env w).0 ≡ ok (m ∷ ms)
    → env.dlq_save.returns ≡ true
    → env.merge_save ≡ acknowledged
    → env.ledger_save ≡ acknowledged
    → ((process_batch env batch_id true df w).0 ≡ ok tt)
      × (already_committed batch_id (process_batch env batch_id true df w).1 ≡ true)
unfolding process_batch commit_ledger emit_metrics
clean_call_commits env batch_id df w m ms u new loaded d g l =
    let r = returns in (r, go ((return_means_done env batch_id true df w u new r).1))
  where
    go :
        (true ≡ true) × (already_committed batch_id (process_batch env batch_id true df w).1 ≡ true)
          ⊎ (true ≡ false) × ((process_batch env batch_id true df w).1.ledger ≡ w.ledger)
        → already_committed batch_id (process_batch env batch_id true df w).1 ≡ true
    go (inl h) = h.1
    go (inr h) = absurd (opposite refl h.0)

    returns : (process_batch env batch_id true df w).0 ≡ ok tt
    returns = elim (Bool-cases (length df == 0)) [
      | inl z ↦ rw (new, z, l) refl
      | inr n ↦ rw (new, n) (process_rows-returns env batch_id df m ms w u loaded d g l)
    ]
