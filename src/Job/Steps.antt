-- ===== src/Job/Steps.antt =====
-- How the single steps of `process_batch` in spark/jobs/payments_cdc_job.py end: what each leaves
-- alone, and what its write may have stored.
use payments_cdc_pipeline.Prelude.{
  ℕ, String, List, [], ◌∷◌, ◌++◌, Bool, true, false, none, some, find, HasUniqueKeys, any, length,
  ◌-◌, ◌==◌, if◌then◌else◌, Bool-cases, ◌≡◌, refl, sym, ◌⊎◌, inl, inr, arith,
}
use payments_cdc_pipeline.Errors.{Error, Result, ok, err}
use payments_cdc_pipeline.Exec.{
  Exec, Outcome, acknowledged, refused, lost, Outcome-cases, ◌>>=◌, ◌>>◌, embed, pure, write,
}
use payments_cdc_pipeline.Change.{Change, Entry}
use payments_cdc_pipeline.Validator.{Checked, validate}
use payments_cdc_pipeline.Window.{Window}
use payments_cdc_pipeline.Job.{
  World, Env, Commit, rows_of, is_commit, app_id, same_key, is_newer, already_committed,
  commit_ledger, dedup_latest, merge_batch, emit_metrics, load_merchants, quarantine,
}
use payments_cdc_pipeline.Job.Dedup.{key_of, dedup-HasUniqueKeys}
use payments_cdc_pipeline.Job.Merge.{entry_key, merge_keys}
use payments_cdc_pipeline.Job.Guard.{Takes, guarded-none}

-- What a call leaves alone.
abbrev pub SameStores : World → World → Type 0
SameStores w w' = (w'.table ≡ w.table) × (w'.ledger ≡ w.ledger)

pub load_merchants-SameStores : (env : Env) (w : World) → SameStores w (load_merchants env w).1
unfolding load_merchants
load_merchants-SameStores env w = (refl, refl)

pub quarantine-SameStores :
    (env : Env) (invalid : List Checked) (w : World) → SameStores w (quarantine env invalid w).1
unfolding quarantine
quarantine-SameStores env invalid w = (refl, refl)

-- The table has unique keys and has taken the batch.
abbrev pub Taken : Window → List Change → List Entry → List Entry → Type 0
Taken window rows table table' = HasUniqueKeys entry_key table' × Takes window rows table table'

unfoldable pub saved : Outcome → List Entry → ℕ → World → Result ℕ × World
saved acknowledged t n w = (ok n, record w { table = t })
saved refused t n w = (err Error.delta_error, w)
saved lost t n w = (err Error.delta_error, record w { table = t })

-- The two ways of `merge_batch`, once Delta has computed the new table.
pub merge_batch-saved :
    (env : Env) (staged : List Change) (t : List Entry) (w : World)
    → env.delta.merge same_key is_newer w.table staged ≡ some t
    → merge_batch env staged w
      ≡ (if length staged == 0 then (ok 0, w) else saved env.merge_save t (length staged) w)
unfolding merge_batch saved
merge_batch-saved env staged t w e = elim (Bool-cases (length staged == 0)) [
  | inl z ↦ rw z
  | inr n ↦ rw (n, e) (go env.merge_save)
]
  where
    go :
        (o : Outcome)
        → (write o Error.delta_error (λ (w : World). record w { table = t })
              >> pure (length staged))
            w
          ≡ saved o t (length staged) w
    go acknowledged = refl
    go refused = refl
    go lost = refl

-- The ledger stays, and the batch is taken where the call returns; an exception leaves the table
-- as it was or with the batch taken.
abbrev pub Ended : {A : Type 0} → Window → List Change → World → Result A → World → Type 0
Ended window rows w (ok a) w' = (w'.ledger ≡ w.ledger) × Taken window rows w.table w'.table
Ended window rows w (err e) w' =
    (w'.ledger ≡ w.ledger) × ((w'.table ≡ w.table) ⊎ Taken window rows w.table w'.table)

pub merge_batch-Ended :
    (env : Env) (rows : List Change) (w : World)
    → HasUniqueKeys entry_key w.table
    → let (r, w') = merge_batch env (dedup_latest env.window true rows) w in
      Ended env.window rows w r w'
unfolding saved
merge_batch-Ended env rows w h =
    let staged = dedup_latest env.window true rows in
    let (t, e, u, k) =
      merge_keys w.table staged env.delta h (dedup-HasUniqueKeys env.window true rows) in
    rw (merge_batch-saved env staged t w e) (elim (Bool-cases (length staged == 0)) [
      | inl z ↦
          rw z (
            refl,
            (h, λ k. rw (nothing staged z k) (sym (guarded-none (find entry_key k w.table)))),
          )
      | inr n ↦ rw n (go env.merge_save t (length staged) (u, k))
    ])
  where
    nothing :
        (staged : List Change)
        → (length staged == 0) ≡ true
        → (k : String) → find key_of k staged ≡ none
    nothing [] z k = refl
    nothing (c ∷ staged) z k = absurd (ground arith)

    go :
        (o : Outcome) (t : List Entry) (n : ℕ)
        → Taken env.window rows w.table t
        → let (r, w') = saved o t n w in Ended env.window rows w r w'
    go acknowledged t n h = (refl, h)
    go refused t n h = (refl, inl refl)
    go lost t n h = (refl, inr h)

any-append_last :
    (batch_id : ℕ) (at : ℕ) (commits : List Commit)
    → any
        (is_commit batch_id)
        (commits ++ record { app_id = app_id; batch_id = batch_id; committed_at = at } ∷ [])
      ≡ true
any-append_last batch_id at [] = ground arith
any-append_last batch_id at (c ∷ commits) = ground (arith, any-append_last batch_id at commits)

-- Where `commit_ledger` returns, the batch is in the ledger if `commit` is set; if it is not, the
-- ledger stays however the call ends.
abbrev pub Recorded : ℕ → Bool → World → Result Bool → World → Type 0
Recorded batch_id commit w (ok b) w' =
    (w'.table ≡ w.table)
    × ((commit ≡ true) × (already_committed batch_id w' ≡ true)
        ⊎ (commit ≡ false) × (w'.ledger ≡ w.ledger))
Recorded batch_id commit w (err e) w' = (w'.table ≡ w.table) × (commit ≡ true)

pub commit_ledger-Recorded :
    (env : Env) (batch_id : ℕ) (commit : Bool) (w : World)
    → let (r, w') = commit_ledger env batch_id commit w in Recorded batch_id commit w r w'
unfolding commit_ledger already_committed
commit_ledger-Recorded env batch_id false w = (refl, inr (refl, refl))
commit_ledger-Recorded env batch_id true w = elim (Outcome-cases env.ledger_save) [
  | inl e ↦ rw e (refl, inl (refl, any-append_last batch_id env.committed_at (rows_of w.ledger)))
  | inr (inl e) ↦ rw e (refl, refl)
  | inr (inr e) ↦ rw e (refl, refl)
]

-- The parts of `process_batch`, each with all that follows it.
module _ (env : Env) (batch_id : ℕ) (df : List Change) where
  abbrev pub emitting : ℕ → ℕ → Exec World (Unit {0})
  emitting n_dlq n_merged =
      emit_metrics env batch_id (length df) n_merged n_dlq (env.finished_at - env.started_at)

module _ (env : Env) (batch_id : ℕ) (commit : Bool) where
  abbrev pub on_empty : Exec World (Unit {0})
  on_empty = commit_ledger env batch_id commit >>= λ b.
      emit_metrics env batch_id 0 0 0 (env.finished_at - env.started_at)

module _ (env : Env) (batch_id : ℕ) (commit : Bool) (df : List Change) where
  abbrev pub last_part : ℕ → ℕ → Exec World (Unit {0})
  last_part n_dlq n_merged =
      commit_ledger env batch_id commit >>= λ b. emitting env batch_id df n_dlq n_merged

  abbrev pub quarantining : List Change × List Checked → Exec World (Unit {0})
  quarantining frames = quarantine env frames.1 >>= λ n.
      merge_batch env (dedup_latest env.window true frames.0) >>= last_part n

  abbrev pub validating : List String → Exec World (Unit {0})
  validating ids = embed (validate env.rlike df ids) >>= quarantining
