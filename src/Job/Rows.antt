-- ===== src/Job/Rows.antt =====
-- The part of `process_batch` in spark/jobs/payments_cdc_job.py behind its early returns, step by step.
use payments_cdc_pipeline.Prelude.{
  ℕ, String, List, Bool, true, false, HasUniqueKeys, ◌≡◌, refl, sym, ap, ◌∙◌, ◌⊎◌, inl, inr, arith,
}
use mathlib.Core.Path.{subst}
use payments_cdc_pipeline.Errors.{Error, Result, ok, err}
use payments_cdc_pipeline.Exec.{Exec, ◌>>=◌, bind-ends, embed}
use payments_cdc_pipeline.Change.{Change}
use payments_cdc_pipeline.Validator.{Checked, validate}
use payments_cdc_pipeline.Job.{
  World, Env, already_committed, commit_ledger, dedup_latest, merge_batch, emit_metrics,
  load_merchants, quarantine, process_rows,
}
use payments_cdc_pipeline.Job.Merge.{entry_key}
use payments_cdc_pipeline.Job.Steps.{
  SameStores, Taken, Ended, emitting, last_part, quarantining, validating, Recorded,
  load_merchants-SameStores, quarantine-SameStores, merge_batch-Ended, commit_ledger-Recorded,
}

-- The batch was validated against the merchants that the call loaded, and its valid rows were taken.
abbrev pub Took : Env → List Change → World → World → Type 0
Took env df w w' =
    (ids : List String) × (frames : List Change × List Checked) × ((load_merchants env w).0
      ≡ ok ids)
    × (validate env.rlike df ids ≡ ok frames)
    × Taken env.window frames.0 w.table w'.table

-- How a call that gets past the ledger and the test for an empty batch can end.
abbrev pub Finished : Env → ℕ → Bool → List Change → World → Result (Unit {0}) → World → Type 0
Finished env batch_id commit df w (ok _) w' =
    Took env df w w'
    × ((commit ≡ true) × (already_committed batch_id w' ≡ true)
        ⊎ (commit ≡ false) × (w'.ledger ≡ w.ledger))
Finished env batch_id commit df w (err e) w' =
    (SameStores w w' ⊎ Took env df w w') × ((commit ≡ false) → w'.ledger ≡ w.ledger)

module _ (env : Env) (batch_id : ℕ) (commit : Bool) (df : List Change) (w : World) where
  abbrev Ends : Exec World (Unit {0}) → World → Type 0
  Ends m s = Finished env batch_id commit df w (m s).0 (m s).1

  committing :
      (n_dlq n_merged : ℕ) (s : World)
      → s.ledger ≡ w.ledger
      → Took env df w s
      → Ends (last_part env batch_id commit df n_dlq n_merged) s
  unfolding emit_metrics already_committed
  committing n_dlq n_merged s l (ids, frames, p, q, t) =
      bind-ends (Finished env batch_id commit df w) (commit_ledger env batch_id commit)
        (λ b. emitting env batch_id df n_dlq n_merged) s
        (λ b s' e.
          returned b s'
            (subst (λ (x : Result Bool × World). Recorded batch_id commit s x.0 x.1) e recorded))
        (λ x s' e.
          raised x s'
            (subst (λ (x : Result Bool × World). Recorded batch_id commit s x.0 x.1) e recorded))
    where
      recorded :
          let (r, s') = commit_ledger env batch_id commit s in Recorded batch_id commit s r s'
      recorded = commit_ledger-Recorded env batch_id commit s

      took : (s' : World) → s'.table ≡ s.table → Took env df w s'
      took s' e = (ids, frames, p, q, subst (Taken env.window frames.0 w.table) (sym e) t)

      returned :
          (b : Bool) (s' : World)
          → Recorded batch_id commit s (ok b) s'
          → Ends (emitting env batch_id df n_dlq n_merged) s'
      returned b s' (e, inl h) = (took s' e, inl h)
      returned b s' (e, inr (f, h)) = (took s' e, inr (f, h ∙ l))

      raised :
          (x : Error) (s' : World)
          → Recorded batch_id commit s (err x) s'
          → Finished env batch_id commit df w (err x) s'
      raised x s' (e, h) = (inr (took s' e), λ f. absurd (ground arith))

  merging :
      (n_dlq : ℕ) (s : World) (ids : List String) (frames : List Change × List Checked)
      → SameStores w s
      → (load_merchants env w).0 ≡ ok ids
      → validate env.rlike df ids ≡ ok frames
      → HasUniqueKeys entry_key w.table
      → Ends
          (merge_batch env (dedup_latest env.window true frames.0)
            >>= last_part env batch_id commit df n_dlq)
          s
  merging n_dlq s ids frames (t, l) p q h =
      bind-ends (Finished env batch_id commit df w)
        (merge_batch env (dedup_latest env.window true frames.0))
        (last_part env batch_id commit df n_dlq) s
        (λ n s' e. let (l', u) = ended (ok n) s' e in committing n_dlq n s' (l' ∙ l) (took s' u))
        (λ x s' e. raised x s' (ended (err x) s' e))
    where
      ended :
          (r : Result ℕ) (s' : World)
          → merge_batch env (dedup_latest env.window true frames.0) s ≡ (r, s')
          → Ended env.window frames.0 s r s'
      ended r s' e =
          subst (λ (x : Result ℕ × World). Ended env.window frames.0 s x.0 x.1) e
            (merge_batch-Ended env frames.0 s (subst (HasUniqueKeys entry_key) (sym t) h))

      took : (s' : World) → Taken env.window frames.0 s.table s'.table → Took env df w s'
      took s' u = (ids, frames, p, q, subst (λ x. Taken env.window frames.0 x s'.table) t u)

      raised :
          (x : Error) (s' : World)
          → Ended {A = ℕ} env.window frames.0 s (err x) s'
          → Finished env batch_id commit df w (err x) s'
      raised x s' (l', inl t') = (inl (t' ∙ t, l' ∙ l), λ f. l' ∙ l)
      raised x s' (l', inr u) = (inr (took s' u), λ f. l' ∙ l)

  -- An exception before the MERGE leaves the stores as they were.
  early : (x : Error) (s' : World) → SameStores w s' → Finished env batch_id commit df w (err x) s'
  early x s' h = (inl h, λ f. h.1)

  stores_after :
      {A : Type 0} (m : Exec World A) (s : World) (r : Result A) (s' : World)
      → SameStores s (m s).1
      → m s ≡ (r, s')
      → SameStores s s'
  stores_after m s r s' h e = subst (λ (x : Result _ × World). SameStores s x.1) e h

  SameStores-trans : (a b c : World) → SameStores a b → SameStores b c → SameStores a c
  SameStores-trans a b c (p, q) (p', q') = (p' ∙ p, q' ∙ q)

  pub process_rows-Finished :
      HasUniqueKeys entry_key w.table
      → let (r, w') = process_rows env batch_id commit df w in
        Finished env batch_id commit df w r w'
  unfolding process_rows
  process_rows-Finished h =
      bind-ends P (load_merchants env) (validating env batch_id commit df) w
        (λ ids s e.
          validated ids s (ap (λ (x : Result (List String) × World). x.0) e) (loaded (ok ids) s e))
        (λ x s e. early x s (loaded (err x) s e))
    where
      P : Result (Unit {0}) → World → Type 0
      P = Finished env batch_id commit df w

      loaded :
          (r : Result (List String)) (s : World) → load_merchants env w ≡ (r, s) → SameStores w s
      loaded r s e = stores_after (load_merchants env) w r s (load_merchants-SameStores env w) e

      quarantined :
          (ids : List String) (frames : List Change × List Checked) (s : World)
          → (load_merchants env w).0 ≡ ok ids
          → validate env.rlike df ids ≡ ok frames
          → SameStores w s
          → Ends (quarantining env batch_id commit df frames) s
      quarantined ids frames s p q st =
          bind-ends P (quarantine env frames.1)
            (λ n.
              merge_batch env (dedup_latest env.window true frames.0)
              >>= last_part env batch_id commit df n)
            s
            (λ n s' e.
              merging n s' ids frames
                (SameStores-trans w s s' st (
                  stores_after (quarantine env frames.1) s (ok n) s'
                    (quarantine-SameStores env frames.1 s) e))
                p q h)
            (λ x s' e. early x s' (
              SameStores-trans w s s' st (
                stores_after (quarantine env frames.1) s (err x) s'
                  (quarantine-SameStores env frames.1 s) e)))

      validated :
          (ids : List String) (s : World)
          → (load_merchants env w).0 ≡ ok ids
          → SameStores w s
          → Ends (validating env batch_id commit df ids) s
      validated ids s p st =
          bind-ends P (embed (validate env.rlike df ids)) (quarantining env batch_id commit df) s
            (λ frames s' e.
              quarantined ids frames s' p
                (ap (λ (x : Result (List Change × List Checked) × World). x.0) e)
                (SameStores-trans w s s' st (
                  stores_after (embed (validate env.rlike df ids)) s (ok frames) s' (refl, refl)
                    e)))
            (λ x s' e. early x s' (
              SameStores-trans w s s' st
                (stores_after (embed (validate env.rlike df ids)) s (err x) s' (refl, refl) e)))
