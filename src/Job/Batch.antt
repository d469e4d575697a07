-- ===== src/Job/Batch.antt =====
-- `process_batch` of spark/jobs/payments_cdc_job.py under every way in which its writes may end.
use payments_cdc_pipeline.Prelude.{
  ℕ, List, Bool, true, false, HasUniqueKeys, length, ◌-◌, ◌==◌, ==_iff, if◌then◌else◌, Bool-cases,
  ◌≡◌, refl, sym, ◌⊎◌, inl, inr,
}
use mathlib.Core.Path.{subst}
use payments_cdc_pipeline.Errors.{Error, Result, ok, err}
use payments_cdc_pipeline.Exec.{bind-ends}
use payments_cdc_pipeline.Change.{Change}
use payments_cdc_pipeline.Job.{
  World, Env, already_committed, commit_ledger, emit_metrics, process_rows, process_batch,
}
use payments_cdc_pipeline.Job.Merge.{entry_key}
use payments_cdc_pipeline.Job.Steps.{SameStores, on_empty, Recorded, commit_ledger-Recorded}
use payments_cdc_pipeline.Job.Rows.{Took, Finished, process_rows-Finished}

opposite : {b : Bool} → b ≡ true → b ≡ false → ⊥
opposite p q = cc

err_ok : {A : Type 0} {e : Error} {a : A} → err e ≡ ok a → ⊥
err_ok p = cc

-- How any call of `process_batch` can end.
abbrev pub Concluded : Env → ℕ → Bool → List Change → World → Result (Unit {0}) → World → Type 0
Concluded env batch_id commit df w r w' =
    HasUniqueKeys entry_key w'.table
    × (SameStores w w' ⊎ ((length df ≡ 0) × (w'.table ≡ w.table) ⊎ Took env df w w'))
    × (r ≡ ok tt
        → already_committed batch_id w ≡ false
        → ((length df ≡ 0) ⊎ Took env df w w')
          × ((commit ≡ true) × (already_committed batch_id w' ≡ true)
              ⊎ (commit ≡ false) × (w'.ledger ≡ w.ledger)))
    × (commit ≡ false → w'.ledger ≡ w.ledger)

module _ (env : Env) (batch_id : ℕ) (commit : Bool) (df : List Change) (w : World) where
  empty-Concluded :
      HasUniqueKeys entry_key w.table
      → length df ≡ 0
      → Concluded env batch_id commit df w
          (on_empty env batch_id commit w).0
          (on_empty env batch_id commit w).1
  unfolding emit_metrics already_committed
  empty-Concluded h z =
      bind-ends (Concluded env batch_id commit df w) (commit_ledger env batch_id commit)
        (λ b. emit_metrics env batch_id 0 0 0 (env.finished_at - env.started_at)) w
        (λ b s e. returned b s (recorded (ok b) s e)) (λ x s e. raised x s (recorded (err x) s e))
    where
      recorded :
          (r : Result Bool) (s : World)
          → commit_ledger env batch_id commit w ≡ (r, s)
          → Recorded batch_id commit w r s
      recorded r s e =
          subst (λ (x : Result Bool × World). Recorded batch_id commit w x.0 x.1) e
            (commit_ledger-Recorded env batch_id commit w)

      unique : (s : World) → s.table ≡ w.table → HasUniqueKeys entry_key s.table
      unique s e = subst (HasUniqueKeys entry_key) (sym e) h

      returned :
          (b : Bool) (s : World)
          → Recorded batch_id commit w (ok b) s
          → let (r, s') = emit_metrics env batch_id 0 0 0 (env.finished_at - env.started_at) s in
            Concluded env batch_id commit df w r s'
      returned b s (e, inl q) =
          (unique s e, inr (inl (z, e)), (λ p m. (inl z, inl q)), λ f. absurd (opposite q.0 f))
      returned b s (e, inr q) = (unique s e, inr (inl (z, e)), (λ p m. (inl z, inr q)), λ f. q.1)

      raised :
          (x : Error) (s : World)
          → Recorded batch_id commit w (err x) s
          → Concluded env batch_id commit df w (err x) s
      raised x s (e, q) =
          (unique s e, inr (inl (z, e)), (λ p. absurd (err_ok p)), λ f. absurd (opposite q f))

  Finished-Concluded :
      (r : Result (Unit {0})) (w' : World)
      → HasUniqueKeys entry_key w.table
      → Finished env batch_id commit df w r w'
      → Concluded env batch_id commit df w r w'
  Finished-Concluded (ok t) w' h (k, inl q) =
      (k.4.0, inr (inr k), (λ p m. (inr k, inl q)), λ f. absurd (opposite q.0 f))
  Finished-Concluded (ok t) w' h (k, inr q) =
      (k.4.0, inr (inr k), (λ p m. (inr k, inr q)), λ f. q.1)
  Finished-Concluded (err x) w' h (inl s, q) =
      (subst (HasUniqueKeys entry_key) (sym s.0) h, inl s, (λ p. absurd (err_ok p)), q)
  Finished-Concluded (err x) w' h (inr k, q) = (k.4.0, inr (inr k), (λ p. absurd (err_ok p)), q)

  -- The three ways of `process_batch`.
  process_batch_ways : process_batch env batch_id commit df w ≡ (
      if already_committed batch_id w
      then (ok tt, w)
      else if length df == 0
      then on_empty env batch_id commit w
      else process_rows env batch_id commit df w)
  unfolding process_batch
  process_batch_ways = elim (Bool-cases (already_committed batch_id w)) [
    | inl seen ↦ rw seen
    | inr new ↦ elim (Bool-cases (length df == 0)) [ inl z ↦ rw (new, z) | inr n ↦ rw (new, n) ]
  ]

  pub process_batch-Concluded :
      HasUniqueKeys entry_key w.table
      → let (r, w') = process_batch env batch_id commit df w in
        Concluded env batch_id commit df w r w'
  process_batch-Concluded h =
      subst (λ (x : Result (Unit {0}) × World). Concluded env batch_id commit df w x.0 x.1)
        (sym process_batch_ways) (go (already_committed batch_id w) refl (length df == 0) refl)
    where
      go :
          (seen : Bool)
          → already_committed batch_id w ≡ seen
          → (empty : Bool) → (length df == 0) ≡ empty
          → let (r, w') =
              (if seen
                then (ok tt, w)
                else if empty
                then on_empty env batch_id commit w
                else process_rows env batch_id commit df w) in
            Concluded env batch_id commit df w r w'
      go true seen empty z = (h, inl (refl, refl), (λ p m. absurd (opposite seen m)), λ f. refl)
      go false new true z = empty-Concluded h ((==_iff (length df) 0).0 z)
      go false new false z =
          Finished-Concluded _ _ h (process_rows-Finished env batch_id commit df w h)
