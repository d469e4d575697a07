-- ===== src/Replay/Guard.antt =====
-- The test of the guard in scripts/chaos/replay_offsets.py, on rows that the table has taken already.
use payments_cdc_pipeline.Prelude.{
  String, List, false, In, find, HasUniqueKeys, length, if◌then◌else◌, ◌≡◌, ◌⊎◌, refl, sym, ap, ◌∙◌,
  inl, inr, Bool-cases,
}
use payments_cdc_pipeline.Errors.{Error, Result, ok, err}
use payments_cdc_pipeline.Exec.{Exec, pure, raise, gets, ◌>>=◌}
use payments_cdc_pipeline.Change.{Change}
use payments_cdc_pipeline.Validator.{Checked, validate}
use payments_cdc_pipeline.Job.{World, Env, load_merchants, process_batch}
use payments_cdc_pipeline.Job.Merge.{entry_key}
use payments_cdc_pipeline.Job.Guard.{covered_is_spent}
use payments_cdc_pipeline.Job.Steps.{SameStores}
use payments_cdc_pipeline.Job.Rows.{Took}
use payments_cdc_pipeline.Job.Batch.{process_batch-Concluded}
use payments_cdc_pipeline.Job.Contract.{replay_keeps_ledger}
use payments_cdc_pipeline.Job.Arrivals.{History, History-IsCovered}
use payments_cdc_pipeline.Job.Named.{Named, process_batch-Named}
use payments_cdc_pipeline.Replay.{differs, snapshot_metrics, run_lsn_guard_test, same_metrics}
use payments_cdc_pipeline.Replay.Totals.{snapshot_metrics-same}

-- The rows that the call is to merge have reached the table: whatever the merchants of the moment make of the
-- rows that were read, the valid ones are among those of the history.
abbrev pub AreOld : Env → List Change → World → List Change → Type 0
AreOld env flat w rows =
    (ids : List String) (frames : List Change × List Checked)
    → (load_merchants env w).0 ≡ ok ids
    → validate env.rlike flat ids ≡ ok frames
    → (c : Change) → In c frames.0
    → In c rows

replayed :
    {w₀ : World} {rows : List Change} {w : World} (env : Env) (flat : List Change)
    → History w₀ rows w
    → HasUniqueKeys entry_key w.table
    → AreOld env flat w rows
    → (k : String)
    → find entry_key k w.table ≡ find entry_key k (process_batch env 999999999 false flat w).1.table
replayed {rows} {w} env flat h u old k =
    go (process_batch env 999999999 false flat w).1
      (process_batch-Concluded env 999999999 false flat w u).1
  where
    go :
        (w' : World)
        → SameStores w w' ⊎ ((length flat ≡ 0) × (w'.table ≡ w.table) ⊎ Took env flat w w')
        → find entry_key k w.table ≡ find entry_key k w'.table
    go w' (inl (t, l)) = ap (find entry_key k) (sym t)
    go w' (inr (inl (z, t))) = ap (find entry_key k) (sym t)
    go w' (inr (inr (ids, frames, p, q, (v, t)))) = sym (
        covered_is_spent env.window frames.0 w.table w'.table
          (λ j c i m. History-IsCovered h j c (old ids frames p q c i) m) t k)

-- However the test ends, it leaves the ledger as it was.
lsn_guard_test_keeps_ledger :
    (env : Env) (flat : List Change) (w : World)
    → HasUniqueKeys entry_key w.table
    → (run_lsn_guard_test env flat w).1.ledger ≡ w.ledger
unfolding run_lsn_guard_test
lsn_guard_test_keeps_ledger env flat w u =
    go (process_batch env 999999999 false flat w) (replay_keeps_ledger env 999999999 flat w u).0
  where
    compared : Exec World (Unit {0})
    compared = gets snapshot_metrics >>= λ after.
        if differs (snapshot_metrics w) after then raise Error.assertion_error else pure tt

    kept : (w' : World) → (compared w').1 ≡ w'
    kept w' = elim (Bool-cases (differs (snapshot_metrics w) (snapshot_metrics w'))) [
      | inl t ↦ rw t refl
      | inr f ↦ rw f refl
    ]

    go :
        (p : Result (Unit {0}) × World)
        → p.1.ledger ≡ w.ledger
        → (elim p.0 as (λ x. Result (Unit {0}) × World) [
          | ok a ↦ compared p.1
          | err e ↦ (err e, p.1)
        ]).1.ledger
          ≡ w.ledger
    go (ok a, w') h = ap (λ (x : World). x.ledger) (kept w') ∙ h
    go (err e, w') h = h

-- The replay is harmless, and the test says so. Where the table has unique keys and no row without one, and the
-- valid ones among the rows that are read from Kafka have reached it before, in whatever order and batches, with
-- whatever failures, the test of the guard never finds the table corrupted: it returns or raises as its call of
-- `process_batch` does, whatever was merged over those rows and however the writes of the call end, and the ledger
-- stays as it was.
pub lsn_guard_test_passes :
    {w₀ : World} {rows : List Change} {w : World} (env : Env) (flat : List Change)
    → History w₀ rows w
    → HasUniqueKeys entry_key w.table
    → Named w
    → AreOld env flat w rows
    → ((run_lsn_guard_test env flat w).0 ≡ (process_batch env 999999999 false flat w).0)
      × ((run_lsn_guard_test env flat w).1.ledger ≡ w.ledger)
unfolding run_lsn_guard_test
lsn_guard_test_passes {rows} {w} env flat h u n old = (
  go (process_batch env 999999999 false flat w) (
      snapshot_metrics-same w (process_batch env 999999999 false flat w).1 u
        (process_batch-Concluded env 999999999 false flat w u).0 n
        (process_batch-Named env 999999999 false flat w n) (replayed env flat h u old)),
  lsn_guard_test_keeps_ledger env flat w u,
)
  where
    compared : Exec World (Unit {0})
    compared = gets snapshot_metrics >>= λ after.
        if differs (snapshot_metrics w) after then raise Error.assertion_error else pure tt

    go :
        (p : Result (Unit {0}) × World)
        → snapshot_metrics w ≡ snapshot_metrics p.1
        → (elim p.0 as (λ x. Result (Unit {0}) × World) [
          | ok a ↦ compared p.1
          | err e ↦ (err e, p.1)
        ]).0
          ≡ p.0
    go (ok a, w') m =
        let d = ap (differs (snapshot_metrics w)) (sym m) ∙ same_metrics (snapshot_metrics w) in
        rw d refl
    go (err e, w') m = refl
