-- ===== src/Job/Recovery.antt =====
-- Redelivery of a micro-batch to `process_batch` (spark/jobs/payments_cdc_job.py): Spark runs the
-- same batch again after an exception, and after a crash that came before its own checkpoint.
use payments_cdc_pipeline.Prelude.{
  ℕ, String, List, [], ◌∷◌, Bool, true, false, In, find, find-In, HasUniqueKeys, length, ◌≡◌, refl,
  sym, ◌∙◌, ◌⊎◌, inl, inr, arith, Option-cases,
}
use mathlib.Core.Path.{subst}
use payments_cdc_pipeline.Errors.{ok}
use payments_cdc_pipeline.Change.{Change, Entry}
use payments_cdc_pipeline.Validator.{Checked, validate}
use payments_cdc_pipeline.Validator.Gate.{validate_exact}
use payments_cdc_pipeline.Window.{Window}
use payments_cdc_pipeline.Job.{World, Env, already_committed, dedup_latest, process_batch}
use payments_cdc_pipeline.Job.Dedup.{key_of, dedup-In}
use payments_cdc_pipeline.Job.Merge.{entry_key}
use payments_cdc_pipeline.Job.Guard.{Takes, guarded-none, Takes-IsCovered, covered_is_spent}
use payments_cdc_pipeline.Job.Steps.{SameStores}
use payments_cdc_pipeline.Job.Rows.{Took}
use payments_cdc_pipeline.Job.Batch.{process_batch-Concluded}
use payments_cdc_pipeline.Job.Registered.{
  Holds, IsSteady, load_merchants_steady, process_batch-Holds,
}

-- The attempts at one batch, in order: each meets its own failures.
unfoldable pub redeliver : List Env → ℕ → List Change → World → World
redeliver [] batch_id df w = w
redeliver (env ∷ envs) batch_id df w =
    redeliver envs batch_id df (process_batch env batch_id true df w).1

-- The attempts agree on the rules that they check: the regular expressions and the merchants.
abbrev pub Agree : (String → String → Bool) → List String → List Env → Type 0
Agree rlike ids [] = Unit
Agree rlike ids (env ∷ envs) = (env.rlike ≡ rlike) × IsSteady ids env × Agree rlike ids envs

nil_of_length {ℓ} : {A : Type ℓ} (l : List A) → length l ≡ 0 → l ≡ []
nil_of_length [] z = refl
nil_of_length (a ∷ l) z = absurd (omega (arith, z))

module _ (rlike : String → String → Bool) (ids : List String) (batch_id : ℕ) (df : List Change)
    (valid : List Change) (invalid : List Checked)
    (checked : validate rlike df ids ≡ ok (valid, invalid)) (w₀ : World) where
  -- Either nothing of the batch is stored and it is not committed, or the table has taken it once.
  abbrev Progress : World → Type 0
  Progress w =
      (w.table ≡ w₀.table) × (already_committed batch_id w ≡ false)
      ⊎ ((window : Window) × Takes window valid w₀.table w.table)

  abbrev Stage : World → Type 0
  Stage w = HasUniqueKeys entry_key w.table × Holds ids w × Progress w

  empty_valid : length df ≡ 0 → valid ≡ []
  empty_valid z =
      nil_of_length valid (omega (arith, (validate_exact rlike ids df valid invalid checked).2, z))

  nothing_taken :
      (window : Window) (table : List Entry) → length df ≡ 0 → Takes window valid table table
  nothing_taken window table z k =
      elim (Option-cases (find key_of k (dedup_latest window true valid))) [
        | inl f ↦ rw f (sym (guarded-none (find entry_key k table)))
        | inr (s, f) ↦ absurd (
            subst (In s) (empty_valid z) (
              dedup-In window true valid s
                (find-In key_of k (dedup_latest window true valid) s f).0))
      ]

  -- One more batch on top of a covered one.
  again :
      (window : Window) (w w' : World)
      → ((window : Window) × Takes window valid w₀.table w.table)
      → Takes window valid w.table w'.table
      → (window : Window) × Takes window valid w₀.table w'.table
  again window w w' (first, t) s = (
    first,
    λ k.
        covered_is_spent window valid w.table w'.table
          (Takes-IsCovered first valid w₀.table w.table t) s k
        ∙ t k,
  )

  same_table :
      (w w' : World)
      → ((window : Window) × Takes window valid w₀.table w.table)
      → w'.table ≡ w.table
      → (window : Window) × Takes window valid w₀.table w'.table
  same_table w w' (first, t) e = (first, subst (Takes first valid w₀.table) (sym e) t)

  already-ledger :
      (w w' : World)
      → w'.ledger ≡ w.ledger
      → already_committed batch_id w' ≡ already_committed batch_id w
  unfolding already_committed
  already-ledger w w' e = rw e

  advance :
      (env : Env) (w w' : World)
      → Progress w
      → SameStores w w'
        ⊎ ((length df ≡ 0) × (w'.table ≡ w.table) ⊎ Takes env.window valid w.table w'.table)
      → Progress w'
  advance env w w' (inl (t, f)) (inl (e, l)) = inl (e ∙ t, already-ledger w w' l ∙ f)
  advance env w w' (inr p) (inl (e, l)) = inr (same_table w w' p e)
  advance env w w' (inl (t, f)) (inr (inl (z, e))) = inr (
    env.window,
    subst (Takes env.window valid w₀.table) (sym (e ∙ t)) (nothing_taken env.window w₀.table z),
  )
  advance env w w' (inr p) (inr (inl (z, e))) = inr (same_table w w' p e)
  advance env w w' (inl (t, f)) (inr (inr s)) =
      inr (env.window, subst (λ x. Takes env.window valid x w'.table) t s)
  advance env w w' (inr p) (inr (inr s)) = inr (again env.window w w' p s)

  took-Takes :
      (env : Env) (w w' : World)
      → env.rlike ≡ rlike
      → IsSteady ids env
      → Holds ids w
      → Took env df w w'
      → Takes env.window valid w.table w'.table
  took-Takes env w w' r a h (got, frames, p, q, t) =
      let g = load_merchants_steady ids env w a h got p in
      let e : ok frames ≡ ok (valid, invalid) = sym q ∙ rw (r, g) checked in
      let v : frames.0 ≡ valid = cc in
      subst (λ (x : List Change). Takes env.window x w.table w'.table) v t.1

  rows_taken :
      (env : Env) (w w' : World)
      → env.rlike ≡ rlike
      → IsSteady ids env
      → Holds ids w
      → SameStores w w' ⊎ ((length df ≡ 0) × (w'.table ≡ w.table) ⊎ Took env df w w')
      → SameStores w w'
        ⊎ ((length df ≡ 0) × (w'.table ≡ w.table) ⊎ Takes env.window valid w.table w'.table)
  rows_taken env w w' r a h (inl s) = inl s
  rows_taken env w w' r a h (inr (inl z)) = inr (inl z)
  rows_taken env w w' r a h (inr (inr t)) = inr (inr (took-Takes env w w' r a h t))

  attempt :
      (env : Env) (w : World)
      → env.rlike ≡ rlike
      → IsSteady ids env
      → Stage w
      → Stage (process_batch env batch_id true df w).1
  attempt env w r a (u, h, p) =
      let c = process_batch-Concluded env batch_id true df w u in
      (
        c.0,
        process_batch-Holds ids env batch_id true df a w h,
        advance env w (process_batch env batch_id true df w).1 p
            (rows_taken env w (process_batch env batch_id true df w).1 r a h c.1),
      )

  redeliver-Stage :
      (envs : List Env) (w : World)
      → Agree rlike ids envs
      → Stage w
      → Stage (redeliver envs batch_id df w)
  unfolding redeliver
  redeliver-Stage [] w g s = s
  redeliver-Stage (env ∷ envs) w g s =
      redeliver-Stage envs (process_batch env batch_id true df w).1 g.2 (attempt env w g.0 g.1 s)

-- Spark starts a batch over until an attempt returns, also one that had stored everything before it
-- failed. Where the batch was not committed before, its keys are unique, Postgres has one answer and the
-- attempts validate alike, a batch that is committed in the end was taken exactly once, key by key, under
-- the LSN guard, and the keys are still unique. How often it was delivered and which of the writes of
-- its attempts were refused, or stored but not acknowledged, makes no difference.
pub exactly_once :
    (rlike : String → String → Bool) (ids : List String) (batch_id : ℕ) (df : List Change)
    (valid : List Change) (invalid : List Checked) (envs : List Env) (w₀ : World)
    → validate rlike df ids ≡ ok (valid, invalid)
    → HasUniqueKeys entry_key w₀.table
    → Holds ids w₀
    → Agree rlike ids envs
    → already_committed batch_id w₀ ≡ false
    → already_committed batch_id (redeliver envs batch_id df w₀) ≡ true
    → HasUniqueKeys entry_key (redeliver envs batch_id df w₀).table
      × (window : Window) × Takes window valid w₀.table (redeliver envs batch_id df w₀).table
exactly_once rlike ids batch_id df valid invalid envs w₀ checked u h g new done =
    let s =
      redeliver-Stage rlike ids batch_id df valid invalid checked w₀ envs w₀ g
        (u, h, inl (refl, new)) in
    let (window, t) = taken s.2 in (s.0, window, t)
  where
    taken :
        Progress rlike ids batch_id df valid invalid checked w₀ (redeliver envs batch_id df w₀)
        → (window : Window) × Takes window valid w₀.table (redeliver envs batch_id df w₀).table
    taken (inl (t, f)) = absurd (cc)
    taken (inr t) = t
