-- ===== src/Job/History.antt =====
-- Runs of `process_batch` (spark/jobs/payments_cdc_job.py) over any batches: new ones, redelivered
-- ones, and old ones replayed from Kafka without a commit, each with its own failures.
use payments_cdc_pipeline.Prelude.{
  ℕ, String, List, [], ◌∷◌, Bool, true, some, find, HasUniqueKeys, length, ◌≡◌, refl, sym, ◌∙◌, ◌⊎◌,
  inl, inr,
}
use mathlib.Core.Path.{subst}
use payments_cdc_pipeline.Change.{Change, Entry}
use payments_cdc_pipeline.Window.{Window}
use payments_cdc_pipeline.Job.{World, Env, dedup_latest, process_batch}
use payments_cdc_pipeline.Job.Dedup.{key_of}
use payments_cdc_pipeline.Job.Merge.{entry_key}
use payments_cdc_pipeline.Job.Guard.{
  Step, Step-trans, guarded-Step, Takes, IsCovered, IsCovered-Takes, NotAbove, covered_is_spent,
}
use payments_cdc_pipeline.Job.Steps.{SameStores}
use payments_cdc_pipeline.Job.Rows.{Took}
use payments_cdc_pipeline.Job.Batch.{process_batch-Concluded}

-- A call of `process_batch`.
pub record Call : Type 0 where
  pub env : Env
  pub batch_id : ℕ
  pub commit : Bool
  pub batch_df : List Change

unfoldable pub run : List Call → World → World
run [] w = w
run (c ∷ calls) w = run calls (process_batch c.env c.batch_id c.commit c.batch_df w).1

-- The table is the same, or it has taken some rows.
abbrev Moves : List Entry → List Entry → Type 0
Moves table table' =
    (table' ≡ table) ⊎ ((window : Window) × (rows : List Change) × Takes window rows table table')

-- One call moves the table.
call-Moves :
    (c : Call) (w : World)
    → HasUniqueKeys entry_key w.table
    → HasUniqueKeys entry_key (process_batch c.env c.batch_id c.commit c.batch_df w).1.table
      × Moves w.table (process_batch c.env c.batch_id c.commit c.batch_df w).1.table
call-Moves c w u =
    let k = process_batch-Concluded c.env c.batch_id c.commit c.batch_df w u in
    (k.0, go (process_batch c.env c.batch_id c.commit c.batch_df w).1 k.1)
  where
    go :
        (w' : World)
        → SameStores w w'
          ⊎ ((length c.batch_df ≡ 0) × (w'.table ≡ w.table) ⊎ Took c.env c.batch_df w w')
        → Moves w.table w'.table
    go w' (inl (t, l)) = inl t
    go w' (inr (inl (z, t))) = inl t
    go w' (inr (inr (ids, frames, p, q, (u', t)))) = inr (c.env.window, frames.0, t)

-- What stays true of a key while the table moves stays true over a run.
run-Keeps :
    (P : List Entry → Type 0)
    → ((table table' : List Entry) → Moves table table' → P table → P table')
    → (calls : List Call) (w : World) → HasUniqueKeys entry_key w.table
    → P w.table
    → HasUniqueKeys entry_key (run calls w).table × P (run calls w).table
unfolding run
run-Keeps P step [] w u p = (u, p)
run-Keeps P step (c ∷ calls) w u p =
    let (v, m) = call-Moves c w u in
    run-Keeps P step calls (process_batch c.env c.batch_id c.commit c.batch_df w).1 v
      (step w.table _ m p)

-- What a run leaves under a key that held `e`.
abbrev pub Follows : String → Entry → List Entry → Type 0
Follows k e table = (e' : Entry) × (find entry_key k table ≡ some e') × Step e e'

Follows-Moves :
    (k : String) (e : Entry) (table table' : List Entry)
    → Moves table table'
    → Follows k e table
    → Follows k e table'
Follows-Moves k e table table' (inl h) f = subst (Follows k e) (sym h) f
Follows-Moves k e table table' (inr (window, rows, t)) (e', f, s) =
    let (e'', g, s') = guarded-Step e' (find key_of k (dedup_latest window true rows)) in
    (e'', t k ∙ rw f g, Step-trans e e' e'' s s')

-- No run of calls, in whatever order, with whatever failures and replays, loses a key or turns it back:
-- where the keys are unique they stay so, and what stands under a key in the end is what stood there
-- before or has a greater log position.
pub never_regresses :
    (calls : List Call) (w : World) (k : String) (e : Entry)
    → HasUniqueKeys entry_key w.table
    → find entry_key k w.table ≡ some e
    → HasUniqueKeys entry_key (run calls w).table
      × (e' : Entry) × (find entry_key k (run calls w).table ≡ some e')
      × Step e e'
never_regresses calls w k e u f =
    let (v, x) = run-Keeps (Follows k e) (Follows-Moves k e) calls w u (e, f, inl refl) in
    let (e', g, s) = x in (v, e', g, s)

IsCovered-Moves :
    (rows : List Change) (table table' : List Entry)
    → Moves table table'
    → IsCovered rows table
    → IsCovered rows table'
IsCovered-Moves rows table table' (inl h) c = subst (IsCovered rows) (sym h) c
IsCovered-Moves rows table table' (inr (window, later, t)) c =
    IsCovered-Takes window rows later table table' c t

-- A replay of rows that the table has taken once changes no key, whatever was merged in between: if the
-- table took the rows before a run of calls, and a later call takes the same rows again, every key holds
-- what it held before that call.
pub replay_changes_nothing :
    (window : Window) (again : Window) (rows : List Change) (before : List Entry) (w : World)
    (calls : List Call) (after : List Entry)
    → HasUniqueKeys entry_key w.table
    → Takes window rows before w.table
    → Takes again rows (run calls w).table after
    → (k : String) → find entry_key k after ≡ find entry_key k (run calls w).table
replay_changes_nothing window again rows before w calls after u t s =
    let (v, c) =
      run-Keeps (IsCovered rows) (IsCovered-Moves rows) calls w u
        (payments_cdc_pipeline.Job.Guard.Takes-IsCovered window rows before w.table t) in
    covered_is_spent again rows (run calls w).table after c s
