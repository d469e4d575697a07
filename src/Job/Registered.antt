-- ===== src/Job/Registered.antt =====
-- The merchant registry across calls of `process_batch` (spark/jobs/payments_cdc_job.py): where
-- Postgres has one answer, every call that gets past it validates against the same merchants.
use payments_cdc_pipeline.Prelude.{
  ℕ, String, List, Bool, true, false, Option, none, some, length, ◌-◌, ◌==◌, Bool-cases, ◌≡◌, inl,
  inr,
}
use payments_cdc_pipeline.Errors.{Error, ok}
use payments_cdc_pipeline.Exec.{
  Exec, Outcome, acknowledged, refused, lost, Outcome-cases, Keeps, bind-Keeps, ◌>>=◌, ◌>>◌, embed,
  write, pure, raise,
}
use payments_cdc_pipeline.Change.{Change, Entry}
use payments_cdc_pipeline.Validator.{Checked, validate}
use payments_cdc_pipeline.Dlq.Refresh.{Answers, Registered, merchants-Registered}
use payments_cdc_pipeline.Job.Steps.{emitting, last_part, quarantining, validating}
use payments_cdc_pipeline.Job.{
  World, Env, same_key, is_newer, already_committed, commit_ledger, dedup_latest, merge_batch,
  emit_metrics, load_merchants, quarantine, process_rows, process_batch,
}

module _ (ids : List String) where
  abbrev pub Holds : World → Type 0
  Holds w = Registered ids w.registry

  -- Postgres answers the set in this run, or fails.
  abbrev pub IsSteady : Env → Type 0
  IsSteady env = Answers ids env.postgres

  pub load_merchants_steady :
      (env : Env) (w : World)
      → IsSteady env
      → Holds w
      → (got : List String) → (load_merchants env w).0 ≡ ok got
      → got ≡ ids
  unfolding load_merchants
  load_merchants_steady env w a h =
      (merchants-Registered ids env.refreshed_at env.postgres w.registry a h).1

  load-Holds : (env : Env) → IsSteady env → Keeps Holds (load_merchants env)
  unfolding load_merchants
  load-Holds env a w h = (merchants-Registered ids env.refreshed_at env.postgres w.registry a h).0

  write-Holds :
      (o : Outcome) (e : Error) (f : World → World)
      → ((w : World) → Holds w → Holds (f w))
      → Keeps Holds (write o e f)
  write-Holds acknowledged e f k w h = k w h
  write-Holds refused e f k w h = h
  write-Holds lost e f k w h = k w h

  quarantine-Holds : (env : Env) (invalid : List Checked) → Keeps Holds (quarantine env invalid)
  unfolding quarantine
  quarantine-Holds env invalid w h = h

  emit_metrics-Holds : (env : Env) (a b c d t : ℕ) → Keeps Holds (emit_metrics env a b c d t)
  unfolding emit_metrics
  emit_metrics-Holds env a b c d t w h = h

  commit_ledger-Holds :
      (env : Env) (batch_id : ℕ) (commit : Bool) → Keeps Holds (commit_ledger env batch_id commit)
  unfolding commit_ledger
  commit_ledger-Holds env batch_id false w h = h
  commit_ledger-Holds env batch_id true w h = elim (Outcome-cases env.ledger_save) [
    | inl e ↦ rw e h
    | inr (inl e) ↦ rw e h
    | inr (inr e) ↦ rw e h
  ]

  merge_batch-Holds : (env : Env) (staged : List Change) → Keeps Holds (merge_batch env staged)
  unfolding merge_batch
  merge_batch-Holds env staged w h = elim (Bool-cases (length staged == 0)) [
    | inl z ↦ rw z h
    | inr n ↦ rw n (go (env.delta.merge same_key is_newer w.table staged))
  ]
    where
      saving : List Entry → Exec World ℕ
      saving table =
          write env.merge_save Error.delta_error (λ w. record w { table = table })
          >> pure (length staged)

      go :
          (t : Option (List Entry))
          → Holds
              ((elim t as (λ x. Exec World ℕ) [
                | none ↦ raise Error.delta_error
                | some table ↦ saving table
              ])
                w).1
      go none = h
      go (some table) =
          bind-Keeps Holds
            (write env.merge_save Error.delta_error (λ w. record w { table = table }))
            (λ t. pure (length staged)) (write-Holds env.merge_save Error.delta_error _ (λ w h. h))
            (λ t w h. h) w h

  last_part-Holds :
      (env : Env) (batch_id : ℕ) (commit : Bool) (df : List Change) (n m : ℕ)
      → Keeps Holds (last_part env batch_id commit df n m)
  last_part-Holds env batch_id commit df n m =
      bind-Keeps Holds (commit_ledger env batch_id commit) (λ b. emitting env batch_id df n m)
        (commit_ledger-Holds env batch_id commit)
        (λ b. emit_metrics-Holds env batch_id (length df) m n (env.finished_at - env.started_at))

  quarantining-Holds :
      (env : Env) (batch_id : ℕ) (commit : Bool) (df : List Change)
      (frames : List Change × List Checked)
      → Keeps Holds (quarantining env batch_id commit df frames)
  quarantining-Holds env batch_id commit df frames =
      bind-Keeps Holds (quarantine env frames.1)
        (λ n.
          merge_batch env (dedup_latest env.window true frames.0)
          >>= last_part env batch_id commit df n)
        (quarantine-Holds env frames.1)
        (λ n.
          bind-Keeps Holds (merge_batch env (dedup_latest env.window true frames.0))
            (last_part env batch_id commit df n)
            (merge_batch-Holds env (dedup_latest env.window true frames.0))
            (last_part-Holds env batch_id commit df n))

  process_rows-Holds :
      (env : Env) (batch_id : ℕ) (commit : Bool) (df : List Change)
      → IsSteady env
      → Keeps Holds (process_rows env batch_id commit df)
  unfolding process_rows
  process_rows-Holds env batch_id commit df a =
      bind-Keeps Holds (load_merchants env) (validating env batch_id commit df) (load-Holds env a)
        (λ got.
          bind-Keeps Holds (embed (validate env.rlike df got)) (quarantining env batch_id commit df)
            (λ w h. h) (quarantining-Holds env batch_id commit df))

  pub process_batch-Holds :
      (env : Env) (batch_id : ℕ) (commit : Bool) (df : List Change)
      → IsSteady env
      → Keeps Holds (process_batch env batch_id commit df)
  unfolding process_batch
  process_batch-Holds env batch_id commit df a w h =
      elim (Bool-cases (already_committed batch_id w)) [
        | inl seen ↦ rw seen h
        | inr new ↦ elim (Bool-cases (length df == 0)) [
          | inl z ↦
              rw (new, z)
                (bind-Keeps Holds (commit_ledger env batch_id commit)
                  (λ b. emit_metrics env batch_id 0 0 0 (env.finished_at - env.started_at))
                  (commit_ledger-Holds env batch_id commit)
                  (λ b. emit_metrics-Holds env batch_id 0 0 0 (env.finished_at - env.started_at)) w
                  h)
          | inr n ↦ rw (new, n) (process_rows-Holds env batch_id commit df a w h)
        ]
      ]
