-- ===== src/Job/Named.antt =====
-- No call of `process_batch` (spark/jobs/payments_cdc_job.py) brings a row without a key into the table: the
-- gate rejects what has none.
use payments_cdc_pipeline.Prelude.{
  ℕ, String, List, [], Bool, true, some, map, not, any, keep, In, In-append, In-keep, In-map,
  In-perm, length, ◌==◌, Bool-cases, ◌≡◌, refl, sym, ap, ◌∙◌, inl, inr,
}
use mathlib.Core.Path.{subst}
use payments_cdc_pipeline.Sql.{holds}
use payments_cdc_pipeline.Errors.{Result, ok}
use payments_cdc_pipeline.Exec.{
  Exec, Outcome, acknowledged, refused, lost, Keeps, bind-Keeps, bind-ends, ◌>>=◌, embed,
}
use payments_cdc_pipeline.Change.{Change, Entry}
use payments_cdc_pipeline.Delta.{to_entry, updated, merged}
use payments_cdc_pipeline.Validator.{Checked, validate}
use payments_cdc_pipeline.Validator.Gate.{validate_exact}
use payments_cdc_pipeline.Job.{
  World, Env, same_key, is_newer, already_committed, dedup_latest, merge_batch, load_merchants,
  quarantine, process_rows, process_batch,
}
use payments_cdc_pipeline.Job.Dedup.{dedup-In, dedup-HasUniqueKeys}
use payments_cdc_pipeline.Job.Merge.{updated-key, matched_once}
use payments_cdc_pipeline.Job.Load.{last_part-keeps}
use payments_cdc_pipeline.Job.Steps.{
  saved, merge_batch-saved, last_part, quarantining, validating, on_empty,
}

abbrev pub Named : World → Type 0
Named w = (e : Entry) → In e w.table → (k : String) × (e.transaction_id ≡ some k)

merged_keyed :
    (staged : List Change) (table : List Entry)
    → ((c : Change) → In c staged → (k : String) × (c.transaction_id ≡ some k))
    → ((e : Entry) → In e table → (k : String) × (e.transaction_id ≡ some k))
    → (e : Entry) → In e (merged same_key is_newer table staged)
    → (k : String) × (e.transaction_id ≡ some k)
merged_keyed staged table new old e m =
    elim (In-append e (map (updated same_key is_newer staged) table)
      (map to_entry (keep (λ c. not (any (λ e. holds (same_key e c)) table)) staged)) m) [
        | inl i ↦
            let (t, j, q) = In-map (updated same_key is_newer staged) e table i in
            let (k, f) = old t j in
            (k, ap (λ (e : Entry). e.transaction_id) q ∙ updated-key staged t ∙ f)
        | inr i ↦
            let (c, j, q) =
              In-map to_entry e (keep (λ c. not (any (λ e. holds (same_key e c)) table)) staged)
                i in
            let (k, f) =
              new c (In-keep (λ c. not (any (λ e. holds (same_key e c)) table)) c staged j).0 in
            (k, ap (λ (e : Entry). e.transaction_id) q ∙ f)
      ]

merge_batch-Named :
    (env : Env) (rows : List Change)
    → ((c : Change) → In c rows → (k : String) × (c.transaction_id ≡ some k))
    → Keeps Named (merge_batch env (dedup_latest env.window true rows))
unfolding saved
merge_batch-Named env rows new w h =
    let staged = dedup_latest env.window true rows in
    let (t, e, p) =
      env.delta.merge_lem same_key is_newer w.table staged
        (matched_once w.table staged (dedup-HasUniqueKeys env.window true rows)) in
    let named = λ (x : Entry) (m : In x t).
      merged_keyed staged w.table (λ c i. new c (dedup-In env.window true rows c i)) h x
        (In-perm x p m) in
    rw (merge_batch-saved env staged t w e) (elim (Bool-cases (length staged == 0)) [
      | inl z ↦ rw z h
      | inr n ↦ rw n (go t env.merge_save named)
    ])
  where
    go :
        (t : List Entry) (o : Outcome)
        → ((x : Entry) → In x t → (k : String) × (x.transaction_id ≡ some k))
        → Named (saved o t (length (dedup_latest env.window true rows)) w).1
    go t acknowledged n = n
    go t refused n = h
    go t lost n = n

same_table :
    {A : Type 0} (m : Exec World A) → ((w : World) → (m w).1.table ≡ w.table) → Keeps Named m
same_table m e w h =
    subst (λ table. (x : Entry) → In x table → (k : String) × (x.transaction_id ≡ some k))
      (sym (e w)) h

module _ (env : Env) (batch_id : ℕ) (commit : Bool) (df : List Change) where
  quarantining-Named :
      (frames : List Change × List Checked)
      → ((c : Change) → In c frames.0 → (k : String) × (c.transaction_id ≡ some k))
      → Keeps Named (quarantining env batch_id commit df frames)
  unfolding quarantine
  quarantining-Named frames new =
      bind-Keeps Named (quarantine env frames.1)
        (λ n.
          merge_batch env (dedup_latest env.window true frames.0)
          >>= last_part env batch_id commit df n)
        (same_table (quarantine env frames.1) (λ w. refl))
        (λ n.
          bind-Keeps Named (merge_batch env (dedup_latest env.window true frames.0))
            (last_part env batch_id commit df n) (merge_batch-Named env frames.0 new)
            (λ k.
              same_table (last_part env batch_id commit df n k)
                (λ w. (last_part-keeps env batch_id commit df n k w).0)))

  -- The rule on ids lets no row without one pass.
  keyed :
      (ids : List String) (frames : List Change × List Checked)
      → validate env.rlike df ids ≡ ok frames
      → (c : Change) → In c frames.0
      → (k : String) × (c.transaction_id ≡ some k)
  keyed ids frames v c i =
      let (m, p) = ((validate_exact env.rlike ids df frames.0 frames.1 v).0 c).0 i in
      let (t, e, r) = p.uuid in (t, e)

  validating-Named : (ids : List String) → Keeps Named (validating env batch_id commit df ids)
  validating-Named ids w h =
      bind-ends (λ r (s : World). Named s) (embed (validate env.rlike df ids))
        (quarantining env batch_id commit df) w
        (λ frames s e.
          let valid = ap (λ (x : Result (List Change × List Checked) × World). x.0) e in
          quarantining-Named frames (λ c i. keyed ids frames valid c i) s
            (subst Named (ap (λ (x : Result (List Change × List Checked) × World). x.1) e) h))
        (λ x s e. subst Named (ap (λ (x : Result (List Change × List Checked) × World). x.1) e) h)

  process_rows-Named : Keeps Named (process_rows env batch_id commit df)
  unfolding process_rows load_merchants
  process_rows-Named =
      bind-Keeps Named (load_merchants env) (validating env batch_id commit df)
        (same_table (load_merchants env) (λ w. refl)) validating-Named

  pub process_batch-Named : Keeps Named (process_batch env batch_id commit df)
  unfolding process_batch
  process_batch-Named w h = elim (Bool-cases (already_committed batch_id w)) [
    | inl t ↦ rw t h
    | inr f ↦ elim (Bool-cases (length df == 0)) [
      | inl z ↦ rw (f, z) (same_table (on_empty env batch_id commit) on_empty-keeps w h)
      | inr n ↦ rw (f, n) (process_rows-Named w h)
    ]
  ]
    where
      on_empty-keeps : (w : World) → (on_empty env batch_id commit w).1.table ≡ w.table
      on_empty-keeps w = (last_part-keeps env batch_id commit [] 0 0 w).0
