-- ===== src/Job/Load.antt =====
-- A first load through `process_batch` of spark/jobs/payments_cdc_job.py: what a call that returns leaves in a
-- table and in a dead letter topic that were empty.
use payments_cdc_pipeline.Prelude.{
  In, append-In, ℕ, String, List, [], ◌∷◌, Bool, true, false, map, length, ◌==◌, Bool-cases,
  if◌then◌else◌, ◌≡◌, refl, sym, ap, ◌∙◌, inl, inr, arith,
}
use mathlib.Core.Path.{subst}
use mathlib.Core.List.{Permᴰ}
use payments_cdc_pipeline.Errors.{Error, Result, ok, err}
use payments_cdc_pipeline.Exec.{
  Outcome, pure, acknowledged, refused, lost, ◌>>=◌, bind-inversion, embed,
}
use payments_cdc_pipeline.Change.{Change, Entry}
use payments_cdc_pipeline.Delta.{to_entry, merged}
use payments_cdc_pipeline.Validator.{Checked, validate}
use payments_cdc_pipeline.Dlq.{Message}
use payments_cdc_pipeline.Dlq.Delivery.{Carries, dlq_delivers}
use payments_cdc_pipeline.Job.{
  World, Env, already_committed, commit_ledger, dedup_latest, merge_batch, emit_metrics,
  load_merchants, quarantine, process_rows, process_batch, same_key, is_newer,
}
use payments_cdc_pipeline.Job.Steps.{saved, merge_batch-saved, last_part, quarantining, validating}

-- Two results of one call.
same_value_of :
    {S A : Type 0} {m : Result A × S} {a b : A} (s' : S) → m.0 ≡ ok a → m ≡ (ok b, s') → a ≡ b
same_value_of {A = A} {a = a} s' p q = ap value (sym p ∙ ap (λ x. x.0) q)
  where
    value : Result A → A
    value (ok x) = x
    value (err e) = a

-- The last two steps leave the table and the topic.
pub last_part-keeps :
    (env : Env) (batch_id : ℕ) (commit : Bool) (df : List Change) (n_dlq n_merged : ℕ) (w : World)
    → ((last_part env batch_id commit df n_dlq n_merged w).1.table ≡ w.table)
      × ((last_part env batch_id commit df n_dlq n_merged w).1.dlq ≡ w.dlq)
unfolding commit_ledger emit_metrics
last_part-keeps env batch_id false df n_dlq n_merged w = (refl, refl)
last_part-keeps env batch_id true df n_dlq n_merged w = go env.ledger_save refl
  where
    go :
        (o : Outcome)
        → env.ledger_save ≡ o
        → ((last_part env batch_id true df n_dlq n_merged w).1.table ≡ w.table)
          × ((last_part env batch_id true df n_dlq n_merged w).1.dlq ≡ w.dlq)
    go acknowledged e = rw e (refl, refl)
    go refused e = rw e (refl, refl)
    go lost e = rw e (refl, refl)

inserts_all : (staged : List Change) → merged same_key is_newer [] staged ≡ map to_entry staged
inserts_all [] = refl
inserts_all (c ∷ staged) = ap (◌∷◌ (to_entry c)) (inserts_all staged)

-- A MERGE into an empty table that returns has inserted every staged row.
merge_batch-loads :
    (env : Env) (staged : List Change) (w w' : World) (n : ℕ)
    → w.table ≡ []
    → merge_batch env staged w ≡ (ok n, w')
    → Permᴰ w'.table (map to_entry staged) × (w'.dlq ≡ w.dlq)
unfolding merge_batch saved
merge_batch-loads env staged w w' n z r =
    let (t, e, p) = env.delta.merge_lem same_key is_newer [] staged (λ x m. absurd m) in
    let saving =
      merge_batch-saved env staged t w
        (ap (λ table. env.delta.merge same_key is_newer table staged) z ∙ e) in
    let ended : (if length staged == 0 then (ok 0, w) else saved env.merge_save t (length staged) w)
        ≡ (ok n, w') =
      sym saving ∙ r in
    elim (Bool-cases (length staged == 0)) [
      | inl b ↦ unchanged staged b (rw b at ended)
      | inr b ↦
          stored t env.merge_save (subst (λ l. Permᴰ t l) (inserts_all staged) p) (rw b at ended)
    ]
  where
    unchanged :
        (staged : List Change)
        → (length staged == 0) ≡ true
        → pure 0 w ≡ (ok n, w')
        → Permᴰ w'.table (map to_entry staged) × (w'.dlq ≡ w.dlq)
    unchanged [] b e =
        subst (λ (x : Result ℕ × World). Permᴰ x.1.table [] × (x.1.dlq ≡ w.dlq)) e
          (subst (λ table. Permᴰ table []) (sym z) Permᴰ.nil, refl)
    unchanged (c ∷ staged) b e = absurd (ground (arith, b))

    stored :
        (t : List Entry) (o : Outcome)
        → Permᴰ t (map to_entry staged)
        → saved o t (length staged) w ≡ (ok n, w')
        → Permᴰ w'.table (map to_entry staged) × (w'.dlq ≡ w.dlq)
    stored t acknowledged p e =
        subst (λ (x : Result ℕ × World). Permᴰ x.1.table (map to_entry staged) × (x.1.dlq ≡ w.dlq))
          e (p, refl)
    stored t refused p e = absurd (ground (arith, e))
    stored t lost p e = absurd (ground (arith, e))

-- The topic has a message for each rejected row, whatever else is on it.
abbrev pub Tells : Env → List Checked → List Message → Type 0
Tells env invalid topic =
    (r : Checked)
    → In r invalid
    → (m : Message) × In m topic × (m.row ≡ r) × Carries env.encoder env.rejected_at m

quarantine-Tells :
    (env : Env) (invalid : List Checked) (w w' : World) (n : ℕ)
    → quarantine env invalid w ≡ (ok n, w')
    → Tells env invalid w'.dlq × (w'.table ≡ w.table)
unfolding quarantine
quarantine-Tells env invalid w w' n r =
    let (new, e, carried, ends) =
      dlq_delivers env.encoder env.rejected_at env.dlq_save invalid w.dlq in
    elim ends [
      | inr (f, g) ↦ absurd (raised f (ap (λ (x : Result ℕ × World). x.0) r))
      | inl (f, all) ↦
          subst (λ (x : Result ℕ × World). Tells env invalid x.1.dlq × (x.1.table ≡ w.table)) r
            (
              λ c i.
                  let (m, j, q) = all c i in
                  (
                    m,
                    subst (λ topic. In m topic) (sym e) (append-In m w.dlq new (inr j)),
                    q,
                    (carried m j).1,
                  ),
              refl,
            )
    ]
  where
    raised : {x : Result ℕ} {y : Error} → x ≡ err y → x ≡ ok n → ⊥
    raised p q = absurd (ground (arith, sym p ∙ q))

-- What the call leaves where the table was empty: the deduplicated valid rows, and a message for each rejected
-- one.
abbrev Loaded : Env → List Change × List Checked → World → Type 0
Loaded env frames w' =
    Permᴰ w'.table (map to_entry (dedup_latest env.window true frames.0))
    × Tells env frames.1 w'.dlq

quarantining-Loaded :
    (env : Env) (batch_id : ℕ) (commit : Bool) (df : List Change)
    (frames : List Change × List Checked) (w w' : World)
    → w.table ≡ []
    → quarantining env batch_id commit df frames w ≡ (ok tt, w')
    → Loaded env frames w'
quarantining-Loaded env batch_id commit df frames w w' z r =
    let (n, s, e, f) =
      bind-inversion (quarantine env frames.1)
        (λ n.
          merge_batch env (dedup_latest env.window true frames.0)
          >>= last_part env batch_id commit df n)
        w w' tt r in
    let (q, t) = quarantine-Tells env frames.1 w s n e in
    let (k, s', g, h) =
      bind-inversion (merge_batch env (dedup_latest env.window true frames.0))
        (last_part env batch_id commit df n) s w' tt f in
    let (p, d) = merge_batch-loads env (dedup_latest env.window true frames.0) s s' k (t ∙ z) g in
    let (t', d') = last_part-keeps env batch_id commit df n k s' in
    let last = ap (λ (x : Result (Unit {0}) × World). x.1) h in
    (
      subst (λ table. Permᴰ table (map to_entry (dedup_latest env.window true frames.0)))
          (sym t' ∙ ap (λ (x : World). x.table) last) p,
      subst (Tells env frames.1) (sym (sym (ap (λ (x : World). x.dlq) last) ∙ d' ∙ d)) q,
    )

process_rows-Loaded :
    (env : Env) (batch_id : ℕ) (commit : Bool) (df : List Change) (ids : List String)
    (frames : List Change × List Checked) (w w' : World)
    → w.table ≡ []
    → (load_merchants env w).0 ≡ ok ids
    → validate env.rlike df ids ≡ ok frames
    → process_rows env batch_id commit df w ≡ (ok tt, w')
    → Loaded env frames w'
unfolding process_rows load_merchants
process_rows-Loaded env batch_id commit df ids frames w w' z l v r =
    let (got, s, e, f) =
      bind-inversion (load_merchants env) (validating env batch_id commit df) w w' tt r in
    let (frames', s', g, h) =
      bind-inversion (embed (validate env.rlike df got)) (quarantining env batch_id commit df) s w'
        tt f in
    let valid =
      same_value_of s' (ap (λ i. validate env.rlike df i) (sym (same_value_of s l e)) ∙ v) g in
    let loaded = ap (λ (x : Result (List String) × World). x.1) e in
    let same = loaded ∙ ap (λ (x : Result (List Change × List Checked) × World). x.1) g in
    let (t, d) =
      quarantining-Loaded env batch_id commit df frames' s' w'
        (sym (ap (λ (x : World). x.table) same) ∙ z) h in
    subst (λ fs. Loaded env fs w') (sym valid) (t, d)

-- A call that returns for a batch that is new and not empty.
pub process_batch-Loaded :
    (env : Env) (batch_id : ℕ) (commit : Bool) (df : List Change) (ids : List String)
    (frames : List Change × List Checked) (w : World)
    → w.table ≡ []
    → already_committed batch_id w ≡ false
    → (length df == 0) ≡ false
    → (load_merchants env w).0 ≡ ok ids
    → validate env.rlike df ids ≡ ok frames
    → (process_batch env batch_id commit df w).0 ≡ ok tt
    → Loaded env frames (process_batch env batch_id commit df w).1
unfolding process_batch
process_batch-Loaded env batch_id commit df ids frames w z new full l v r =
    rw (new, full)
      (process_rows-Loaded env batch_id commit df ids frames w
        (process_rows env batch_id commit df w).1 z l v
        (λ i. (rows_returned i, (process_rows env batch_id commit df w).1)))
  where
    rows_returned : (process_rows env batch_id commit df w).0 ≡ ok tt
    rows_returned = rw (new, full) at r
