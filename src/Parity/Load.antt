-- ===== src/Parity/Load.antt =====
-- A first load of Postgres through `process_batch` of spark/jobs/payments_cdc_job.py, checked by
-- scripts/parity_checker.py.
use payments_cdc_pipeline.Prelude.{
  ℕ, String, List, [], Bool, true, false, Option, some, map, not, length, length-map, length-keep,
  count_if, has_key, ◌≤◌, keep, In, In-keep, keep-In, In-map, map-In, ◌==◌, Bool-cases, ◌≡◌, refl,
  sym, ap, ◌∙◌, ◌⊎◌, inl, inr, arith,
}
use mathlib.Core.Path.{subst}
use mathlib.Core.List.{Permᴰ}
use mathlib.Core.List.Permᴰ
use payments_cdc_pipeline.Sql.{equal, holds}
use payments_cdc_pipeline.Errors.{ok}
use payments_cdc_pipeline.Change.{Change}
use payments_cdc_pipeline.Delta.{to_entry}
use payments_cdc_pipeline.Validator.{Checked, check, validate}
use payments_cdc_pipeline.Validator.Gate.{passes, validate_frames}
use payments_cdc_pipeline.Dlq.{Message}
use payments_cdc_pipeline.Grouping.{distinct-In, text_key}
use payments_cdc_pipeline.Job.{
  World, Env, already_committed, dedup_latest, load_merchants, process_batch,
}
use payments_cdc_pipeline.Job.Dedup.{key_of, dedup-In, dedup-HasUniqueKeys, dedup-covers}
use payments_cdc_pipeline.Job.Load.{Tells, process_batch-Loaded}
use payments_cdc_pipeline.Parity.{
  Row, load_delta, load_dlq_keys, left_anti, inner_count, expected_quarantine_after_injection,
  Verdict, check_parity,
}
use payments_cdc_pipeline.Parity.Sound.{inner_le, dlq_once}
use payments_cdc_pipeline.Parity.Order.{parity_any_order}
use payments_cdc_pipeline.Parity.Complete.{
  matches, inner_count_ge, missing_quarantined, parity_complete,
}
use payments_cdc_pipeline.Parity.Rows.{
  row_of, IsLoad, matches_both, one_event, delta-In, missing_count, known, agree, once,
}

-- The key of a rejected event is among the keys of the dead letter topic.
rejected_key :
    (env : Env) (ids : List String) (rejected : List Change) (topic : List Message) (c : Change)
    (t : String)
    → Tells env (map (check env.rlike ids) rejected) topic
    → In c rejected
    → c.transaction_id ≡ some t
    → In (some t) (load_dlq_keys (some topic))
unfolding check load_dlq_keys
rejected_key env ids rejected topic c t told m e =
    let (message, n, f, carried) =
      told (check env.rlike ids c) (map-In (check env.rlike ids) c rejected m) in
    let key = carried.0 t (ap (λ (r : Checked). r.change.transaction_id) f ∙ e) in
    (distinct-In text_key (some t) (map (λ (m : Message). some m.key) topic)).1 (
      subst (λ k. In (some k) (map (λ (m : Message). some m.key) topic)) key
        (map-In (λ (m : Message). some m.key) message topic n))

module _ (df staged : List Change) (p : Change → Bool) (load : IsLoad df)
    (from : (c : Change) → In c staged → In c df × (p c ≡ true))
    (to : (c : Change) → In c df → p c ≡ true → In c staged) (messages : Option (List Message))
    (rejects : (c : Change) (t : String)
      → In c (keep (λ c. not (p c)) df)
      → c.transaction_id ≡ some t
      → In (some t) (load_dlq_keys messages)) where
  abbrev delta : List Row
  delta = load_delta (map to_entry staged)

  accounted :
      (r : Row)
      → In r (map row_of df)
      → ((d : Row) × In d delta × (matches r d ≡ true))
        ⊎ ((k : Option String) × In k (load_dlq_keys messages)
            × (holds (equal r.transaction_id k) ≡ true))
  accounted r m =
      let (c, i, q) = In-map row_of r df m in
      let (t, e) = load.named c i in
      let named = ap (λ (r : Row). r.transaction_id) q ∙ e in
      elim (Bool-cases (p c)) [
        | inl y ↦ inl (
          row_of c,
          delta-In df staged p load from to c (to c i y),
          matches_both r.transaction_id c.transaction_id t named e,
        )
        | inr f ↦ inr (
          some t,
          rejects c t (keep-In (λ c. not (p c)) c df i (ap not f)) e,
          matches_both r.transaction_id (some t) t named refl,
        )
      ]

  -- Each rejected row is quarantined once.
  quarantined_count :
      inner_count (left_anti (map row_of df) delta) (load_dlq_keys messages)
      ≡ length (keep (λ c. not (p c)) df)
  quarantined_count =
      let missing = left_anti (map row_of df) delta in
      omega (
        arith,
        inner_le (load_dlq_keys messages) (dlq_once messages) missing,
        inner_count_ge missing (load_dlq_keys messages)
            (missing_quarantined (map row_of df) delta (load_dlq_keys messages) accounted),
        missing_count df staged p load from to,
        length-keep (λ c. not (p c)) df,
      )

  passes_parity :
      ((k : String) → count_if (has_key key_of k) staged ≤ 1)
      → (length (keep (λ c. not (p c)) df) ≡ 0)
        ⊎ (length (keep (λ c. not (p c)) df) ≡ expected_quarantine_after_injection)
      → check_parity 0 (map row_of df) (map to_entry staged) messages ≡ Verdict.pass
  passes_parity unique few =
      parity_complete (map row_of df) (map to_entry staged) messages accounted
        (known df staged p load from to) (agree df staged p load from to)
        (once df staged p load from to unique)
        (elim few [ inl n ↦ inl (quarantined_count ∙ n) | inr n ↦ inr (quarantined_count ∙ n) ])

-- A first load is checked with a PASS. Where the table is empty, the batch is new and not empty and
-- has one live event for each row of Postgres, which carries its columns, with a key of its own, the gate rejects none of them or as many as the injection suite makes, and the call of
-- `process_batch` returns, the parity checker without tolerance says PASS of what the call has left.
pub first_load_passes :
    (env : Env) (batch_id : ℕ) (commit : Bool) (df : List Change) (ids : List String)
    (frames : List Change × List Checked) (w : World)
    → w.table ≡ []
    → already_committed batch_id w ≡ false
    → (length df == 0) ≡ false
    → IsLoad df
    → (load_merchants env w).0 ≡ ok ids
    → validate env.rlike df ids ≡ ok frames
    → (length frames.1 ≡ 0) ⊎ (length frames.1 ≡ expected_quarantine_after_injection)
    → (process_batch env batch_id commit df w).0 ≡ ok tt
    → let w' = (process_batch env batch_id commit df w).1 in
      check_parity 0 (map row_of df) w'.table (some w'.dlq) ≡ Verdict.pass
first_load_passes env batch_id commit df ids frames w empty new full load l v few r =
    parity_any_order 0 (map row_of df) (map row_of df) w'.table (map to_entry staged) (some w'.dlq)
      (some w'.dlq) (Permᴰ.refl (map row_of df)) stored.0 (Permᴰ.refl w'.dlq)
    ∙ passes_parity df staged p load from to (some w'.dlq)
        (λ c t m e.
          rejected_key env ids (keep (λ c. not (p c)) df) w'.dlq c t
            (subst (λ l. Tells env l w'.dlq) filters.1 stored.1) m e)
        (dedup-HasUniqueKeys env.window true frames.0)
        (subst (λ n. (n ≡ 0) ⊎ (n ≡ expected_quarantine_after_injection)) count few)
  where
    w' : World
    w' = (process_batch env batch_id commit df w).1

    staged : List Change
    staged = dedup_latest env.window true frames.0

    p : Change → Bool
    p = passes env.rlike ids

    stored : Permᴰ w'.table (map to_entry staged) × Tells env frames.1 w'.dlq
    stored = process_batch-Loaded env batch_id commit df ids frames w empty new full l v r

    filters :
        (frames.0 ≡ keep p df) × (frames.1 ≡ map (check env.rlike ids) (keep (λ c. not (p c)) df))
    filters = validate_frames env.rlike ids df frames v

    count : length frames.1 ≡ length (keep (λ c. not (p c)) df)
    count = ap length filters.1 ∙ length-map (keep (λ c. not (p c)) df) (check env.rlike ids)

    from : (c : Change) → In c staged → In c df × (p c ≡ true)
    from c m =
        In-keep p c df (subst (λ l. In c l) filters.0 (dedup-In env.window true frames.0 c m))

    to : (c : Change) → In c df → p c ≡ true → In c staged
    to c m t =
        let (s, n, e, a) =
          dedup-covers env.window true frames.0 c
            (subst (λ l. In c l) (sym filters.0) (keep-In p c df m t)) in
        subst (λ x. In x staged) (one_event df s c load (from s n).0 m e) n
