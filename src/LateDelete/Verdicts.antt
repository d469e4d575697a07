-- ===== src/LateDelete/Verdicts.antt =====
-- Both tests of scripts/inject_late_delete.py against the pipeline.
use payments_cdc_pipeline.Prelude.{
  ℕ, suc, ◌<◌, String, List, true, none, some, In, find, HasUniqueKeys, ◌==◌, ◌≡◌, refl, ap, ◌∙◌,
  ◌⊎◌, inl, inr, arith, ==_iff,
}
use payments_cdc_pipeline.Prelude.Int.{pos}
use payments_cdc_pipeline.Sql.{member}
use payments_cdc_pipeline.Errors.{ok}
use payments_cdc_pipeline.Change.{Change, Entry}
use payments_cdc_pipeline.Delta.{to_entry}
use payments_cdc_pipeline.Avro.{Casts, flatten_envelope}
use payments_cdc_pipeline.Validator.{uuid4_regex}
use payments_cdc_pipeline.Job.{World, Env, process_batch}
use payments_cdc_pipeline.Job.Merge.{entry_key, guarded}
use payments_cdc_pipeline.LateDelete.{
  Event, event, make_envelope, test_intra_batch, test_cross_batch,
}
use payments_cdc_pipeline.LateDelete.Pipeline.{
  query_delta-find, Sent, row, IsGood, Processed, Processed-find,
}

-- The row that the suite updates late.
abbrev pub late_update : String → ℕ → ℕ → Event
late_update tid lsn amount = record (event "u" tid lsn) { amount_minor = pos amount }

-- What one test asks of the pipeline: the key's text is a UUID for the gate, and the events' merchant is
-- known.
abbrev pub IsAccepted : Env → List String → String → Type 0
IsAccepted env ids tid = (env.rlike tid uuid4_regex ≡ true) × (member ids "MERCH_001" ≡ true)

equal_refl : (n : ℕ) → (n == n) ≡ true
equal_refl n = (==_iff n n).1 refl

-- The intra-batch test passes against the pipeline. Where the table's keys are unique, the batch was not
-- committed before, the call of `process_batch` loads merchants among which MERCH_001 is and returns, the
-- test's key matches the UUID pattern, the table did not have it, the batch holds of that key the suite's
-- delete and nothing but the suite's insert, delete and late update, in any order, and the version went up by
-- one, the verdict is a pass, whatever else the batch holds.
pub intra_batch_passes :
    (cast : Casts String) (env : Env) (batch_id : ℕ) (df : List Change) (w : World)
    (ids : List String) (tid : String) (v : ℕ) (s₁ s₂ s₃ : Sent)
    → Processed cast env batch_id df w ids
    → IsAccepted env ids tid
    → find entry_key tid w.table ≡ none
    → In (row cast (event "d" tid 140) s₂) df
    → ((r : Change)
        → In r df
        → r.transaction_id ≡ some tid
        → (r ≡ row cast (event "c" tid 100) s₁)
          ⊎ (r ≡ row cast (event "d" tid 140) s₂)
          ⊎ (r ≡ row cast (late_update tid 120 9999) s₃))
    → test_intra_batch tid (pos v) (pos (suc v)) (process_batch env batch_id true df w).1.table
      ≡ ok true
unfolding test_intra_batch flatten_envelope make_envelope
intra_batch_passes cast env batch_id df w ids tid v s₁ s₂ s₃ p (u, k) absent i only =
    let (keys, f) =
      Processed-find cast env batch_id df w ids (event "d" tid 140) s₂ p
        (u, refl, refl, k, (1000, refl)) (i, λ r j e. ordered r (only r j e)) in
    rw
      (
        equal_refl (suc v),
        query_delta-find (process_batch env batch_id true df w).1.table tid keys,
        f,
        absent,
      )
      refl
  where
    ordered :
        (r : Change)
        → (r ≡ row cast (event "c" tid 100) s₁)
          ⊎ (r ≡ row cast (event "d" tid 140) s₂)
          ⊎ (r ≡ row cast (late_update tid 120 9999) s₃)
        → (r ≡ row cast (event "d" tid 140) s₂) ⊎ ((n : ℕ) × (r.lsn ≡ some n) × (n < 140))
    ordered r (inl e) = inr (100, ap (λ (c : Change). c.lsn) e, omega arith)
    ordered r (inr (inl e)) = inl e
    ordered r (inr (inr e)) = inr (120, ap (λ (c : Change). c.lsn) e, omega arith)

-- The event is alone in its batch with its key.
abbrev pub IsAlone : Casts String → Event → Sent → List Change → Type 0
IsAlone cast e s df =
    In (row cast e s) df
    × ((r : Change) → In r df → r.transaction_id ≡ some e.transaction_id → r ≡ row cast e s)

alone-find :
    (cast : Casts String) (env : Env) (batch_id : ℕ) (df : List Change) (w : World)
    (ids : List String) (e : Event) (s : Sent)
    → Processed cast env batch_id df w ids
    → IsGood cast env.rlike ids e
    → IsAlone cast e s df
    → HasUniqueKeys entry_key (process_batch env batch_id true df w).1.table
      × (find entry_key e.transaction_id (process_batch env batch_id true df w).1.table
          ≡ guarded (find entry_key e.transaction_id w.table) (some (row cast e s)))
alone-find cast env batch_id df w ids e s p g (i, only) =
    Processed-find cast env batch_id df w ids e s p g (i, λ r j k. inl (only r j k))

abbrev pub first_insert : String → Event
first_insert tid = record (event "c" tid 200) { amount_minor = pos 2000 }

-- The stores after a call.
abbrev pub after : Env → ℕ → List Change → World → World
after env batch_id df w = (process_batch env batch_id true df w).1

cross_verdict :
    (cast : Casts String) (tid : String) (t₁ t₂ t₃ : List Entry) (s₁ s₂ : Sent)
    → HasUniqueKeys entry_key t₁
    → HasUniqueKeys entry_key t₂
    → HasUniqueKeys entry_key t₃
    → find entry_key tid t₁ ≡ some (to_entry (row cast (first_insert tid) s₁))
    → find entry_key tid t₂ ≡ some (to_entry (row cast (event "d" tid 240) s₂))
    → find entry_key tid t₃ ≡ some (to_entry (row cast (event "d" tid 240) s₂))
    → test_cross_batch tid t₁ t₂ t₃ ≡ ok true
unfolding test_cross_batch flatten_envelope make_envelope
cross_verdict cast tid t₁ t₂ t₃ s₁ s₂ u₁ u₂ u₃ g₁ g₂ g₃ =
    rw
      (
        query_delta-find t₁ tid u₁,
        g₁,
        query_delta-find t₂ tid u₂,
        g₂,
        query_delta-find t₃ tid u₃,
        g₃,
      )
      refl

-- The cross-batch test passes against the pipeline. Where three calls of `process_batch` in a row each find
-- unique keys and their batch not committed, load merchants among which MERCH_001 is, and return, the test's
-- key matches the UUID pattern of each call, the table did not have it at first, and the batches hold of that
-- key the suite's insert, its delete and its late update, one each and no other event, the verdict on the three
-- tables is a pass.
pub cross_batch_passes :
    (cast : Casts String) (env₁ env₂ env₃ : Env) (a b c : ℕ) (df₁ df₂ df₃ : List Change) (w : World)
    (ids₁ ids₂ ids₃ : List String) (tid : String) (s₁ s₂ s₃ : Sent)
    → Processed cast env₁ a df₁ w ids₁ × IsAccepted env₁ ids₁ tid
    → Processed cast env₂ b df₂ (after env₁ a df₁ w) ids₂ × IsAccepted env₂ ids₂ tid
    → Processed cast env₃ c df₃ (after env₂ b df₂ (after env₁ a df₁ w)) ids₃
      × IsAccepted env₃ ids₃ tid
    → find entry_key tid w.table ≡ none
    → IsAlone cast (first_insert tid) s₁ df₁
    → IsAlone cast (event "d" tid 240) s₂ df₂
    → IsAlone cast (late_update tid 220 8888) s₃ df₃
    → test_cross_batch tid
        (after env₁ a df₁ w).table
        (after env₂ b df₂ (after env₁ a df₁ w)).table
        (after env₃ c df₃ (after env₂ b df₂ (after env₁ a df₁ w))).table
      ≡ ok true
unfolding flatten_envelope make_envelope
cross_batch_passes cast env₁ env₂ env₃ a b c df₁ df₂ df₃ w ids₁ ids₂ ids₃ tid s₁ s₂ s₃
      (p₁, (u₁, k₁)) (p₂, (u₂, k₂)) (p₃, (u₃, k₃)) absent i₁ i₂ i₃ =
    let w₁ = (process_batch env₁ a true df₁ w).1 in
    let w₂ = (process_batch env₂ b true df₂ w₁).1 in
    let w₃ = (process_batch env₃ c true df₃ w₂).1 in
    let (q₁, f₁) =
      alone-find cast env₁ a df₁ w ids₁ (first_insert tid) s₁ p₁ (u₁, refl, refl, k₁, (2000, refl))
        i₁ in
    let (q₂, f₂) =
      alone-find cast env₂ b df₂ w₁ ids₂ (event "d" tid 240) s₂ p₂
        (u₂, refl, refl, k₂, (1000, refl)) i₂ in
    let (q₃, f₃) =
      alone-find cast env₃ c df₃ w₂ ids₃ (late_update tid 220 8888) s₃ p₃
        (u₃, refl, refl, k₃, (8888, refl)) i₃ in
    let g₁ = f₁ ∙ ap (λ o. guarded o (some (row cast (first_insert tid) s₁))) absent in
    let g₂ = f₂ ∙ ap (λ o. guarded o (some (row cast (event "d" tid 240) s₂))) g₁ in
    let g₃ = f₃ ∙ ap (λ o. guarded o (some (row cast (late_update tid 220 8888) s₃))) g₂ in
    cross_verdict cast tid w₁.table w₂.table w₃.table s₁ s₂ q₁ q₂ q₃ g₁ g₂ g₃
