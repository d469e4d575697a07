-- ===== src/Job/Contract.antt =====
-- What `process_batch` of spark/jobs/payments_cdc_job.py promises of one call: the order of the MERGE
-- and the ledger, and the replay that does not commit.
use payments_cdc_pipeline.Prelude.{
  ℕ, String, List, Bool, true, false, some, In, find, HasUniqueKeys, length, ◌≡◌, refl, ◌∙◌, ◌⊎◌,
  inl, inr,
}
use payments_cdc_pipeline.Errors.{ok}
use payments_cdc_pipeline.Change.{Change, Entry}
use payments_cdc_pipeline.Window.{Window}
use payments_cdc_pipeline.Job.Newest.{NotLater, ahead-NotLater}
use payments_cdc_pipeline.Delta.{Delta}
use payments_cdc_pipeline.Job.{
  World, Env, already_committed, dedup_latest, process_batch, same_key, is_newer,
}
use payments_cdc_pipeline.Job.Dedup.{key_of, dedup-In, dedup-HasUniqueKeys, dedup-covers}
use payments_cdc_pipeline.Job.Merge.{entry_key, guarded, merge_keys}
use payments_cdc_pipeline.Job.Steps.{SameStores}
use payments_cdc_pipeline.Job.Rows.{Took}
use payments_cdc_pipeline.Job.Batch.{process_batch-Concluded}

-- The deduplication leaves rows of the batch only, at most one for each key, and for every row of the
-- batch one of the same key that is no earlier: it has a greater log position, or the same one and, where the
-- batch has the column, an offset that is at least as great; a log position that is NULL is below every other.
pub dedup_one_latest :
    (window : Window) (has_offset : Bool) (df : List Change)
    → ((s : Change) → In s (dedup_latest window has_offset df) → In s df)
      × HasUniqueKeys key_of (dedup_latest window has_offset df)
      × ((c : Change)
          → In c df
          → (s : Change) × In s (dedup_latest window has_offset df)
            × (s.transaction_id ≡ c.transaction_id)
            × NotLater has_offset c s)
dedup_one_latest window has_offset df = (
  dedup-In window has_offset df,
  dedup-HasUniqueKeys window has_offset df,
  λ c m.
      let (s, n, e, a) = dedup-covers window has_offset df c m in
      (s, n, e, ahead-NotLater has_offset c s a),
)

-- Where the table's keys are unique, the MERGE of the deduplicated rows is never refused as ambiguous:
-- Delta's result exists, keeps the keys unique and holds under each key the old row, unless the row that the
-- deduplication leaves has a greater log position, both known, for a key that is there, or there is such a row
-- for a key that is not.
pub merge_refines_guard :
    (delta : Delta) (window : Window) (table : List Entry) (rows : List Change)
    → HasUniqueKeys entry_key table
    → (table' : List Entry) × (delta.merge same_key is_newer table (dedup_latest window true rows)
        ≡ some table')
      × HasUniqueKeys entry_key table'
      × ((k : String)
          → find entry_key k table'
            ≡ guarded (find entry_key k table) (find key_of k (dedup_latest window true rows)))
merge_refines_guard delta window table rows u =
    merge_keys table (dedup_latest window true rows) delta u (dedup-HasUniqueKeys window true rows)

pub opposite : {b : Bool} → b ≡ true → b ≡ false → ⊥
opposite p q = cc

same_ledger :
    (batch_id : ℕ) (w w' : World)
    → w'.ledger ≡ w.ledger
    → already_committed batch_id w' ≡ already_committed batch_id w
unfolding already_committed
same_ledger batch_id w w' e = rw e

-- The ledger is never ahead of the table. Where the keys are unique and the batch was not committed
-- before a call and is after it, whether the call returned or raised, the batch was empty or its valid
-- rows are in the table.
pub ledger_never_ahead :
    (env : Env) (batch_id : ℕ) (commit : Bool) (df : List Change) (w : World)
    → HasUniqueKeys entry_key w.table
    → already_committed batch_id w ≡ false
    → already_committed batch_id (process_batch env batch_id commit df w).1 ≡ true
    → (length df ≡ 0) ⊎ Took env df w (process_batch env batch_id commit df w).1
ledger_never_ahead env batch_id commit df w u new done =
    go (process_batch-Concluded env batch_id commit df w u).1
  where
    go :
        SameStores w (process_batch env batch_id commit df w).1
          ⊎ ((length df ≡ 0) × ((process_batch env batch_id commit df w).1.table ≡ w.table)
              ⊎ Took env df w (process_batch env batch_id commit df w).1)
        → (length df ≡ 0) ⊎ Took env df w (process_batch env batch_id commit df w).1
    go (inl (t, l)) =
        absurd (
          opposite done (same_ledger batch_id w (process_batch env batch_id commit df w).1 l ∙ new))
    go (inr (inl z)) = inl z.0
    go (inr (inr t)) = inr t

-- Where the keys are unique and a call for a batch that was not committed returns, the batch was
-- empty or its valid rows are in the table, and the batch is in the ledger if the call was to commit,
-- the ledger unchanged if it was not.
pub return_means_done :
    (env : Env) (batch_id : ℕ) (commit : Bool) (df : List Change) (w : World)
    → HasUniqueKeys entry_key w.table
    → already_committed batch_id w ≡ false
    → (process_batch env batch_id commit df w).0 ≡ ok tt
    → ((length df ≡ 0) ⊎ Took env df w (process_batch env batch_id commit df w).1)
      × ((commit ≡ true)
            × (already_committed batch_id (process_batch env batch_id commit df w).1 ≡ true)
          ⊎ (commit ≡ false) × ((process_batch env batch_id commit df w).1.ledger ≡ w.ledger))
return_means_done env batch_id commit df w u new r =
    (process_batch-Concluded env batch_id commit df w u).2 r new

-- A call that is not to commit leaves the ledger as it was and keeps the keys unique, however its
-- writes end.
pub replay_keeps_ledger :
    (env : Env) (batch_id : ℕ) (df : List Change) (w : World)
    → HasUniqueKeys entry_key w.table
    → ((process_batch env batch_id false df w).1.ledger ≡ w.ledger)
      × HasUniqueKeys entry_key (process_batch env batch_id false df w).1.table
replay_keeps_ledger env batch_id df w u =
    let c = process_batch-Concluded env batch_id false df w u in (c.3 refl, c.0)
