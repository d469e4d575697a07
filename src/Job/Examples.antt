-- ===== src/Job/Examples.antt =====
-- The job of spark/jobs/payments_cdc_job.py on small batches.
pub mod Data
pub mod Converge
use payments_cdc_pipeline.Prelude.{
  ℕ, String, List, [], ◌∷◌, Bool, true, false, Option, none, some, HasUniqueKeys, In, find, length,
  ◌≡◌, refl, ◌⊎◌, inl, inr, arith, if◌then◌else◌, ◌==◌, keep, count_if,
}
use payments_cdc_pipeline.Errors.{Result, ok}
use payments_cdc_pipeline.Exec.{acknowledged, lost}
use payments_cdc_pipeline.Change.{Change, Entry}
use payments_cdc_pipeline.Validator.{
  Checked, validate, check, rule_amount, rule_currency, rule_uuid, rule_merchant,
}
use payments_cdc_pipeline.Window.{Window}
use payments_cdc_pipeline.Job.Newest.{NotLater}
use payments_cdc_pipeline.Window.Reference.{plain_window, sort, insert, number}
use payments_cdc_pipeline.Delta.{to_entry}
use payments_cdc_pipeline.Delta.Reference.{plain_delta}
use payments_cdc_pipeline.Dlq.{
  merchants, write_to_dlq, payload, refresh, fetch, distinct_ids, get_merchant_registry,
}
use payments_cdc_pipeline.Metrics.{push_metrics, lines}
use payments_cdc_pipeline.Job.{
  process_rows, quarantine, merge_batch, commit_ledger, emit_metrics, World, Env, already_committed,
  dedup_latest, latest_first, load_merchants, process_batch, same_key, is_newer,
}
use payments_cdc_pipeline.Job.Dedup.{key_of}
use payments_cdc_pipeline.Job.Merge.{entry_key, guarded}
use payments_cdc_pipeline.Job.Guard.{Takes, Step}
use payments_cdc_pipeline.Job.Rows.{Took}
use payments_cdc_pipeline.Job.Contract.{
  dedup_one_latest, merge_refines_guard, ledger_never_ahead, return_means_done, replay_keeps_ledger,
}
use payments_cdc_pipeline.Job.Clean.{clean_call_commits}
use payments_cdc_pipeline.Job.Recovery.{redeliver, exactly_once}
use payments_cdc_pipeline.Job.History.{Call, run, never_regresses, replay_changes_nothing}
use payments_cdc_pipeline.Job.Examples.Data.{payment, two_versions, env_with, fresh}

pub fresh-keys : HasUniqueKeys entry_key fresh.table
fresh-keys k = omega arith

fresh-new : already_committed 4 fresh ≡ false
unfolding already_committed
fresh-new = refl

loads : (load_merchants (env_with acknowledged) fresh).0 ≡ ok ("m1" ∷ [])
unfolding load_merchants merchants get_merchant_registry refresh fetch distinct_ids
loads = refl

commits :
    ((process_batch (env_with acknowledged) 4 true two_versions fresh).0 ≡ ok tt)
    × (already_committed 4 (process_batch (env_with acknowledged) 4 true two_versions fresh).1
        ≡ true)
commits =
    clean_call_commits (env_with acknowledged) 4 two_versions fresh "m1" [] fresh-keys fresh-new
      loads refl refl refl

abbrev after : World
after = (process_batch (env_with acknowledged) 4 true two_versions fresh).1

-- The first attempt stores its commit and dies before it hears of it; the second finds it.
abbrev envs : List Env
envs = env_with lost ∷ env_with acknowledged ∷ []

validates : validate (λ s pattern. true) two_versions ("m1" ∷ []) ≡ ok (two_versions, [])
unfolding validate check rule_amount rule_currency rule_uuid rule_merchant
validates = refl

stored : already_committed 4 (redeliver envs 4 two_versions fresh) ≡ true
unfolding redeliver process_batch already_committed process_rows load_merchants merchants
    get_merchant_registry refresh fetch distinct_ids validate check rule_amount rule_currency
    rule_uuid rule_merchant quarantine write_to_dlq payload merge_batch dedup_latest commit_ledger
    emit_metrics push_metrics lines plain_window sort insert number
stored = refl

new5 : already_committed 5 fresh ≡ false
unfolding already_committed
new5 = refl

clean_call_commits_example :
    ((process_batch (env_with acknowledged) 5 true [] fresh).0 ≡ ok tt)
    × (already_committed 5 (process_batch (env_with acknowledged) 5 true [] fresh).1 ≡ true)
clean_call_commits_example =
    clean_call_commits (env_with acknowledged) 5 [] fresh "m1" [] fresh-keys new5 loads refl refl
      refl

answers : (got : List String) → fetch (some (some "m1" ∷ [])) ≡ ok got → got ≡ "m1" ∷ []
unfolding fetch distinct_ids
answers got e = cc

exactly_once_example :
    HasUniqueKeys entry_key (redeliver envs 4 two_versions fresh).table
    × (window : Window) × Takes window two_versions fresh.table
        (redeliver envs 4 two_versions fresh).table
exactly_once_example =
    exactly_once (λ s pattern. true) ("m1" ∷ []) 4 two_versions two_versions [] envs fresh validates
      fresh-keys tt (refl, answers, (refl, answers, tt)) fresh-new stored

ledger_never_ahead_example :
    (length two_versions ≡ 0) ⊎ Took (env_with acknowledged) two_versions fresh after
ledger_never_ahead_example =
    ledger_never_ahead (env_with acknowledged) 4 true two_versions fresh fresh-keys fresh-new
      commits.1

return_means_done_example :
    ((length two_versions ≡ 0) ⊎ Took (env_with acknowledged) two_versions fresh after)
    × ((true ≡ true) × (already_committed 4 after ≡ true)
        ⊎ (true ≡ false) × (after.ledger ≡ fresh.ledger))
return_means_done_example =
    return_means_done (env_with acknowledged) 4 true two_versions fresh fresh-keys fresh-new
      commits.0

abbrev replayed : World
replayed = (process_batch (env_with lost) 9 false two_versions fresh).1

dedup_one_latest_example :
    ((s : Change) → In s (dedup_latest plain_window true two_versions) → In s two_versions)
    × HasUniqueKeys key_of (dedup_latest plain_window true two_versions)
    × ((c : Change)
        → In c two_versions
        → (s : Change) × In s (dedup_latest plain_window true two_versions)
          × (s.transaction_id ≡ c.transaction_id)
          × NotLater true c s)
dedup_one_latest_example = dedup_one_latest plain_window true two_versions

merge_refines_guard_example :
    (table' : List Entry) × (plain_delta.merge same_key is_newer []
        (dedup_latest plain_window true two_versions)
      ≡ some table')
    × HasUniqueKeys entry_key table'
    × ((k : String)
        → find entry_key k table'
          ≡ guarded
              (find entry_key k [])
              (find key_of k (dedup_latest plain_window true two_versions)))
merge_refines_guard_example =
    merge_refines_guard plain_delta plain_window [] two_versions fresh-keys

-- A table that holds the first version, and a run that brings both.
abbrev holding : World
holding = record fresh { table = to_entry (payment "t1" "AUTHORIZED" 5 0) ∷ [] }

holding-keys : HasUniqueKeys entry_key holding.table
holding-keys k = ground arith

abbrev calls : List Call
calls = record { env = env_with lost; batch_id = 4; commit = false; batch_df = two_versions } ∷ []

never_regresses_example :
    HasUniqueKeys entry_key (run calls holding).table
    × (e' : Entry) × (find entry_key "t1" (run calls holding).table ≡ some e')
    × Step (to_entry (payment "t1" "AUTHORIZED" 5 0)) e'
never_regresses_example =
    never_regresses calls holding "t1" (to_entry (payment "t1" "AUTHORIZED" 5 0)) holding-keys refl

both_merged :
    (t : List Entry) × HasUniqueKeys entry_key t × Takes plain_window two_versions holding.table t
both_merged =
    let (t, e, u, k) =
      merge_refines_guard plain_delta plain_window holding.table two_versions holding-keys in
    (t, u, k)

abbrev full : World
full = record fresh { table = both_merged.0 }

again_merged : (t : List Entry) × Takes plain_window two_versions (run calls full).table t
unfolding run
again_merged =
    let (l, u) = replay_keeps_ledger (env_with lost) 4 two_versions full both_merged.1 in
    let (t, e, v, k) =
      merge_refines_guard plain_delta plain_window (run calls full).table two_versions u in
    (t, k)

replay_changes_nothing_example :
    find entry_key "t1" again_merged.0 ≡ find entry_key "t1" (run calls full).table
replay_changes_nothing_example =
    replay_changes_nothing plain_window plain_window two_versions holding.table full calls
      again_merged.0 both_merged.1 both_merged.2 again_merged.1 "t1"
