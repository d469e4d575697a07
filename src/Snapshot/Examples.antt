-- ===== src/Snapshot/Examples.antt =====
-- The checker of scripts/snapshot_transition_checker.py on one snapshot row and one later event.
use payments_cdc_pipeline.Prelude.{
  ℕ, ◌<◌, String, List, [], ◌∷◌, true, false, none, some, In, ◌≡◌, refl, inl,
}
use payments_cdc_pipeline.Sql.{equal, holds}
use payments_cdc_pipeline.Change.{Change, Entry}
use payments_cdc_pipeline.Delta.{to_entry}
use payments_cdc_pipeline.Snapshot.{
  Verdict, load_delta_live, check_transition, transition_pass_sound, snapshot_all_live,
}

abbrev event : String → String → ℕ → Change
event op t lsn = record {
  op = some op;
  transaction_id = some t;
  merchant_id = none;
  amount_minor = none;
  currency = none;
  status = none;
  event_type = none;
  created_at = none;
  updated_at = none;
  lsn = some lsn;
  source_ts = none;
  partition = 0;
  offset = 0;
  is_delete = some false;
}

abbrev flat : List Change
flat = event "r" "t1" 3 ∷ event "c" "t2" 5 ∷ []

abbrev table : List Entry
table = to_entry (event "r" "t1" 3) ∷ []

runs : check_transition flat table ≡ Verdict.pass
unfolding check_transition load_delta_live
runs = refl

transition_pass_sound_example : 3 < 5
transition_pass_sound_example =
    transition_pass_sound flat table (event "r" "t1" 3) (event "c" "t2" 5) 3 5 runs (inl refl)
      (inl refl) refl refl

snapshot_all_live_example :
    (e : Entry) × In e (load_delta_live table) × (holds (equal (some "t1") e.transaction_id) ≡ true)
snapshot_all_live_example = snapshot_all_live flat table (event "r" "t1" 3) runs (inl refl)
