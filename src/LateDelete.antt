-- ===== src/LateDelete.antt =====
-- The late-delete suite, scripts/inject_late_delete.py: the envelopes that it publishes, what it reads
-- back from Delta, and its verdicts. What the tests wait for is an argument: the versions and tables of
-- Delta at each reading. Of an envelope the model has the fields that the pipeline reads.
pub mod Pipeline
pub mod Verdicts
mod Examples
use payments_cdc_pipeline.Prelude.{
  ℕ, suc, ◌+◌, ◌-◌, String, List, [], ◌∷◌, Bool, true, false, Option, none, some, any, text_eq, not,
  ◌&&◌, ltb, ◌==◌, if◌then◌else◌, length, find, HasUniqueKeys, ◌≡◌, refl, sym, ap, ◌∙◌,
}
use payments_cdc_pipeline.Prelude.Int.{ℤ, pos, negsuc}
use payments_cdc_pipeline.Sql.{equal, where_holds}
use payments_cdc_pipeline.Errors.{Error, Result, ok, err}
use payments_cdc_pipeline.Change.{Entry}
use payments_cdc_pipeline.Avro.{Image, Source, Envelope}

-- The exit code of `pgrep` for each of the two patterns: 0 where a process matches.
pub check_streaming_job_alive : List ℕ → Result (Unit {0})
check_streaming_job_alive codes = if any (λ c. c == 0) codes then ok tt else err Error.system_exit

-- `max(version)` of the history, and -1 where there is none
abbrev pub max_version : List ℕ → Option ℕ
max_version [] = none
max_version (v ∷ vs) = elim (max_version vs) [
  | none ↦ some v
  | some m ↦ some (if ltb m v then v else m)
]

pub delta_version : List ℕ → ℤ
delta_version history = elim (max_version history) [ none ↦ negsuc 0 | some v ↦ pos v ]

abbrev equal_ℤ : ℤ → ℤ → Bool
equal_ℤ (pos m) (pos n) = m == n
equal_ℤ (negsuc m) (negsuc n) = m == n
equal_ℤ _ _ = false

-- The two readings of the version, before and after the quiet time.
pub assert_pipeline_idle : ℤ → ℤ → Result (Unit {0})
assert_pipeline_idle v1 v2 = if equal_ℤ v1 v2 then ok tt else err Error.system_exit

-- The arguments of `make_envelope` with their defaults.
pub record Event : Type 0 where
  pub op : String
  pub transaction_id : String
  pub lsn : ℕ
  pub amount_minor : ℤ
  pub currency : String
  pub merchant_id : String
  pub status : String
  pub event_type : String

abbrev pub event : String → String → ℕ → Event
event op tid lsn = record {
  op = op;
  transaction_id = tid;
  lsn = lsn;
  amount_minor = pos 1000;
  currency = "USD";
  merchant_id = "MERCH_001";
  status = "PENDING";
  event_type = "AUTHORIZATION";
}

abbrev image : Event → String → Image String
image e now_iso = record {
  transaction_id = some e.transaction_id;
  merchant_id = some e.merchant_id;
  amount_minor = some e.amount_minor;
  currency = some e.currency;
  status = some e.status;
  event_type = some e.event_type;
  created_at = some now_iso;
  updated_at = some now_iso;
}

pub make_envelope : Event → ℕ → String → Envelope String
make_envelope e now_ms now_iso =
    let source : Source = record { lsn = some e.lsn; ts_ms = some now_ms } in
    if text_eq e.op "d"
    then record {
      op = some "d";
      before = some (image e now_iso);
      after = none;
      source = some source;
    }
    else record {
      op = some e.op;
      before = none;
      after = some (image e now_iso);
      source = some source;
    }

-- The row of a key. More than one is an AssertionError.
pub query_delta : List Entry → String → Result (Option Entry)
query_delta table tid =
    elim (where_holds (λ (e : Entry). equal e.transaction_id (some tid)) table) [
      | [] ↦ ok none
      | r ∷ rows ↦ elim rows [ [] ↦ ok (some r) | _ ∷ _ ↦ err Error.assertion_error ]
    ]

abbrev has_lsn : ℕ → Entry → Bool
has_lsn n e = elim e.lsn [ none ↦ false | some m ↦ m == n ]

abbrev has_amount : ℕ → Entry → Bool
has_amount n e = elim e.amount_minor [ none ↦ false | some a ↦ equal_ℤ a (pos n) ]

-- row["is_delete"] is True
abbrev is_tombstone : Entry → Bool
is_tombstone e = elim e.is_delete [ none ↦ false | some b ↦ b ]

-- A read that raises ends the test; an absent row fails it.
abbrev judge : Result (Option Entry) → (Entry → Bool) → Result Bool
judge (err e) good = err e
judge (ok none) good = ok false
judge (ok (some r)) good = ok (good r)

-- The verdict on the versions before and after, and on the table in the end.
pub test_intra_batch : String → ℤ → ℤ → List Entry → Result Bool
unfolding query_delta
test_intra_batch tid v_before v_after table =
    if not (
      equal_ℤ v_after (elim v_before [
        | pos n ↦ pos (suc n)
        | negsuc n ↦ if n == 0 then pos 0 else negsuc (n - 1)
      ]))
    then ok false
    else judge (query_delta table tid)
        (λ r. is_tombstone r && has_lsn 140 r && not (has_amount 9999 r))

abbrev and_then : Result Bool → Result Bool → Result Bool
and_then (err e) rest = err e
and_then (ok false) rest = ok false
and_then (ok true) rest = rest

-- The tables after the insert, the delete and the late update.
pub test_cross_batch : String → List Entry → List Entry → List Entry → Result Bool
unfolding query_delta
test_cross_batch tid seeded mid final =
    and_then (judge (query_delta seeded tid) (λ r. has_lsn 200 r)) (
      and_then (judge (query_delta mid tid) (λ r. is_tombstone r && has_lsn 240 r)) (
        judge (query_delta final tid)
          (λ r. is_tombstone r && has_lsn 240 r && not (has_amount 8888 r))))

-- `main`: the preconditions, both tests, and the exit code.
pub run_suite : List ℕ → ℤ → ℤ → Result Bool → Result Bool → Result ℕ
unfolding check_streaming_job_alive assert_pipeline_idle
run_suite codes v1 v2 intra cross = elim (check_streaming_job_alive codes) [
  | err e ↦ err e
  | ok _ ↦ elim (assert_pipeline_idle v1 v2) [
    | err e ↦ err e
    | ok _ ↦ elim intra [
      | err e ↦ err e
      | ok a ↦ elim cross [ err e ↦ err e | ok b ↦ ok (if a && b then 0 else 1) ]
    ]
  ]
]
