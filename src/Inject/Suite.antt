-- ===== src/Inject/Suite.antt =====
-- The five tests of scripts/inject_bad_records.py and `run_suite`, on what each of them observes.
use payments_cdc_pipeline.Prelude.{
  Option, ℕ, zero, suc, ◌+◌, ◌*◌, String, List, [], ◌∷◌, ◌++◌, Bool, true, false, not, ◌&&◌, map,
  keep, every, length, ltb, ◌==◌, if◌then◌else◌,
}
use payments_cdc_pipeline.Prelude.Int.{pos, negsuc}
use payments_cdc_pipeline.Sql.{member}
use payments_cdc_pipeline.Exec.{Exec, Outcome, embed, pure, ◌>>=◌, ◌>>◌}
use payments_cdc_pipeline.Change.{Entry}
use payments_cdc_pipeline.Metrics.Json.{Fields}
use payments_cdc_pipeline.Inject.{
  Row, Codec, payment, known_merchant, ghost_merchant, valid_currency, invalid_currency, contains,
  tid_of, dlq_hit, delta_live_ids, add, check_streaming_job_alive, assert_transaction_id_is_uuid,
}
use payments_cdc_pipeline.Inject.Polling.{Poll, wait_for_dlq, same_set}
use payments_cdc_pipeline.Inject.Postgres.{Stores, publish_rogue_avro, insert_row, insert_rows}

-- `POLL_SECONDS`, in milliseconds
abbrev pub poll_time : ℕ
poll_time = 90 * 1000

-- What a test meets: how its write ends, the polls of the topic, the tables that it reads while it waits
-- and the one that it reads after the settling time.
pub record Observed : Type 0 where
  pub save : Outcome
  pub polls : List (ℕ × Poll)
  pub tables : List (ℕ × List Entry)
  pub settled : List Entry

-- The fields of a test's dict that the suite reads.
pub record TestResult : Type 0 where
  pub name : String
  pub passes : Bool
  pub ids : List String
  pub in_postgres : Bool

abbrev pub verdict : Codec → Observed → String → String → Bool
verdict codec o tid marker =
    let (in_dlq, reason) = dlq_hit codec tid (wait_for_dlq codec poll_time (tid ∷ []) [] o.polls) in
    let leaked = member (delta_live_ids o.settled (tid ∷ [])) tid in
    in_dlq && contains marker reason && not leaked

abbrev pub result_of : Codec → Observed → String → String → Bool → TestResult
result_of codec o tid marker in_postgres = record {
  name = marker;
  passes = verdict codec o tid marker;
  ids = tid ∷ [];
  in_postgres = in_postgres;
}

abbrev pub test_1_negative_amount : Codec → Observed → String → Exec Stores TestResult
test_1_negative_amount codec o tid =
    insert_row o.save (payment tid known_merchant (negsuc 1499) valid_currency)
    >> pure (result_of codec o tid "NEGATIVE_AMOUNT" true)

abbrev pub test_2_invalid_currency : Codec → Observed → String → Exec Stores TestResult
test_2_invalid_currency codec o tid =
    insert_row o.save (payment tid known_merchant (pos 2500) invalid_currency)
    >> pure (result_of codec o tid "INVALID_CURRENCY" true)

abbrev pub not_a_uuid : String
not_a_uuid = "not-a-uuid-at-all-12345"

-- The rogue envelope goes to Kafka.
abbrev pub test_3_invalid_uuid :
    Codec → Observed → Option Bool → ℕ → String → Exec Stores TestResult
test_3_invalid_uuid codec o delivery now_ms now_str =
    publish_rogue_avro delivery not_a_uuid now_ms now_str
    >> pure (result_of codec o not_a_uuid "INVALID_UUID" false)

abbrev pub test_4_unknown_merchant : Codec → Observed → String → Exec Stores TestResult
test_4_unknown_merchant codec o tid =
    insert_row o.save (payment tid ghost_merchant (pos 3300) valid_currency)
    >> pure (result_of codec o tid "UNKNOWN_MERCHANT" true)

-- `[uuid4() for _ in range(k)]`, where the n-th call of the run gives `uuid n`
abbrev pub ids_from : (ℕ → String) → ℕ → ℕ → List String
ids_from uuid n zero = []
ids_from uuid n (suc k) = uuid n ∷ ids_from uuid (suc n) k

-- -(4000 + i), 4000 + i, and the ghost
abbrev pub invalid_row : ℕ → String → Row
invalid_row i tid =
    if ltb i 20
    then payment tid known_merchant (negsuc (3999 + i)) valid_currency
    else if ltb i 35
    then payment tid known_merchant (pos (4000 + i)) invalid_currency
    else payment tid ghost_merchant (pos (4000 + i)) valid_currency

abbrev pub invalid_spec : ℕ → List String → List Row
invalid_spec i [] = []
invalid_spec i (tid ∷ tids) = invalid_row i tid ∷ invalid_spec (suc i) tids

abbrev pub valid_rows : List String → List Row
valid_rows ids = map (λ tid. payment tid known_merchant (pos 5000) valid_currency) ids

-- The set that is seen when the time is up, or when it is the wanted one.
pub wait_for_delta_presence : ℕ → List String → List String → List (ℕ × List Entry) → List String
wait_for_delta_presence deadline ids seen [] = seen
wait_for_delta_presence deadline ids seen ((t, table) ∷ tables) =
    let now = delta_live_ids table ids in
    let rest = wait_for_delta_presence deadline ids now tables in
    if ltb t deadline then (if same_set now ids then now else rest) else seen

abbrev pub to_set : List String → List String
to_set [] = []
to_set (s ∷ ss) = add s (to_set ss)

-- `set(invalid_ids) - dlq_ids`
abbrev pub missing : Codec → List String → List Fields → List String
missing codec invalid_ids msgs =
    keep (λ tid. not (member (map (tid_of codec) msgs) tid)) (to_set invalid_ids)

abbrev pub mixed_verdict : Codec → Observed → List String → List String → Bool
unfolding wait_for_delta_presence
mixed_verdict codec o valid_ids invalid_ids =
    (length (wait_for_delta_presence poll_time valid_ids [] o.tables) == 50)
    && (length (delta_live_ids o.settled invalid_ids) == 0)
    && (length (missing codec invalid_ids (wait_for_dlq codec poll_time invalid_ids [] o.polls))
        == 0)

abbrev pub test_5_mixed_batch :
    Codec → Observed → List String → List String → Exec Stores TestResult
test_5_mixed_batch codec o valid_ids invalid_ids =
    insert_rows o.save (valid_rows valid_ids ++ invalid_spec 0 invalid_ids)
    >> pure (record {
      name = "MIXED_BATCH";
      passes = mixed_verdict codec o valid_ids invalid_ids;
      ids = invalid_ids;
      in_postgres = true;
    })

-- The file of ids, less its time.
pub record Dump : Type 0 where
  pub postgres_ids : List String
  pub rogue_ids : List String
  pub quarantine_oracle : ℕ
  pub dlq_oracle : ℕ

abbrev pub ids_where : Bool → List TestResult → List String
ids_where b [] = []
ids_where b (r ∷ results) =
    let rest = ids_where b results in
    if (if b then r.in_postgres else not r.in_postgres) then r.ids ++ rest else rest

abbrev pub dump_ids : List String → List String → Dump
dump_ids pg_ids rogue_ids = record {
  postgres_ids = pg_ids;
  rogue_ids = rogue_ids;
  quarantine_oracle = length pg_ids;
  dlq_oracle = length pg_ids + length rogue_ids;
}

-- The exit code, and the file that is written.
abbrev pub conclude : List TestResult → ℕ × Dump
conclude results = (
  if every (λ (r : TestResult). r.passes) results then 0 else 1,
  dump_ids (ids_where true results) (ids_where false results),
)

-- What a run of the suite meets.
pub record Run : Type 0 where
  pub processes : List String
  pub data_types : List String
  pub uuid : ℕ → String
  pub delivery : Option Bool
  pub now_ms : ℕ
  pub now_str : String
  pub o₁ : Observed
  pub o₂ : Observed
  pub o₃ : Observed
  pub o₄ : Observed
  pub o₅ : Observed

abbrev pub valid_ids : Run → List String
valid_ids run = ids_from run.uuid 3 50

abbrev pub invalid_ids : Run → List String
invalid_ids run = ids_from run.uuid 53 50

unfoldable pub run_suite : Codec → Run → Exec Stores (ℕ × Dump)
run_suite codec run = do
  embed (check_streaming_job_alive run.processes)
  embed (assert_transaction_id_is_uuid run.data_types)
  r₁ ← test_1_negative_amount codec run.o₁ (run.uuid 0)
  r₂ ← test_2_invalid_currency codec run.o₂ (run.uuid 1)
  r₃ ← test_3_invalid_uuid codec run.o₃ run.delivery run.now_ms run.now_str
  r₄ ← test_4_unknown_merchant codec run.o₄ (run.uuid 2)
  r₅ ← test_5_mixed_batch codec run.o₅ (valid_ids run) (invalid_ids run)
  pure (conclude (r₁ ∷ r₂ ∷ r₃ ∷ r₄ ∷ r₅ ∷ []))
