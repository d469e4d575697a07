-- ===== src/Inject/Examples.antt =====
-- scripts/inject_bad_records.py on a topic with three messages, and on a run in which no dead letter comes.
use payments_cdc_pipeline.Prelude.{
  In, ℕ, zero, suc, String, List, [], ◌∷◌, ◌++◌, true, false, none, some, any, map, ◌≡◌, refl, sym,
  ap, ◌∙◌, text_eq, text_eq-cases, inl, inr, ◌==◌, if◌then◌else◌, arith,
}
use payments_cdc_pipeline.Prelude.Int.{pos, negsuc}
use payments_cdc_pipeline.Sql.{member, holds}
use payments_cdc_pipeline.Change.{Entry}
use payments_cdc_pipeline.Inject.Sound.{verdict_sound}
use payments_cdc_pipeline.Errors.{ok}
use payments_cdc_pipeline.Exec.{Outcome}
use payments_cdc_pipeline.Metrics.Json.{Fields, str, obj, end, field}
use payments_cdc_pipeline.Parity.{is_live}
use payments_cdc_pipeline.Inject.{
  Codec, Row, payment, rogue, known_merchant, ghost_merchant, valid_currency, invalid_currency,
  dlq_hit, record_of, contains, tid_of, reason_of, delta_live_ids, check_streaming_job_alive,
  assert_transaction_id_is_uuid,
}
use payments_cdc_pipeline.Inject.Polling.{Poll, wait_for_dlq, in_time, is_about, wait_for_dlq_exact}
use payments_cdc_pipeline.Inject.Postgres.{Stores, publish, cleanup_injected}
use payments_cdc_pipeline.Inject.Suite.{
  verdict, poll_time, Observed, Run, Dump, run_suite, valid_ids, invalid_ids, valid_rows,
  invalid_row, dump_ids, not_a_uuid,
}
use payments_cdc_pipeline.Inject.Oracle.{ran}
use payments_cdc_pipeline.Inject.Cleanup.{cleanup_injected-run_suite}
use payments_cdc_pipeline.Inject.Rejected.{Around, rejection, reason_at, rejection-suite}

-- A message is one byte, which stands for its id.
abbrev id_of : List ℕ → String
id_of [] = ""
id_of (n ∷ bytes) = if n == 0 then "t0" else "t1"

abbrev codec : Codec
codec = record {
  loads = λ bytes. some (
      obj (
        field "transaction_id" (str (id_of bytes))
          (field "rejection_reason" (str "NEGATIVE_AMOUNT") end)));
  decode = λ bytes. "";
  show = λ v. "";
}

abbrev about : ℕ → Poll
about n = Poll.message (record { value = some (n ∷ []); key = none })

abbrev polls : List (ℕ × Poll)
polls = (0, about 1) ∷ (5, Poll.nothing) ∷ (9, about 0) ∷ (20, about 0) ∷ []

wait_for_dlq_exact_example :
    (dlq_hit codec "t0" (wait_for_dlq codec 15 ("t0" ∷ []) [] polls)).0
    ≡ any (is_about codec "t0") (in_time codec 15 polls)
wait_for_dlq_exact_example = wait_for_dlq_exact codec 15 ("t0" ∷ []) polls "t0" refl

found : (dlq_hit codec "t0" (wait_for_dlq codec 15 ("t0" ∷ []) [] polls)).0 ≡ true
unfolding dlq_hit wait_for_dlq record_of
found = refl

-- The n-th id has n letters.
abbrev uuid : ℕ → String
uuid zero = ""
uuid (suc n) = String.◌∷◌ "a" (uuid n)

abbrev size : String → ℕ
size String.[] = 0
size (String.◌∷◌ c s) = suc (size s)

size-uuid : (n : ℕ) → size (uuid n) ≡ n
size-uuid zero = refl
size-uuid (suc n) = ap suc (size-uuid n)

uuid_injective : (i j : ℕ) → uuid i ≡ uuid j → i ≡ j
uuid_injective i j e = sym (size-uuid i) ∙ ap size e ∙ size-uuid j

abbrev old : List Row
old = payment "old" known_merchant (pos 7) valid_currency ∷ []

abbrev first_of : String → String
first_of String.[] = ""
first_of (String.◌∷◌ c s) = String.◌∷◌ c ""

old_fresh : (i : ℕ) → member (map (λ (r : Row). r.transaction_id) old) (uuid i) ≡ false
old_fresh zero = refl
old_fresh (suc i) = elim (text_eq-cases "old" (uuid (suc i))) [
  | inl e ↦
      absurd
        (let h : true ≡ text_eq "o" "a" = ap (λ s. text_eq "o" (first_of s)) e in ground (arith, h))
  | inr f ↦ rw f refl
]

-- The writes are acknowledged, and nothing comes.
abbrev quiet : Observed
quiet = record { save = Outcome.acknowledged; polls = []; tables = []; settled = [] }

abbrev run : Run
run = record {
  processes = "python -m spark.jobs.payments_cdc_job" ∷ [];
  data_types = "uuid" ∷ [];
  uuid = uuid;
  delivery = some true;
  now_ms = 1;
  now_str = "now";
  o₁ = quiet;
  o₂ = quiet;
  o₃ = quiet;
  o₄ = quiet;
  o₅ = quiet;
}

abbrev dump : Dump
dump = dump_ids (uuid 0 ∷ uuid 1 ∷ uuid 2 ∷ (invalid_ids run ++ [])) (not_a_uuid ∷ [])

abbrev start : Stores
start = record { rows = old; topic = [] }

abbrev finished : Stores
finished = publish not_a_uuid 1 "now" (record start { rows = ran codec run old })

returned : run_suite codec run start ≡ (ok (1, dump), finished)
unfolding run_suite check_streaming_job_alive assert_transaction_id_is_uuid dlq_hit wait_for_dlq
returned = refl

cleanup_injected-run_suite_example :
    cleanup_injected Outcome.acknowledged dump.postgres_ids finished
    ≡ (ok tt, record finished { rows = old ++ valid_rows (valid_ids run) })
cleanup_injected-run_suite_example =
    cleanup_injected-run_suite codec run start finished 1 dump uuid_injective old_fresh returned

abbrev around : Around
around = record {
  cast = record { of_raw = λ s. some 0; of_millis = λ t. some t };
  rlike = λ s pattern. text_eq s "t";
  merchant_ids = known_merchant ∷ [];
  op = "c";
  lsn = 7;
  now_ms = 1;
  now_str = "now";
  partition = 0;
  offset = 3;
}

rejection-suite_example :
    (rejection around (payment "t" known_merchant (negsuc 1499) valid_currency) ≡ "NEGATIVE_AMOUNT")
    × (rejection around (payment "t" known_merchant (pos 2500) invalid_currency)
        ≡ "INVALID_CURRENCY")
    × (rejection around (rogue not_a_uuid) ≡ "INVALID_UUID")
    × (rejection around (payment "t" ghost_merchant (pos 3300) valid_currency) ≡ "UNKNOWN_MERCHANT")
    × ((i : ℕ) → rejection around (invalid_row i "t") ≡ reason_at i)
    × (rejection around (payment "t" known_merchant (pos 5000) valid_currency) ≡ "")
rejection-suite_example = rejection-suite around "t" refl refl refl refl refl

abbrev tombstone : Entry
tombstone = record {
  transaction_id = some "t0";
  merchant_id = none;
  amount_minor = none;
  currency = none;
  status = none;
  event_type = none;
  created_at = none;
  updated_at = none;
  lsn = some 7;
  source_ts = none;
  is_delete = some true;
}

abbrev observed : Observed
observed = record {
  save = Outcome.acknowledged;
  polls = polls;
  tables = [];
  settled = tombstone ∷ [];
}

passes : verdict codec observed "t0" "NEGATIVE_AMOUNT" ≡ true
unfolding dlq_hit wait_for_dlq record_of delta_live_ids contains
passes = refl

verdict_sound_example :
    ((rec : Fields) × In rec (in_time codec poll_time polls)
      × (tid_of codec rec ≡ "t0")
      × (contains "NEGATIVE_AMOUNT" (reason_of codec rec) ≡ true))
    × ((e : Entry)
        → In e (tombstone ∷ [])
        → e.transaction_id ≡ some "t0"
        → holds (is_live e) ≡ false)
verdict_sound_example = verdict_sound codec observed "t0" "NEGATIVE_AMOUNT" passes
