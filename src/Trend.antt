-- ===== src/Trend.antt =====
-- The trend monitor, great_expectations/payments_trend_monitor.py: the count of recent dead letters,
-- the counts of the change feed, and the alerts. A rate is compared by cross multiplication, in exact
-- arithmetic where the source has floats: the window has 3600 seconds, the dead letter threshold is one in
-- 1000, the throughput band is half around the baseline.
mod Examples
use payments_cdc_pipeline.Prelude.{
  ℕ, suc, ◌+◌, ◌*◌, ◌≤◌, ◌<◌, String, List, [], ◌∷◌, ◌++◌, ap, Bool, true, false, Option, none,
  some, not, ◌&&◌, ◌||◌, ltb, leb, count_if, keep, length, ◌==◌, if◌then◌else◌, In, Each, text_eq,
  ◌≡◌, ◌≢◌, refl, ◌⊎◌, inl, inr, arith, Bool-cases,
}
use payments_cdc_pipeline.Sql.{is_null, where_holds, member}
use payments_cdc_pipeline.Change.{Change}

abbrev pub lookback_seconds : ℕ
lookback_seconds = 60 * 60

-- What `consumer.poll` gives: nothing in two seconds, an error, or a message with its timestamp.
pub data Poll : Type 0 where
  nothing : Poll
  failed : Poll
  message : ℕ → Poll

-- The loop, over the polls with the seconds that have passed since its start.
pub count_polls : ℕ → ℕ → List (Poll × ℕ) → ℕ
count_polls cutoff count [] = count
count_polls cutoff count ((Poll.nothing, t) ∷ polls) = count
count_polls cutoff count ((Poll.failed, t) ∷ polls) = count_polls cutoff count polls
count_polls cutoff count ((Poll.message at, t) ∷ polls) =
    let counted = if leb cutoff at then suc count else count in
    let rest = count_polls cutoff counted polls in if ltb 15 t then counted else rest

-- `none` is the -1 of a consumer that cannot connect.
pub count_dlq_messages : ℕ → Option (List (Poll × ℕ)) → Option ℕ
unfolding count_polls
count_dlq_messages cutoff none = none
count_dlq_messages cutoff (some polls) = some (count_polls cutoff 0 polls)

-- A row of the change feed.
pub record Feed : Type 0 where
  pub change_type : String
  pub commit_timestamp : ℕ
  pub transaction_id : Option String

abbrev is_counted : Feed → Bool
is_counted r = member ("insert" ∷ "update_postimage" ∷ "delete" ∷ []) r.change_type

-- The counts of the recent and of the baseline window, from the feed since the baseline's start.
pub read_cdf_stats : ℕ → Option (List Feed) → Option (ℕ × ℕ)
read_cdf_stats recent_cut none = none
read_cdf_stats recent_cut (some feed) = some (
  count_if (λ (r : Feed). leb recent_cut r.commit_timestamp) (keep is_counted feed),
  count_if (λ (r : Feed). ltb r.commit_timestamp recent_cut) (keep is_counted feed),
)

pub check_null_transaction_ids : Option (List Feed) → Option ℕ
check_null_transaction_ids none = none
check_null_transaction_ids (some feed) =
    some (length (where_holds (λ (r : Feed). is_null r.transaction_id) feed))

abbrev one : Bool → ℕ
one b = if b then 1 else 0

-- dlq_count == 54
abbrev pub oracle_alert : Option ℕ → ℕ
oracle_alert none = 0
oracle_alert (some n) = one (n == 54)

-- rate >= MAX_DLQ_RATE, where there is traffic
abbrev dlq_alert : Option ℕ → Option (ℕ × ℕ) → ℕ
dlq_alert none stats = 1
dlq_alert (some n) none = 0
dlq_alert (some n) (some (recent, baseline)) = one (not (recent == 0) && leb recent (n * 1000))

abbrev throughput_alert : Option (ℕ × ℕ) → ℕ
throughput_alert none = 0
throughput_alert (some (recent, baseline)) = one (
    not (ltb (baseline * 10) lookback_seconds)
    && (ltb (recent * 2) baseline || ltb (baseline * 3) (recent * 2))
    && ltb 50 recent)

abbrev null_alert : Option ℕ → ℕ
null_alert none = 0
null_alert (some n) = one (ltb 0 n)

pub alerts : Option ℕ → Option (ℕ × ℕ) → Option ℕ → ℕ
alerts dlq_count stats nulls =
    oracle_alert dlq_count + dlq_alert dlq_count stats + throughput_alert stats + null_alert nulls

-- The exit code.
pub run_monitor : Option ℕ → Option (ℕ × ℕ) → Option ℕ → ℕ
unfolding alerts
run_monitor dlq_count stats nulls = if alerts dlq_count stats nulls == 0 then 0 else 1

-- A clean exit over both windows of the feed shows that the dead letters were counted and are fewer
-- than one in 1000 of the recent rows, if there are any, that no row without a key was seen, and that a
-- recent window of more than 50 rows over a baseline of at least 360 has at least half and at most one and
-- a half times the rows of the baseline.
pub monitor_clean :
    (dlq_count : Option ℕ) (recent baseline nulls : ℕ)
    → run_monitor dlq_count (some (recent, baseline)) (some nulls) ≡ 0
    → (n : ℕ) × (dlq_count ≡ some n)
      × (n ≢ 54)
      × (1 ≤ recent → n * 1000 < recent)
      × (nulls ≡ 0)
      × (50 < recent → 360 ≤ baseline → (baseline ≤ recent * 2) × (recent * 2 ≤ baseline * 3))
unfolding run_monitor alerts
monitor_clean none recent baseline nulls h = absurd (ground arith)
monitor_clean (some n) recent baseline nulls h = (
  n,
  refl,
  (λ e. ground arith),
  (λ l. ground arith),
  ground arith,
  λ l m. (ground arith, ground arith),
)

-- The time has not run out, and the poll gave something.
abbrev pub Timely : Poll × ℕ → Type 0
Timely (Poll.nothing, t) = ⊥
Timely (Poll.failed, t) = Unit
Timely (Poll.message at, t) = t ≤ 15

-- A recent message.
abbrev pub is_recent : ℕ → Poll × ℕ → Bool
is_recent cutoff (Poll.message at, t) = leb cutoff at
is_recent cutoff (Poll.nothing, t) = false
is_recent cutoff (Poll.failed, t) = false

count_polls_lem :
    (cutoff count : ℕ) (polls rest : List (Poll × ℕ)) (t : ℕ)
    → ((p : Poll × ℕ) → In p polls → Timely p)
    → count_polls cutoff count (polls ++ (Poll.nothing, t) ∷ rest)
      ≡ count + count_if (is_recent cutoff) polls
unfolding count_polls
count_polls_lem cutoff count [] rest t h = omega arith
count_polls_lem cutoff count ((Poll.nothing, s) ∷ polls) rest t h =
    absurd (h (Poll.nothing, s) (inl refl))
count_polls_lem cutoff count ((Poll.failed, s) ∷ polls) rest t h =
    count_polls_lem cutoff count polls rest t (λ p m. h p (inr m))
count_polls_lem cutoff count ((Poll.message at, s) ∷ polls) rest t h = ground (
  arith,
  h (Poll.message at, s) (inl refl),
  count_polls_lem cutoff (if leb cutoff at then suc count else count) polls rest t
      (λ p m. h p (inr m)),
)

-- Where every poll before the first empty one answers, and each message comes within 15 seconds, the
-- monitor counts exactly the messages that are not older than the cutoff; errors are passed over.
pub dlq_counted :
    (cutoff : ℕ) (polls rest : List (Poll × ℕ)) (t : ℕ)
    → ((p : Poll × ℕ) → In p polls → Timely p)
    → count_dlq_messages cutoff (some (polls ++ (Poll.nothing, t) ∷ rest))
      ≡ some (count_if (is_recent cutoff) polls)
unfolding count_dlq_messages
dlq_counted cutoff polls rest t h = ap some (omega (arith, count_polls_lem cutoff 0 polls rest t h))
