-- ===== src/Trend/Examples.antt =====
-- The monitor of great_expectations/payments_trend_monitor.py on a quiet hour.
use payments_cdc_pipeline.Prelude.{
  ℕ, List, [], ◌∷◌, ◌++◌, Option, In, inl, inr, count_if, arith, ◌*◌, ◌≤◌, ◌<◌, some, ◌≡◌, ◌≢◌,
  refl,
}
use payments_cdc_pipeline.Trend.{
  run_monitor, alerts, monitor_clean, Poll, Timely, is_recent, count_dlq_messages, dlq_counted,
}

quiet : run_monitor (some 0) (some (400, 500)) (some 0) ≡ 0
unfolding run_monitor alerts
quiet = refl

abbrev quiet_count : Option ℕ
quiet_count = some 0

abbrev no_nulls : ℕ
no_nulls = 0

monitor_clean_example :
    (n : ℕ) × (quiet_count ≡ some n)
    × (n ≢ 54)
    × (1 ≤ 400 → n * 1000 < 400)
    × (no_nulls ≡ 0)
    × (50 < 400 → 360 ≤ 500 → (500 ≤ 400 * 2) × (400 * 2 ≤ 500 * 3))
monitor_clean_example = monitor_clean (some 0) 400 500 0 quiet

abbrev polls : List (Poll × ℕ)
polls = (Poll.message 7, 1) ∷ (Poll.failed, 2) ∷ (Poll.message 3, 3) ∷ []

timely : (p : Poll × ℕ) → In p polls → Timely p
timely p (inl e) = rw e (omega arith)
timely p (inr (inl e)) = rw e tt
timely p (inr (inr (inl e))) = rw e (omega arith)
timely p (inr (inr (inr e))) = absurd e

dlq_counted_example :
    count_dlq_messages 5 (some (polls ++ (Poll.nothing, 4) ∷ []))
    ≡ some (count_if (is_recent 5) polls)
dlq_counted_example = dlq_counted 5 polls [] 4 timely
