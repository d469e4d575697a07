-- ===== src/Replay.antt =====
-- The replay harness, scripts/chaos/replay_offsets.py: what it measures of the Delta table, and its two
-- tests of `process_batch`. The sum of the amounts is exact where Spark's is a 64-bit number.
pub mod Totals
pub mod Guard
mod Examples
use payments_cdc_pipeline.Prelude.{
  ℕ, ◌+◌, List, [], ◌∷◌, Bool, true, false, Option, none, some, length, ◌==◌, ◌||◌, not,
  if◌then◌else◌, ◌≡◌, refl, arith,
}
use payments_cdc_pipeline.Prelude.Int.{ℤ, pos_part, neg_part}
use payments_cdc_pipeline.Sql.{where_holds}
use payments_cdc_pipeline.Errors.{Error, Result, ok, err}
use payments_cdc_pipeline.Exec.{Exec, pure, raise, gets, ◌>>=◌, ◌>>◌}
use payments_cdc_pipeline.Change.{Change, Entry}
use payments_cdc_pipeline.Parity.{is_live}
use payments_cdc_pipeline.Job.{World, Env, process_batch}

-- A sum, as what the amounts add and what they take away.
abbrev pub add_amount : Option ℤ → ℕ × ℕ → ℕ × ℕ
add_amount none s = s
add_amount (some n) s = (pos_part n + s.0, neg_part n + s.1)

abbrev pub sum_amounts : List Entry → ℕ × ℕ
sum_amounts [] = (0, 0)
sum_amounts (e ∷ rows) = add_amount e.amount_minor (sum_amounts rows)

-- The number of live rows and the sum of their amounts.
abbrev pub snapshot_metrics : World → ℕ × (ℕ × ℕ)
snapshot_metrics w = let live = where_holds is_live w.table in (length live, sum_amounts live)

-- Two sums are one number.
abbrev pub same_sum : ℕ × ℕ → ℕ × ℕ → Bool
same_sum a b = (a.0 + b.1) == (b.0 + a.1)

-- after_cnt != before_cnt or after_sum != before_sum
abbrev pub differs : ℕ × (ℕ × ℕ) → ℕ × (ℕ × ℕ) → Bool
differs before after = not (after.0 == before.0) || not (same_sum after.1 before.1)

-- What both tests do around their call.
abbrev pub unchanged_by : Exec World (Unit {0}) → Exec World (Unit {0})
unchanged_by call = do
  before ← gets snapshot_metrics
  call
  after ← gets snapshot_metrics
  if differs before after then raise Error.assertion_error else pure tt

pub run_lsn_guard_test : Env → List Change → Exec World (Unit {0})
run_lsn_guard_test env flat = unchanged_by (process_batch env 999999999 false flat)

-- The frame that this test hands over has no rows.
pub run_ledger_skip_test : Env → ℕ → Exec World (Unit {0})
run_ledger_skip_test env already_committed_batch_id =
    unchanged_by (process_batch env already_committed_batch_id true [])

pub data Mode : Type 0 where
  lsn_guard ledger_skip both : Mode

abbrev guard_part : Mode → Exec World (Unit {0}) → Exec World (Unit {0})
guard_part Mode.ledger_skip t = pure tt
guard_part _ t = t

abbrev skip_part : Mode → Exec World (Unit {0}) → Exec World (Unit {0})
skip_part Mode.lsn_guard t = pure tt
skip_part _ t = t

-- `main`, with the rows of the range and the known batch id.
pub run_probe : Mode → Env → List Change → ℕ → Exec World (Unit {0})
unfolding run_lsn_guard_test run_ledger_skip_test
run_probe mode env flat known_batch_id =
    guard_part mode (run_lsn_guard_test env flat)
    >> skip_part mode (run_ledger_skip_test env known_batch_id)

pub same_metrics : (m : ℕ × (ℕ × ℕ)) → differs m m ≡ false
same_metrics (n, (a, b)) = ground arith
