-- ===== src/Generator/Loop.antt =====
-- `main` of scripts/data_generator.py: the batch, the loop and its totals. The rounds of the loop come as
-- a list, which ends where the process is still running.
use payments_cdc_pipeline.Prelude.{
  ℕ, zero, suc, ◌+◌, ◌-◌, ◌%◌, String, List, [], ◌∷◌, Bool, ◌&&◌, ◌||◌, ltb, leb, if◌then◌else◌,
}
use payments_cdc_pipeline.Errors.{Error, err}
use payments_cdc_pipeline.Exec.{Exec, pure, modify, ◌>>=◌, ◌>>◌}
use payments_cdc_pipeline.Generator.{Random, State, Tick, do_inserts, do_updates, do_deletes}

-- The command line, the duration in the clock's unit. `share p n` is `int(n * p / 100)` in floating point.
pub record Args : Type 0 where
  pub rate : ℕ
  pub duration : ℕ
  pub whale : Bool
  pub batch_size : ℕ
  pub share : ℕ → ℕ → ℕ

abbrev pub stops : Args → Tick → Bool
stops args tick = tick.kill_now || (ltb 0 args.duration && leb args.duration tick.elapsed)

module _ {Seed : Type 0} where
  abbrev pub count_ops : ℕ → ℕ → ℕ → State Seed → State Seed
  count_ops i u d st = record st {
    total_ops = st.total_ops + (i + u + d);
    total_inserts = st.total_inserts + i;
    total_updates = st.total_updates + u;
    total_deletes = st.total_deletes + d;
  }

  -- The ids are read again about every 2000 operations.
  abbrev pub refresh_ids : ℕ → List String → State Seed → State Seed
  refresh_ids ops_per_batch sample st =
      if ltb (st.total_ops % 2000) ops_per_batch then record st { existing_ids = sample } else st

module _ {Seed : Type 0} (random : Random Seed) (args : Args) (merchant_ids : List String) where
  unfoldable pub batch : Tick → Exec (State Seed) (Unit {0})
  batch tick = do
    let n_insert = args.share 70 args.batch_size
    let n_update = args.share 20 args.batch_size
    let n_delete = args.batch_size - n_insert - n_update
    i ← do_inserts random merchant_ids args.whale n_insert tick
    u ← do_updates random n_update tick
    d ← do_deletes random n_delete tick
    modify (λ st. refresh_ids args.batch_size tick.sample (count_ops i u d st))

  unfoldable pub loop : List Tick → Exec (State Seed) (Unit {0})
  unfolding batch
  loop [] = pure tt
  loop (tick ∷ ticks) = if stops args tick then pure tt else batch tick >> loop ticks

-- `main`, from the check of the rate on. The connection's totals start at zero.
pub main :
    {Seed : Type 0}
    → Random Seed
    → Args
    → List String
    → List String
    → List Tick
    → Exec (State Seed) (Unit {0})
unfolding loop
main random args merchant_ids existing_ids ticks st = elim args.rate [
  | zero ↦ (err Error.system_exit, st)
  | suc r ↦ elim merchant_ids [
    | [] ↦ (err Error.system_exit, st)
    | m ∷ ms ↦ loop random args (m ∷ ms) ticks (record st {
      existing_ids = existing_ids;
      total_ops = 0;
      total_inserts = 0;
      total_updates = 0;
      total_deletes = 0;
    })
  ]
]
