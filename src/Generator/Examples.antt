-- ===== src/Generator/Examples.antt =====
-- scripts/data_generator.py with a source that counts: its rows, a round of deletes, and two rounds of the
-- loop before a signal.
use payments_cdc_pipeline.Prelude.{
  ℕ, zero, suc, ◌*◌, ◌/◌, String, List, [], ◌∷◌, Bool, true, false, none, some, ltb, if◌then◌else◌,
  ◌≡◌, refl, inl, arith,
}
use payments_cdc_pipeline.Prelude.Int.{pos}
use payments_cdc_pipeline.Errors.{ok}
use payments_cdc_pipeline.Exec.{Outcome}
use payments_cdc_pipeline.Change.{Change}
use payments_cdc_pipeline.Validator.Gate.{Passes}
use payments_cdc_pipeline.Generator.{
  Transaction, Random, State, Tick, generate_amount, pick_merchant, new_row, do_deletes, do_inserts,
  do_updates,
}
use payments_cdc_pipeline.Generator.Rows.{IsBelow, Carries, new_rows-Passes}
use payments_cdc_pipeline.Generator.Deletes.{HasUniqueIds}
use payments_cdc_pipeline.Generator.Loop.{Args, loop, batch}
use payments_cdc_pipeline.Generator.Totals.{Balances, loop-Balances, loop_ends}

-- The n-th id has n letters.
abbrev letters : ℕ → String
letters zero = ""
letters (suc n) = String.◌∷◌ "a" (letters n)

abbrev random : Random ℕ
random = record {
  randbelow = λ n s. (if ltb s n then s else 0, suc s);
  percent = λ p s. (ltb s p, suc s);
  uuid4 = λ s. (letters s, suc s);
}

random-IsBelow : IsBelow random
random-IsBelow n s = ground arith

abbrev merchants : List String
merchants = "MERCH_001" ∷ "MERCH_007" ∷ []

abbrev row : Transaction
row = (new_row random merchants true 5 0).0

abbrev change : Change
change = record {
  op = some "c";
  transaction_id = some row.transaction_id;
  merchant_id = some row.merchant_id;
  amount_minor = some (pos row.amount_minor);
  currency = some row.currency;
  status = some row.status;
  event_type = some row.event_type;
  created_at = some 5;
  updated_at = some 5;
  lsn = some 1;
  source_ts = none;
  partition = 0;
  offset = 0;
  is_delete = some false;
}

row-Carries : Carries row change
row-Carries = record {
  transaction_id = refl;
  merchant_id = refl;
  amount_minor = refl;
  currency = refl;
}

abbrev any_uuid : String → String → Bool
any_uuid s pattern = true

new_rows-Passes_example : Passes any_uuid merchants change
new_rows-Passes_example =
    new_rows-Passes random any_uuid merchants "MERCH_001" ("MERCH_007" ∷ []) true 5 2 0 row change
      (λ s. refl) (λ t h. h) refl (inl refl) row-Carries

abbrev start : List Transaction → List String → State ℕ
start table ids = record {
  table = table;
  seed = 0;
  existing_ids = ids;
  total_ops = 0;
  total_inserts = 0;
  total_updates = 0;
  total_deletes = 0;
}

abbrev tick : Bool → Tick
tick kill = record {
  kill_now = kill;
  elapsed = 1;
  now = 5;
  inserting = Outcome.acknowledged;
  updating = Outcome.acknowledged;
  deleting = Outcome.acknowledged;
  sample = "a" ∷ [];
}

abbrev one_row : List Transaction
one_row = (new_row random merchants false 5 1).0 ∷ []

one_row-HasUniqueIds : HasUniqueIds one_row
one_row-HasUniqueIds tid = ground arith

abbrev args : Args
args = record {
  rate = 80;
  duration = 0;
  whale = false;
  batch_size = 10;
  share = λ p n. p * n / 100;
}

abbrev ended : State ℕ
unfolding loop batch do_inserts do_updates do_deletes
ended = (loop random args merchants (tick false ∷ tick true ∷ []) (start one_row ("a" ∷ []))).1

finished :
    loop random args merchants (tick false ∷ tick true ∷ []) (start one_row ("a" ∷ []))
    ≡ (ok tt, ended)
unfolding loop batch do_inserts do_updates do_deletes generate_amount pick_merchant
finished = refl

loop-Balances_example : Balances 1 ended
loop-Balances_example =
    loop-Balances random args merchants 1 (tick false ∷ tick true ∷ []) (start one_row ("a" ∷ []))
      ended (refl, refl, one_row-HasUniqueIds) finished

abbrev timed : Args
timed = record args { duration = 1 }

loop_ends_example :
    loop random timed merchants
      (tick false ∷ record (tick false) { elapsed = 2 } ∷ tick false ∷ [])
      (start one_row ("a" ∷ []))
    ≡ loop random timed merchants
        (tick false ∷ record (tick false) { elapsed = 2 } ∷ [])
        (start one_row ("a" ∷ []))
loop_ends_example =
    loop_ends random timed merchants (tick false ∷ record (tick false) { elapsed = 2 } ∷ [])
      (tick false ∷ []) (omega arith) ((omega arith), ((omega arith), tt)) (omega arith)
      (start one_row ("a" ∷ []))
