-- ===== src/Skew/Examples.antt =====
-- The aggregates of scripts/aggregation_skew_job.py on three rows of one merchant.
use payments_cdc_pipeline.Prelude.{
  ℕ, String, List, [], ◌∷◌, true, false, Option, none, some, ◌≡◌, refl,
}
use payments_cdc_pipeline.Prelude.Int.{ℤ, pos, negsuc}
use payments_cdc_pipeline.Grouping.{distinct}
use payments_cdc_pipeline.Skew.{Row, naive_aggregate, main}
use payments_cdc_pipeline.Skew.Equal.{total_of}
use payments_cdc_pipeline.Skew.Modes.{modes_agree}

abbrev row : String → ℕ → Row
row t amount = record {
  change_type = "insert";
  transaction_id = some t;
  merchant_id = some "MERCH_007";
  amount_minor = some amount;
}

-- The second amount is -1, and the third wraps.
abbrev rows : List Row
rows = row "a" 5 ∷ row "b" 0xffff_ffff_ffff_ffff ∷ row "c" 0xffff_ffff_ffff_fffe ∷ []

abbrev hash : Option String → ℤ
hash none = pos 42
hash (some t) = negsuc 3

wraps : total_of (some "MERCH_007") (naive_aggregate rows) ≡ some (some 2, some 3)
unfolding naive_aggregate distinct
wraps = refl

modes_agree_example :
    ((main hash 8 false rows).0 ≡ (main hash 8 true rows).0)
    × ((m : Option String)
        → total_of m (main hash 8 false rows).1 ≡ total_of m (main hash 8 true rows).1)
modes_agree_example = modes_agree hash 8 rows
