-- ===== src/Sidecar/Examples.antt =====
-- The sidecar on a topic with two partitions.
use payments_cdc_pipeline.Prelude.{ℕ, String, [], ◌∷◌, true, some, ◌==◌, if◌then◌else◌, ◌≡◌}
use payments_cdc_pipeline.Sidecar.{Broker, end_offset, round, round_whole}

abbrev broker : Broker
broker = record {
  topics = some (("cdc", 0 ∷ 1 ∷ []) ∷ []);
  high = λ p. some (if p == 0 then 12 else 7);
}

abbrev str : ℕ → String
str p = if p == 0 then "0" else "1"

round_whole_example :
    round str broker "cdc" true [] ≡ (end_offset str ("0", 12) ∷ end_offset str ("1", 7) ∷ []) ∷ []
round_whole_example = round_whole str broker "cdc" true []
