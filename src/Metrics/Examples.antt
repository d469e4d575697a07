-- ===== src/Metrics/Examples.antt =====
-- `extract_processed_offsets` on the report of two partitions.
use payments_cdc_pipeline.Prelude.{String, List, [], ◌∷◌, some, none, ◌≡◌, refl, inr}
use payments_cdc_pipeline.Prelude.Int.{ℤ, pos}
use payments_cdc_pipeline.Metrics.Json.{Json, null, str, obj, arr, cons, nil, Fields, end, field}
use payments_cdc_pipeline.Metrics.Offsets.{Parser, topic, extract_processed_offsets}
use payments_cdc_pipeline.Metrics.Recover.{rendered, extract_recovers}

abbrev offsets : List (String × ℤ)
offsets = ("0", pos 12) ∷ ("1", pos 7) ∷ []

abbrev by_topic : Json
by_topic = obj (field topic (obj (rendered offsets)) end)

abbrev parser : Parser
parser = record { loads = λ s. some by_topic; int_of = λ s. none }

abbrev source : Fields
source = field "startOffset" null (field "endOffset" (str "{...}") end)

extract_recovers_example :
    extract_processed_offsets parser (obj (field "sources" (arr (cons (obj source) nil)) end))
    ≡ offsets
extract_recovers_example =
    extract_recovers parser (field "sources" (arr (cons (obj source) nil)) end) source nil
      (str "{...}") offsets refl refl (inr ("{...}", refl, refl, refl))
