-- ===== src/Metrics/Offsets.antt =====
-- `extract_processed_offsets` of spark/utils/metrics_listener.py. An exception in its `try` is
-- `none`, which the handler turns into the empty dict. `json.loads` and `int` of a text are
-- parameters.
use payments_cdc_pipeline.Prelude.{
  String, List, [], ◌∷◌, true, false, Option, none, some, ◌==◌, if◌then◌else◌,
}
use payments_cdc_pipeline.Prelude.Int.{ℤ, pos}
use payments_cdc_pipeline.Metrics.Json.{
  Json, null, bool, num, str, arr, obj, cons, Fields, end, field, get, get_or_null, or_else, size,
}

abbrev pub topic : String
topic = "payments.public.transactions"

pub record Parser : Type 0 where
  pub loads : String → Option Json
  pub int_of : String → Option ℤ

-- `int(off)`, where TypeError and ValueError are `none`
abbrev pub to_int : Parser → Json → Option ℤ
to_int p (num n) = some n
to_int p (bool true) = some (pos 1)
to_int p (bool false) = some (pos 0)
to_int p (str s) = p.int_of s
to_int p null = none
to_int p (arr vs) = none
to_int p (obj fs) = none

-- The loop over `topic_map.items()`.
abbrev pub collect : Parser → Fields → List (String × ℤ)
collect p end = []
collect p (field part off fs) =
    let rest = collect p fs in elim (to_int p off) [ some n ↦ (part, n) ∷ rest | none ↦ rest ]

abbrev first_value : Fields → Json
first_value end = null
first_value (field k v fs) = v

abbrev collect_from : Parser → Json → List (String × ℤ)
collect_from p (obj parts) = collect p parts
collect_from p _ = []

-- `topic_map`, with the step into a dict that has one key and not the topic's
unfoldable pub topic_map : Fields → Json
topic_map raw = elim (get topic raw) [
  | some v ↦ v
  | none ↦ if size raw == 1 then first_value raw else obj raw
]

-- From `raw` on, once a text has been parsed.
abbrev offsets_of : Parser → Json → List (String × ℤ)
offsets_of p (obj raw) = collect_from p (topic_map raw)
offsets_of p _ = []

abbrev pub parsed : Parser → Json → List (String × ℤ)
parsed p (str s) = elim (p.loads s) [ none ↦ [] | some v ↦ offsets_of p v ]
parsed p v = offsets_of p v

abbrev pub from_source : Parser → Json → List (String × ℤ)
from_source p (obj fs) =
    parsed p (or_else (get_or_null "endOffset" fs) (get_or_null "startOffset" fs))
from_source p _ = []

abbrev pub from_sources : Parser → Json → List (String × ℤ)
from_sources p (arr (cons source vs)) = from_source p source
from_sources p _ = []

unfoldable pub extract_processed_offsets : Parser → Json → List (String × ℤ)
unfolding topic_map
extract_processed_offsets p (obj progress) = from_sources p (get_or_null "sources" progress)
extract_processed_offsets p _ = []
