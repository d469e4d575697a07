-- ===== src/Metrics/Recover.antt =====
-- `extract_processed_offsets` of spark/utils/metrics_listener.py reads back the offsets that Spark reports.
use payments_cdc_pipeline.Prelude.{
  String, List, [], ◌∷◌, false, Option, none, some, text_eq, ◌≡◌, refl, ap, ◌∙◌, ◌⊎◌, inl, inr,
}
use payments_cdc_pipeline.Prelude.Int.{ℤ}
use payments_cdc_pipeline.Metrics.Json.{
  Json, null, num, str, obj, arr, Items, cons, Fields, end, field, get, get_or_null, or_else,
}
use payments_cdc_pipeline.Metrics.Offsets.{
  Parser, topic, collect, topic_map, from_sources, parsed, extract_processed_offsets,
}

-- The JSON object of the offsets, one number for each partition.
abbrev pub rendered : List (String × ℤ) → Fields
rendered [] = end
rendered ((part, n) ∷ offsets) = field part (num n) (rendered offsets)

collect-rendered :
    (p : Parser) (offsets : List (String × ℤ)) → collect p (rendered offsets) ≡ offsets
collect-rendered p [] = refl
collect-rendered p ((part, n) ∷ offsets) = ap (◌∷◌ (part, n)) (collect-rendered p offsets)

-- A report reads back as the offsets that it was written from: where the first source of a progress report
-- has, as its end offset, the topic's map of partitions to numbers, as an object or as a text that parses to
-- it, `extract_processed_offsets` gives those numbers, in their order. Other fields and sources do not matter.
pub extract_recovers :
    (p : Parser) (progress source : Fields) (sources : Items) (raw : Json)
    (offsets : List (String × ℤ))
    → get "sources" progress ≡ some (arr (cons (obj source) sources))
    → get "endOffset" source ≡ some raw
    → (raw ≡ obj (field topic (obj (rendered offsets)) end))
      ⊎ ((s : String) × (raw ≡ str s)
          × (text_eq s "" ≡ false)
          × (p.loads s ≡ some (obj (field topic (obj (rendered offsets)) end))))
    → extract_processed_offsets p (obj progress) ≡ offsets
unfolding extract_processed_offsets topic_map
extract_recovers p progress source sources raw offsets e f g =
    ap (from_sources p) (ap value e)
    ∙ ap (λ (v : Json). parsed p (or_else v (get_or_null "startOffset" source))) (ap value f)
    ∙ read g
  where
    value : Option Json → Json
    value o = elim o [ none ↦ null | some v ↦ v ]

    map : Json
    map = obj (field topic (obj (rendered offsets)) end)

    read :
        (raw ≡ map)
          ⊎ ((s : String) × (raw ≡ str s) × (text_eq s "" ≡ false) × (p.loads s ≡ some map))
        → parsed p (or_else raw (get_or_null "startOffset" source)) ≡ offsets
    read (inl h) =
        ap (λ (v : Json). parsed p (or_else v (get_or_null "startOffset" source))) h
        ∙ collect-rendered p offsets
    read (inr (s, h, n, l)) =
        ap (λ (v : Json). parsed p (or_else v (get_or_null "startOffset" source))) h
        ∙ (rw (n, l) (collect-rendered p offsets))
