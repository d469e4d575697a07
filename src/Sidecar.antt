-- ===== src/Sidecar.antt =====
-- The lag sidecar, scripts/lag_sidecar.py: the end offsets of a topic, posted to the Pushgateway once a round.
-- What the broker answers is an argument, `none` where a call raises; so is the text of a partition.
mod Examples
use payments_cdc_pipeline.Prelude.{
  ℕ, suc, String, List, [], ◌∷◌, ◌++◌, Bool, true, false, Option, none, some, map, text_eq,
  if◌then◌else◌, not, ◌&&◌, every, Bool-cases, ◌≡◌, refl, sym, ap, ◌∙◌, ◌⊎◌, inl, inr,
}
use mathlib.Core.Path.{subst}
use payments_cdc_pipeline.Prelude.Int.{pos}
use payments_cdc_pipeline.Metrics.{Sample, Value}

-- `list_topics` and `get_watermark_offsets`
pub record Broker : Type 0 where
  pub topics : Option (List (String × List ℕ))
  pub high : ℕ → Option ℕ

abbrev partitions : String → List (String × List ℕ) → List ℕ
partitions topic [] = []
partitions topic ((t, parts) ∷ topics) =
    let rest = partitions topic topics in if text_eq t topic then parts else rest

abbrev add : String → Option ℕ → Option (List (String × ℕ)) → Option (List (String × ℕ))
add part (some n) (some offsets) = some ((part, n) ∷ offsets)
add part _ _ = none

module _ (str : ℕ → String) where
  -- The loop over the partitions. They are the keys of a dict and have different texts, so that each adds an
  -- entry. An exception loses what was read before it.
  abbrev read : (ℕ → Option ℕ) → List ℕ → Option (List (String × ℕ))
  read high [] = some []
  read high (p ∷ parts) = add (str p) (high p) (read high parts)

  pub get_end_offsets : Broker → String → List (String × ℕ)
  get_end_offsets broker topic = elim broker.topics [
    | none ↦ []
    | some topics ↦ elim (read broker.high (partitions topic topics)) [
      | none ↦ []
      | some offsets ↦ offsets
    ]
  ]

  abbrev end_offset : String × ℕ → Sample
  end_offset o = record {
    metric = "payments_cdc_topic_end_offset";
    partition = some o.0;
    value = Value.whole (pos o.1);
  }

  -- A round of the loop: nothing is posted where there is no offset, and a failed post is printed only.
  pub round : Broker → String → Bool → List (List Sample) → List (List Sample)
  unfolding get_end_offsets
  round broker topic posted received = elim (get_end_offsets broker topic) [
    | [] ↦ received
    | o ∷ offsets ↦ if posted then received ++ map end_offset (o ∷ offsets) ∷ [] else received
  ]

  -- What a partition of a topic should say, and when.
  abbrev is_known : (ℕ → Option ℕ) → ℕ → Bool
  is_known high p = elim (high p) [ none ↦ false | some n ↦ true ]

  abbrev offset_of : (ℕ → Option ℕ) → ℕ → String × ℕ
  offset_of high p = (str p, elim (high p) [ none ↦ 0 | some n ↦ n ])

  abbrev whole : (ℕ → Option ℕ) → List ℕ → Option (List (String × ℕ))
  whole high parts = if every (is_known high) parts then some (map (offset_of high) parts) else none

  read-whole : (high : ℕ → Option ℕ) (parts : List ℕ) → read high parts ≡ whole high parts
  read-whole high [] = refl
  read-whole high (p ∷ parts) =
      ap (add (str p) (high p)) (read-whole high parts)
      ∙ go (high p) (Bool-cases (every (is_known high) parts))
    where
      go :
          (o : Option ℕ)
          → (every (is_known high) parts ≡ true) ⊎ (every (is_known high) parts ≡ false)
          → add (str p) o (whole high parts) ≡ (
              if (elim o [ none ↦ false | some n ↦ true ]) && every (is_known high) parts
              then some ((str p, elim o [ none ↦ 0 | some n ↦ n ]) ∷ map (offset_of high) parts)
              else none)
      go none c = refl
      go (some n) (inl t) = rw t refl
      go (some n) (inr f) = rw f refl

abbrev pub known : Option (List (String × List ℕ)) → String → List ℕ
known none topic = []
known (some topics) topic = partitions topic topics

abbrev pub none_in : List ℕ → Bool
none_in [] = true
none_in (p ∷ parts) = false

-- A round posts everything or nothing: if the topic has partitions and the broker gives an end offset for
-- each of them, the Pushgateway receives, where the post goes through, one body with a sample for every
-- partition in their order, which carries the partition's text and its end offset; in every other
-- case it receives nothing.
pub round_whole :
    (str : ℕ → String) (broker : Broker) (topic : String) (posted : Bool)
    (received : List (List Sample))
    → round str broker topic posted received ≡ (
        if posted
          && not (none_in (known broker.topics topic))
          && every (is_known str broker.high) (known broker.topics topic)
        then received
          ++ map (end_offset str) (map (offset_of str broker.high) (known broker.topics topic)) ∷ []
        else received)
unfolding round get_end_offsets
round_whole str broker topic posted received = go broker.topics
  where
    ending : List (String × ℕ) → List (List Sample)
    ending [] = received
    ending (o ∷ offsets) =
        if posted then received ++ map (end_offset str) (o ∷ offsets) ∷ [] else received

    Posts : List ℕ → List (List Sample) → Type 0
    Posts parts now = now ≡ (
        if posted && not (none_in parts) && every (is_known str broker.high) parts
        then received ++ map (end_offset str) (map (offset_of str broker.high) parts) ∷ []
        else received)

    posting :
        (parts : List ℕ)
        → Posts parts
            (ending (elim (whole str broker.high parts) [ none ↦ [] | some offsets ↦ offsets ]))
    posting [] = elim (Bool-cases posted) [ inl t ↦ rw t refl | inr f ↦ rw f refl ]
    posting (p ∷ parts) = elim (Bool-cases (every (is_known str broker.high) (p ∷ parts))) [
      | inl t ↦ rw t (elim (Bool-cases posted) [ inl b ↦ rw b refl | inr b ↦ rw b refl ])
      | inr f ↦ rw f (elim (Bool-cases posted) [ inl b ↦ rw b refl | inr b ↦ rw b refl ])
    ]

    go :
        (topics : Option (List (String × List ℕ)))
        → Posts (known topics topic) (
            ending (elim topics [
              | none ↦ []
              | some topics ↦ elim (read str broker.high (partitions topic topics)) [
                | none ↦ []
                | some offsets ↦ offsets
              ]
            ]))
    go none = posting []
    go (some topics) =
        subst
          (λ r.
            Posts (partitions topic topics)
              (ending (elim r [ none ↦ [] | some offsets ↦ offsets ])))
          (sym (read-whole str broker.high (partitions topic topics)))
          (posting (partitions topic topics))
