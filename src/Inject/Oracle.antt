-- ===== src/Inject/Oracle.antt =====
-- What a run of scripts/inject_bad_records.py leaves in Postgres and in its file of ids, beside the counts
-- that scripts/parity_checker.py and scripts/trend_monitor.py compare against.
use mathlib.Core.Path.{subst}
use payments_cdc_pipeline.Prelude.{
  ℕ, zero, suc, String, List, [], ◌∷◌, ◌++◌, true, false, length, Bool, Option, none, some, arith,
  ◌∙◌, ◌≡◌, refl, ap,
}
use payments_cdc_pipeline.Prelude.Int.{pos, negsuc}
use payments_cdc_pipeline.Errors.{ok}
use payments_cdc_pipeline.Parity.{expected_quarantine_after_injection}
use payments_cdc_pipeline.Trend.{oracle_alert}
use payments_cdc_pipeline.Exec.{
  Exec, embed, pure, ◌>>=◌, ◌>>◌, check-inversion, write-inversion, pure-inversion,
}
use payments_cdc_pipeline.Inject.{
  Row, Codec, payment, known_merchant, ghost_merchant, valid_currency, invalid_currency,
  check_streaming_job_alive, assert_transaction_id_is_uuid,
}
use payments_cdc_pipeline.Inject.Postgres.{Stores, publish, publish_rogue_avro}
use payments_cdc_pipeline.Inject.Suite.{
  TestResult, Dump, Run, result_of, conclude, ids_from, valid_rows, invalid_spec, valid_ids,
  invalid_ids, not_a_uuid, test_1_negative_amount, test_2_invalid_currency, test_3_invalid_uuid,
  test_4_unknown_merchant, test_5_mixed_batch, mixed_verdict, run_suite,
}

-- The stores after the rogue message, if the call returned.
abbrev delivered : Option Bool → String → ℕ → String → Stores → Stores
delivered none tid now_ms now_str st = st
delivered (some answer) tid now_ms now_str st = publish tid now_ms now_str st

publish-inversion :
    {A B : Type 0} (delivery : Option Bool) (tid : String) (now_ms : ℕ) (now_str : String) (a : A)
    (k : A → Exec Stores B) (st st' : Stores) (b : B)
    → (publish_rogue_avro delivery tid now_ms now_str >> pure a >>= k) st ≡ (ok b, st')
    → k a (delivered delivery tid now_ms now_str st) ≡ (ok b, st')
publish-inversion none tid now_ms now_str a k st st' b h = h
publish-inversion (some true) tid now_ms now_str a k st st' b h = h
publish-inversion (some false) tid now_ms now_str a k st st' b h = absurd (ground (arith, h))

-- Kafka is not Postgres.
delivered-rows :
    (delivery : Option Bool) (tid : String) (now_ms : ℕ) (now_str : String) (st : Stores)
    → st.rows ≡ (delivered delivery tid now_ms now_str st).rows
delivered-rows none tid now_ms now_str st = refl
delivered-rows (some b) tid now_ms now_str st = refl

module _ (codec : Codec) (run : Run) where
  abbrev pub r₁ : TestResult
  r₁ = result_of codec run.o₁ (run.uuid 0) "NEGATIVE_AMOUNT" true

  abbrev pub r₂ : TestResult
  r₂ = result_of codec run.o₂ (run.uuid 1) "INVALID_CURRENCY" true

  abbrev pub r₃ : TestResult
  r₃ = result_of codec run.o₃ not_a_uuid "INVALID_UUID" false

  abbrev pub r₄ : TestResult
  r₄ = result_of codec run.o₄ (run.uuid 2) "UNKNOWN_MERCHANT" true

  abbrev pub r₅ : TestResult
  r₅ = record {
    name = "MIXED_BATCH";
    passes = mixed_verdict codec run.o₅ (valid_ids run) (invalid_ids run);
    ids = invalid_ids run;
    in_postgres = true;
  }

  abbrev pub ran : List Row → List Row
  ran rows =
      (((rows ++ (payment (run.uuid 0) known_merchant (negsuc 1499) valid_currency ∷ []))
          ++ (payment (run.uuid 1) known_merchant (pos 2500) invalid_currency ∷ []))
        ++ (payment (run.uuid 2) ghost_merchant (pos 3300) valid_currency ∷ []))
      ++ (valid_rows (valid_ids run) ++ invalid_spec 0 (invalid_ids run))

  abbrev last : TestResult → TestResult → TestResult → TestResult → Exec Stores (ℕ × Dump)
  last a b c d = test_5_mixed_batch codec run.o₅ (valid_ids run) (invalid_ids run) >>= λ e.
      pure (conclude (a ∷ b ∷ c ∷ d ∷ e ∷ []))

  abbrev fourth : TestResult → TestResult → TestResult → Exec Stores (ℕ × Dump)
  fourth a b c = test_4_unknown_merchant codec run.o₄ (run.uuid 2) >>= last a b c

  abbrev third : TestResult → TestResult → Exec Stores (ℕ × Dump)
  third a b = test_3_invalid_uuid codec run.o₃ run.delivery run.now_ms run.now_str >>= fourth a b

  abbrev second : TestResult → Exec Stores (ℕ × Dump)
  second a = test_2_invalid_currency codec run.o₂ (run.uuid 1) >>= third a

  pub run_suite-inversion :
      (st st' : Stores) (outcome : ℕ × Dump)
      → run_suite codec run st ≡ (ok outcome, st')
      → (conclude (r₁ ∷ r₂ ∷ r₃ ∷ r₄ ∷ r₅ ∷ []) ≡ outcome) × (ran st.rows ≡ st'.rows)
  unfolding run_suite
  run_suite-inversion st st' out h =
      let tests = test_1_negative_amount codec run.o₁ (run.uuid 0) >>= second in
      let h₁ =
        check-inversion (check_streaming_job_alive run.processes)
          (embed (assert_transaction_id_is_uuid run.data_types) >> tests) st st' out h in
      let h₂ = check-inversion (assert_transaction_id_is_uuid run.data_types) tests st st' out h₁ in
      let h₃ = write-inversion run.o₁.save _ _ _ second st st' out h₂ in
      let h₄ = write-inversion run.o₂.save _ _ _ (third r₁) two_rows.0 st' out h₃ in
      let h₅ =
        publish-inversion run.delivery not_a_uuid run.now_ms run.now_str r₃ (fourth r₁ r₂)
          two_rows.1 st' out h₄ in
      let h₆ = write-inversion run.o₄.save _ _ _ (last r₁ r₂ r₃) _ st' out h₅ in
      let (e, f) = pure-inversion _ out _ st' (
        write-inversion run.o₅.save _ _ _
          (λ (e : TestResult). pure (conclude (r₁ ∷ r₂ ∷ r₃ ∷ r₄ ∷ e ∷ []))) _ st' out h₆) in
      (
        e,
        ap
              (λ (rows : List Row).
                (rows ++ (payment (run.uuid 2) ghost_merchant (pos 3300) valid_currency ∷ []))
                ++ (valid_rows (valid_ids run) ++ invalid_spec 0 (invalid_ids run)))
              (delivered-rows run.delivery not_a_uuid run.now_ms run.now_str two_rows.1)
            ∙ ap (λ (x : Stores). x.rows) f,
      )
    where
      -- The stores after the first test, and after the second.
      two_rows : Stores × Stores
      two_rows =
          let one = record st {
            rows =
                st.rows ++ (payment (run.uuid 0) known_merchant (negsuc 1499) valid_currency ∷ []);
          } in
          (
            one,
            record one {
              rows =
                  one.rows
                  ++ (payment (run.uuid 1) known_merchant (pos 2500) invalid_currency ∷ []);
            },
          )

length-ids_from : (uuid : ℕ → String) (n k : ℕ) → length (ids_from uuid n k) ≡ k
length-ids_from uuid n zero = refl
length-ids_from uuid n (suc k) = ap suc (length-ids_from uuid (suc n) k)

-- Every run of the suite that returns writes down the counts that the checkers expect: the number of rows
-- that the parity checker wants in quarantine, and the number of dead letters at which the trend monitor
-- reports the injection. The suite is in any state of the stores, and its tests may pass or fail.
pub oracle_counts :
    (codec : Codec) (run : Run) (st st' : Stores) (code : ℕ) (dump : Dump)
    → run_suite codec run st ≡ (ok (code, dump), st')
    → (dump.quarantine_oracle ≡ expected_quarantine_after_injection)
      × (oracle_alert (some dump.dlq_oracle) ≡ 1)
oracle_counts codec run st st' code dump h =
    let e = ap (λ (o : ℕ × Dump). o.1) (run_suite-inversion codec run st st' (code, dump) h).0 in
    subst (λ (d : Dump). (d.quarantine_oracle ≡ 53) × (oracle_alert (some d.dlq_oracle) ≡ 1)) e
      (refl, refl)
