-- ===== src/Skew/Modes.antt =====
-- The two modes of scripts/aggregation_skew_job.py, as they print their results.
use payments_cdc_pipeline.Prelude.{
  ℕ, ◌≤◌, String, List, [], ◌∷◌, true, false, Option, map, not, keep, In, keep-In, length,
  length-map, length-keep, count_if, count_if-not, count_if-In, Bool-cases, ◌≡◌, ◌↔◌, refl, sym, ap,
  ◌∙◌, inl, inr, arith,
}
use payments_cdc_pipeline.Prelude.Int.{ℤ}
use payments_cdc_pipeline.Grouping.{Key, distinct, distinct-In, distinct_once, text_key}
use payments_cdc_pipeline.Skew.{Row, Partial, cdf, first, naive_aggregate, salted_aggregate, main}
use payments_cdc_pipeline.Skew.Equal.{total_of, merchants_kept, salted_equals_naive}

module _ {K : Type 0} (key : Key K) where
  -- A list without repetitions is no longer than one that has its members.
  within :
      (xs ys : List K)
      → ((k : K) → count_if (key.same k) xs ≤ 1)
      → ((k : K) → In k xs → In k ys)
      → length xs ≤ length ys
  within [] ys once sub = omega arith
  within (x ∷ xs) ys once sub = omega (
    arith,
    count_if-not (key.same x) ys,
    count_if-In (key.same x) x ys (sub x (inl refl)) (key.same_refl x),
    length-keep (λ y. not (key.same x y)) ys,
    within xs (keep (λ y. not (key.same x y)) ys) (λ k. fewer k (once k)) others,
  )
    where
      fewer : (k : K) → count_if (key.same k) (x ∷ xs) ≤ 1 → count_if (key.same k) xs ≤ 1
      fewer k h = ground arith

      alone :
          count_if (key.same x) (x ∷ xs) ≤ 1 → key.same x x ≡ true → count_if (key.same x) xs ≡ 0
      alone h r = ground arith

      others : (k : K) → In k xs → In k (keep (λ y. not (key.same x y)) ys)
      others k m =
          keep-In (λ y. not (key.same x y)) k ys (sub k (inr m))
            (elim (Bool-cases (key.same x k)) [
              | inr f ↦ ap not f
              | inl t ↦ absurd (none_there (count_if-In (key.same x) k xs m t))
            ])
        where
          none_there : 1 ≤ count_if (key.same x) xs → ⊥
          none_there l = omega (arith, l, alone (once x) (key.same_refl x))

  -- Lists with the same members have as many distinct ones.
  length-distinct :
      (xs ys : List K)
      → ((k : K) → In k xs ↔ In k ys)
      → length (distinct key xs) ≡ length (distinct key ys)
  length-distinct xs ys h = omega (arith, half xs ys (λ k. (h k).0), half ys xs (λ k. (h k).1))
    where
      half :
          (xs ys : List K)
          → ((k : K) → In k xs → In k ys)
          → length (distinct key xs) ≤ length (distinct key ys)
      half xs ys f =
          within (distinct key xs) (distinct key ys) (λ k. distinct_once key k xs)
            (λ k m. (distinct-In key k ys).1 (f k ((distinct-In key k xs).0 m)))

-- The modes agree: for every feed, hash and number of salts both print the same number of merchants, and
-- every merchant, NULL included, has a row in both results or in neither, with the same wrapped sum
-- and count.
pub modes_agree :
    (hash : Option String → ℤ) (n_salt : ℕ) (feed : List Row)
    → ((main hash n_salt false feed).0 ≡ (main hash n_salt true feed).0)
      × ((m : Option String)
          → total_of m (main hash n_salt false feed).1 ≡ total_of m (main hash n_salt true feed).1)
unfolding main naive_aggregate salted_aggregate
modes_agree hash n_salt feed = (
  length-map
        (distinct text_key (map (λ (p : Partial). p.merchant_id) (first hash n_salt (cdf feed)))) _
      ∙ length-distinct text_key
          (map (λ (p : Partial). p.merchant_id) (first hash n_salt (cdf feed)))
          (map (λ (r : Row). r.merchant_id) (cdf feed)) (merchants_kept hash n_salt (cdf feed))
      ∙ sym (length-map (distinct text_key (map (λ (r : Row). r.merchant_id) (cdf feed))) _),
  salted_equals_naive hash n_salt (cdf feed),
)
