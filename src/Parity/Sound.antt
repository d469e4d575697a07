-- ===== src/Parity/Sound.antt =====
-- What a PASS of scripts/parity_checker.py establishes.
use payments_cdc_pipeline.Prelude.{
  ℕ, ◌-◌, ◌≤◌, String, List, [], ◌∷◌, Bool, true, false, Option, none, some, map, not, ◌&&◌, any,
  length, count_if, ltb, Bool-cases, In, map-In, keep-In, exists_of_count, none_left, any_witness,
  count_if-ext, count_if-In, ◌≡◌, refl, sym, ap, ◌⊎◌, inl, inr, arith,
}
use mathlib.Core.Path.{subst}
use payments_cdc_pipeline.Sql.{equal, holds}
use payments_cdc_pipeline.Change.{Entry}
use payments_cdc_pipeline.Dlq.{Message}
use payments_cdc_pipeline.Grouping.{
  distinct, distinct_once, distinct_all, same_value, same_value-eq, text_key,
}
use payments_cdc_pipeline.Parity.{
  Row, load_delta, load_dlq_keys, left_anti, inner_count, differs, is_mismatch, mismatches, dupes,
  measure, Report, decide, Verdict, check_parity,
}

and_false : (a b : Bool) → a ≡ true → (a && b) ≡ false → b ≡ false
and_false a b h k = ground arith

unmatched_none :
    (a b : List Row) (r : Row)
    → length (left_anti a b) ≡ 0
    → In r a
    → (s : Row) × In s b × (holds (equal r.transaction_id s.transaction_id) ≡ true)
unmatched_none a b r z m =
    any_witness (λ (s : Row). holds (equal r.transaction_id s.transaction_id)) b
      (ground (
        arith,
        none_left
            (λ (r : Row).
              not (any (λ (s : Row). holds (equal r.transaction_id s.transaction_id)) b))
            r a z m,
      ))

module _ (keys : List (Option String))
    (once : (k : Option String) → count_if (same_value k) keys ≤ 1) where
  known_once : (t : Option String) → count_if (λ k. holds (equal t k)) keys ≤ 1
  known_once none =
      rw (count_if-ext (λ k. holds (equal none k)) (λ k. false) keys (λ k. refl)) (nothing keys)
    where
      nothing : (ks : List (Option String)) → count_if (λ k. false) ks ≤ 1
      nothing [] = omega arith
      nothing (k ∷ ks) = nothing ks
  known_once (some t) =
      rw (count_if-ext (λ k. holds (equal (some t) k)) (same_value (some t)) keys (same t))
        (once (some t))
    where
      same : (t : String) (k : Option String) → holds (equal (some t) k) ≡ same_value (some t) k
      same t none = refl
      same t (some k) = refl

  matches_once : (r : Row) → count_if (λ k. holds (equal r.transaction_id k)) keys ≤ 1
  matches_once r = known_once r.transaction_id

  pub inner_le : (rows : List Row) → inner_count rows keys ≤ length rows
  inner_le [] = omega arith
  inner_le (r ∷ rows) = omega (arith, matches_once r, inner_le rows)

  all_matched :
      (rows : List Row)
      → length rows ≤ inner_count rows keys
      → (r : Row) → In r rows
      → (k : Option String) × In k keys × (holds (equal r.transaction_id k) ≡ true)
  all_matched [] h r m = absurd m
  all_matched (x ∷ rows) h r (inl e) = rw e (
      exists_of_count (λ k. holds (equal x.transaction_id k)) keys
        (omega (arith, h, matches_once x, inner_le rows)))
  all_matched (x ∷ rows) h r (inr m) = all_matched rows (omega (arith, h, matches_once x)) r m

count_zero :
    {A : Type 0} (p : A → Bool) (a : A) (xs : List A) → count_if p xs ≡ 0 → In a xs → p a ≡ false
count_zero p a xs z m = elim (Bool-cases (p a)) [
  | inl t ↦ absurd (omega (arith, count_if-In p a xs m t, z))
  | inr f ↦ f
]

no_mismatch :
    (pg delta : List Row)
    → mismatches pg delta ≡ 0
    → (p d : Row) → In p pg
    → In d delta
    → is_mismatch p d ≡ false
unfolding mismatches
no_mismatch [] delta z p d m n = absurd m
no_mismatch (x ∷ pg) delta z p d (inl e) n =
    rw e (count_zero (is_mismatch x) d delta (omega (arith, z)) n)
no_mismatch (x ∷ pg) delta z p d (inr m) n = no_mismatch pg delta (omega (arith, z)) p d m n

few_in_group :
    (delta : List Row)
    → dupes delta ≡ 0
    → (k : String) → count_if (λ (d : Row). same_value (some k) d.transaction_id) delta ≤ 1
unfolding dupes
few_in_group delta z k = elim (Bool-cases (ltb 1 (group (some k)))) [
  | inr f ↦ ground arith
  | inl t ↦
      let (d, m, e) =
        exists_of_count (λ (d : Row). same_value (some k) d.transaction_id) delta (ground arith) in
      let q : some k ≡ d.transaction_id = same_value-eq (some k) d.transaction_id e in
      let (j, n, u) =
        any_witness (same_value (some k))
          (distinct text_key (map (λ (d : Row). d.transaction_id) delta))
          (distinct_all text_key (some k) (map (λ (d : Row). d.transaction_id) delta) (
            subst (λ o. In o (map (λ (d : Row). d.transaction_id) delta)) (sym q)
              (map-In (λ (d : Row). d.transaction_id) d delta m))) in
      let v : some k ≡ j = same_value-eq (some k) j u in
      absurd (
        clash t (
          subst (λ o. ltb 1 (group o) ≡ false) (sym v)
            (count_zero (λ k. ltb 1 (group k)) j
              (distinct text_key (map (λ (d : Row). d.transaction_id) delta)) z n)))
]
  where
    group : Option String → ℕ
    group k = count_if (λ (d : Row). same_value k d.transaction_id) delta

    clash : {b : Bool} → b ≡ true → b ≡ false → ⊥
    clash p q = cc

pub dlq_once :
    (messages : Option (List Message)) (k : Option String)
    → count_if (same_value k) (load_dlq_keys messages) ≤ 1
unfolding load_dlq_keys
dlq_once none k = omega arith
dlq_once (some messages) k = distinct_once text_key k (map (λ (m : Message). some m.key) messages)

pass_counts :
    (r : Report)
    → decide 0 r ≡ Verdict.pass
    → (r.unaccounted ≡ 0) × (r.extra_count ≡ 0) × (r.mismatch_count ≡ 0) × (r.dupes ≡ 0)
unfolding decide
pass_counts r h = ground arith

-- A PASS without tolerance shows that every row of Postgres has a live row of its key in Delta or is
-- quarantined under its key, that every live row of Delta has a row of its key in Postgres, that no two
-- rows of one key differ as far as the comparison sees, and that no key is twice among Delta's live
-- rows.
pub parity_pass_sound :
    (pg : List Row) (table : List Entry) (messages : Option (List Message))
    → check_parity 0 pg table messages ≡ Verdict.pass
    → ((p : Row)
        → In p pg
        → ((d : Row) × In d (load_delta table)
            × (holds (equal p.transaction_id d.transaction_id) ≡ true))
          ⊎ ((k : Option String) × In k (load_dlq_keys messages)
              × (holds (equal p.transaction_id k) ≡ true)))
      × ((d : Row)
          → In d (load_delta table)
          → (p : Row) × In p pg × (holds (equal d.transaction_id p.transaction_id) ≡ true))
      × ((p d : Row)
          → In p pg
          → In d (load_delta table)
          → holds (equal p.transaction_id d.transaction_id) ≡ true
          → holds (differs p d) ≡ false)
      × ((k : String)
          → count_if (λ (d : Row). same_value (some k) d.transaction_id) (load_delta table) ≤ 1)
unfolding check_parity measure
parity_pass_sound pg table messages h =
    let delta = load_delta table in
    let keys = load_dlq_keys messages in
    let (u, x, m, g) = pass_counts (measure pg delta keys) h in
    (
      λ p i.
          accounted p i
            (Bool-cases (any (λ (s : Row). holds (equal p.transaction_id s.transaction_id)) delta))
            u,
      λ d i. unmatched_none delta pg d x i,
      λ p d i j e. agree p d e (no_mismatch pg delta m p d i j),
      few_in_group delta g,
    )
  where
    agree :
        (p d : Row)
        → holds (equal p.transaction_id d.transaction_id) ≡ true
        → is_mismatch p d ≡ false
        → holds (differs p d) ≡ false
    agree p d e n = and_false _ _ e n

    accounted :
        (p : Row)
        → In p pg
        → (any (λ (s : Row). holds (equal p.transaction_id s.transaction_id)) (load_delta table)
            ≡ true)
          ⊎ (any (λ (s : Row). holds (equal p.transaction_id s.transaction_id)) (load_delta table)
              ≡ false)
        → length (left_anti pg (load_delta table))
            - inner_count (left_anti pg (load_delta table)) (load_dlq_keys messages)
          ≡ 0
        → ((d : Row) × In d (load_delta table)
            × (holds (equal p.transaction_id d.transaction_id) ≡ true))
          ⊎ ((k : Option String) × In k (load_dlq_keys messages)
              × (holds (equal p.transaction_id k) ≡ true))
    accounted p i (inl t) u = inl (
        any_witness (λ (s : Row). holds (equal p.transaction_id s.transaction_id))
          (load_delta table) t)
    accounted p i (inr f) u = inr (
        all_matched (load_dlq_keys messages) (dlq_once messages) (left_anti pg (load_delta table))
          (omega (arith, u)) p
          (keep-In
            (λ (r : Row). not (
              any (λ (s : Row). holds (equal r.transaction_id s.transaction_id))
                (load_delta table)))
            p pg i (ap not f)))
