-- ===== src/Skew/Equal.antt =====
-- Salting of scripts/aggregation_skew_job.py changes no merchant's total.
use payments_cdc_pipeline.Prelude.{
  ℕ, String, List, [], ◌∷◌, Bool, true, false, Option, none, some, map, keep, any, count_if,
  count_if-keep, count_if-ext, ◌&&◌, In, In-map, map-In, In-keep, any-In, any_witness,
  if◌then◌else◌, Bool-cases, ◌≡◌, ◌↔◌, refl, sym, ap, ◌∙◌, inl, inr,
}
use payments_cdc_pipeline.Prelude.Int.{ℤ}
use mathlib.Core.Path.{subst}
use payments_cdc_pipeline.Grouping.{
  distinct, distinct-In, distinct_exactly, same_value, same_value-eq, same_value_refl, text_key,
}
use payments_cdc_pipeline.Grouping.Sums.{total, total-ext, total-map, group_total, groups_total}
use payments_cdc_pipeline.Skew.{
  Row, Total, Partial, Aggregate, adding, share, naive_aggregate, salted_aggregate, first, salted,
  salted_key,
}

-- A merchant's row of a result.
abbrev pub total_of : Option String → List Total → Option Aggregate
total_of m [] = none
total_of m (t ∷ ts) =
    let rest = total_of m ts in if same_value t.merchant_id m then some t.aggregate else rest

abbrev has : Option String → List (Option String) → Bool
has m ms = any (λ k. same_value k m) ms

total_of-groups :
    (g : Option String → Aggregate) (m : Option String) (ms : List (Option String))
    → total_of m (map (λ k. record { merchant_id = k; aggregate = g k }) ms)
      ≡ (if has m ms then some (g m) else none)
total_of-groups g m [] = refl
total_of-groups g m (k ∷ ms) = elim (Bool-cases (same_value k m)) [
  | inl t ↦ rw t (ap (λ z. some (g z)) (same_value-eq k m t))
  | inr f ↦ rw f (total_of-groups g m ms)
]

has-In : (m : Option String) (ms : List (Option String)) → (has m ms ≡ true) ↔ In m ms
has-In m ms = (
  λ h.
      let (k, n, e) = any_witness (λ k. same_value k m) ms h in
      subst (λ z. In z ms) (same_value-eq k m e) n,
  λ n. any-In (λ k. same_value k m) m ms n (same_value_refl m),
)

same_bool : (a b : Bool) → (a ≡ true → b ≡ true) → (b ≡ true → a ≡ true) → a ≡ b
same_bool true b h k = sym (h refl)
same_bool false true h k = k refl
same_bool false false h k = refl

keep-map :
    {A B : Type 0} (p : B → Bool) (f : A → B) (xs : List A)
    → keep p (map f xs) ≡ map f (keep (λ x. p (f x)) xs)
keep-map p f [] = refl
keep-map p f (x ∷ xs) = elim (Bool-cases (p (f x))) [
  | inl t ↦ rw t (ap (◌∷◌ (f x)) (keep-map p f xs))
  | inr n ↦ rw n (keep-map p f xs)
]

keep-keep :
    {A : Type 0} (p q : A → Bool) (xs : List A)
    → ((x : A) → p x ≡ true → q x ≡ true)
    → keep p (keep q xs) ≡ keep p xs
keep-keep p q [] h = refl
keep-keep p q (x ∷ xs) h = elim (Bool-cases (q x)) [
  | inl t ↦ elim (Bool-cases (p x)) [
    | inl u ↦ rw (t, u) (ap (◌∷◌ x) (keep-keep p q xs h))
    | inr u ↦ rw (t, u) (keep-keep p q xs h)
  ]
  | inr n ↦ elim (Bool-cases (p x)) [
    | inl u ↦ absurd (clash (h x u) n)
    | inr u ↦ rw (n, u) (keep-keep p q xs h)
  ]
]
  where
    clash : {b : Bool} → b ≡ true → b ≡ false → ⊥
    clash a b = cc

and_absorb : (a b : Bool) → (a ≡ true → b ≡ true) → (a && b) ≡ a
and_absorb true b h = h refl
and_absorb false b h = refl

module _ (hash : Option String → ℤ) (n_salt : ℕ) (df : List Row) where
  abbrev keys : List (Option String × Option ℕ)
  keys = distinct (salted hash n_salt) (map (salted_key hash n_salt) df)

  module _ (m : Option String) where
    abbrev mine : List Row
    mine = keep (λ (r : Row). same_value r.merchant_id m) df

    abbrev my_keys : List (Option String × Option ℕ)
    my_keys = keep (λ k. same_value k.0 m) keys

    -- Each of the merchant's rows has its salted key once among the merchant's.
    key_once :
        (r : Row)
        → In r mine
        → count_if ((salted hash n_salt).same (salted_key hash n_salt r)) my_keys ≡ 1
    key_once r i =
        let (j, e) = In-keep (λ (r : Row). same_value r.merchant_id m) r df i in
        count_if-keep ((salted hash n_salt).same (salted_key hash n_salt r)) (λ k. same_value k.0 m)
          keys
        ∙ count_if-ext _ ((salted hash n_salt).same (salted_key hash n_salt r)) keys (λ k.
          and_absorb _ _ (λ h.
            subst (λ (z : Option String × Option ℕ). same_value z.0 m ≡ true)
              ((salted hash n_salt).same-eq (salted_key hash n_salt r) k h) e))
        ∙ distinct_exactly (salted hash n_salt) (salted_key hash n_salt r)
            (map (salted_key hash n_salt) df) (map-In (salted_key hash n_salt) r df j)

    -- The groups of one merchant hold that merchant's rows.
    group_mine :
        (k : Option String × Option ℕ)
        → In k my_keys
        → group_total adding (salted hash n_salt) (salted_key hash n_salt) share df k
          ≡ group_total adding (salted hash n_salt) (salted_key hash n_salt) share mine k
    group_mine k i =
        let (j, e) = In-keep (λ (k : Option String × Option ℕ). same_value k.0 m) k keys i in
        ap (total adding share) (
          sym (
            keep-keep (λ r. (salted hash n_salt).same (salted_key hash n_salt r) k)
              (λ (r : Row). same_value r.merchant_id m) df
              (λ r h.
                subst (λ (z : Option String × Option ℕ). same_value z.0 m ≡ true)
                  (sym ((salted hash n_salt).same-eq (salted_key hash n_salt r) k h)) e)))

    two_steps :
        total adding
          (λ (p : Partial). p.aggregate)
          (keep (λ (p : Partial). same_value p.merchant_id m) (first hash n_salt df))
        ≡ total adding share mine
    unfolding first
    two_steps =
        ap (total adding (λ (p : Partial). p.aggregate))
          (keep-map (λ (p : Partial). same_value p.merchant_id m) _ keys)
        ∙ total-map adding (λ (p : Partial). p.aggregate) _ my_keys
        ∙ total-ext adding _ _ my_keys group_mine
        ∙ groups_total adding (salted hash n_salt) (salted_key hash n_salt) share my_keys mine
            key_once

  -- The first step has the rows' merchants.
  pub merchants_kept :
      (m : Option String)
      → In m (map (λ (p : Partial). p.merchant_id) (first hash n_salt df))
        ↔ In m (map (λ (r : Row). r.merchant_id) df)
  unfolding first
  merchants_kept m = (
    λ i.
        let (p, j, e) = In-map (λ (p : Partial). p.merchant_id) m _ i in
        let (k, l, f) = In-map _ p keys j in
        let n = (distinct-In (salted hash n_salt) k (map (salted_key hash n_salt) df)).0 l in
        let (r, o, g) = In-map (salted_key hash n_salt) k df n in
        subst (λ z. In z (map (λ (r : Row). r.merchant_id) df))
          (sym (
            e
            ∙ ap (λ (p : Partial). p.merchant_id) f
            ∙ ap (λ (k : Option String × Option ℕ). k.0) g))
          (map-In (λ (r : Row). r.merchant_id) r df o),
    λ i.
        let (r, o, g) = In-map (λ (r : Row). r.merchant_id) m df i in
        let n =
          (distinct-In (salted hash n_salt) (salted_key hash n_salt r)
              (map (salted_key hash n_salt) df)).1
            (map-In (salted_key hash n_salt) r df o) in
        subst (λ z. In z (map (λ (p : Partial). p.merchant_id) (first hash n_salt df))) (sym g)
          (map-In (λ (p : Partial). p.merchant_id) _ (first hash n_salt df)
            (map-In _ (salted_key hash n_salt r) keys n)),
  )

  has_distinct :
      (m : Option String) (js ks : List (Option String))
      → In m js ↔ In m ks
      → has m (distinct text_key js) ≡ has m (distinct text_key ks)
  has_distinct m js ks h = same_bool _ _ (carry js ks h.0) (carry ks js h.1)
    where
      carry :
          (js ks : List (Option String))
          → (In m js → In m ks)
          → has m (distinct text_key js) ≡ true
          → has m (distinct text_key ks) ≡ true
      carry js ks f t = (has-In m (distinct text_key ks)).1 (
          (distinct-In text_key m ks).1
            (f ((distinct-In text_key m js).0 ((has-In m (distinct text_key js)).0 t))))

-- Salting changes no merchant's result: for every merchant, NULL included, the two-step aggregate has a
-- row if and only if the plain one has, with the same wrapped sum and count, whatever the hash, the number
-- of salts and the rows.
pub salted_equals_naive :
    (hash : Option String → ℤ) (n_salt : ℕ) (df : List Row) (m : Option String)
    → total_of m (salted_aggregate hash n_salt df) ≡ total_of m (naive_aggregate df)
unfolding salted_aggregate naive_aggregate
salted_equals_naive hash n_salt df m =
    total_of-groups _ m
      (distinct text_key (map (λ (p : Partial). p.merchant_id) (first hash n_salt df)))
    ∙ ap
        (λ b.
          if b
          then some (
              total adding (λ (p : Partial). p.aggregate)
                (keep (λ (p : Partial). same_value p.merchant_id m) (first hash n_salt df)))
          else none)
        (has_distinct hash n_salt df m _ _ (merchants_kept hash n_salt df m))
    ∙ ap
        (λ a.
          if has m (distinct text_key (map (λ (r : Row). r.merchant_id) df)) then some a else none)
        (two_steps hash n_salt df m)
    ∙ sym (total_of-groups _ m (distinct text_key (map (λ (r : Row). r.merchant_id) df)))
