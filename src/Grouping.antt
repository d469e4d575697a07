-- ===== src/Grouping.antt =====
-- Spark's `distinct` and `groupBy` on key columns, in which NULL is one value: the keys of a list, once
-- each, and the sums of the groups. They serve the scripts, which count and aggregate by key.
pub mod Sums
pub mod Order
use payments_cdc_pipeline.Prelude.{
  ℕ, ◌≤◌, String, List, [], ◌∷◌, Bool, true, false, Option, none, some, ◌&&◌, any, count_if,
  count-any, count_if-In, any_witness, ◌↔◌, text_eq, text_eq_refl, eq_iff, ◌==◌, ==_iff,
  if◌then◌else◌, Bool-cases, In, ◌≡◌, refl, sym, ap, inl, inr, arith,
}
use mathlib.Core.Path.{subst}

-- A key type with its test for equality.
pub record Key (K : Type 0) : Type 0 where
  pub same : K → K → Bool
  pub same-eq : (j k : K) → same j k ≡ true → j ≡ k
  pub same_refl : (k : K) → same k k ≡ true

module _ {K : Type 0} (key : Key K) where
  -- The keys of a list. Spark gives them in no set order; this is one.
  unfoldable pub distinct : List K → List K
  distinct [] = []
  distinct (k ∷ ks) = let rest = distinct ks in if any (key.same k) rest then rest else k ∷ rest

  pub distinct_once : (k : K) (ks : List K) → count_if (key.same k) (distinct ks) ≤ 1
  unfolding distinct
  distinct_once k [] = omega arith
  distinct_once k (x ∷ ks) = elim (Bool-cases (any (key.same x) (distinct ks))) [
    | inl t ↦ rw t (distinct_once k ks)
    | inr f ↦ rw f (elim (Bool-cases (key.same k x)) [
      | inl u ↦ rw u (
          omega (
            arith,
            subst (λ z. count_if (key.same z) (distinct ks) ≡ 0) (sym (key.same-eq k x u))
                (count-any (key.same x) (distinct ks) f),
          ))
      | inr n ↦ rw n (distinct_once k ks)
    ])
  ]

  pub distinct_all : (k : K) (ks : List K) → In k ks → any (key.same k) (distinct ks) ≡ true
  unfolding distinct
  distinct_all k [] m = absurd m
  distinct_all k (x ∷ ks) (inl e) = elim (Bool-cases (any (key.same x) (distinct ks))) [
    | inl t ↦ rw (t, e) t
    | inr f ↦ rw f (ground (arith, subst (λ z. key.same k z ≡ true) e (key.same_refl k)))
  ]
  distinct_all k (x ∷ ks) (inr m) = elim (Bool-cases (any (key.same x) (distinct ks))) [
    | inl t ↦ rw t (distinct_all k ks m)
    | inr f ↦ rw f (ground (arith, distinct_all k ks m))
  ]

  any_of_count : (k : K) (ks : List K) → any (key.same k) ks ≡ true → 1 ≤ count_if (key.same k) ks
  any_of_count k [] h = absurd (ground arith)
  any_of_count k (x ∷ ks) h = ground (arith, any_of_count k ks)

  -- A key of the list stands among its distinct keys exactly once.
  pub distinct_exactly : (k : K) (ks : List K) → In k ks → count_if (key.same k) (distinct ks) ≡ 1
  distinct_exactly k ks m =
      omega (arith, distinct_once k ks, any_of_count k (distinct ks) (distinct_all k ks m))

-- The distinct keys are the keys of the list.
module _ {K : Type 0} (key : Key K) where
  first_or : (k x : K) (ds ks : List K) → (In k ds → In k ks) → In k (x ∷ ds) → In k (x ∷ ks)
  first_or k x ds ks h (inl e) = inl e
  first_or k x ds ks h (inr n) = inr (h n)

  distinct_sub : (k : K) (ks : List K) → In k (distinct key ks) → In k ks
  unfolding distinct
  distinct_sub k [] m = m
  distinct_sub k (x ∷ ks) m = elim (Bool-cases (any (key.same x) (distinct key ks))) [
    | inl t ↦ inr (distinct_sub k ks (rw t at m))
    | inr f ↦ first_or k x (distinct key ks) ks (distinct_sub k ks) (rw f at m)
  ]

  pub distinct-In : (k : K) (ks : List K) → In k (distinct key ks) ↔ In k ks
  distinct-In k ks = (
    distinct_sub k ks,
    λ m.
        let (j, n, e) = any_witness (key.same k) (distinct key ks) (distinct_all key k ks m) in
        subst (λ (z : K). In z (distinct key ks)) (sym (key.same-eq k j e)) n,
  )

-- Nullable columns.
abbrev pub same_value : Option String → Option String → Bool
same_value none none = true
same_value (some a) (some b) = text_eq a b
same_value _ _ = false

pub same_value-eq : (j k : Option String) → same_value j k ≡ true → j ≡ k
same_value-eq none none h = refl
same_value-eq none (some k) h = ground arith
same_value-eq (some j) none h = ground arith
same_value-eq (some j) (some k) h = ap some ((eq_iff j k).0 h)

pub same_value_refl : (k : Option String) → same_value k k ≡ true
same_value_refl none = refl
same_value_refl (some k) = text_eq_refl k

abbrev pub same_number : Option ℕ → Option ℕ → Bool
same_number none none = true
same_number (some i) (some j) = i == j
same_number _ _ = false

pub same_number-eq : (j k : Option ℕ) → same_number j k ≡ true → j ≡ k
same_number-eq none none h = refl
same_number-eq none (some k) h = ground arith
same_number-eq (some j) none h = ground arith
same_number-eq (some j) (some k) h = ap some ((==_iff j k).0 h)

pub same_number_refl : (k : Option ℕ) → same_number k k ≡ true
same_number_refl none = refl
same_number_refl (some k) = (==_iff k k).1 refl

abbrev pub text_key : Key (Option String)
text_key = record { same = same_value; same-eq = same_value-eq; same_refl = same_value_refl }

abbrev pub number_key : Key (Option ℕ)
number_key = record { same = same_number; same-eq = same_number-eq; same_refl = same_number_refl }

pub and_left : (a b : Bool) → (a && b) ≡ true → a ≡ true
and_left a b h = ground arith

pub and_right : (a b : Bool) → (a && b) ≡ true → b ≡ true
and_right a b h = ground arith

pub both_true : (a b : Bool) → a ≡ true → b ≡ true → (a && b) ≡ true
both_true a b h k = ground arith

-- Two key columns.
abbrev pub pair_key : {J K : Type 0} → Key J → Key K → Key (J × K)
pair_key j k = record {
  same = λ p q. j.same p.0 q.0 && k.same p.1 q.1;
  same-eq =
      λ p q h i. (j.same-eq p.0 q.0 (and_left _ _ h) i, k.same-eq p.1 q.1 (and_right _ _ h) i);
  same_refl = λ p. both_true _ _ (j.same_refl p.0) (k.same_refl p.1);
}
