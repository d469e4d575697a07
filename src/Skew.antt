-- ===== src/Skew.antt =====
-- The skew demonstration, scripts/aggregation_skew_job.py: the total of each merchant, aggregated at
-- once and in two steps over salted keys. An amount is the pattern of a 64-bit number, and Spark's sum
-- skips NULLs and wraps around, as does the sum of counts. `repartition` moves rows between tasks and
-- changes no group, so it does not occur. Spark's `hash` is a parameter.
pub mod Equal
pub mod Modes
mod Examples
use payments_cdc_pipeline.Prelude.{
  ℕ, ◌+◌, ◌-◌, ◌*◌, ◌%◌, ◌^◌, ◌≤◌, ◌<◌, String, List, [], ◌∷◌, Bool, true, false, Option, none,
  some, map, keep, ◌≡◌, refl, ap, arith, if◌then◌else◌, ◌==◌, length,
}
use payments_cdc_pipeline.Prelude.Int.{ℤ, pos, negsuc}
use payments_cdc_pipeline.Sql.{member}
use payments_cdc_pipeline.Grouping.{Key, distinct, same_value, text_key, number_key, pair_key}
use payments_cdc_pipeline.Grouping.Sums.{Addition, total}

-- A row of the change feed.
pub record Row : Type 0 where
  pub change_type : String
  pub transaction_id : Option String
  pub merchant_id : Option String
  pub amount_minor : Option ℕ

abbrev pub wrap_add : ℕ → ℕ → ℕ
wrap_add a b = (a + b) % 2 ^ 64

-- The sum of a nullable column: NULL where no row has a value.
abbrev pub add_nullable : Option ℕ → Option ℕ → Option ℕ
add_nullable none b = b
add_nullable (some a) none = some a
add_nullable (some a) (some b) = some (wrap_add a b)

-- The two aggregates, `sum` and `count` or the sum of counts. A count that was not yet added to wraps
-- as well: it is none where there is no row.
abbrev pub Aggregate : Type 0
Aggregate = Option ℕ × Option ℕ

abbrev pub add : Aggregate → Aggregate → Aggregate
add a b = (add_nullable a.0 b.0, add_nullable a.1 b.1)

pub add_nullable_assoc :
    (a b c : Option ℕ) → add_nullable (add_nullable a b) c ≡ add_nullable a (add_nullable b c)
add_nullable_assoc none b c = refl
add_nullable_assoc (some a) none c = refl
add_nullable_assoc (some a) (some b) none = refl
add_nullable_assoc (some a) (some b) (some c) = ap some (omega arith)

pub add_nullable_comm : (a b : Option ℕ) → add_nullable a b ≡ add_nullable b a
add_nullable_comm none none = refl
add_nullable_comm none (some b) = refl
add_nullable_comm (some a) none = refl
add_nullable_comm (some a) (some b) = ap some (omega arith)

abbrev pub adding : Addition Aggregate
adding = record {
  none_added = (none, none);
  add = add;
  add_assoc = λ a b c i. (add_nullable_assoc a.0 b.0 c.0 i, add_nullable_assoc a.1 b.1 c.1 i);
  add_comm = λ a b i. (add_nullable_comm a.0 b.0 i, add_nullable_comm a.1 b.1 i);
  none-add = λ a. refl;
}

-- A row's share of the aggregates.
abbrev pub share : Row → Aggregate
share r = (r.amount_minor, some 1)

-- A row of the result.
pub record Total : Type 0 where
  pub merchant_id : Option String
  pub aggregate : Aggregate

pub naive_aggregate : List Row → List Total
unfolding distinct
naive_aggregate df =
    map
      (λ m. record {
        merchant_id = m;
        aggregate = total adding share (keep (λ (r : Row). same_value r.merchant_id m) df);
      })
      (distinct text_key (map (λ (r : Row). r.merchant_id) df))

-- `pmod(h, n)`, which is NULL for 0
abbrev pub pmod : ℤ → ℕ → Option ℕ
pmod (pos k) n = if n == 0 then none else some (k % n)
pmod (negsuc k) n = if n == 0 then none else some (n - 1 - k % n)

-- A row of the first step.
pub record Partial : Type 0 where
  pub merchant_id : Option String
  pub salt : Option ℕ
  pub aggregate : Aggregate

module _ (hash : Option String → ℤ) (n_salt : ℕ) where
  abbrev pub salted_key : Row → Option String × Option ℕ
  salted_key r = (r.merchant_id, pmod (hash r.transaction_id) n_salt)

  abbrev pub salted : Key (Option String × Option ℕ)
  salted = pair_key text_key number_key

  pub first : List Row → List Partial
  unfolding distinct
  first df =
      map
        (λ k. record {
          merchant_id = k.0;
          salt = k.1;
          aggregate = total adding share (keep (λ r. salted.same (salted_key r) k) df);
        })
        (distinct salted (map salted_key df))

  pub salted_aggregate : List Row → List Total
  unfolding first
  salted_aggregate df =
      map
        (λ m. record {
          merchant_id = m;
          aggregate =
              total adding (λ (p : Partial). p.aggregate)
                (keep (λ (p : Partial). same_value p.merchant_id m) (first df));
        })
        (distinct text_key (map (λ (p : Partial). p.merchant_id) (first df)))

-- The change rows that `main` aggregates.
abbrev pub cdf : List Row → List Row
cdf feed = keep (λ r. member ("insert" ∷ "update_postimage" ∷ []) r.change_type) feed

-- `main`: the aggregate of the mode, and the number of its rows that is printed.
pub main : (Option String → ℤ) → ℕ → Bool → List Row → ℕ × List Total
main hash n_salt naive feed =
    let result =
      if naive then naive_aggregate (cdf feed) else salted_aggregate hash n_salt (cdf feed) in
    (length result, result)
