-- ===== src/Parity/Order.antt =====
-- The frames that scripts/parity_checker.py reads have no order: Spark gives their rows in another one at
-- every run.
use payments_cdc_pipeline.Prelude.{
  ℕ, ◌+◌, ◌-◌, String, List, [], ◌∷◌, Bool, Option, none, some, map, not, any, length, keep-ext,
  count_if, count_if-perm, count_if-ext, length-perm, ltb, ◌≡◌, refl, sym, ap, ◌∙◌, arith,
}
use mathlib.Core.List.{Permᴰ}
use mathlib.Core.List.Permᴰ
use mathlib.Core.Path.{subst}
use payments_cdc_pipeline.Sql.{equal, holds}
use payments_cdc_pipeline.Change.{Entry}
use payments_cdc_pipeline.Dlq.{Message}
use payments_cdc_pipeline.Grouping.{distinct, same_value, text_key}
use payments_cdc_pipeline.Grouping.Order.{any-perm, keep-perm, distinct-perm}
use payments_cdc_pipeline.Parity.{
  Row, select, is_live, load_delta, load_dlq_keys, left_anti, inner_count, is_mismatch, mismatches,
  dupes, measure, decide, check_parity,
}

left_anti-perm :
    {a a' b b' : List Row} → Permᴰ a a' → Permᴰ b b' → Permᴰ (left_anti a b) (left_anti a' b')
left_anti-perm {a = a} {a' = a'} {b = b} {b' = b'} h k =
    subst (λ l. Permᴰ l (left_anti a' b'))
      (keep-ext (absent b') (absent b) a (λ r. ap not (any-perm (matches r) (Permᴰ.symm k))))
      (keep-perm (absent b') h)
  where
    matches : Row → Row → Bool
    matches r s = holds (equal r.transaction_id s.transaction_id)

    absent : List Row → Row → Bool
    absent c r = not (any (matches r) c)

-- A count over the pairs of two frames.
module _ {A B : Type 0} (p : A → B → Bool) where
  abbrev pairs : List A → List B → ℕ
  pairs [] ys = 0
  pairs (x ∷ xs) ys = count_if (p x) ys + pairs xs ys

  pairs-right : (xs : List A) {ys ys' : List B} → Permᴰ ys ys' → pairs xs ys ≡ pairs xs ys'
  pairs-right [] k = refl
  pairs-right (x ∷ xs) k = omega (arith, count_if-perm (p x) k, pairs-right xs k)

  pairs-left : {xs xs' : List A} (ys : List B) → Permᴰ xs xs' → pairs xs ys ≡ pairs xs' ys
  pairs-left ys Permᴰ.nil = refl
  pairs-left ys (Permᴰ.cons e h) = rw (e, pairs-left ys h) refl
  pairs-left ys (Permᴰ.swap e f) = rw (e, f) (omega arith)
  pairs-left ys (Permᴰ.trans h k) = pairs-left ys h ∙ pairs-left ys k

  pairs-perm :
      {xs xs' : List A} {ys ys' : List B}
      → Permᴰ xs xs'
      → Permᴰ ys ys'
      → pairs xs ys ≡ pairs xs' ys'
  pairs-perm h k = pairs-left _ h ∙ pairs-right _ k

abbrev is_key : Row → Option String → Bool
is_key r k = holds (equal r.transaction_id k)

inner_count-pairs :
    (rows : List Row) (keys : List (Option String)) → inner_count rows keys ≡ pairs is_key rows keys
inner_count-pairs [] keys = refl
inner_count-pairs (r ∷ rows) keys = omega (arith, inner_count-pairs rows keys)

mismatches-pairs : (pg delta : List Row) → mismatches pg delta ≡ pairs is_mismatch pg delta
unfolding mismatches
mismatches-pairs [] delta = refl
mismatches-pairs (p ∷ pg) delta = omega (arith, mismatches-pairs pg delta)

dupes-perm : {delta delta' : List Row} → Permᴰ delta delta' → dupes delta ≡ dupes delta'
unfolding dupes
dupes-perm {delta = delta} {delta' = delta'} h =
    count_if-ext (repeated delta) (repeated delta') (distinct text_key (map key delta))
      (λ k. ap (ltb 1) (count_if-perm (λ d. same_value k (key d)) h))
    ∙ count_if-perm (repeated delta') (distinct-perm text_key (Permᴰ.map key h))
  where
    key : Row → Option String
    key d = d.transaction_id

    repeated : List Row → Option String → Bool
    repeated rows k = ltb 1 (count_if (λ d. same_value k (key d)) rows)

measure-perm :
    {pg pg' delta delta' : List Row} {keys keys' : List (Option String)}
    → Permᴰ pg pg'
    → Permᴰ delta delta'
    → Permᴰ keys keys'
    → measure pg delta keys ≡ measure pg' delta' keys'
unfolding measure
measure-perm {pg = pg} {pg' = pg'} {delta = delta} {delta' = delta'} {keys = keys} {keys' = keys'} h
      d k =
    λ i. record {
      missing_in_delta_total = missing i;
      quarantined = quarantined i;
      unaccounted = missing i - quarantined i;
      extra_count = length-perm (left_anti-perm d h) i;
      mismatch_count =
          (mismatches-pairs pg delta
              ∙ pairs-perm is_mismatch h d
              ∙ sym (mismatches-pairs pg' delta'))
            i;
      dupes = dupes-perm d i;
    }
  where
    missing : length (left_anti pg delta) ≡ length (left_anti pg' delta')
    missing = length-perm (left_anti-perm h d)

    quarantined : inner_count (left_anti pg delta) keys ≡ inner_count (left_anti pg' delta') keys'
    quarantined =
        inner_count-pairs (left_anti pg delta) keys
        ∙ pairs-perm is_key (left_anti-perm h d) k
        ∙ sym (inner_count-pairs (left_anti pg' delta') keys')

load_delta-perm :
    {table table' : List Entry} → Permᴰ table table' → Permᴰ (load_delta table) (load_delta table')
unfolding load_delta
load_delta-perm h = Permᴰ.map select (keep-perm (λ r. holds (is_live r)) h)

-- The dead letter topic gives the same messages in some order at both runs, or cannot be read at either.
abbrev Reread : Option (List Message) → Option (List Message) → Type 0
Reread none none = Unit
Reread (some messages) (some messages') = Permᴰ messages messages'
Reread _ _ = ⊥

load_dlq_keys-perm :
    (messages messages' : Option (List Message))
    → Reread messages messages'
    → Permᴰ (load_dlq_keys messages) (load_dlq_keys messages')
unfolding load_dlq_keys
load_dlq_keys-perm none none h = Permᴰ.nil
load_dlq_keys-perm (some messages) (some messages') h =
    distinct-perm text_key (Permᴰ.map (λ (m : Message). some m.key) h)
load_dlq_keys-perm none (some messages') h = absurd h
load_dlq_keys-perm (some messages) none h = absurd h

-- The verdict depends on which rows Postgres and Delta hold and which messages the dead letter topic
-- holds, with how often each occurs, and not on the order in which they are read.
pub parity_any_order :
    (tolerate_inflight : ℕ) (pg pg' : List Row) (table table' : List Entry)
    (messages messages' : Option (List Message))
    → Permᴰ pg pg'
    → Permᴰ table table'
    → Reread messages messages'
    → check_parity tolerate_inflight pg table messages
      ≡ check_parity tolerate_inflight pg' table' messages'
unfolding check_parity
parity_any_order t pg pg' table table' messages messages' h d m =
    ap (decide t) (measure-perm h (load_delta-perm d) (load_dlq_keys-perm messages messages' m))
