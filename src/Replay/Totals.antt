-- ===== src/Replay/Totals.antt =====
-- What scripts/chaos/replay_offsets.py measures, of two tables that hold the same rows: `snapshot_metrics` does not
-- see their order.
use payments_cdc_pipeline.Prelude.{
  ℕ, ◌+◌, String, List, [], ◌∷◌, Bool, true, false, Option, none, some, In, keep, not, count_if,
  find, find-none, find-keep, has_key, names, HasUniqueKeys, text_eq_refl, In-keep, length,
  if◌then◌else◌, Bool-cases, ◌≤◌, ◌≡◌, refl, sym, ap, ◌∙◌, inl, inr, arith,
}
use payments_cdc_pipeline.Prelude.Int.{ℤ, pos_part, neg_part}
use mathlib.Core.Path.{subst}
use payments_cdc_pipeline.Sql.{where_holds, holds}
use payments_cdc_pipeline.Change.{Entry}
use payments_cdc_pipeline.Parity.{is_live}
use payments_cdc_pipeline.Job.{World}
use payments_cdc_pipeline.Job.Merge.{entry_key, names-eq}
use payments_cdc_pipeline.Replay.{add_amount, sum_amounts, snapshot_metrics}

abbrev pub IsKeyed : List Entry → Type 0
IsKeyed table = (e : Entry) → In e table → (k : String) × (e.transaction_id ≡ some k)

abbrev others : String → List Entry → List Entry
others k table = keep (λ e. not (has_key entry_key k e)) table

module _ (f : Entry → ℕ) where
  abbrev total : List Entry → ℕ
  total [] = 0
  total (e ∷ table) = f e + total table

  total-none :
      (k : String) (table : List Entry)
      → count_if (has_key entry_key k) table ≡ 0
      → total (others k table) ≡ total table
  total-none k [] h = refl
  total-none k (e ∷ table) h = ground (arith, total-none k table)

  -- A row with a unique key is one part of the total.
  total-found :
      (k : String) (table : List Entry) (e : Entry)
      → count_if (has_key entry_key k) table ≤ 1
      → find entry_key k table ≡ some e
      → total table ≡ f e + total (others k table)
  total-found k [] e h q = absurd (ground arith)
  total-found k (x ∷ table) e h q = elim (Bool-cases (has_key entry_key k x)) [
    | inl t ↦
        let same : x ≡ e = some_injective (rw t at q) in
        let gone = total-none k table (omega (arith, rw t at h)) in
        rw (t, same) (ap (◌+◌ (f e)) (sym gone))
    | inr n ↦ let rest = total-found k table e (rw n at h) (rw n at q) in rw n (omega (arith, rest))
  ]
    where
      some_injective : some x ≡ some e → x ≡ e
      some_injective q = cc

fewer :
    (k j : String) (table : List Entry)
    → count_if (has_key entry_key j) (others k table) ≤ count_if (has_key entry_key j) table
fewer k j [] = omega arith
fewer k j (e ∷ table) = ground (arith, fewer k j table)

gone : (k : String) (table : List Entry) → count_if (has_key entry_key k) (others k table) ≡ 0
gone k [] = refl
gone k (e ∷ table) = ground (arith, gone k table)

apart :
    (k j : String) (o : Option String)
    → o ≡ some k
    → names j o ≡ false
    → (a : Option String) → names j a ≡ true
    → not (names k a) ≡ true
apart k j o e n a t = elim (Bool-cases (names k a)) [
  | inl u ↦ absurd (differ (sym (rw (e ∙ sym (names-eq k a u)) t) ∙ n))
  | inr u ↦ rw u refl
]
  where
    differ : true ≡ false → ⊥
    differ p = ground arith

head_found :
    (k : String) (x : Entry) (xs : List Entry)
    → x.transaction_id ≡ some k
    → find entry_key k (x ∷ xs) ≡ some x
head_found k x xs e = find_head (ap (names k) e ∙ text_eq_refl k)
  where
    find_head : has_key entry_key k x ≡ true → find entry_key k (x ∷ xs) ≡ some x
    find_head t = rw t refl

tail_unique :
    (x : Entry) (xs : List Entry) → HasUniqueKeys entry_key (x ∷ xs) → HasUniqueKeys entry_key xs
tail_unique x xs u k = ground (arith, u k)

others_unique :
    (k : String) (ys : List Entry)
    → HasUniqueKeys entry_key ys
    → HasUniqueKeys entry_key (others k ys)
others_unique k ys v j = omega (arith, fewer k j ys, v j)

-- Without the row of one key, both tables still hold the same under each.
others_agree :
    (k : String) (x : Entry) (xs ys : List Entry)
    → x.transaction_id ≡ some k
    → HasUniqueKeys entry_key (x ∷ xs)
    → ((j : String) → find entry_key j (x ∷ xs) ≡ find entry_key j ys)
    → (j : String) → find entry_key j xs ≡ find entry_key j (others k ys)
others_agree k x xs ys e u s j = go (has_key entry_key j x) refl
  where
    alone : has_key entry_key j x ≡ true → count_if (has_key entry_key j) xs ≡ 0
    alone t = omega (arith, rw t at (u j))

    go :
        (b : Bool)
        → has_key entry_key j x ≡ b
        → find entry_key j xs ≡ find entry_key j (others k ys)
    go true t =
        let q : k ≡ j = some_injective (sym e ∙ names-eq j x.transaction_id t) in
        find-none entry_key j xs (alone t)
        ∙ sym (
            find-none entry_key j (others k ys)
              (subst (λ i. count_if (has_key entry_key i) (others k ys) ≡ 0) q (gone k ys)))
      where
        some_injective : some k ≡ some j → k ≡ j
        some_injective p = cc
    go false t =
        (rw t at (s j))
        ∙ sym (
            find-keep entry_key j (λ e. not (has_key entry_key k e)) ys
              (λ a i h. apart k j x.transaction_id e t a.transaction_id h))

-- Two tables with unique keys that hold the same under each key.
same_total :
    (f : Entry → ℕ) (xs ys : List Entry)
    → HasUniqueKeys entry_key xs
    → HasUniqueKeys entry_key ys
    → IsKeyed xs
    → IsKeyed ys
    → ((k : String) → find entry_key k xs ≡ find entry_key k ys)
    → total f xs ≡ total f ys
same_total f [] [] u v m n s = refl
same_total f [] (y ∷ ys) u v m n s =
    let (k, e) = n y (inl refl) in absurd (nothing (s k ∙ head_found k y ys e))
  where
    nothing : none ≡ some y → ⊥
    nothing p = cc
same_total f (x ∷ xs) ys u v m n s =
    let (k, e) = m x (inl refl) in
    ap (◌+◌ (f x)) (
      same_total f xs (others k ys) (tail_unique x xs u) (others_unique k ys v) (λ a i. m a (inr i))
        (λ a i. n a (In-keep (λ e. not (has_key entry_key k e)) a ys i).0)
        (others_agree k x xs ys e u s))
    ∙ sym (total-found f k ys x (v k) (sym (s k) ∙ head_found k x xs e))

-- The three numbers, as totals over the table.
live_number :
    (table : List Entry)
    → length (where_holds is_live table) ≡ total (λ e. if holds (is_live e) then 1 else 0) table
live_number [] = refl
live_number (e ∷ table) = ground (arith, live_number table)

abbrev amount : (ℤ → ℕ) → Option ℤ → ℕ
amount part none = 0
amount part (some n) = part n

abbrev live_amount : (ℤ → ℕ) → Entry → ℕ
live_amount part e = if holds (is_live e) then amount part e.amount_minor else 0

zero_add : (n : ℕ) → 0 + n ≡ n
zero_add n = omega arith

add_amount-parts :
    (a : Option ℤ) {s : ℕ × ℕ} {p n : ℕ}
    → s ≡ (p, n)
    → add_amount a s ≡ (amount pos_part a + p, amount neg_part a + n)
add_amount-parts none {s} {p} {n} h = rw (zero_add p, zero_add n) h
add_amount-parts (some z) h = rw h refl

live_sum :
    (table : List Entry)
    → sum_amounts (where_holds is_live table)
      ≡ (total (live_amount pos_part) table, total (live_amount neg_part) table)
live_sum [] = refl
live_sum (e ∷ table) = elim (Bool-cases (holds (is_live e))) [
  | inl t ↦ rw t (add_amount-parts e.amount_minor (live_sum table))
  | inr f ↦
      rw
        (
          f,
          zero_add (total (live_amount pos_part) table),
          zero_add (total (live_amount neg_part) table),
        )
        (live_sum table)
]

pub snapshot_metrics-same :
    (w w' : World)
    → HasUniqueKeys entry_key w.table
    → HasUniqueKeys entry_key w'.table
    → IsKeyed w.table
    → IsKeyed w'.table
    → ((k : String) → find entry_key k w.table ≡ find entry_key k w'.table)
    → snapshot_metrics w ≡ snapshot_metrics w'
snapshot_metrics-same w w' u v m n s =
    let same = λ (f : Entry → ℕ). same_total f w.table w'.table u v m n s in
    rw
      (
        live_number w.table,
        live_number w'.table,
        live_sum w.table,
        live_sum w'.table,
        same (λ e. if holds (is_live e) then 1 else 0),
        same (live_amount pos_part),
        same (live_amount neg_part),
      )
      refl
