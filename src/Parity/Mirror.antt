-- ===== src/Parity/Mirror.antt =====
-- What the job makes of the log of Postgres, as `load_delta` of scripts/parity_checker.py reads it.
use payments_cdc_pipeline.Prelude.{
  ℕ, ◌≤◌, String, List, [], ◌∷◌, Bool, true, false, Option, none, some, not, count_if-map, keep, In,
  count_if, count_if-keep_le, find, find-none, find-map, has_key, HasUniqueKeys, if◌then◌else◌,
  Bool-cases, ◌≡◌, ◌↔◌, refl, sym, ap, ◌∙◌, inl, inr, arith,
}
use mathlib.Core.Path.{subst}
use payments_cdc_pipeline.Sql.{holds}
use payments_cdc_pipeline.Change.{Change, Entry}
use payments_cdc_pipeline.Delta.{to_entry}
use payments_cdc_pipeline.Job.{World}
use payments_cdc_pipeline.Job.Dedup.{key_of}
use payments_cdc_pipeline.Job.Merge.{entry_key}
use payments_cdc_pipeline.Job.Guard.{NotAbove}
use payments_cdc_pipeline.Job.Converge.{stale}
use payments_cdc_pipeline.Job.Arrivals.{History, Comes, History-IsCovered, History-Comes, same_lsn}
use payments_cdc_pipeline.Parity.{Row, select, is_live, load_delta}
use payments_cdc_pipeline.Parity.Rows.{row_of}
use payments_cdc_pipeline.Parity.Log.{
  deletes, row_after, postgres, row_key, IsLog, last_of, or_else, postgres_last, IsLast,
  last_of-IsLast,
}

-- A filter finds the row of a unique key if it passes.
find-keep_unique :
    (k : String) (p : Entry → Bool) (table : List Entry)
    → count_if (has_key entry_key k) table ≤ 1
    → find entry_key k (keep p table)
      ≡ elim (find entry_key k table) [ none ↦ none | some e ↦ if p e then some e else none ]
find-keep_unique k p [] h = refl
find-keep_unique k p (e ∷ table) h = elim (Bool-cases (has_key entry_key k e)) [
  | inl t ↦ elim (Bool-cases (p e)) [
    | inl u ↦ rw (u, t, u) refl
    | inr u ↦ rw (u, t, u) (find-none entry_key k (keep p table) (none_kept t))
  ]
  | inr f ↦ elim (Bool-cases (p e)) [
    | inl u ↦ rw (u, f) (find-keep_unique k p table (rw f at h))
    | inr u ↦ rw (u, f) (find-keep_unique k p table (rw f at h))
  ]
]
  where
    none_kept : has_key entry_key k e ≡ true → count_if (has_key entry_key k) (keep p table) ≡ 0
    none_kept t = ground (arith, h, t, count_if-keep_le (has_key entry_key k) p table)

-- What is read of a key.
abbrev read : Option Entry → Option Row
read none = none
read (some e) = if holds (is_live e) then some (select e) else none

find-load_delta :
    (k : String) (table : List Entry)
    → HasUniqueKeys entry_key table
    → find row_key k (load_delta table) ≡ read (find entry_key k table)
unfolding load_delta
find-load_delta k table u =
    find-map entry_key row_key select (λ e. refl) k (keep (λ e. holds (is_live e)) table)
    ∙ rw (find-keep_unique k (λ e. holds (is_live e)) table (u k)) (go (find entry_key k table))
  where
    go :
        (o : Option Entry)
        → elim (elim o as (λ o. Option Entry) [
          | none ↦ none
          | some e ↦ if holds (is_live e) then some e else none
        ]) [ some e ↦ some (select e) | none ↦ none ]
          ≡ read o
    go none = refl
    go (some e) = elim (Bool-cases (holds (is_live e))) [ inl t ↦ rw t refl | inr f ↦ rw f refl ]

History-HasUniqueKeys :
    {w : World} {rows : List Change} {w' : World}
    → History w rows w'
    → HasUniqueKeys entry_key w.table
    → HasUniqueKeys entry_key w'.table
History-HasUniqueKeys History.start u = u
History-HasUniqueKeys (History.leaves h c e) u =
    subst (HasUniqueKeys entry_key) (sym e) (History-HasUniqueKeys h u)
History-HasUniqueKeys (History.takes h c ids frames p q t) u = t.0

read-row_after :
    (d : Change) → d.is_delete ≡ some (deletes d) → read (some (to_entry d)) ≡ row_after d
read-row_after d e = go d.is_delete (deletes d) e
  where
    go :
        (m : Option Bool) (b : Bool)
        → m ≡ some b
        → (if holds (elim m as (λ m. Option Bool) [ none ↦ none | some b ↦ some (not b) ])
            then some (row_of d)
            else none)
          ≡ (if b then none else some (row_of d))
    go m true e = rw e refl
    go m false e = rw e refl

-- The last change of a key is what stands under it.
stands :
    (k : String) (first : Option Entry) (rows log : List Change) (now : Option Entry)
    (o : Option Change)
    → first ≡ none
    → ((c : Change) → In c rows ↔ In c log)
    → ((c : Change)
        → In c rows
        → has_key key_of k c ≡ true
        → (e : Entry) × (now ≡ some e) × NotAbove c.lsn e.lsn)
    → Comes k first rows now
    → IsLast k log o
    → read now ≡ or_else none o
stands k first rows log now none z same covered (inl q) l = rw (q ∙ z) refl
stands k first rows log now none z same covered (inr (c, i, t, q, g)) l =
    absurd (clash t (l c ((same c).0 i)))
  where
    clash : {b : Bool} → b ≡ true → b ≡ false → ⊥
    clash p q = cc
stands k first rows log now (some d) z same covered (inl q) (m, t, mark, most) =
    let (e, n, b) = covered d ((same d).1 m) t in absurd (clash (sym n ∙ q ∙ z))
  where
    clash : {e : Entry} → some e ≡ none → ⊥
    clash p = cc
stands k first rows log now (some d) z same covered (inr (c, i, t, q, g)) (m, u, mark, most) =
    elim (most c ((same c).0 i) t) [
      | inl p ↦ ap read (q ∙ ap (λ (c : Change). some (to_entry c)) p) ∙ read-row_after d mark
      | inr x ↦
          let (e, n, b) = covered d ((same d).1 m) u in
          absurd (
            stale d.lsn c.lsn x
              (subst (λ (l : Option ℕ). NotAbove d.lsn l) (same_lsn e (to_entry c) (sym n ∙ q)) b))
    ]

-- The lake mirrors Postgres. Where the table was empty and the changes of a log of Postgres, with rising
-- log positions and marked as deletes where they are, have all reached it and no others, in whatever order
-- and batches, with whatever failures and replays, its live rows have unique keys, and hold under each key
-- what Postgres holds after carrying out the log: the columns of the last change of that key, or nothing after
-- a delete.
pub lake_mirrors_postgres :
    {w w' : World} {rows : List Change} (log : List Change)
    → w.table ≡ []
    → History w rows w'
    → ((c : Change) → In c rows ↔ In c log)
    → IsLog log
    → HasUniqueKeys row_key (load_delta w'.table)
      × ((k : String) → find row_key k (load_delta w'.table) ≡ postgres (λ j. none) log k)
unfolding load_delta
lake_mirrors_postgres {w} {w'} {rows} log z h same l = (alone, holds_row)
  where
    unique : HasUniqueKeys entry_key w'.table
    unique = History-HasUniqueKeys h (subst (HasUniqueKeys entry_key) (sym z) (λ k. omega arith))

    alone : HasUniqueKeys row_key (load_delta w'.table)
    alone k = omega (
      arith,
      count_if-map (has_key row_key k) select (keep (λ e. holds (is_live e)) w'.table),
      count_if-keep_le (has_key entry_key k) (λ e. holds (is_live e)) w'.table,
      unique k,
    )

    holds_row : (k : String) → find row_key k (load_delta w'.table) ≡ postgres (λ j. none) log k
    holds_row k =
        find-load_delta k w'.table unique
        ∙ stands k (find entry_key k w.table) rows log (find entry_key k w'.table) (last_of k log)
            (ap (find entry_key k) z) same (λ c i t. History-IsCovered h k c i t)
            (History-Comes h k) (last_of-IsLast k log l)
        ∙ sym (postgres_last (λ j. none) log k)
