-- ===== src/Parity/Stream.antt =====
-- What scripts/parity_checker.py says after any calls of `process_batch` that have brought the log of Postgres to the
-- table.
use payments_cdc_pipeline.Prelude.{
  ◌≤◌, String, List, [], true, false, Option, none, some, In, In-map, In-keep, keep, count_if,
  count_if-ext, find, find-In, find_of_In, has_key, names, HasUniqueKeys, text_eq_refl, ◌≡◌, ◌↔◌,
  refl, sym, ap, ◌∙◌, inl, arith,
}
use mathlib.Core.Path.{subst}
use payments_cdc_pipeline.Sql.{holds}
use payments_cdc_pipeline.Change.{Change, Entry}
use payments_cdc_pipeline.Dlq.{Message}
use payments_cdc_pipeline.Grouping.{same_value}
use payments_cdc_pipeline.Job.{World}
use payments_cdc_pipeline.Job.Arrivals.{History}
use payments_cdc_pipeline.Job.Named.{Named, process_batch-Named}
use payments_cdc_pipeline.Parity.{
  Row, select, is_live, load_delta, load_dlq_keys, left_anti, differs, Verdict, check_parity,
}
use payments_cdc_pipeline.Parity.Sound.{inner_le, dlq_once}
use payments_cdc_pipeline.Parity.Complete.{matches, left_anti-empty, parity_complete}
use payments_cdc_pipeline.Parity.Rows.{matches_both, matches-eq, differs_irrefl}
use payments_cdc_pipeline.Parity.Mirror.{lake_mirrors_postgres}
use payments_cdc_pipeline.Parity.Log.{row_key, postgres, IsLog}

History-Named :
    {w : World} {rows : List Change} {w' : World} → History w rows w' → Named w → Named w'
History-Named History.start n = n
History-Named (History.leaves {w' = w'} h c e) n =
    process_batch-Named c.env c.batch_id c.commit c.batch_df w' (History-Named h n)
History-Named (History.takes {w' = w'} h c ids frames p q t) n =
    process_batch-Named c.env c.batch_id c.commit c.batch_df w' (History-Named h n)

load_delta_keyed :
    (w : World)
    → Named w
    → (d : Row) → In d (load_delta w.table)
    → (k : String) × (d.transaction_id ≡ some k)
unfolding load_delta
load_delta_keyed w n d m =
    let (e, i, q) = In-map select d (keep (λ e. holds (is_live e)) w.table) m in
    let (k, f) = n e (In-keep (λ e. holds (is_live e)) e w.table i).0 in
    (k, ap (λ (r : Row). r.transaction_id) q ∙ f)

-- What Postgres holds: a list of rows with unique keys, which has under each key what the log leaves.
pub record IsTable (log : List Change) (pg : List Row) : Type 0 where
  pub unique : HasUniqueKeys row_key pg
  pub named : (p : Row) → In p pg → (k : String) × (p.transaction_id ≡ some k)
  pub current : (k : String) → find row_key k pg ≡ postgres (λ j. none) log k

-- Two lists of rows with unique keys that hold the same under each.
module _ (pg delta : List Row) (unique : HasUniqueKeys row_key pg)
    (named : (p : Row) → In p pg → (k : String) × (p.transaction_id ≡ some k))
    (same : (k : String) → find row_key k pg ≡ find row_key k delta) where
  shared : (p : Row) → In p pg → In p delta
  shared p m =
      let (k, e) = named p m in
      (find-In row_key k delta p
        (sym (same k) ∙ find_of_In row_key k pg p (unique k) m (rw e (text_eq_refl k)))).0

  partner : (p : Row) → In p pg → (d : Row) × In d delta × (matches p d ≡ true)
  partner p m =
      let (k, e) = named p m in
      (p, shared p m, matches_both p.transaction_id p.transaction_id k e e)

  alike :
      HasUniqueKeys row_key delta
      → (p d : Row) → In p pg
      → In d delta
      → matches p d ≡ true
      → holds (differs p d) ≡ false
  alike u p d m n t =
      let (k, e) = named p m in
      let f = sym (matches-eq p.transaction_id d.transaction_id t) ∙ e in
      let one =
        sym (find_of_In row_key k delta p (u k) (shared p m) (rw e (text_eq_refl k)))
        ∙ find_of_In row_key k delta d (u k) n (rw f (text_eq_refl k)) in
      subst (λ (x : Row). holds (differs p x) ≡ false) (some_injective one) (differs_irrefl p)
    where
      some_injective : some p ≡ some d → p ≡ d
      some_injective q = cc

once_each :
    (delta : List Row)
    → HasUniqueKeys row_key delta
    → (k : String) → count_if (λ (d : Row). same_value (some k) d.transaction_id) delta ≤ 1
once_each delta u k = omega (
  arith,
  count_if-ext (λ (d : Row). same_value (some k) d.transaction_id) (has_key row_key k) delta
      (λ d. names_same d.transaction_id),
  u k,
)
  where
    names_same : (t : Option String) → same_value (some k) t ≡ names k t
    names_same none = refl
    names_same (some t) = refl

-- After the stream the parity checker says PASS. Where the table was empty, the changes of a log of
-- Postgres, with rising log positions and marked as deletes where they are, have all reached it and no
-- others, in whatever order and batches, with whatever failures and replays, and Postgres holds, with unique
-- keys, what the log leaves, the verdict without tolerance is a PASS, whatever the dead letter topic holds.
pub streamed_passes :
    {w w' : World} {rows : List Change} (log : List Change) (pg : List Row)
    (messages : Option (List Message))
    → w.table ≡ []
    → History w rows w'
    → ((c : Change) → In c rows ↔ In c log)
    → IsLog log
    → IsTable log pg
    → check_parity 0 pg w'.table messages ≡ Verdict.pass
streamed_passes {w} {w'} log pg messages z h same l table =
    parity_complete pg w'.table messages (λ p m. inl (matched p m))
      (λ d m. partner delta pg mirrored.0 keyed (λ k. sym (agreed k)) d m)
      (alike pg delta table.unique table.named agreed mirrored.0) (once_each delta mirrored.0)
      (inl (
        omega (
          arith,
          inner_le (load_dlq_keys messages) (dlq_once messages) (left_anti pg delta),
          left_anti-empty pg delta matched,
        )))
  where
    delta : List Row
    delta = load_delta w'.table

    mirrored :
        HasUniqueKeys row_key delta
        × ((k : String) → find row_key k delta ≡ postgres (λ j. none) log k)
    mirrored = lake_mirrors_postgres log z h same l

    agreed : (k : String) → find row_key k pg ≡ find row_key k delta
    agreed k = table.current k ∙ sym (mirrored.1 k)

    nothing :
        (entries : List Entry)
        → entries ≡ []
        → (e : Entry) → In e entries
        → (k : String) × (e.transaction_id ≡ some k)
    nothing entries q e m = absurd (subst (λ es. In e es) q m)

    keyed : (d : Row) → In d delta → (k : String) × (d.transaction_id ≡ some k)
    keyed d m = load_delta_keyed w' (History-Named h (nothing w.table z)) d m

    matched : (p : Row) → In p pg → (d : Row) × In d delta × (matches p d ≡ true)
    matched p m = partner pg delta table.unique table.named agreed p m
