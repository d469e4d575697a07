-- ===== src/Job/Converge.antt =====
-- What calls of `process_batch` (spark/jobs/payments_cdc_job.py) make of the table when their rows come in
-- another order, in other batches, or more than once.
use payments_cdc_pipeline.Prelude.{
  ℕ, String, List, true, Option, some, In, find, has_key, ◌≡◌, ◌↔◌, sym, ap, ◌∙◌, inl, inr, arith,
}
use mathlib.Core.Path.{subst}
use payments_cdc_pipeline.Change.{Change, Entry}
use payments_cdc_pipeline.Delta.{to_entry}
use payments_cdc_pipeline.Job.{World}
use payments_cdc_pipeline.Job.Dedup.{key_of}
use payments_cdc_pipeline.Job.Merge.{entry_key, names-eq}
use payments_cdc_pipeline.Job.Guard.{Exceeds, NotAbove}
use payments_cdc_pipeline.Job.Arrivals.{History, Comes, same_lsn, History-IsCovered, History-Comes}

-- A key's rows are in the order of their log positions: each has one, and rows of one key and one position
-- carry the same values.
abbrev pub IsVersioned : List Change → Type 0
IsVersioned rows =
    ((c : Change) → In c rows → (n : ℕ) × (c.lsn ≡ some n))
    × ((c d : Change)
        → In c rows
        → In d rows
        → c.transaction_id ≡ d.transaction_id
        → c.lsn ≡ d.lsn
        → to_entry c ≡ to_entry d)

pub stale : (a b : Option ℕ) → Exceeds a b → NotAbove a b → ⊥
stale a b x n = cc

-- Two entries that come from the same rows and cover them are the same.
agree :
    (k : String) (first now now' : Option Entry) (rows rows' : List Change)
    → ((c : Change) → In c rows ↔ In c rows')
    → IsVersioned rows
    → ((c : Change)
        → In c rows
        → has_key key_of k c ≡ true
        → (e : Entry) × (now ≡ some e) × NotAbove c.lsn e.lsn)
    → ((c : Change)
        → In c rows'
        → has_key key_of k c ≡ true
        → (e : Entry) × (now' ≡ some e) × NotAbove c.lsn e.lsn)
    → Comes k first rows now
    → Comes k first rows' now'
    → now ≡ now'
agree k first now now' rows rows' same v a b (inl p) (inl q) = p ∙ sym q
agree k first now now' rows rows' same v a b (inl p) (inr (d, i, t, q, g)) =
    let (e, n, z) = a d ((same d).1 i) t in absurd (stale d.lsn e.lsn (g e (sym p ∙ n)) z)
agree k first now now' rows rows' same v a b (inr (c, i, t, p, g)) (inl q) =
    let (e, n, z) = b c ((same c).0 i) t in absurd (stale c.lsn e.lsn (g e (sym q ∙ n)) z)
agree k first now now' rows rows' same v a b (inr (c, i, t, p, g)) (inr (d, j, u, q, g')) =
    let (e, n, z) = a d ((same d).1 j) u in
    let (e', n', z') = b c ((same c).0 i) t in
    let (x, lc) = v.0 c i in
    let (y, ld) = v.0 d ((same d).1 j) in
    let below =
      subst (λ (o : Option ℕ). NotAbove d.lsn o) (same_lsn e (to_entry c) (sym n ∙ p)) z in
    let above =
      subst (λ (o : Option ℕ). NotAbove c.lsn o) (same_lsn e' (to_entry d) (sym n' ∙ q)) z' in
    let level =
      lc ∙ ap some (same_number x y (rw (lc, ld) at above) (rw (lc, ld) at below)) ∙ sym ld in
    let key = names-eq k c.transaction_id t ∙ sym (names-eq k d.transaction_id u) in
    p ∙ ap some (v.1 c d i ((same d).1 j) key level) ∙ sym q
  where
    same_number : (x y : ℕ) → NotAbove (some x) (some y) → NotAbove (some y) (some x) → x ≡ y
    same_number x y a b = ground arith

-- Neither the order of the rows, nor how they are cut into batches, nor how often they are delivered
-- matters: where two tables agree on every key, and the same rows reach both, in two
-- histories of calls that may fail and be replayed, the tables agree on every key in the end, if the rows of
-- one key are told apart by their log positions.
pub histories_converge :
    {w₁ w₂ w₁' w₂' : World} {rows₁ rows₂ : List Change}
    → ((k : String) → find entry_key k w₁.table ≡ find entry_key k w₂.table)
    → History w₁ rows₁ w₁'
    → History w₂ rows₂ w₂'
    → ((c : Change) → In c rows₁ ↔ In c rows₂)
    → IsVersioned rows₁
    → (k : String) → find entry_key k w₁'.table ≡ find entry_key k w₂'.table
histories_converge {w₁} {w₂} {w₁'} {w₂'} {rows₁} {rows₂} first h₁ h₂ same v k =
    agree k (find entry_key k w₁.table) (find entry_key k w₁'.table) (find entry_key k w₂'.table)
      rows₁ rows₂ same v (λ c i t. History-IsCovered h₁ k c i t)
      (λ c i t. History-IsCovered h₂ k c i t) (History-Comes h₁ k)
      (subst (λ (o : Option Entry). Comes k o rows₂ (find entry_key k w₂'.table)) (sym (first k))
        (History-Comes h₂ k))
