-- ===== src/Job/Arrivals.antt =====
-- Histories of calls of `process_batch` (spark/jobs/payments_cdc_job.py): the calls one after the other, with the
-- rows that reached the table.
use payments_cdc_pipeline.Prelude.{
  ℕ, String, List, [], ◌∷◌, ◌++◌, true, false, Option, none, some, In, In-append, append-In, find,
  find-In, has_key, HasUniqueKeys, length, Bool-cases, ◌≡◌, refl, sym, ap, ◌∙◌, ◌⊎◌, inl, inr,
}
use mathlib.Core.Path.{subst}
use payments_cdc_pipeline.Sql.{holds}
use payments_cdc_pipeline.Change.{Change, Entry}
use payments_cdc_pipeline.Delta.{to_entry}
use payments_cdc_pipeline.Validator.{Checked, validate}
use payments_cdc_pipeline.Job.{
  World, already_committed, load_merchants, is_newer, dedup_latest, process_batch,
}
use payments_cdc_pipeline.Job.Dedup.{key_of, dedup-In}
use payments_cdc_pipeline.Job.Merge.{entry_key, guarded}
use payments_cdc_pipeline.Job.Guard.{
  Exceeds, Exceeds-trans, IsCovered, Takes-IsCovered, IsCovered-Takes,
}
use payments_cdc_pipeline.Job.Rows.{Took}
use payments_cdc_pipeline.Job.Steps.{Taken}
use payments_cdc_pipeline.Job.Contract.{return_means_done}
use payments_cdc_pipeline.Errors.{Result, ok, err}
use payments_cdc_pipeline.Job.Batch.{process_batch-Concluded}
use payments_cdc_pipeline.Job.History.{Call, run}

abbrev pub called : Call → World → World
called c w = (process_batch c.env c.batch_id c.commit c.batch_df w).1

-- One call after the other, whether it returns or raises. A call either takes the valid rows of its batch,
-- or leaves the table.
pub data History (w : World) : List Change → World → Type 0 where
  start : History w [] w
  takes :
      {rows : List Change} {w' : World}
      → History w rows w'
      → (c : Call) → (ids : List String) → (frames : List Change × List Checked)
      → (load_merchants c.env w').0 ≡ ok ids
      → validate c.env.rlike c.batch_df ids ≡ ok frames
      → Taken c.env.window frames.0 w'.table (called c w').table
      → History w (frames.0 ++ rows) (called c w')
  leaves :
      {rows : List Change} {w' : World}
      → History w rows w'
      → (c : Call) → (called c w').table ≡ w'.table
      → History w rows (called c w')

-- A call that returns takes the valid rows of a batch that is new and not empty.
pub returned-Taken :
    (c : Call) (w : World) (ids : List String) (frames : List Change × List Checked)
    → HasUniqueKeys entry_key w.table
    → already_committed c.batch_id w ≡ false
    → (process_batch c.env c.batch_id c.commit c.batch_df w).0 ≡ ok tt
    → ((length c.batch_df ≡ 0) → ⊥)
    → (load_merchants c.env w).0 ≡ ok ids
    → validate c.env.rlike c.batch_df ids ≡ ok frames
    → Taken c.env.window frames.0 w.table (called c w).table
returned-Taken c w ids frames u new r full l v =
    go (return_means_done c.env c.batch_id c.commit c.batch_df w u new r).0
  where
    frames_of : Result (List Change × List Checked) → List Change
    frames_of (ok f) = f.0
    frames_of (err e) = []

    ids_of : Result (List String) → List String
    ids_of (ok i) = i
    ids_of (err e) = []

    go :
        (length c.batch_df ≡ 0) ⊎ Took c.env c.batch_df w (called c w)
        → Taken c.env.window frames.0 w.table (called c w).table
    go (inl z) = absurd (full z)
    go (inr (got, frames', p, q, t)) =
        let same = ap ids_of (sym l ∙ p) in
        let e =
          ap frames_of
            (sym v ∙ ap (λ (i : List String). validate c.env.rlike c.batch_df i) same ∙ q) in
        subst (λ (rows : List Change). Taken c.env.window rows w.table (called c w).table) (sym e) t

-- Every run of calls is a history.
run-History :
    (w : World) (rows : List Change) (w' : World) (calls : List Call)
    → HasUniqueKeys entry_key w'.table
    → History w rows w'
    → (rows' : List Change) × History w rows' (run calls w')
unfolding run
run-History w rows w' [] u h = (rows, h)
run-History w rows w' (c ∷ calls) u h =
    let k = process_batch-Concluded c.env c.batch_id c.commit c.batch_df w' u in
    elim k.1 [
      | inl s ↦ run-History w rows (called c w') calls k.0 (History.leaves h c s.0)
      | inr o ↦ elim o [
        | inl z ↦ run-History w rows (called c w') calls k.0 (History.leaves h c z.1)
        | inr t ↦
            run-History w (t.1.0 ++ rows) (called c w') calls k.0
              (History.takes h c t.0 t.1 t.2 t.3 t.4)
      ]
    ]

-- What stands under the key is what stood there at first, or a row that reached the table and is newer.
abbrev pub Comes : String → Option Entry → List Change → Option Entry → Type 0
Comes k first rows now =
    (now ≡ first)
    ⊎ ((c : Change) × In c rows
        × (has_key key_of k c ≡ true)
        × (now ≡ some (to_entry c))
        × ((e : Entry) → first ≡ some e → Exceeds c.lsn e.lsn))

append-Comes :
    (k : String) (first now : Option Entry) (batch rows : List Change)
    → Comes k first rows now
    → Comes k first (batch ++ rows) now
append-Comes k first now batch rows (inl e) = inl e
append-Comes k first now batch rows (inr (c, i, t, e, g)) =
    inr (c, append-In c batch rows (inr i), t, e, g)

pub same_lsn : (e e' : Entry) → some e ≡ some e' → e.lsn ≡ e'.lsn
same_lsn e e' p = ap (λ (o : Option Entry). elim o [ none ↦ none | some y ↦ y.lsn ]) p

-- What exceeds the row that stands exceeds the first one.
Comes-Exceeds :
    (k : String) (first : Option Entry) (rows : List Change) (e e₀ : Entry) (l : Option ℕ)
    → Comes k first rows (some e)
    → Exceeds l e.lsn
    → first ≡ some e₀
    → Exceeds l e₀.lsn
Comes-Exceeds k first rows e e₀ l (inl h) x f =
    subst (λ (y : Entry). Exceeds l y.lsn) (some_injective (h ∙ f)) x
  where
    some_injective : some e ≡ some e₀ → e ≡ e₀
    some_injective p = cc
Comes-Exceeds k first rows e e₀ l (inr (c, i, t, h, g)) x f =
    Exceeds-trans l c.lsn e₀.lsn
      (subst (λ (n : Option ℕ). Exceeds l n) (same_lsn e (to_entry c) h) x) (g e₀ f)

Comes-guarded :
    (k : String) (first : Option Entry) (rows batch : List Change) (now : Option Entry)
    (s : Option Change)
    → ((c : Change) → s ≡ some c → In c batch × (has_key key_of k c ≡ true))
    → Comes k first rows now
    → Comes k first (batch ++ rows) (guarded now s)
Comes-guarded k first rows batch none none m h = append-Comes k first none batch rows h
Comes-guarded k first rows batch (some e) none m h = append-Comes k first (some e) batch rows h
Comes-guarded k first rows batch none (some c) m h =
    let (i, t) = m c refl in
    inr (c, append-In c batch rows (inl i), t, refl, λ e f. absurd (nothing h e f))
  where
    nothing : Comes k first rows none → (e : Entry) → first ≡ some e → ⊥
    nothing (inl q) e f = cc
    nothing (inr (d, i, t, q, g)) e f = cc
Comes-guarded k first rows batch (some e) (some c) m h = elim (Bool-cases (holds (is_newer c e))) [
  | inl t ↦
      let (i, u) = m c refl in
      inr (
        c,
        append-In c batch rows (inl i),
        u,
        rw t refl,
        λ e₀ f. Comes-Exceeds k first rows e e₀ c.lsn h t f,
      )
  | inr f ↦ rw f (append-Comes k first (some e) batch rows h)
]

-- In a history every row of the rows is covered, and what stands under a key comes from them.
pub History-IsCovered :
    {w : World} {rows : List Change} {w' : World} → History w rows w' → IsCovered rows w'.table
History-IsCovered History.start k c i t = absurd i
History-IsCovered (History.leaves {rows} {w'} h c e) k d i m =
    subst (λ (table : List Entry). IsCovered rows table) (sym e) (History-IsCovered h) k d i m
History-IsCovered (History.takes {rows} {w'} h c ids frames p q (u, t)) k d i m =
    elim (In-append d frames.0 rows i) [
      | inl j ↦ Takes-IsCovered c.env.window frames.0 w'.table (called c w').table t k d j m
      | inr j ↦
          IsCovered-Takes c.env.window rows frames.0 w'.table (called c w').table
            (History-IsCovered h) t k d j m
    ]

pub History-Comes :
    {w : World} {rows : List Change} {w' : World}
    → History w rows w'
    → (k : String) → Comes k (find entry_key k w.table) rows (find entry_key k w'.table)
History-Comes History.start k = inl refl
History-Comes {w} (History.leaves {rows} {w'} h c e) k =
    subst (λ (table : List Entry). Comes k (find entry_key k w.table) rows (find entry_key k table))
      (sym e) (History-Comes h k)
History-Comes {w} (History.takes {rows} {w'} h c ids frames p q (u, t)) k =
    subst (λ (now : Option Entry). Comes k (find entry_key k w.table) (frames.0 ++ rows) now)
      (sym (t k))
      (Comes-guarded k (find entry_key k w.table) rows frames.0 (find entry_key k w'.table) _
        (λ s f.
          let (i, m) = find-In key_of k (dedup_latest c.env.window true frames.0) s f in
          (dedup-In c.env.window true frames.0 s i, m))
        (History-Comes h k))
