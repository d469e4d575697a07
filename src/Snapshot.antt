-- ===== src/Snapshot.antt =====
-- The snapshot transition checker, scripts/snapshot_transition_checker.py: its verdict on the decoded
-- topic and the Delta table. A run that compares with `None` is Python's TypeError.
mod Examples
use payments_cdc_pipeline.Prelude.{
  ℕ, ◌≤◌, ◌<◌, String, List, [], ◌∷◌, Bool, true, false, Option, none, some, map, not, keep, any,
  length, leb, ltb, ◌==◌, if◌then◌else◌, Bool-cases, In, keep-In, none_left, any_witness, ==_iff,
  text_eq, ◌≡◌, ◌≢◌, refl, sym, ap, ◌∙◌, inl, inr, arith,
}
use payments_cdc_pipeline.Sql.{Condition, negate, equal, holds, where_holds}
use payments_cdc_pipeline.Change.{Change, Entry}
use payments_cdc_pipeline.Parity.{is_live}

pub load_delta_live : List Entry → List Entry
load_delta_live table = where_holds is_live table

-- op = 'r'
abbrev pub is_snapshot : Change → Condition
is_snapshot c = equal c.op (some "r")

abbrev pub snapshot_df : List Change → List Change
snapshot_df flat = where_holds is_snapshot flat

-- op != 'r'
abbrev pub streaming_df : List Change → List Change
streaming_df flat = where_holds (λ c. negate (is_snapshot c)) flat

-- The anti join on the key.
abbrev pub missing : List Change → List Entry → List Change
missing snapshot live =
    keep (λ c. not (any (λ (e : Entry). holds (equal c.transaction_id e.transaction_id)) live))
      snapshot

abbrev pick : (ℕ → ℕ → Bool) → Option ℕ → Option ℕ → Option ℕ
pick better none m = m
pick better (some n) none = some n
pick better (some n) (some m) = some (if better n m then n else m)

-- `F.max("lsn")` and `F.min("lsn")`, which skip NULLs
abbrev pub max_lsn : List Change → Option ℕ
max_lsn [] = none
max_lsn (c ∷ rows) = pick (λ n m. ltb m n) c.lsn (max_lsn rows)

abbrev pub min_lsn : List Change → Option ℕ
min_lsn [] = none
min_lsn (c ∷ rows) = pick ltb c.lsn (min_lsn rows)

pub data Verdict : Type 0 where
  pass dropped interleaved type_error : Verdict

-- Invariant B, on the two aggregates.
abbrev pub transition : Option ℕ → Option ℕ → Verdict
transition max_r none = Verdict.pass
transition none (some n) = Verdict.type_error
transition (some m) (some n) = if leb n m then Verdict.interleaved else Verdict.pass

pub check_transition : List Change → List Entry → Verdict
unfolding load_delta_live
check_transition flat table =
    if length (snapshot_df flat) == 0
    then Verdict.pass
    else if not (length (missing (snapshot_df flat) (load_delta_live table)) == 0)
    then Verdict.dropped
    else transition (max_lsn (snapshot_df flat)) (min_lsn (streaming_df flat))

max_lsn_bound :
    (rows : List Change) (c : Change) (n : ℕ)
    → In c rows
    → c.lsn ≡ some n
    → (m : ℕ) × (max_lsn rows ≡ some m) × (n ≤ m)
max_lsn_bound [] c n i e = absurd i
max_lsn_bound (x ∷ rows) c n (inl q) e =
    go x.lsn (max_lsn rows) (ap (λ (c : Change). c.lsn) (sym q) ∙ e)
  where
    go : (a b : Option ℕ) → a ≡ some n → (m : ℕ) × (pick (λ n m. ltb m n) a b ≡ some m) × (n ≤ m)
    go a none e = rw e (n, refl, omega arith)
    go a (some b) e = rw e ((if ltb b n then n else b), refl, ground arith)
max_lsn_bound (x ∷ rows) c n (inr i) e =
    let (m, f, l) = max_lsn_bound rows c n i e in go x.lsn m f l
  where
    go :
        (a : Option ℕ) (m : ℕ)
        → max_lsn rows ≡ some m
        → n ≤ m
        → (k : ℕ) × (pick (λ n m. ltb m n) a (max_lsn rows) ≡ some k) × (n ≤ k)
    go none m f l = (m, f, l)
    go (some a) m f l = rw f ((if ltb m a then a else m), refl, ground arith)

min_lsn_bound :
    (rows : List Change) (c : Change) (n : ℕ)
    → In c rows
    → c.lsn ≡ some n
    → (m : ℕ) × (min_lsn rows ≡ some m) × (m ≤ n)
min_lsn_bound [] c n i e = absurd i
min_lsn_bound (x ∷ rows) c n (inl q) e =
    go x.lsn (min_lsn rows) (ap (λ (c : Change). c.lsn) (sym q) ∙ e)
  where
    go : (a b : Option ℕ) → a ≡ some n → (m : ℕ) × (pick ltb a b ≡ some m) × (m ≤ n)
    go a none e = rw e (n, refl, omega arith)
    go a (some b) e = rw e ((if ltb n b then n else b), refl, ground arith)
min_lsn_bound (x ∷ rows) c n (inr i) e =
    let (m, f, l) = min_lsn_bound rows c n i e in go x.lsn m f l
  where
    go :
        (a : Option ℕ) (m : ℕ)
        → min_lsn rows ≡ some m
        → m ≤ n
        → (k : ℕ) × (pick ltb a (min_lsn rows) ≡ some k) × (k ≤ n)
    go none m f l = (m, f, l)
    go (some a) m f l = rw f ((if ltb a m then a else m), refl, ground arith)

transition_clean :
    (a b : Option ℕ) (m n : ℕ) → transition a b ≡ Verdict.pass → a ≡ some m → b ≡ some n → m < n
transition_clean a b m n h e f = ground arith

pass_transition :
    (x y : Bool) (v : Verdict)
    → x ≡ false
    → (if x then Verdict.pass else if not y then Verdict.dropped else v) ≡ Verdict.pass
    → (v ≡ Verdict.pass) × (y ≡ true)
pass_transition x y v e h = ground arith

not_empty : {A : Type 0} (a : A) (xs : List A) → In a xs → (length xs == 0) ≡ false
not_empty a [] m = absurd m
not_empty a (x ∷ xs) m = ground arith

-- A PASS over a topic that has a snapshot row shows that the log position of every snapshot row is below
-- that of every streamed event, where both are known.
pub transition_pass_sound :
    (flat : List Change) (table : List Entry) (r s : Change) (m n : ℕ)
    → check_transition flat table ≡ Verdict.pass
    → In r (snapshot_df flat)
    → In s (streaming_df flat)
    → r.lsn ≡ some m
    → s.lsn ≡ some n
    → m < n
unfolding check_transition
transition_pass_sound flat table r s m n h i j e f =
    let (v, y) =
      pass_transition (length (snapshot_df flat) == 0)
        (length (missing (snapshot_df flat) (load_delta_live table)) == 0) _
        (not_empty r (snapshot_df flat) i) h in
    let (a, p, k) = max_lsn_bound (snapshot_df flat) r m i e in
    let (b, q, l) = min_lsn_bound (streaming_df flat) s n j f in
    omega (
      arith,
      transition_clean (max_lsn (snapshot_df flat)) (min_lsn (streaming_df flat)) a b v p q,
      k,
      l,
    )

-- A PASS over a topic that has a snapshot row shows that every snapshot row has a live row of its key
-- in the Delta table.
pub snapshot_all_live :
    (flat : List Change) (table : List Entry) (r : Change)
    → check_transition flat table ≡ Verdict.pass
    → In r (snapshot_df flat)
    → (e : Entry) × In e (load_delta_live table)
      × (holds (equal r.transaction_id e.transaction_id) ≡ true)
unfolding check_transition
snapshot_all_live flat table r h i =
    let (v, y) =
      pass_transition (length (snapshot_df flat) == 0)
        (length (missing (snapshot_df flat) (load_delta_live table)) == 0) _
        (not_empty r (snapshot_df flat) i) h in
    let matched = λ (c : Change).
      any (λ (e : Entry). holds (equal c.transaction_id e.transaction_id))
        (load_delta_live table) in
    any_witness (λ (e : Entry). holds (equal r.transaction_id e.transaction_id))
      (load_delta_live table)
      (of_not_false (none_left (λ c. not (matched c)) r (snapshot_df flat) ((==_iff _ 0).0 y) i))
  where
    of_not_false : {b : Bool} → not b ≡ false → b ≡ true
    of_not_false h = ground arith
