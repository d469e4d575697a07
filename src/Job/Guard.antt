-- ===== src/Job/Guard.antt =====
-- The LSN guard of `merge_batch` in spark/jobs/payments_cdc_job.py over time: what stands under a key
-- is only ever replaced by something strictly newer, and rows that were merged once are spent.
use payments_cdc_pipeline.Prelude.{
  ℕ, ◌≤◌, String, List, true, false, Option, none, some, In, find, find-In, find_of_In, has_key,
  Bool-cases, Option-cases, ◌≡◌, refl, sym, ◌∙◌, ◌⊎◌, inl, inr, arith,
}
use mathlib.Core.Path.{subst}
use payments_cdc_pipeline.Sql.{greater, holds}
use payments_cdc_pipeline.Change.{Change, Entry}
use payments_cdc_pipeline.Delta.{to_entry}
use payments_cdc_pipeline.Window.{Window, rank}
use payments_cdc_pipeline.Job.{is_newer, dedup_latest}
use payments_cdc_pipeline.Job.Dedup.{key_of, dedup-In, dedup-HasUniqueKeys, dedup-covers}
use payments_cdc_pipeline.Job.Merge.{entry_key, guarded}

-- `a` has a greater log position than `b`, both known.
abbrev pub Exceeds : Option ℕ → Option ℕ → Type 0
Exceeds a b = holds (greater a b) ≡ true

abbrev pub NotAbove : Option ℕ → Option ℕ → Type 0
NotAbove a b = holds (greater a b) ≡ false

Exceeds_irrefl : (a : Option ℕ) → NotAbove a a
Exceeds_irrefl none = refl
Exceeds_irrefl (some n) = ground arith

pub Exceeds-trans : (a b c : Option ℕ) → Exceeds a b → Exceeds b c → Exceeds a c
Exceeds-trans a b c h k = ground arith

-- What is not above `b` is not above anything that exceeds `b`.
NotAbove-Exceeds : (a b c : Option ℕ) → NotAbove a b → Exceeds c b → NotAbove a c
NotAbove-Exceeds a b c h k = ground arith

-- What comes no earlier in the window is not above what its leader is not above.
NotAbove-leader : (a b c : Option ℕ) → rank a ≤ rank b → NotAbove b c → NotAbove a c
NotAbove-leader a b c h k = ground arith

abbrev pub Step : Entry → Entry → Type 0
Step e e' = (e' ≡ e) ⊎ Exceeds e'.lsn e.lsn

pub Step-trans : (a b c : Entry) → Step a b → Step b c → Step a c
Step-trans a b c (inl h) k = subst (λ (x : Entry). Step x c) h k
Step-trans a b c (inr h) (inl k) = subst (λ (x : Entry). Step a x) (sym k) (inr h)
Step-trans a b c (inr h) (inr k) = inr (Exceeds-trans c.lsn b.lsn a.lsn k h)

-- The guard keeps what stands, or replaces it by something that exceeds it.
pub guarded-Step :
    (e : Entry) (c : Option Change) → (e' : Entry) × (guarded (some e) c ≡ some e') × Step e e'
guarded-Step e none = (e, refl, inl refl)
guarded-Step e (some c) = elim (Bool-cases (holds (is_newer c e))) [
  | inl t ↦ (to_entry c, rw t, inr t)
  | inr f ↦ (e, rw f, inl refl)
]

-- What the guard leaves is not older than what it was offered.
pub guarded_covers :
    (e : Option Entry) (c : Change)
    → (e' : Entry) × (guarded e (some c) ≡ some e') × NotAbove c.lsn e'.lsn
guarded_covers none c = (to_entry c, refl, Exceeds_irrefl c.lsn)
guarded_covers (some e) c = elim (Bool-cases (holds (is_newer c e))) [
  | inl t ↦ (to_entry c, rw t, Exceeds_irrefl c.lsn)
  | inr f ↦ (e, rw f, f)
]

pub guarded-none : (e : Option Entry) → guarded e none ≡ e
guarded-none none = refl
guarded-none (some e) = refl

-- Under each key of `rows` the table holds an entry that no row of that key is newer than.
abbrev pub IsCovered : List Change → List Entry → Type 0
IsCovered rows table =
    (k : String) (c : Change)
    → In c rows
    → has_key key_of k c ≡ true
    → (e : Entry) × (find entry_key k table ≡ some e) × NotAbove c.lsn e.lsn

-- The table has taken a deduplicated batch, key by key.
abbrev pub Takes : Window → List Change → List Entry → List Entry → Type 0
Takes window rows table table' =
    (k : String)
    → find entry_key k table'
      ≡ guarded (find entry_key k table) (find key_of k (dedup_latest window true rows))

leader :
    (window : Window) (rows : List Change) (k : String) (c : Change)
    → In c rows
    → has_key key_of k c ≡ true
    → (s : Change) × (find key_of k (dedup_latest window true rows) ≡ some s)
      × (rank c.lsn ≤ rank s.lsn)
leader window rows k c m t =
    let (s, n, e, a) = dedup-covers window true rows c m in
    (s, find_of_In key_of k _ s (dedup-HasUniqueKeys window true rows k) n (rw e t), ground arith)

-- A batch that was taken is covered from then on.
pub Takes-IsCovered :
    (window : Window) (rows : List Change) (table table' : List Entry)
    → Takes window rows table table'
    → IsCovered rows table'
Takes-IsCovered window rows table table' h k c m t =
    let (s, f, r) = leader window rows k c m t in
    let (e, g, n) = guarded_covers (find entry_key k table) s in
    (e, h k ∙ rw f g, NotAbove-leader c.lsn s.lsn e.lsn r n)

-- Whatever is taken later keeps it covered.
pub IsCovered-Takes :
    (window : Window) (rows later : List Change) (table table' : List Entry)
    → IsCovered rows table
    → Takes window later table table'
    → IsCovered rows table'
IsCovered-Takes window rows later table table' h step k c m t =
    let (e, f, n) = h k c m t in
    let (e', g, s) = guarded-Step e (find key_of k (dedup_latest window true later)) in
    (e', step k ∙ rw f g, not_above_step s n)
  where
    not_above_step : {e e' : Entry} → Step e e' → NotAbove c.lsn e.lsn → NotAbove c.lsn e'.lsn
    not_above_step (inl p) n = rw p n
    not_above_step {e} {e'} (inr x) n = NotAbove-Exceeds c.lsn e.lsn e'.lsn n x

-- To take a batch that is covered changes no key, whichever of its rows the window prefers.
pub covered_is_spent :
    (window : Window) (rows : List Change) (table table' : List Entry)
    → IsCovered rows table
    → Takes window rows table table'
    → (k : String) → find entry_key k table' ≡ find entry_key k table
covered_is_spent window rows table table' h step k =
    step k ∙ elim (Option-cases (find key_of k (dedup_latest window true rows))) [
      | inl f ↦ rw f (guarded-none (find entry_key k table))
      | inr (s, f) ↦ spent s f
    ]
  where
    spent :
        (s : Change)
        → find key_of k (dedup_latest window true rows) ≡ some s
        → guarded (find entry_key k table) (find key_of k (dedup_latest window true rows))
          ≡ find entry_key k table
    spent s f =
        let (m, t) = find-In key_of k _ s f in
        let (e, g, n) = h k s (dedup-In window true rows s m) t in rw (f, g, n)
