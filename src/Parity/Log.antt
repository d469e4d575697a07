-- ===== src/Parity/Log.antt =====
-- Postgres as its log of row changes, carried out one after the other.
use payments_cdc_pipeline.Prelude.{
  ℕ, String, List, [], ◌∷◌, Bool, true, false, Option, none, some, In, has_key, text_eq,
  if◌then◌else◌, Bool-cases, ◌≡◌, refl, sym, ap, ◌∙◌, ◌⊎◌, inl, inr,
}
use mathlib.Core.Path.{subst}
use payments_cdc_pipeline.Change.{Change}
use payments_cdc_pipeline.Job.Dedup.{key_of}
use payments_cdc_pipeline.Job.Guard.{Exceeds}
use payments_cdc_pipeline.Parity.{Row}
use payments_cdc_pipeline.Parity.Rows.{row_of}

abbrev pub deletes : Change → Bool
deletes c = elim c.op [ none ↦ false | some op ↦ text_eq op "d" ]

-- The row that a change leaves under its key.
abbrev pub row_after : Change → Option Row
row_after c = if deletes c then none else some (row_of c)

-- Postgres: the log, carried out from the first change to the last.
abbrev pub postgres : (String → Option Row) → List Change → String → Option Row
postgres now [] k = now k
postgres now (c ∷ log) k = postgres (λ j. if has_key key_of j c then row_after c else now j) log k

abbrev pub row_key : Row → Option String
row_key r = r.transaction_id

-- The log positions of the log go up, and a change is marked as a delete exactly if it is one.
abbrev pub IsLog : List Change → Type 0
IsLog [] = Unit
IsLog (c ∷ log) =
    ((n : ℕ) × (c.lsn ≡ some n))
    × (c.is_delete ≡ some (deletes c))
    × ((d : Change) → In d log → Exceeds d.lsn c.lsn)
    × IsLog log

abbrev or_first : String → Change → Option Change → Option Change
or_first k c (some d) = some d
or_first k c none = if has_key key_of k c then some c else none

abbrev pub last_of : String → List Change → Option Change
last_of k [] = none
last_of k (c ∷ log) = or_first k c (last_of k log)

abbrev pub or_else : Option Row → Option Change → Option Row
or_else now none = now
or_else now (some d) = row_after d

pub postgres_last :
    (now : String → Option Row) (log : List Change) (k : String)
    → postgres now log k ≡ or_else (now k) (last_of k log)
postgres_last now [] k = refl
postgres_last now (c ∷ log) k =
    postgres_last (λ j. if has_key key_of j c then row_after c else now j) log k
    ∙ go (last_of k log) (Bool-cases (has_key key_of k c))
  where
    go :
        (o : Option Change)
        → (has_key key_of k c ≡ true) ⊎ (has_key key_of k c ≡ false)
        → or_else (if has_key key_of k c then row_after c else now k) o
          ≡ or_else (now k) (or_first k c o)
    go (some d) b = refl
    go none (inl t) = rw t refl
    go none (inr f) = rw f refl

-- The last change of a key, if it has one.
abbrev pub IsLast : String → List Change → Option Change → Type 0
IsLast k log none = (c : Change) → In c log → has_key key_of k c ≡ false
IsLast k log (some d) =
    In d log
    × (has_key key_of k d ≡ true)
    × (d.is_delete ≡ some (deletes d))
    × ((c : Change) → In c log → has_key key_of k c ≡ true → (c ≡ d) ⊎ Exceeds d.lsn c.lsn)

pub last_of-IsLast : (k : String) (log : List Change) → IsLog log → IsLast k log (last_of k log)
last_of-IsLast k [] h = λ c m. absurd m
last_of-IsLast k (x ∷ log) (n, mark, above, rest) = go (last_of k log) (last_of-IsLast k log rest)
  where
    go : (o : Option Change) → IsLast k log o → IsLast k (x ∷ log) (or_first k x o)
    go (some d) (m, t, e, l) = (inr m, t, e, λ c i u. first c i u)
      where
        first :
            (c : Change)
            → In c (x ∷ log)
            → has_key key_of k c ≡ true
            → (c ≡ d) ⊎ Exceeds d.lsn c.lsn
        first c (inl q) u = inr (subst (λ (y : Change). Exceeds d.lsn y.lsn) (sym q) (above d m))
        first c (inr i) u = l c i u
    go none l = elim (Bool-cases (has_key key_of k x)) [
      | inl t ↦ rw t (inl refl, t, mark, λ c i u. only c i u)
      | inr f ↦ rw f (λ c i. missing f c i)
    ]
      where
        only :
            (c : Change)
            → In c (x ∷ log)
            → has_key key_of k c ≡ true
            → (c ≡ x) ⊎ Exceeds x.lsn c.lsn
        only c (inl q) u = inl q
        only c (inr i) u = absurd (clash u (l c i))
          where
            clash : {b : Bool} → b ≡ true → b ≡ false → ⊥
            clash p q = cc

        missing :
            has_key key_of k x ≡ false → (c : Change) → In c (x ∷ log) → has_key key_of k c ≡ false
        missing f c (inl q) = ap (has_key key_of k) q ∙ f
        missing f c (inr i) = l c i
