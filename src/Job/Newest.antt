-- ===== src/Job/Newest.antt =====
-- When a change is no later than another, in the words of `dedup_latest` of spark/jobs/payments_cdc_job.py: the
-- greatest log position, then the greatest offset.
use payments_cdc_pipeline.Prelude.{
  ℕ, ◌≤◌, ◌<◌, Bool, true, false, Option, none, some, ◌≡◌, refl, ap, ◌⊎◌, inl, inr, arith, ltb,
  ltb→lt, ◌==◌, ◌&&◌, ◌||◌, Bool-cases,
}
use payments_cdc_pipeline.Change.{Change}
use payments_cdc_pipeline.Window.{ahead, rank}
use payments_cdc_pipeline.Job.{latest_first}

-- A log position that is not known is below every other.
abbrev pub Below : Option ℕ → Option ℕ → Type 0
Below none (some n) = Unit
Below (some m) (some n) = m < n
Below l none = ⊥

-- Without the column the offset decides nothing.
abbrev pub TieBreak : Bool → ℕ → ℕ → Type 0
TieBreak true o p = o ≤ p
TieBreak false o p = Unit

abbrev pub NotLater : Bool → Change → Change → Type 0
NotLater has_offset c s =
    Below c.lsn s.lsn ⊎ ((c.lsn ≡ s.lsn) × TieBreak has_offset c.offset s.offset)

-- The first column, whatever comes after it.
first_column :
    (l m : Option ℕ) (rest : Bool)
    → (ltb (rank m) (rank l) || (rank l == rank m) && rest) ≡ false
    → Below l m ⊎ ((l ≡ m) × (rest ≡ false))
first_column none none rest h = inr (refl, ground (arith, h))
first_column none (some n) rest h = inl tt
first_column (some m) none rest h = absurd (ground (arith, h))
first_column (some m) (some n) rest h = elim (Bool-cases (ltb m n)) [
  | inl t ↦ inl (ltb→lt m n t)
  | inr f ↦ let e : m ≡ n = ground (arith, h, f) in inr (ap some e, ground (arith, h, e))
]

pub ahead-NotLater :
    (has_offset : Bool) (c s : Change)
    → ahead (latest_first has_offset) c s ≡ false
    → NotLater has_offset c s
ahead-NotLater true c s h = elim (first_column c.lsn s.lsn _ h) [
  | inl b ↦ inl b
  | inr (e, k) ↦ inr (e, ground (arith, k))
]
ahead-NotLater false c s h = elim (first_column c.lsn s.lsn _ h) [
  | inl b ↦ inl b
  | inr (e, k) ↦ inr (e, tt)
]
