-- ===== src/Window.antt =====
-- The window function of `dedup_latest` in spark/jobs/payments_cdc_job.py. `row_number` over a
-- window is Spark's: it is a parameter here, with its documented laws.
pub mod Reference
use payments_cdc_pipeline.Prelude.{
  ℕ, suc, ◌+◌, ◌≤◌, ◌<◌, String, List, [], ◌∷◌, Bool, true, false, Option, none, some, map, ◌&&◌,
  ◌||◌, ◌≡◌, ltb, ◌==◌, names, if◌then◌else◌, In, count_if, text_eq,
}
use payments_cdc_pipeline.Change.{Change}
use mathlib.Core.List.{Permᴰ}

-- A sort column, `col.asc()` or `col.desc()`.
pub data Column : Type 0 where
  asc desc : (Change → Option ℕ) → Column

-- Ascending puts NULL first and descending puts it last.
abbrev pub rank : Option ℕ → ℕ
rank none = 0
rank (some n) = suc n

-- `orderBy(*columns)`: whether `a` stands before `b`.
abbrev pub ahead : List Column → Change → Change → Bool
ahead [] a b = false
ahead (asc col ∷ cols) a b =
    ltb (rank (col a)) (rank (col b)) || (rank (col a) == rank (col b)) && ahead cols a b
ahead (desc col ∷ cols) a b =
    ltb (rank (col b)) (rank (col a)) || (rank (col a) == rank (col b)) && ahead cols a b

-- NULL keys form one partition.
abbrev pub same : Option String → Option String → Bool
same none none = true
same none (some k) = false
same (some j) none = false
same (some j) (some k) = text_eq j k

pub record Window : Type 0 where
  pub row_number : (Change → Option String) → List Column → List Change → List (Change × ℕ)
  -- The frame gains a column and keeps its rows.
  pub row_number-rows :
      (key : Change → Option String) (order : List Column) (rows : List Change)
      → Permᴰ (map (λ (e : Change × ℕ). e.0) (row_number key order rows)) rows
  -- The rows of a partition have the numbers 1, 2, … once each.
  pub row_number-counts :
      (key : Change → Option String) (order : List Column) (rows : List Change)
      (part : Option String) (n : ℕ)
      → count_if
          (λ (e : Change × ℕ). same part (key e.0) && (e.1 == suc n))
          (row_number key order rows)
        ≡ (if ltb n (count_if (λ c. same part (key c)) rows) then 1 else 0)
  pub row_number-pos :
      (key : Change → Option String) (order : List Column) (rows : List Change) (a : Change) (i : ℕ)
      → In (a, i) (row_number key order rows)
      → 1 ≤ i
  -- Within a partition the numbers follow the order.
  pub row_number-ordered :
      (key : Change → Option String) (order : List Column) (rows : List Change) (a b : Change)
      (i j : ℕ)
      → In (a, i) (row_number key order rows)
      → In (b, j) (row_number key order rows)
      → same (key a) (key b) ≡ true
      → i ≤ j
      → ahead order b a ≡ false
