-- ===== src/Window/Reference.antt =====
-- A window function that meets the interface: an insertion sort, then a count for each partition.
use payments_cdc_pipeline.Prelude.{
  ℕ, suc, ◌+◌, ◌≤◌, ◌<◌, String, List, [], ◌∷◌, Bool, true, false, Option, none, some, map, ◌&&◌,
  ◌≡◌, refl, ap, inl, inr, ltb, leb, ◌==◌, if◌then◌else◌, In, Each, In-perm, count_if,
  count_if-perm, text_eq_refl, eq_iff, Bool-cases, arith, ◌∙◌, sym,
}
use payments_cdc_pipeline.Change.{Change}
use payments_cdc_pipeline.Window.{Window, Column, asc, desc, ahead, same}
use mathlib.Core.Path.{subst}
use mathlib.Core.List.{Permᴰ}
use mathlib.Core.List.Permᴰ

abbrev pub Order : Type 0
Order = List Column

ahead_irrefl : (order : Order) (a : Change) → ahead order a a ≡ false
ahead_irrefl [] a = refl
ahead_irrefl (asc col ∷ cols) a = ground (arith, ahead_irrefl cols a)
ahead_irrefl (desc col ∷ cols) a = ground (arith, ahead_irrefl cols a)

ahead_asym : (order : Order) (a b : Change) → ahead order a b ≡ true → ahead order b a ≡ false
ahead_asym [] a b h = refl
ahead_asym (asc col ∷ cols) a b h = ground (arith, ahead_asym cols a b)
ahead_asym (desc col ∷ cols) a b h = ground (arith, ahead_asym cols a b)

ahead_trans :
    (order : Order) (a b c : Change)
    → ahead order b a ≡ false
    → ahead order c b ≡ false
    → ahead order c a ≡ false
ahead_trans [] a b c h k = refl
ahead_trans (asc col ∷ cols) a b c h k = ground (arith, ahead_trans cols a b c)
ahead_trans (desc col ∷ cols) a b c h k = ground (arith, ahead_trans cols a b c)

same_refl : (k : Option String) → same k k ≡ true
same_refl none = refl
same_refl (some k) = text_eq_refl k

same-eq : (j k : Option String) → same j k ≡ true → j ≡ k
same-eq none none h = refl
same-eq none (some k) h = ground arith
same-eq (some j) none h = ground arith
same-eq (some j) (some k) h = ap some ((eq_iff j k).0 h)

module _ (order : Order) where
  unfoldable pub insert : Change → List Change → List Change
  insert x [] = x ∷ []
  insert x (y ∷ ys) = let rest = insert x ys in if ahead order y x then y ∷ rest else x ∷ y ∷ ys

  unfoldable pub sort : List Change → List Change
  unfolding insert
  sort [] = []
  sort (x ∷ xs) = insert x (sort xs)

  abbrev pub IsSorted : List Change → Type 0
  IsSorted [] = Unit
  IsSorted (x ∷ xs) = Each (λ y. ahead order y x ≡ false) xs × IsSorted xs

  insert-perm : (x : Change) (ys : List Change) → Permᴰ (insert x ys) (x ∷ ys)
  unfolding insert
  insert-perm x [] = Permᴰ.refl (x ∷ [])
  insert-perm x (y ∷ ys) = elim (Bool-cases (ahead order y x)) [
    | inl t ↦ rw t (Permᴰ.trans (Permᴰ.cons refl (insert-perm x ys)) (Permᴰ.swap refl refl))
    | inr f ↦ rw f (Permᴰ.refl (x ∷ y ∷ ys))
  ]

  sort-perm : (xs : List Change) → Permᴰ (sort xs) xs
  unfolding sort
  sort-perm [] = Permᴰ.nil
  sort-perm (x ∷ xs) = Permᴰ.trans (insert-perm x (sort xs)) (Permᴰ.cons refl (sort-perm xs))

  insert-IsSorted : (x : Change) (ys : List Change) → IsSorted ys → IsSorted (insert x ys)
  unfolding insert
  insert-IsSorted x [] s = (λ a m. absurd m, tt)
  insert-IsSorted x (y ∷ ys) s = elim (Bool-cases (ahead order y x)) [
    | inl t ↦ rw t (below t, insert-IsSorted x ys s.1)
    | inr f ↦ rw f (above f, s)
  ]
    where
      split : ahead order y x ≡ true → (a : Change) → In a (x ∷ ys) → ahead order a y ≡ false
      split t a (inl e) = rw e (ahead_asym order y x t)
      split t a (inr m) = s.0 a m

      below : ahead order y x ≡ true → Each (λ a. ahead order a y ≡ false) (insert x ys)
      below t a m = split t a (In-perm a (insert-perm x ys) m)

      above : ahead order y x ≡ false → Each (λ a. ahead order a x ≡ false) (y ∷ ys)
      above f a (inl e) = rw e f
      above f a (inr m) = ahead_trans order x y a f (s.0 a m)

  pub sort-IsSorted : (xs : List Change) → IsSorted (sort xs)
  unfolding sort
  sort-IsSorted [] = tt
  sort-IsSorted (x ∷ xs) = insert-IsSorted x (sort xs) (sort-IsSorted xs)

module _ (key : Change → Option String) where
  abbrev pub in_part : Option String → Change → Bool
  in_part part c = same part (key c)

  unfoldable pub number : List Change → List Change → List (Change × ℕ)
  number seen [] = []
  number seen (c ∷ cs) = (c, suc (count_if (in_part (key c)) seen)) ∷ number (c ∷ seen) cs

  number-rows : (seen cs : List Change) → map (λ (e : Change × ℕ). e.0) (number seen cs) ≡ cs
  unfolding number
  number-rows seen [] = refl
  number-rows seen (c ∷ cs) = ap (◌∷◌ c) (number-rows (c ∷ seen) cs)

  number-In : (seen cs : List Change) (a : Change) (i : ℕ) → In (a, i) (number seen cs) → In a cs
  unfolding number
  number-In seen [] a i m = absurd m
  number-In seen (c ∷ cs) a i (inl e) = inl (ap (λ (p : Change × ℕ). p.0) e)
  number-In seen (c ∷ cs) a i (inr m) = inr (number-In (c ∷ seen) cs a i m)

  number-counts :
      (seen cs : List Change) (part : Option String) (n : ℕ)
      → count_if (λ (e : Change × ℕ). same part (key e.0) && (e.1 == suc n)) (number seen cs) ≡ (
          if leb (count_if (in_part part) seen) n
            && ltb n (count_if (in_part part) seen + count_if (in_part part) cs)
          then 1
          else 0)
  unfolding number
  number-counts seen [] part n = ground arith
  number-counts seen (c ∷ cs) part n = elim (Bool-cases (same part (key c))) [
    | inl t ↦
        let e : key c ≡ part = sym (same-eq part (key c) t) in
        ground (arith, number-counts (c ∷ seen) cs part n)
    | inr f ↦ ground (arith, number-counts (c ∷ seen) cs part n)
  ]

  number-above :
      (seen cs : List Change) (a : Change) (i : ℕ)
      → In (a, i) (number seen cs)
      → count_if (in_part (key a)) seen < i
  unfolding number
  number-above seen [] a i m = absurd m
  number-above seen (c ∷ cs) a i (inl e) =
      let p : a ≡ c = ap (λ (p : Change × ℕ). p.0) e in
      let q : i ≡ suc (count_if (in_part (key c)) seen) = ap (λ (p : Change × ℕ). p.1) e in
      rw (q, p) (omega arith)
  number-above seen (c ∷ cs) a i (inr m) = ground (arith, number-above (c ∷ seen) cs a i m)

  pub number-ordered :
      (order : Order) (seen cs : List Change)
      → IsSorted order cs
      → (a b : Change) (i j : ℕ) → In (a, i) (number seen cs)
      → In (b, j) (number seen cs)
      → same (key a) (key b) ≡ true
      → i ≤ j
      → ahead order b a ≡ false
  unfolding number
  number-ordered order seen [] s a b i j m n h le = absurd m
  number-ordered order seen (c ∷ cs) s a b i j (inl e) (inl f) h le =
      let p : a ≡ c = ap (λ (p : Change × ℕ). p.0) e in
      let q : b ≡ c = ap (λ (p : Change × ℕ). p.0) f in rw (p, q) (ahead_irrefl order c)
  number-ordered order seen (c ∷ cs) s a b i j (inl e) (inr n) h le =
      let p : a ≡ c = ap (λ (p : Change × ℕ). p.0) e in rw p (s.0 b (number-In (c ∷ seen) cs b j n))
  number-ordered order seen (c ∷ cs) s a b i j (inr m) (inl f) h le =
      let p : b ≡ c = ap (λ (p : Change × ℕ). p.0) f in
      let q : j ≡ suc (count_if (in_part (key c)) seen) = ap (λ (p : Change × ℕ). p.1) f in
      let k : key a ≡ key c = same-eq (key a) (key b) h ∙ ap key p in
      let l : count_if (in_part (key c)) (c ∷ seen) < i =
        subst (λ z. count_if (in_part z) (c ∷ seen) < i) k (number-above (c ∷ seen) cs a i m) in
      let r : same (key c) (key c) ≡ true = same_refl (key c) in absurd (ground arith)
  number-ordered order seen (c ∷ cs) s a b i j (inr m) (inr n) h le =
      number-ordered order (c ∷ seen) cs s.1 a b i j m n h le

abbrev pub rows_of : (Change → Option String) → Order → List Change → List (Change × ℕ)
rows_of key order rows = number key [] (sort order rows)

pub plain-rows :
    (key : Change → Option String) (order : Order) (rows : List Change)
    → Permᴰ (map (λ (e : Change × ℕ). e.0) (rows_of key order rows)) rows
plain-rows key order rows = rw (number-rows key [] (sort order rows)) (sort-perm order rows)

pub plain-counts :
    (key : Change → Option String) (order : Order) (rows : List Change) (part : Option String)
    (n : ℕ)
    → count_if (λ (e : Change × ℕ). same part (key e.0) && (e.1 == suc n)) (rows_of key order rows)
      ≡ (if ltb n (count_if (λ c. same part (key c)) rows) then 1 else 0)
plain-counts key order rows part n =
    number-counts key [] (sort order rows) part n
    ∙ ground (arith, count_if-perm (λ c. same part (key c)) (sort-perm order rows))

pub plain-pos :
    (key : Change → Option String) (order : Order) (rows : List Change) (a : Change) (i : ℕ)
    → In (a, i) (rows_of key order rows)
    → 1 ≤ i
plain-pos key order rows a i m = omega (arith, number-above key [] (sort order rows) a i m)

unfoldable pub plain_window : Window
unfolding number sort insert
plain_window = record {
  row_number = rows_of;
  row_number-rows = plain-rows;
  row_number-counts = plain-counts;
  row_number-pos = plain-pos;
  row_number-ordered =
      λ key order rows. number-ordered key order [] (sort order rows) (sort-IsSorted order rows);
}
