-- ===== src/Prelude/Find.antt =====
-- Rows looked up by a nullable key column, and the uniqueness of that key.
use payments_cdc_pipeline.Prelude.Tests.{if◌then◌else◌, Bool-cases}
use payments_cdc_pipeline.Prelude.Lists.{count_if, count_if-perm, count_if-In, In, keep}
use Prim.Native.Nat.{◌≤◌}
use Prim.Native.String.{String}
use mathlib.Core.Path.{◌≡◌, refl, ◌∙◌}
use mathlib.Core.Logic.{inl, inr}
use mathlib.Core.Bool.{Bool, true, false}
use mathlib.Core.Option.{Option, none, some}
use mathlib.Core.List.{List, [], ◌∷◌, ◌++◌, map, Permᴰ}
use native.Mathlib.Omega.{arith}
use text.Mathlib.Text.{◌==◌ as text_eq}

-- A NULL key is no text.
abbrev pub names : String → Option String → Bool
names k none = false
names k (some j) = text_eq k j

module _ {A : Type 0} (key : A → Option String) where
  abbrev pub has_key : String → A → Bool
  has_key k a = names k (key a)

  abbrev pub find : String → List A → Option A
  find k [] = none
  find k (a ∷ rows) = if has_key k a then some a else find k rows

  -- No text is the key of two rows.
  abbrev pub HasUniqueKeys : List A → Type 0
  HasUniqueKeys rows = (k : String) → count_if (has_key k) rows ≤ 1

  pub HasUniqueKeys-perm : {xs ys : List A} → Permᴰ xs ys → HasUniqueKeys xs → HasUniqueKeys ys
  HasUniqueKeys-perm p h k = omega (arith, h k, count_if-perm (has_key k) p)

  -- A reordering finds the same row where the key is unique.
  pub find-perm :
      (k : String) {xs ys : List A}
      → Permᴰ xs ys
      → count_if (has_key k) xs ≤ 1
      → find k xs ≡ find k ys
  find-perm k Permᴰ.nil h = refl
  find-perm k (Permᴰ.cons {a = a} e p) h =
      rw (← e) (elim (Bool-cases (has_key k a)) [
        | inl t ↦ rw t
        | inr f ↦ rw f (find-perm k p (rw f at h))
      ])
  find-perm k (Permᴰ.swap {a = a} {b = b} e f) h =
      rw (← e, ← f)
        (elim (Bool-cases (has_key k a)) [
          | inl t ↦ elim (Bool-cases (has_key k b)) [
            | inl u ↦ absurd (ground arith)
            | inr u ↦ rw (t, u)
          ]
          | inr t ↦ rw t
        ])
  find-perm k (Permᴰ.trans p q) h =
      find-perm k p h ∙ find-perm k q (omega (arith, count_if-perm (has_key k) p))

  pub find-none : (k : String) (rows : List A) → count_if (has_key k) rows ≡ 0 → find k rows ≡ none
  find-none k [] h = refl
  find-none k (a ∷ rows) h = ground (arith, find-none k rows)

  pub find-some :
      (k : String) (rows : List A)
      → 1 ≤ count_if (has_key k) rows
      → (a : A) × (find k rows ≡ some a)
  find-some k [] h = absurd (omega arith)
  find-some k (a ∷ rows) h = elim (Bool-cases (has_key k a)) [
    | inl t ↦ (a, rw t)
    | inr f ↦ rw f (find-some k rows (rw f at h))
  ]

  pub find-In :
      (k : String) (rows : List A) (a : A) → find k rows ≡ some a → In a rows × (has_key k a ≡ true)
  find-In k [] a h = absurd (ground arith)
  find-In k (b ∷ rows) a h = ground (arith, find-In k rows a)

  -- With a unique key, a member is the row found.
  pub find_of_In :
      (k : String) (rows : List A) (a : A)
      → count_if (has_key k) rows ≤ 1
      → In a rows
      → has_key k a ≡ true
      → find k rows ≡ some a
  find_of_In k [] a h m t = absurd m
  find_of_In k (b ∷ rows) a h (inl e) t = ground arith
  find_of_In k (b ∷ rows) a h (inr m) t =
      ground (arith, find_of_In k rows a, count_if-In (has_key k) a rows m t)

  pub find-append :
      (k : String) (xs ys : List A)
      → find k (xs ++ ys) ≡ elim (find k xs) [ some a ↦ some a | none ↦ find k ys ]
  find-append k [] ys = refl
  find-append k (x ∷ xs) ys = elim (Bool-cases (has_key k x)) [
    | inl t ↦ rw t
    | inr f ↦ rw f (find-append k xs ys)
  ]

  -- A filter that spares the rows of a key finds the same row.
  pub find-keep :
      (k : String) (p : A → Bool) (rows : List A)
      → ((a : A) → In a rows → has_key k a ≡ true → p a ≡ true)
      → find k (keep p rows) ≡ find k rows
  find-keep k p [] h = refl
  find-keep k p (a ∷ rows) h = elim (Bool-cases (has_key k a)) [
    | inl t ↦ rw (h a (inl refl) t, t)
    | inr f ↦ elim (Bool-cases (p a)) [
      | inl u ↦ rw (u, f) (find-keep k p rows (λ b m. h b (inr m)))
      | inr u ↦ rw (u, f) (find-keep k p rows (λ b m. h b (inr m)))
    ]
  ]

-- A map that keeps the key finds the image.
pub find-map :
    {A B : Type 0} (key : A → Option String) (key' : B → Option String) (f : A → B)
    → ((a : A) → key' (f a) ≡ key a)
    → (k : String) (rows : List A)
    → find key' k (map f rows) ≡ elim (find key k rows) [ some a ↦ some (f a) | none ↦ none ]
find-map key key' f h k [] = refl
find-map key key' f h k (a ∷ rows) = elim (Bool-cases (has_key key k a)) [
  | inl t ↦ rw (h a, t)
  | inr n ↦ rw (h a, n) (find-map key key' f h k rows)
]
