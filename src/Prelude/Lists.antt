-- ===== src/Prelude/Lists.antt =====
-- Lists measured by native numbers, counted by a test, and their membership by recursion.
use payments_cdc_pipeline.Prelude.Tests.{if◌then◌else◌, Bool-cases}
use Prim.Native.Nat.{ℕ, suc, ◌+◌, ◌≤◌}
use mathlib.Core.Path.{◌≡◌, refl, ap, ◌∙◌}
use mathlib.Core.Logic.{◌⊎◌, inl, inr}
use mathlib.Core.Bool.{Bool, true, false, not, ◌||◌, ◌&&◌}
use mathlib.Core.List.{List, [], ◌∷◌, ◌++◌, map, Permᴰ}
use native.Mathlib.Omega.{arith}

module _ {ℓ} {A : Type ℓ} where
  abbrev pub length : List A → ℕ
  length [] = 0
  length (x ∷ xs) = suc (length xs)

  -- The rows that pass a Boolean test, and their number.
  abbrev pub keep : (A → Bool) → List A → List A
  keep p [] = []
  keep p (x ∷ xs) = let rest = keep p xs in if p x then x ∷ rest else rest

  abbrev pub count_if : (A → Bool) → List A → ℕ
  count_if p [] = 0
  count_if p (x ∷ xs) = let rest = count_if p xs in if p x then suc rest else rest

  abbrev pub any : (A → Bool) → List A → Bool
  any p [] = false
  any p (x ∷ xs) = p x || any p xs

  -- `all(p(x) for x in xs)`
  abbrev pub every : (A → Bool) → List A → Bool
  every p [] = true
  every p (x ∷ xs) = p x && every p xs

  pub length-append : (xs ys : List A) → length (xs ++ ys) ≡ length xs + length ys
  length-append [] ys = omega arith
  length-append (x ∷ xs) ys = omega (arith, length-append xs ys)

  pub count_if-append :
      (p : A → Bool) (xs ys : List A) → count_if p (xs ++ ys) ≡ count_if p xs + count_if p ys
  count_if-append p [] ys = omega arith
  count_if-append p (x ∷ xs) ys = ground (arith, count_if-append p xs ys)

  pub length-keep : (p : A → Bool) (xs : List A) → length (keep p xs) ≡ count_if p xs
  length-keep p [] = refl
  length-keep p (x ∷ xs) = ground (arith, length-keep p xs)

  -- A test and its negation share out the rows.
  pub count_if-not :
      (p : A → Bool) (xs : List A) → count_if p xs + count_if (λ x. not (p x)) xs ≡ length xs
  count_if-not p [] = refl
  count_if-not p (x ∷ xs) = ground (arith, count_if-not p xs)

  pub count_if-ext :
      (p q : A → Bool) (xs : List A) → ((x : A) → p x ≡ q x) → count_if p xs ≡ count_if q xs
  count_if-ext p q [] h = refl
  count_if-ext p q (x ∷ xs) h = rw (h x, count_if-ext p q xs h)

  pub count_if-keep :
      (p q : A → Bool) (xs : List A) → count_if p (keep q xs) ≡ count_if (λ x. p x && q x) xs
  count_if-keep p q [] = refl
  count_if-keep p q (x ∷ xs) = ground (arith, count_if-keep p q xs)

  pub count_if-keep_le : (p q : A → Bool) (xs : List A) → count_if p (keep q xs) ≤ count_if p xs
  count_if-keep_le p q [] = omega arith
  count_if-keep_le p q (x ∷ xs) = ground (arith, count_if-keep_le p q xs)

  pub count_if-perm : {xs ys : List A} (p : A → Bool) → Permᴰ xs ys → count_if p xs ≡ count_if p ys
  count_if-perm p Permᴰ.nil = refl
  count_if-perm p (Permᴰ.cons e h) = rw (e, count_if-perm p h)
  count_if-perm p (Permᴰ.swap e f) = rw (e, f) (ground arith)
  count_if-perm p (Permᴰ.trans h k) = count_if-perm p h ∙ count_if-perm p k

  pub length-perm : {xs ys : List A} → Permᴰ xs ys → length xs ≡ length ys
  length-perm Permᴰ.nil = refl
  length-perm (Permᴰ.cons e h) = ap suc (length-perm h)
  length-perm (Permᴰ.swap e f) = refl
  length-perm (Permᴰ.trans h k) = length-perm h ∙ length-perm k

module _ {ℓ κ} {A : Type ℓ} {B : Type κ} where
  pub length-map : (xs : List A) (f : A → B) → length (map f xs) ≡ length xs
  length-map [] f = refl
  length-map (x ∷ xs) f = ap suc (length-map xs f)

  pub count_if-map :
      (p : B → Bool) (f : A → B) (xs : List A) → count_if p (map f xs) ≡ count_if (λ x. p (f x)) xs
  count_if-map p f [] = refl
  count_if-map p f (x ∷ xs) = rw (count_if-map p f xs)

-- Membership, by recursion.
abbrev pub In : {A : Type 0} → A → List A → Type 0
In a [] = ⊥
In a (x ∷ xs) = (a ≡ x) ⊎ In a xs

module _ {A : Type 0} where
  -- Every member of the list has the property.
  abbrev pub Each : (A → Type 0) → List A → Type 0
  Each P xs = (a : A) → In a xs → P a

  pub In-perm : {xs ys : List A} (a : A) → Permᴰ xs ys → In a xs → In a ys
  In-perm a Permᴰ.nil m = m
  In-perm a (Permᴰ.cons e h) (inl m) = inl (m ∙ e)
  In-perm a (Permᴰ.cons e h) (inr m) = inr (In-perm a h m)
  In-perm a (Permᴰ.swap e f) (inl m) = inr (inl (m ∙ e))
  In-perm a (Permᴰ.swap e f) (inr (inl m)) = inl (m ∙ f)
  In-perm a (Permᴰ.swap e f) (inr (inr m)) = inr (inr m)
  In-perm a (Permᴰ.trans h k) m = In-perm a k (In-perm a h m)

  pub In-keep : (p : A → Bool) (a : A) (xs : List A) → In a (keep p xs) → In a xs × (p a ≡ true)
  In-keep p a [] m = absurd m
  In-keep p a (x ∷ xs) m = ground (arith, In-keep p a xs)

  pub keep-In : (p : A → Bool) (a : A) (xs : List A) → In a xs → p a ≡ true → In a (keep p xs)
  keep-In p a [] m h = m
  keep-In p a (x ∷ xs) (inl e) h = ground arith
  keep-In p a (x ∷ xs) (inr m) h = ground (arith, keep-In p a xs m h)

  pub count_if-In : (p : A → Bool) (a : A) (xs : List A) → In a xs → p a ≡ true → 1 ≤ count_if p xs
  count_if-In p a [] m h = absurd m
  count_if-In p a (x ∷ xs) (inl e) h = ground arith
  count_if-In p a (x ∷ xs) (inr m) h = ground (arith, count_if-In p a xs m h)

pub In-map :
    {A B : Type 0} (f : A → B) (b : B) (xs : List A)
    → In b (map f xs)
    → (a : A) × In a xs × (b ≡ f a)
In-map f b [] m = absurd m
In-map f b (x ∷ xs) (inl e) = (x, inl refl, e)
In-map f b (x ∷ xs) (inr m) = let (a, i, e) = In-map f b xs m in (a, inr i, e)

pub map-In : {A B : Type 0} (f : A → B) (a : A) (xs : List A) → In a xs → In (f a) (map f xs)
map-In f a (x ∷ xs) (inl e) = inl (ap f e)
map-In f a (x ∷ xs) (inr m) = inr (map-In f a xs m)
map-In f a [] m = absurd m

pub exists_of_count :
    {A : Type 0} (p : A → Bool) (xs : List A) → 1 ≤ count_if p xs → (a : A) × In a xs × (p a ≡ true)
exists_of_count p [] h = absurd (omega arith)
exists_of_count p (x ∷ xs) h = elim (Bool-cases (p x)) [
  | inl t ↦ (x, inl refl, t)
  | inr f ↦ let (a, m, e) = exists_of_count p xs (rw f at h) in (a, inr m, e)
]

pub any-In :
    {A : Type 0} (p : A → Bool) (a : A) (xs : List A) → In a xs → p a ≡ true → any p xs ≡ true
any-In p a [] m h = absurd m
any-In p a (x ∷ xs) (inl e) h = ground arith
any-In p a (x ∷ xs) (inr m) h = ground (arith, any-In p a xs m h)

pub count-any : {A : Type 0} (p : A → Bool) (xs : List A) → any p xs ≡ false → count_if p xs ≡ 0
count-any p [] h = refl
count-any p (x ∷ xs) h = ground (arith, count-any p xs)

-- Where a filter drops all rows that pass a test, none is left to pass it.
pub count_if-keep_none :
    {A : Type 0} (p q : A → Bool) (xs : List A)
    → ((x : A) → p x ≡ true → q x ≡ false)
    → count_if p (keep q xs) ≡ 0
count_if-keep_none p q [] h = refl
count_if-keep_none p q (x ∷ xs) h = elim (Bool-cases (p x)) [
  | inl t ↦ rw (h x t) (count_if-keep_none p q xs h)
  | inr f ↦ elim (Bool-cases (q x)) [
    | inl u ↦ rw (u, f) (count_if-keep_none p q xs h)
    | inr u ↦ rw u (count_if-keep_none p q xs h)
  ]
]

pub append_nil {ℓ} : {A : Type ℓ} (xs : List A) → xs ++ [] ≡ xs
append_nil [] = refl
append_nil (x ∷ xs) = ap (◌∷◌ x) (append_nil xs)

-- A filter that leaves nothing passes nothing.
pub none_left :
    {A : Type 0} (p : A → Bool) (a : A) (xs : List A)
    → length (keep p xs) ≡ 0
    → In a xs
    → p a ≡ false
none_left p a [] z m = absurd m
none_left p a (x ∷ xs) z (inl e) = rw e (go (p x) refl)
  where
    go : (b : Bool) → p x ≡ b → b ≡ false
    go false e = refl
    go true e = absurd (ground arith)
none_left p a (x ∷ xs) z (inr m) = none_left p a xs (ground arith) m

pub any_witness :
    {A : Type 0} (p : A → Bool) (xs : List A) → any p xs ≡ true → (a : A) × In a xs × (p a ≡ true)
any_witness p [] h = absurd (ground arith)
any_witness p (x ∷ xs) h = elim (Bool-cases (p x)) [
  | inl t ↦ (x, inl refl, t)
  | inr f ↦ let (a, m, e) = any_witness p xs (rw f at h) in (a, inr m, e)
]

pub keep-ext {ℓ} :
    {A : Type ℓ} (p q : A → Bool) (xs : List A) → ((x : A) → p x ≡ q x) → keep p xs ≡ keep q xs
keep-ext p q [] h = refl
keep-ext p q (x ∷ xs) h = rw (h x, keep-ext p q xs h)

pub every-In :
    {A : Type 0} (p : A → Bool) (a : A) (xs : List A) → every p xs ≡ true → In a xs → p a ≡ true
every-In p a [] h m = absurd m
every-In p a (x ∷ xs) h (inl e) = ground arith
every-In p a (x ∷ xs) h (inr m) = every-In p a xs (ground arith) m

module _ {A : Type 0} where
  pub In-append : (a : A) (xs ys : List A) → In a (xs ++ ys) → In a xs ⊎ In a ys
  In-append a [] ys m = inr m
  In-append a (x ∷ xs) ys (inl e) = inl (inl e)
  In-append a (x ∷ xs) ys (inr m) = ground (arith, In-append a xs ys m)

  pub append-In : (a : A) (xs ys : List A) → In a xs ⊎ In a ys → In a (xs ++ ys)
  append-In a [] ys m = ground (arith, m)
  append-In a (x ∷ xs) ys (inl (inl e)) = inl e
  append-In a (x ∷ xs) ys (inl (inr m)) = inr (append-In a xs ys (inl m))
  append-In a (x ∷ xs) ys (inr m) = inr (append-In a xs ys (inr m))
