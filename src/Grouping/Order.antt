-- ===== src/Grouping/Order.antt =====
-- Spark's frames have no order: the distinct keys of two orders of one list are two orders of one list, and
-- so is what a filter leaves.
use payments_cdc_pipeline.Prelude.{
  List, ◌∷◌, Bool, true, false, any, keep, if◌then◌else◌, Bool-cases, ◌≡◌, refl, sym, ap, ◌∙◌, inl,
  inr, arith,
}
use mathlib.Core.Path.{subst}
use mathlib.Core.List.{Permᴰ}
use mathlib.Core.List.Permᴰ
use payments_cdc_pipeline.Grouping.{Key, distinct}

module _ {A : Type 0} where
  pub any-perm : {xs ys : List A} (p : A → Bool) → Permᴰ xs ys → any p xs ≡ any p ys
  any-perm p Permᴰ.nil = refl
  any-perm p (Permᴰ.cons e h) = rw (e, any-perm p h) refl
  any-perm p (Permᴰ.swap e f) = rw (e, f) (ground arith)
  any-perm p (Permᴰ.trans h k) = any-perm p h ∙ any-perm p k

  swap-keep :
      (p : A → Bool) (x y : A) (zs : List A) → Permᴰ (keep p (x ∷ y ∷ zs)) (keep p (y ∷ x ∷ zs))
  swap-keep p x y zs = elim (Bool-cases (p x)) [
    | inl t ↦ elim (Bool-cases (p y)) [
      | inl u ↦ rw (t, u) (Permᴰ.swap refl refl)
      | inr u ↦ rw (t, u) (Permᴰ.refl (x ∷ keep p zs))
    ]
    | inr f ↦ elim (Bool-cases (p y)) [
      | inl u ↦ rw (f, u) (Permᴰ.refl (y ∷ keep p zs))
      | inr u ↦ rw (f, u) (Permᴰ.refl (keep p zs))
    ]
  ]

  pub keep-perm : {xs ys : List A} (p : A → Bool) → Permᴰ xs ys → Permᴰ (keep p xs) (keep p ys)
  keep-perm p Permᴰ.nil = Permᴰ.nil
  keep-perm p (Permᴰ.cons {b = b} e h) = elim (Bool-cases (p b)) [
    | inl t ↦ rw (e, t) (Permᴰ.cons refl (keep-perm p h))
    | inr f ↦ rw (e, f) (keep-perm p h)
  ]
  keep-perm p (Permᴰ.swap {a = x} {b = y} {l = zs} e f) =
      subst (λ l. Permᴰ (keep p (x ∷ y ∷ zs)) (keep p l)) (λ i. f i ∷ e i ∷ zs) (swap-keep p x y zs)
  keep-perm p (Permᴰ.trans h k) = Permᴰ.trans (keep-perm p h) (keep-perm p k)

module _ {K : Type 0} (key : Key K) where
  same_sym : (j k : K) → key.same j k ≡ true → key.same k j ≡ true
  same_sym j k h = subst (λ z. key.same k z ≡ true) (sym (key.same-eq j k h)) (key.same_refl k)

  -- A key put before the distinct keys of a list.
  abbrev put : K → List K → List K
  put k ds = if any (key.same k) ds then ds else k ∷ ds

  put-perm : {ds es : List K} (k : K) → Permᴰ ds es → Permᴰ (put k ds) (put k es)
  put-perm {ds = ds} {es = es} k h = elim (Bool-cases (any (key.same k) es)) [
    | inl t ↦ rw (any-perm (key.same k) h, t) h
    | inr f ↦ rw (any-perm (key.same k) h, f) (Permᴰ.cons refl h)
  ]

  put_known : (k : K) (ds : List K) → any (key.same k) ds ≡ true → put k ds ≡ ds
  put_known k ds h = rw h refl

  put_new : (k : K) (ds : List K) → any (key.same k) ds ≡ false → put k ds ≡ k ∷ ds
  put_new k ds h = rw h refl

  put_two :
      (x y : K) (ds : List K)
      → any (key.same x) ds ≡ true
      → any (key.same y) ds ≡ true
      → put x (put y ds) ≡ put y (put x ds)
  put_two x y ds t u =
      ap (put x) (put_known y ds u)
      ∙ put_known x ds t
      ∙ sym (ap (put y) (put_known x ds t) ∙ put_known y ds u)

  -- A new key and a known one, in either order.
  put_mixed :
      (x y : K) (ds : List K)
      → any (key.same x) ds ≡ true
      → any (key.same y) ds ≡ false
      → put x (put y ds) ≡ put y (put x ds)
  put_mixed x y ds t u =
      ap (put x) (put_new y ds u)
      ∙ put_known x (y ∷ ds) (ground (arith, t))
      ∙ sym (ap (put y) (put_known x ds t) ∙ put_new y ds u)

  put_fresh :
      (x y : K) (ds : List K)
      → any (key.same x) ds ≡ false
      → any (key.same y) ds ≡ false
      → Permᴰ (put x (y ∷ ds)) (put y (x ∷ ds))
  put_fresh x y ds f u = elim (Bool-cases (key.same x y)) [
    | inl e ↦
        rw
          (
            put_known x (y ∷ ds) (ground (arith, e)),
            put_known y (x ∷ ds) (ground (arith, same_sym x y e)),
          )
          (Permᴰ.cons (sym (key.same-eq x y e)) (Permᴰ.refl ds))
    | inr n ↦
        rw
          (
            put_new x (y ∷ ds) (ground (arith, f, n)),
            put_new y (x ∷ ds) (ground (arith, u, other n)),
          )
          (Permᴰ.swap refl refl)
  ]
    where
      other : key.same x y ≡ false → key.same y x ≡ false
      other n = elim (Bool-cases (key.same y x)) [
        | inl t ↦ absurd (ground (arith, n, same_sym y x t))
        | inr g ↦ g
      ]

  put-put : (x y : K) (ds : List K) → Permᴰ (put x (put y ds)) (put y (put x ds))
  put-put x y ds = elim (Bool-cases (any (key.same x) ds)) [
    | inl t ↦ elim (Bool-cases (any (key.same y) ds)) [
      | inl u ↦ rw (put_two x y ds t u) (Permᴰ.refl _)
      | inr u ↦ rw (put_mixed x y ds t u) (Permᴰ.refl _)
    ]
    | inr f ↦ elim (Bool-cases (any (key.same y) ds)) [
      | inl u ↦ rw (put_mixed y x ds u f) (Permᴰ.refl _)
      | inr u ↦ rw (put_new y ds u, put_new x ds f) (put_fresh x y ds f u)
    ]
  ]

  pub distinct-perm : {xs ys : List K} → Permᴰ xs ys → Permᴰ (distinct key xs) (distinct key ys)
  unfolding distinct
  distinct-perm Permᴰ.nil = Permᴰ.nil
  distinct-perm (Permᴰ.cons {b = b} {l₁ = xs} {l₂ = ys} e h) = rw e (put-perm b (distinct-perm h))
  distinct-perm (Permᴰ.swap {a = x} {b = y} {l = zs} e f) =
      subst (λ l. Permᴰ (distinct key (x ∷ y ∷ zs)) (distinct key l)) (λ i. f i ∷ e i ∷ zs)
        (put-put x y (distinct key zs))
  distinct-perm (Permᴰ.trans h k) = Permᴰ.trans (distinct-perm h) (distinct-perm k)
