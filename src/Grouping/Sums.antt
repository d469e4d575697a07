-- ===== src/Grouping/Sums.antt =====
-- Sums over groups: to add up the sums of the groups is to add up the rows, whatever the groups.
use payments_cdc_pipeline.Prelude.{
  List, [], ◌∷◌, map, Bool, false, keep, count_if, if◌then◌else◌, Bool-cases, In, ◌≡◌, refl, sym,
  ap, ◌∙◌, inl, inr, arith,
}
use payments_cdc_pipeline.Grouping.{Key}

-- An addition whose order does not matter, as an aggregate's is.
pub record Addition (M : Type 0) : Type 0 where
  pub none_added : M
  pub add : M → M → M
  pub add_assoc : (a b c : M) → add (add a b) c ≡ add a (add b c)
  pub add_comm : (a b : M) → add a b ≡ add b a
  pub none-add : (a : M) → add none_added a ≡ a

module _ {M A : Type 0} (addition : Addition M) where
  -- The aggregate of a column over rows.
  abbrev pub total : (A → M) → List A → M
  total f [] = addition.none_added
  total f (x ∷ xs) = addition.add (f x) (total f xs)

module _ {M : Type 0} (addition : Addition M) where
  add_none : (a : M) → addition.add a addition.none_added ≡ a
  add_none a = addition.add_comm a addition.none_added ∙ addition.none-add a

  middle :
      (a b c d : M)
      → addition.add (addition.add a b) (addition.add c d)
        ≡ addition.add (addition.add a c) (addition.add b d)
  middle a b c d =
      addition.add_assoc a b (addition.add c d)
      ∙ ap (addition.add a) (
          sym (addition.add_assoc b c d)
          ∙ ap (λ x. addition.add x d) (addition.add_comm b c)
          ∙ addition.add_assoc c b d)
      ∙ sym (addition.add_assoc a c (addition.add b d))

  total-add :
      {A : Type 0} (f g : A → M) (xs : List A)
      → total addition (λ x. addition.add (f x) (g x)) xs
        ≡ addition.add (total addition f xs) (total addition g xs)
  total-add f g [] = sym (addition.none-add addition.none_added)
  total-add f g (x ∷ xs) =
      ap (addition.add (addition.add (f x) (g x))) (total-add f g xs)
      ∙ middle (f x) (g x) (total addition f xs) (total addition g xs)

  pub total-ext :
      {A : Type 0} (f g : A → M) (xs : List A)
      → ((x : A) → In x xs → f x ≡ g x)
      → total addition f xs ≡ total addition g xs
  total-ext f g [] h = refl
  total-ext f g (x ∷ xs) h =
      ap (λ y. addition.add y (total addition f xs)) (h x (inl refl))
      ∙ ap (addition.add (g x)) (total-ext f g xs (λ y m. h y (inr m)))

  pub total-map :
      {A B : Type 0} (f : B → M) (g : A → B) (xs : List A)
      → total addition f (map g xs) ≡ total addition (λ x. f (g x)) xs
  total-map f g [] = refl
  total-map f g (x ∷ xs) = rw (total-map f g xs)

  total-nothing :
      {A : Type 0} (xs : List A)
      → total addition (λ (x : A). addition.none_added) xs ≡ addition.none_added
  total-nothing [] = refl
  total-nothing (x ∷ xs) =
      addition.none-add (total addition (λ x. addition.none_added) xs) ∙ total-nothing xs

  abbrev if_hit : {A : Type 0} → (A → Bool) → M → A → M
  if_hit p m a = if p a then m else addition.none_added

  missed :
      {A : Type 0} (p : A → Bool) (m : M) (x : A) (xs : List A)
      → p x ≡ false
      → total addition (if_hit p m) (x ∷ xs) ≡ total addition (if_hit p m) xs
  missed p m x xs f =
      ap (λ b. addition.add (if b then m else addition.none_added) (total addition (if_hit p m) xs))
        f
      ∙ addition.none-add (total addition (if_hit p m) xs)

  -- What is added where a test hits is added as often as it hits.
  no_hit :
      {A : Type 0} (p : A → Bool) (m : M) (xs : List A)
      → count_if p xs ≡ 0
      → total addition (if_hit p m) xs ≡ addition.none_added
  no_hit p m [] z = refl
  no_hit p m (x ∷ xs) z = elim (Bool-cases (p x)) [
    | inl t ↦ absurd (ground arith)
    | inr f ↦ missed p m x xs f ∙ no_hit p m xs (ground arith)
  ]

  one_hit :
      {A : Type 0} (p : A → Bool) (m : M) (xs : List A)
      → count_if p xs ≡ 1
      → total addition (if_hit p m) xs ≡ m
  one_hit p m [] z = absurd (ground arith)
  one_hit p m (x ∷ xs) z = elim (Bool-cases (p x)) [
    | inl t ↦
        ap
          (λ b.
            addition.add (if b then m else addition.none_added) (total addition (if_hit p m) xs))
          t
        ∙ ap (addition.add m) (no_hit p m xs (ground arith))
        ∙ add_none m
    | inr f ↦ missed p m x xs f ∙ one_hit p m xs (ground arith)
  ]

  module _ {A K : Type 0} (key : Key K) (of : A → K) (f : A → M) where
    abbrev pub group_total : List A → K → M
    group_total xs k = total addition f (keep (λ x. key.same (of x) k) xs)

    add_row :
        (x : A) (xs : List A) (k : K)
        → group_total (x ∷ xs) k
          ≡ addition.add (if_hit (key.same (of x)) (f x) k) (group_total xs k)
    add_row x xs k = elim (Bool-cases (key.same (of x) k)) [
      | inl t ↦ rw t refl
      | inr n ↦ rw n (sym (addition.none-add (group_total xs k)))
    ]

    -- Over keys among which each row's stands once, the groups' sums add up to the rows' sum.
    pub groups_total :
        (ks : List K) (xs : List A)
        → ((x : A) → In x xs → count_if (key.same (of x)) ks ≡ 1)
        → total addition (group_total xs) ks ≡ total addition f xs
    groups_total ks [] h = total-nothing ks
    groups_total ks (x ∷ xs) h =
        total-ext (group_total (x ∷ xs))
          (λ k. addition.add (if_hit (key.same (of x)) (f x) k) (group_total xs k)) ks
          (λ k m. add_row x xs k)
        ∙ total-add (if_hit (key.same (of x)) (f x)) (group_total xs) ks
        ∙ ap (λ y. addition.add y (total addition (group_total xs) ks))
            (one_hit (key.same (of x)) (f x) ks (h x (inl refl)))
        ∙ ap (addition.add (f x)) (groups_total ks xs (λ y m. h y (inr m)))
