-- ===== src/Job/Dedup.antt =====
-- What `dedup_latest` of spark/jobs/payments_cdc_job.py leaves of a batch.
use payments_cdc_pipeline.Prelude.{
  ℕ, suc, ◌≤◌, String, List, [], ◌∷◌, Bool, true, false, Option, none, some, map, ◌&&◌, keep,
  count_if, count_if-ext, count_if-keep, count_if-map, count_if-In, exists_of_count, In, In-keep,
  In-map, map-In, keep-In, In-perm, has_key, HasUniqueKeys, ◌==◌, ==_iff, text_eq, text_eq_refl,
  eq_iff, ltb, if◌then◌else◌, ◌≡◌, refl, sym, ap, ◌∙◌, arith, inl, inr,
}
use payments_cdc_pipeline.Change.{Change}
use payments_cdc_pipeline.Window.{Window, ahead, same}
use payments_cdc_pipeline.Job.{dedup_latest, latest_first}
use mathlib.Core.Path.{subst}
use mathlib.Core.List.Permᴰ

abbrev pub key_of : Change → Option String
key_of c = c.transaction_id

abbrev first : Change × ℕ → Change
first e = e.0

abbrev is_first : Change × ℕ → Bool
is_first e = e.1 == 1

same_refl : (k : Option String) → same k k ≡ true
same_refl none = refl
same_refl (some k) = text_eq_refl k

same-eq : (j k : Option String) → same j k ≡ true → j ≡ k
same-eq none none h = refl
same-eq none (some k) h = ground arith
same-eq (some j) none h = ground arith
same-eq (some j) (some k) h = ap some ((eq_iff j k).0 h)

and_left : (a b : Bool) → (a && b) ≡ true → a ≡ true
and_left a b h = ground arith

and_right : (a b : Bool) → (a && b) ≡ true → b ≡ true
and_right a b h = ground arith

names-same : (k : String) (c : Change) → has_key key_of k c ≡ same (some k) c.transaction_id
names-same k c = go c.transaction_id
  where
    go : (j : Option String) → payments_cdc_pipeline.Prelude.names k j ≡ same (some k) j
    go none = refl
    go (some j) = refl

module _ (window : Window) (has_offset : Bool) (df : List Change) where
  abbrev numbered : List (Change × ℕ)
  numbered = window.row_number key_of (latest_first has_offset) df

  survivor : (s : Change) → In s (dedup_latest window has_offset df) → In (s, 1) numbered
  unfolding dedup_latest
  survivor s m =
      let (e, n, p) = In-map first s (keep is_first numbered) m in
      let (n', q) = In-keep is_first e numbered n in
      let r : e.1 ≡ 1 = (==_iff e.1 1).0 q in
      subst (λ (x : Change × ℕ). In x numbered) (λ i. (sym p i, r i)) n'

  numbered-In : (s : Change) (i : ℕ) → In (s, i) numbered → In s df
  numbered-In s i m =
      In-perm s (window.row_number-rows key_of (latest_first has_offset) df)
        (map-In first (s, i) numbered m)

  In-numbered : (c : Change) → In c df → (i : ℕ) × In (c, i) numbered
  In-numbered c m =
      let p = Permᴰ.symm (window.row_number-rows key_of (latest_first has_offset) df) in
      let (e, n, q) = In-map first c numbered (In-perm c p m) in
      (e.1, subst (λ (x : Change). In (x, e.1) numbered) (sym q) n)

  -- Survivors are rows of the batch.
  pub dedup-In : (s : Change) → In s (dedup_latest window has_offset df) → In s df
  dedup-In s m = numbered-In s 1 (survivor s m)

  pub dedup-HasUniqueKeys : HasUniqueKeys key_of (dedup_latest window has_offset df)
  unfolding dedup_latest
  dedup-HasUniqueKeys k =
      rw
        (
          count_if-map (has_key key_of k) first (keep is_first numbered),
          count_if-keep (λ e. has_key key_of k e.0) is_first numbered,
          count_if-ext _ (λ (e : Change × ℕ). same (some k) (key_of e.0) && (e.1 == 1)) numbered
              (λ e. ap (λ b. b && is_first e) (names-same k e.0)),
        )
        (ground (arith, window.row_number-counts key_of (latest_first has_offset) df (some k) 0))

  -- Some row has the number 1 in the partition of a row of the batch.
  first_of :
      (c : Change)
      → In c df
      → (e : Change × ℕ) × In e numbered × ((same (key_of c) (key_of e.0) && (e.1 == 1)) ≡ true)
  first_of c m =
      exists_of_count (λ (e : Change × ℕ). same (key_of c) (key_of e.0) && (e.1 == 1)) numbered
        (ground (
          arith,
          window.row_number-counts key_of (latest_first has_offset) df (key_of c) 0,
          count_if-In (λ a. same (key_of c) (key_of a)) c df m (same_refl (key_of c)),
        ))

  -- Every row of the batch has a survivor with its key that it does not precede.
  pub dedup-covers :
      (c : Change)
      → In c df
      → (s : Change) × In s (dedup_latest window has_offset df)
        × (s.transaction_id ≡ c.transaction_id)
        × (ahead (latest_first has_offset) c s ≡ false)
  unfolding dedup_latest
  dedup-covers c m =
      let ((s, i), n, t) = first_of c m in
      let (j, l) = In-numbered c m in
      let p : i ≡ 1 = (==_iff i 1).0 (and_right _ _ t) in
      let k : c.transaction_id ≡ s.transaction_id = same-eq _ _ (and_left _ _ t) in
      (
        s,
        map-In first (s, i) (keep is_first numbered)
            (keep-In is_first (s, i) numbered n (and_right _ _ t)),
        sym k,
        window.row_number-ordered key_of (latest_first has_offset) df s c i j n l
            (subst (λ z. same z (key_of c) ≡ true) k (same_refl (key_of c)))
            (rw p (window.row_number-pos key_of (latest_first has_offset) df c j l)),
      )
