-- ===== src/Job/Merge.antt =====
-- What the MERGE of `merge_batch` in spark/jobs/payments_cdc_job.py makes of one key.
use payments_cdc_pipeline.Prelude.{
  ◌≤◌, String, List, [], ◌∷◌, Bool, true, false, Option, none, some, map, not, any, keep, count_if,
  count_if-append, count_if-map, count_if-ext, count_if-keep_le, any-In, count_if-keep_none,
  exists_of_count, leb, leb→le, In, find, find-append, find-map, find-keep, find-perm, find-In,
  has_key, names, HasUniqueKeys, HasUniqueKeys-perm, text_eq_refl, eq_iff, Bool-cases, Option-cases,
  if◌then◌else◌, ◌≡◌, refl, sym, ap, ◌∙◌, ◌⊎◌, inl, inr, arith,
}
use payments_cdc_pipeline.Sql.{equal, greater, holds}
use payments_cdc_pipeline.Change.{Change, Entry}
use payments_cdc_pipeline.Delta.{Delta, to_entry, updated, inserted, merged}
use payments_cdc_pipeline.Job.{same_key, is_newer}
use payments_cdc_pipeline.Job.Dedup.{key_of}
use mathlib.Core.List.Permᴰ

abbrev pub entry_key : Entry → Option String
entry_key e = e.transaction_id

-- One key as it should be: what stands is replaced only by what has a greater log position, where both are
-- known.
abbrev pub guarded : Option Entry → Option Change → Option Entry
guarded none none = none
guarded none (some c) = some (to_entry c)
guarded (some e) none = some e
guarded (some e) (some c) = some (if holds (greater c.lsn e.lsn) then to_entry c else e)

-- The MERGE's condition on keys, for a target row whose key is a text.
same_key-names :
    (k : String) (e : Entry) (c : Change)
    → e.transaction_id ≡ some k
    → holds (same_key e c) ≡ has_key key_of k c
same_key-names k e c h = rw h (go c.transaction_id)
  where
    go : (j : Option String) → holds (equal (some k) j) ≡ names k j
    go none = refl
    go (some j) = refl

equal-eq : (a b : Option String) → holds (equal a b) ≡ true → a ≡ b
equal-eq none b h = cc
equal-eq (some j) none h = cc
equal-eq (some j) (some k) h = ap some ((eq_iff j k).0 h)

pub names-eq : (k : String) (j : Option String) → names k j ≡ true → j ≡ some k
names-eq k none h = cc
names-eq k (some j) h = ap some (sym ((eq_iff k j).0 h))

pub updated-key :
    (staged : List Change) (e : Entry)
    → (updated same_key is_newer staged e).transaction_id ≡ e.transaction_id
updated-key [] e = refl
updated-key (c ∷ staged) e = elim (Bool-cases (holds (same_key e c))) [
  | inl t ↦ elim (Bool-cases (holds (is_newer c e))) [
    | inl u ↦ rw (t, u) (sym (equal-eq e.transaction_id c.transaction_id t))
    | inr u ↦ rw (t, u)
  ]
  | inr n ↦ rw n (updated-key staged e)
]

updated-guarded :
    (k : String) (staged : List Change) (e : Entry)
    → e.transaction_id ≡ some k
    → some (updated same_key is_newer staged e) ≡ guarded (some e) (find key_of k staged)
updated-guarded k [] e h = refl
updated-guarded k (c ∷ staged) e h = elim (Bool-cases (has_key key_of k c)) [
  | inl t ↦ rw (same_key-names k e c h, t)
  | inr f ↦ rw (same_key-names k e c h, f) (updated-guarded k staged e h)
]

-- A key that the table lacks is matched by none of its rows.
unmatched :
    (k : String) (c : Change) (table : List Entry)
    → has_key key_of k c ≡ true
    → find entry_key k table ≡ none
    → any (λ e. holds (same_key e c)) table ≡ false
unmatched k c [] t h = refl
unmatched k c (e ∷ table) t h = elim (Bool-cases (has_key entry_key k e)) [
  | inl u ↦ absurd (no_some (rw u at h))
  | inr u ↦ elim (Bool-cases (holds (same_key e c))) [
    | inl v ↦ absurd (clash u (equal-eq e.transaction_id c.transaction_id v))
    | inr v ↦ rw v (unmatched k c table t (rw u at h))
  ]
]
  where
    no_some : some e ≡ none → ⊥
    no_some p = cc

    clash : has_key entry_key k e ≡ false → e.transaction_id ≡ c.transaction_id → ⊥
    clash u p =
        let q : has_key entry_key k e ≡ true =
          rw (p, names-eq k c.transaction_id t) (text_eq_refl k) in
        cc

module _ (table : List Entry) (staged : List Change) where
  abbrev after : List Entry
  after = merged same_key is_newer table staged

  find-updated :
      (k : String)
      → find entry_key k (map (updated same_key is_newer staged) table)
        ≡ elim (find entry_key k table) [
          | some e ↦ some (updated same_key is_newer staged e)
          | none ↦ none
        ]
  find-updated k = find-map entry_key entry_key _ (updated-key staged) k table

  abbrev unmatched_row : Change → Bool
  unmatched_row c = not (any (λ e. holds (same_key e c)) table)

  find-inserted :
      (k : String)
      → find entry_key k table ≡ none
      → find entry_key k (inserted same_key is_newer table staged)
        ≡ elim (find key_of k staged) [ some c ↦ some (to_entry c) | none ↦ none ]
  find-inserted k h =
      find-map key_of entry_key to_entry (λ c. refl) k (keep unmatched_row staged)
      ∙ rw (find-keep key_of k unmatched_row staged (λ c m t. ap not (unmatched k c table t h)))

  -- The clauses of the MERGE, read at one key.
  find-merged :
      (k : String)
      → find entry_key k after ≡ guarded (find entry_key k table) (find key_of k staged)
  find-merged k =
      find-append entry_key k (map (updated same_key is_newer staged) table)
        (inserted same_key is_newer table staged)
      ∙ rw (find-updated k) (elim (Option-cases (find entry_key k table)) [
        | inl h ↦ rw (h, find-inserted k h) (none-guarded (find key_of k staged))
        | inr (e, h) ↦ rw h (updated-guarded k staged e (found k e h))
      ])
    where
      none-guarded :
          (c : Option Change) → elim c [ some c ↦ some (to_entry c) | none ↦ none ] ≡ guarded none c
      none-guarded none = refl
      none-guarded (some c) = refl

      found : (k : String) (e : Entry) → find entry_key k table ≡ some e → e.transaction_id ≡ some k
      found k e h = names-eq k e.transaction_id ((find-In entry_key k table e h).1)

  count-updated :
      (k : String)
      → count_if (has_key entry_key k) (map (updated same_key is_newer staged) table)
        ≡ count_if (has_key entry_key k) table
  count-updated k =
      count_if-map (has_key entry_key k) (updated same_key is_newer staged) table
      ∙ count_if-ext _ (has_key entry_key k) table (λ e. rw (updated-key staged e))

  count-inserted :
      (k : String)
      → count_if (has_key entry_key k) (inserted same_key is_newer table staged)
        ≤ count_if (has_key key_of k) staged
  count-inserted k =
      rw (count_if-map (has_key entry_key k) to_entry (keep unmatched_row staged))
        (count_if-keep_le (has_key key_of k) unmatched_row staged)

  count-inserted_known :
      (k : String)
      → 1 ≤ count_if (has_key entry_key k) table
      → count_if (has_key entry_key k) (inserted same_key is_newer table staged) ≡ 0
  count-inserted_known k h =
      count_if-map (has_key entry_key k) to_entry (keep unmatched_row staged)
      ∙ count_if-keep_none (has_key key_of k) unmatched_row staged (λ c t.
        let (e, m, u) = exists_of_count (has_key entry_key k) table h in
        ap not (any-In (λ e. holds (same_key e c)) e table m (matched e c u t)))
    where
      matched :
          (e : Entry) (c : Change)
          → has_key entry_key k e ≡ true
          → has_key key_of k c ≡ true
          → holds (same_key e c) ≡ true
      matched e c u t = same_key-names k e c (names-eq k e.transaction_id u) ∙ t

  -- The MERGE's clauses keep the keys unique.
  merged-HasUniqueKeys :
      HasUniqueKeys entry_key table → HasUniqueKeys key_of staged → HasUniqueKeys entry_key after
  merged-HasUniqueKeys h u k =
      rw
        (
          count_if-append (has_key entry_key k) (map (updated same_key is_newer staged) table)
              (inserted same_key is_newer table staged),
          count-updated k,
        )
        (omega (arith, h k, u k, count-inserted k, known))
    where
      known :
          (count_if (has_key entry_key k) table ≡ 0)
          ⊎ (count_if (has_key entry_key k) (inserted same_key is_newer table staged) ≡ 0)
      known = elim (Bool-cases (leb 1 (count_if (has_key entry_key k) table))) [
        | inl t ↦ inr (count-inserted_known k (leb→le 1 _ t))
        | inr f ↦ inl (ground arith)
      ]

  -- With unique keys on both sides no row of the table is matched twice.
  pub matched_once :
      HasUniqueKeys key_of staged
      → (e : Entry) → In e table
      → count_if (λ c. holds (same_key e c)) staged ≤ 1
  matched_once u e m = elim (Option-cases e.transaction_id) [
    | inl h ↦
        rw (count_if-ext (λ c. holds (same_key e c)) (λ c. false) staged (λ c. rw h))
          (nothing staged)
    | inr (k, h) ↦
        rw
          (count_if-ext (λ c. holds (same_key e c)) (has_key key_of k) staged
            (λ c. same_key-names k e c h))
          (u k)
  ]
    where
      nothing : (xs : List Change) → count_if (λ c. false) xs ≤ 1
      nothing [] = omega arith
      nothing (x ∷ xs) = nothing xs

  -- Delta's MERGE of deduplicated rows succeeds, keeps the keys unique, and acts on each key as the
  -- guard says.
  pub merge_keys :
      (delta : Delta)
      → HasUniqueKeys entry_key table
      → HasUniqueKeys key_of staged
      → (table' : List Entry) × (delta.merge same_key is_newer table staged ≡ some table')
        × HasUniqueKeys entry_key table'
        × ((k : String)
            → find entry_key k table' ≡ guarded (find entry_key k table) (find key_of k staged))
  merge_keys delta h u =
      let (table', e, p) = delta.merge_lem same_key is_newer table staged (matched_once u) in
      let q = Permᴰ.symm p in
      let v = merged-HasUniqueKeys h u in
      (
        table',
        e,
        HasUniqueKeys-perm entry_key q v,
        λ k. sym (find-perm entry_key k q (v k)) ∙ find-merged k,
      )
