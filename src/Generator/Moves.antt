-- ===== src/Generator/Moves.antt =====
-- What each kind of write of scripts/data_generator.py does to the number of rows.
use mathlib.Core.Path.{subst}
use payments_cdc_pipeline.Prelude.{
  ℕ, zero, suc, ◌+◌, String, List, [], ◌∷◌, ◌++◌, Bool, true, false, any, map, count_if, count-any,
  count_if-map, count_if-ext, length, length-append, length-map, if◌then◌else◌, Bool-cases, eq_iff,
  ◌≡◌, refl, ap, ◌∙◌, inl, inr, arith,
}
use payments_cdc_pipeline.Errors.{Result, ok}
use payments_cdc_pipeline.Exec.{pure-inversion}
use payments_cdc_pipeline.Generator.{
  Transaction, Random, State, Tick, has_id, choice, statuses, new_rows, updates, deletes,
  unique_ids, commit, do_inserts, do_updates, do_deletes,
}
use payments_cdc_pipeline.Generator.Deletes.{
  HasUniqueIds, commit-inversion, deletes-length, deletes-HasUniqueIds,
}

abbrev pub totals : {Seed : Type 0} → State Seed → ℕ × ℕ × ℕ × ℕ
totals st = (st.total_ops, st.total_inserts, st.total_updates, st.total_deletes)

-- Rows are added and taken, the ids stay unique, and the totals are not touched.
abbrev pub Moves : {Seed : Type 0} → ℕ → ℕ → State Seed → State Seed → Type 0
Moves inserted deleted st st' =
    (length st'.table + deleted ≡ length st.table + inserted)
    × HasUniqueIds st'.table
    × (totals st' ≡ totals st)

unique_ids-HasUniqueIds : (rows : List Transaction) → unique_ids rows ≡ true → HasUniqueIds rows
unique_ids-HasUniqueIds [] h tid = omega arith
unique_ids-HasUniqueIds (r ∷ rows) h tid = elim (Bool-cases (has_id tid r)) [
  | inl t ↦
      let e = (eq_iff r.transaction_id tid).0 t in
      let f = subst (λ (u : String). any (has_id u) rows ≡ false) e (first r rows h) in
      let z = count-any (has_id tid) rows f in rw t (omega (arith, z))
  | inr f ↦ rw f (unique_ids-HasUniqueIds rows (ground (arith, h)) tid)
]
  where
    first :
        (r : Transaction) (rows : List Transaction)
        → unique_ids (r ∷ rows) ≡ true
        → any (has_id r.transaction_id) rows ≡ false
    first r rows h = ground (arith, h)

moved :
    {Seed : Type 0} (i i' d d' : ℕ) (st w st' : State Seed)
    → Moves i d st w
    → i ≡ i'
    → d ≡ d'
    → w ≡ st'
    → Moves i' d' st st'
moved i i' d d' st w st' h e f g =
    subst (λ (x : State _). Moves i' d' st x) g
      (subst (λ (n : ℕ). Moves i' n st w) f (subst (λ (n : ℕ). Moves n d st w) e h))

stays : {Seed : Type 0} (st : State Seed) → HasUniqueIds st.table → Moves 0 0 st st
stays st u = (refl, u, refl)

module _ {Seed : Type 0} (random : Random Seed) where
  length-new_rows :
      (merchant_ids : List String) (whale_mode : Bool) (now n : ℕ) (s : Seed)
      → length (new_rows random merchant_ids whale_mode now n s).0 ≡ n
  length-new_rows merchant_ids whale_mode now zero s = refl
  length-new_rows merchant_ids whale_mode now (suc n) s =
      ap suc (length-new_rows merchant_ids whale_mode now n _)

  pub do_inserts-Moves :
      (merchant_ids : List String) (whale_mode : Bool) (n i : ℕ) (tick : Tick) (st st' : State Seed)
      → HasUniqueIds st.table
      → do_inserts random merchant_ids whale_mode n tick st ≡ (ok i, st')
      → Moves i 0 st st'
  unfolding do_inserts
  do_inserts-Moves merchant_ids whale_mode zero i tick st st' u h =
      let (e, f) = pure-inversion 0 i st st' h in moved 0 i 0 0 st st st' (stays st u) e refl f
  do_inserts-Moves merchant_ids whale_mode (suc n) i tick st st' u h =
      elim (Bool-cases (unique_ids (st.table ++ rows))) [
        | inl t ↦
            let (e, f) =
              commit-inversion random tick.inserting (st.table ++ rows) _ (suc n) i st st'
                (rw t at h) in
            let l = length-new_rows merchant_ids whale_mode tick.now (suc n) st.seed in
            moved (suc n) i 0 0 st _ st'
              (
                omega (arith, l, length-append st.table rows),
                unique_ids-HasUniqueIds (st.table ++ rows) t,
                refl,
              )
              e refl f
        | inr t ↦ absurd (let k = rw t at h in ground (arith, k))
      ]
    where
      rows : List Transaction
      rows = (new_rows random merchant_ids whale_mode tick.now (suc n) st.seed).0

  updates-same :
      (ids : List String) (now n : ℕ) (table : List Transaction) (s : Seed)
      → (length (updates random ids now n table s).1 ≡ length table)
        × ((tid : String)
            → count_if (has_id tid) (updates random ids now n table s).1
              ≡ count_if (has_id tid) table)
  updates-same ids now zero table s = (refl, λ tid. refl)
  updates-same ids now (suc n) table s =
      let (tid, s₁) = choice random ids s in
      let (status, s₂) = choice random statuses s₁ in
      let (l, c) = updates-same ids now n (map (set tid status) table) s₂ in
      (
        l ∙ length-map table (set tid status),
        λ t.
            c t
            ∙ count_if-map (has_id t) (set tid status) table
            ∙ count_if-ext (λ r. has_id t (set tid status r)) (has_id t) table
                (λ r. same t tid status r),
      )
    where
      set : String → String → Transaction → Transaction
      set tid st r = if has_id tid r then record r { status = st; updated_at = now } else r

      same : (t tid st : String) (r : Transaction) → has_id t (set tid st r) ≡ has_id t r
      same t tid st r = elim (Bool-cases (has_id tid r)) [ inl e ↦ rw e refl | inr e ↦ rw e refl ]

  pub do_updates-Moves :
      (n k : ℕ) (tick : Tick) (st st' : State Seed)
      → HasUniqueIds st.table
      → do_updates random n tick st ≡ (ok k, st')
      → Moves 0 0 st st'
  unfolding do_updates
  do_updates-Moves zero k tick st st' u h =
      let (e, f) = pure-inversion 0 k st st' h in moved 0 0 0 0 st st st' (stays st u) refl refl f
  do_updates-Moves (suc n) k tick st st' u h = go st.existing_ids h
    where
      on : List String → Result ℕ × State Seed
      on [] = (ok 0, st)
      on (x ∷ xs) =
          let (updated, table, s) = updates random (x ∷ xs) tick.now (suc n) st.table st.seed in
          commit random tick.updating table s updated st

      go : (ids : List String) → on ids ≡ (ok k, st') → Moves 0 0 st st'
      go [] h =
          let (e, f) = pure-inversion 0 k st st' h in
          moved 0 0 0 0 st st st' (stays st u) refl refl f
      go (x ∷ xs) h =
          let (e, f) = commit-inversion random tick.updating _ _ _ k st st' h in
          let (l, c) = updates-same (x ∷ xs) tick.now (suc n) st.table st.seed in
          moved 0 0 0 0 st _ st' (omega (arith, l), λ tid. omega (arith, c tid, u tid), refl) refl
            refl f

  pub do_deletes-Moves :
      (n d : ℕ) (tick : Tick) (st st' : State Seed)
      → HasUniqueIds st.table
      → do_deletes random n tick st ≡ (ok d, st')
      → Moves 0 d st st'
  unfolding do_deletes
  do_deletes-Moves zero d tick st st' u h =
      let (e, f) = pure-inversion 0 d st st' h in moved 0 0 0 d st st st' (stays st u) refl e f
  do_deletes-Moves (suc n) d tick st st' u h = go st.existing_ids h
    where
      on : List String → Result ℕ × State Seed
      on [] = (ok 0, st)
      on (x ∷ xs) =
          let (deleted, table, s) = deletes random (x ∷ xs) (suc n) st.table st.seed in
          commit random tick.deleting table s deleted st

      go : (ids : List String) → on ids ≡ (ok d, st') → Moves 0 d st st'
      go [] h =
          let (e, f) = pure-inversion 0 d st st' h in moved 0 0 0 d st st st' (stays st u) refl e f
      go (x ∷ xs) h =
          let (e, f) = commit-inversion random tick.deleting _ _ _ d st st' h in
          let (l, b) = deletes-length random (x ∷ xs) (suc n) st.table st.seed u in
          moved 0 0 _ d st _ st'
            (
              omega (arith, l),
              deletes-HasUniqueIds random (x ∷ xs) (suc n) st.table st.seed u,
              refl,
            )
            refl e f
