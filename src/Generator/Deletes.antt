-- ===== src/Generator/Deletes.antt =====
-- What `do_deletes` of scripts/data_generator.py takes from the table.
use mathlib.Core.Path.{subst}
use payments_cdc_pipeline.Prelude.{
  ℕ, zero, suc, ◌+◌, ◌-◌, ◌≤◌, String, List, [], ◌∷◌, Bool, true, false, not, ◌||◌, any, count-any,
  any_witness, count_if-In, ◌&&◌, keep, count_if, length, length-keep, count_if-not, count_if-keep,
  count_if-keep_le, count_if-ext, text_eq, text_eq_refl, eq_iff, if◌then◌else◌, Bool-cases, ◌==◌,
  ◌≡◌, refl, ◌∙◌, inl, inr, arith,
}
use payments_cdc_pipeline.Sql.{member}
use payments_cdc_pipeline.Errors.{Result, ok}
use payments_cdc_pipeline.Exec.{Outcome, pure-inversion}
use payments_cdc_pipeline.Generator.{
  Transaction, Random, State, Tick, nth, has_id, choice, remove, deletes, commit, do_deletes,
}

abbrev pub HasUniqueIds : List Transaction → Type 0
HasUniqueIds table = (tid : String) → count_if (has_id tid) table ≤ 1

pub nth-member : (x : String) (xs : List String) (k : ℕ) → member (x ∷ xs) (nth x xs k) ≡ true
nth-member x [] k = rw (text_eq_refl x) refl
nth-member x (y ∷ ys) k = elim (Bool-cases (k == 0)) [
  | inl t ↦ rw (t, text_eq_refl x) refl
  | inr f ↦ let m = nth-member y ys (k - 1) in rw f (or_right (text_eq x (nth y ys (k - 1))) _ m)
]
  where
    or_right : (a b : Bool) → b ≡ true → (a || b) ≡ true
    or_right a b h = ground arith

remove-member :
    (tid t : String) (ids : List String) → member ids t ≡ false → member (remove tid ids) t ≡ false
remove-member tid t [] h = refl
remove-member tid t (x ∷ ids) h = ground (arith, remove-member tid t ids)

module _ (tid : String) (table : List Transaction) where
  -- A DELETE by the primary key takes the row that it hits.
  delete_one :
      HasUniqueIds table
      → (if any (has_id tid) table then 1 else 0)
          + length (keep (λ (r : Transaction). not (has_id tid r)) table)
        ≡ length table
  delete_one u = elim (Bool-cases (any (has_id tid) table)) [
    | inl t ↦
        let (r, i, e) = any_witness (has_id tid) table t in
        let l = count_if-In (has_id tid) r table i e in rw t (omega (arith, l, u tid, sums))
    | inr f ↦ rw f (omega (arith, count-any (has_id tid) table f, sums))
  ]
    where
      sums :
          count_if (has_id tid) table
            + length (keep (λ (r : Transaction). not (has_id tid r)) table)
          ≡ length table
      sums = omega (
        arith,
        length-keep (λ (r : Transaction). not (has_id tid r)) table,
        count_if-not (has_id tid) table,
      )

  -- It leaves every other id alone.
  delete_other :
      (t : String)
      → text_eq tid t ≡ false
      → count_if (has_id t) (keep (λ (r : Transaction). not (has_id tid r)) table)
        ≡ count_if (has_id t) table
  delete_other t d =
      count_if-keep (has_id t) (λ r. not (has_id tid r)) table
      ∙ count_if-ext (λ r. has_id t r && not (has_id tid r)) (has_id t) table (λ r. apart r)
    where
      apart : (r : Transaction) → (has_id t r && not (has_id tid r)) ≡ has_id t r
      apart r = elim (Bool-cases (has_id tid r)) [
        | inl e ↦ rw (e, (eq_iff r.transaction_id tid).0 e, d) refl
        | inr f ↦ rw f (ground arith)
      ]

counted :
    (hit : Bool) (d l t' t n : ℕ)
    → d + l ≡ t'
    → d ≤ n
    → (if hit then 1 else 0) + t' ≡ t
    → ((if hit then suc d else d) + l ≡ t) × ((if hit then suc d else d) ≤ suc n)
counted hit d l t' t n e b h = ground arith

module _ {Seed : Type 0} (random : Random Seed) where
  pub deletes-HasUniqueIds :
      (ids : List String) (n : ℕ) (table : List Transaction) (s : Seed)
      → HasUniqueIds table
      → HasUniqueIds (deletes random ids n table s).1
  deletes-HasUniqueIds ids zero table s u = u
  deletes-HasUniqueIds [] (suc n) table s u = u
  deletes-HasUniqueIds (x ∷ xs) (suc n) table s u =
      let (tid, s₁) = choice random (x ∷ xs) s in
      deletes-HasUniqueIds (if any (has_id tid) table then remove tid (x ∷ xs) else x ∷ xs) n
        (keep (λ (r : Transaction). not (has_id tid r)) table) s₁
        (λ t.
          let l = count_if-keep_le (has_id t) (λ (r : Transaction). not (has_id tid r)) table in
          omega (arith, l, u t))

  pub deletes-length :
      (ids : List String) (n : ℕ) (table : List Transaction) (s : Seed)
      → HasUniqueIds table
      → ((deletes random ids n table s).0 + length (deletes random ids n table s).1 ≡ length table)
        × ((deletes random ids n table s).0 ≤ n)
  deletes-length ids zero table s u = (omega arith, omega arith)
  deletes-length [] (suc n) table s u = (omega arith, omega arith)
  deletes-length (x ∷ xs) (suc n) table s u =
      let (tid, s₁) = choice random (x ∷ xs) s in
      let ids = if any (has_id tid) table then remove tid (x ∷ xs) else x ∷ xs in
      let table' = keep (λ (r : Transaction). not (has_id tid r)) table in
      let (e, l) = deletes-length ids n table' s₁ (λ t.
        let l = count_if-keep_le (has_id t) (λ (r : Transaction). not (has_id tid r)) table in
        omega (arith, l, u t)) in
      counted (any (has_id tid) table) _ _ _ _ n e l (delete_one tid table u)

  deletes-spares :
      (ids : List String) (n : ℕ) (table : List Transaction) (s : Seed) (t : String)
      → member ids t ≡ false
      → count_if (has_id t) (deletes random ids n table s).1 ≡ count_if (has_id t) table
  deletes-spares ids zero table s t h = refl
  deletes-spares [] (suc n) table s t h = refl
  deletes-spares (x ∷ xs) (suc n) table s t h =
      let (tid, s₁) = choice random (x ∷ xs) s in
      let hit = any (has_id tid) table in
      deletes-spares (if hit then remove tid (x ∷ xs) else x ∷ xs) n
        (keep (λ (r : Transaction). not (has_id tid r)) table) s₁ t
        (left_out (remove tid (x ∷ xs)) (x ∷ xs) hit (remove-member tid t (x ∷ xs) h) h)
      ∙ delete_other tid table t
          (other (x ∷ xs) tid (nth-member x xs (random.randbelow (suc (length xs)) s).0) h)
    where
      left_out :
          (ys zs : List String) (b : Bool)
          → member ys t ≡ false
          → member zs t ≡ false
          → member (if b then ys else zs) t ≡ false
      left_out ys zs true p q = p
      left_out ys zs false p q = q

      other :
          (ys : List String) (tid : String)
          → member ys tid ≡ true
          → member ys t ≡ false
          → text_eq tid t ≡ false
      other ys tid m k = elim (Bool-cases (text_eq tid t)) [
        | inl e ↦
            let n = subst (λ (u : String). member ys u ≡ true) ((eq_iff tid t).0 e) m in
            absurd (ground (arith, n, k))
        | inr f ↦ f
      ]

-- A transaction whose answer came back is stored.
pub commit-inversion :
    {Seed : Type 0} (random : Random Seed) (save : Outcome) (table : List Transaction) (seed : Seed)
    (n m : ℕ) (st st' : State Seed)
    → commit random save table seed n st ≡ (ok m, st')
    → (n ≡ m) × (record st { seed = seed; table = table } ≡ st')
commit-inversion random Outcome.acknowledged table seed n m st st' h = pure-inversion n m _ st' h
commit-inversion random Outcome.refused table seed n m st st' h = absurd (ground (arith, h))
commit-inversion random Outcome.lost table seed n m st st' h = absurd (ground (arith, h))

-- A round takes as many rows as it reports, and none but those of the given ids.
abbrev pub Takes : ℕ → ℕ → List String → List Transaction → List Transaction → Type 0
Takes count deleted ids table table' =
    (deleted + length table' ≡ length table)
    × (deleted ≤ count)
    × ((tid : String)
        → member ids tid ≡ false
        → count_if (has_id tid) table' ≡ count_if (has_id tid) table)
    × HasUniqueIds table'

took :
    {Seed : Type 0} (count n deleted : ℕ) (ids : List String) (table : List Transaction)
    (st st' : State Seed)
    → Takes count n ids table st.table
    → n ≡ deleted
    → st ≡ st'
    → Takes count deleted ids table st'.table
took {Seed} count n deleted ids table st st' h e f =
    subst (λ (w : State Seed). Takes count deleted ids table w.table) f
      (subst (λ (d : ℕ). Takes count d ids table st.table) e h)

took_none :
    (count : ℕ) (ids : List String) (table : List Transaction)
    → HasUniqueIds table
    → Takes count 0 ids table table
took_none count ids table u = (omega arith, omega arith, λ tid m. refl, u)

-- What a round of deletes takes from a table with unique ids: as many rows as it reports, no more than it
-- was asked for, and none but those whose ids the generator holds. The table's ids stay unique.
pub do_deletes-Takes :
    {Seed : Type 0} (random : Random Seed) (count deleted : ℕ) (tick : Tick) (st st' : State Seed)
    → HasUniqueIds st.table
    → do_deletes random count tick st ≡ (ok deleted, st')
    → Takes count deleted st.existing_ids st.table st'.table
unfolding do_deletes
do_deletes-Takes {Seed} random zero deleted tick st st' u h =
    let (e, f) = pure-inversion 0 deleted st st' h in
    took 0 0 deleted st.existing_ids st.table st st' (took_none 0 st.existing_ids st.table u) e f
do_deletes-Takes {Seed} random (suc n) deleted tick st st' u h = go st.existing_ids h
  where
    on : List String → Result ℕ × State Seed
    on [] = (ok 0, st)
    on (x ∷ xs) =
        let (d, table, s) = deletes random (x ∷ xs) (suc n) st.table st.seed in
        commit random tick.deleting table s d st

    go :
        (ids : List String)
        → on ids ≡ (ok deleted, st')
        → Takes (suc n) deleted ids st.table st'.table
    go [] h =
        let (e, f) = pure-inversion 0 deleted st st' h in
        took (suc n) 0 deleted [] st.table st st' (took_none (suc n) [] st.table u) e f
    go (x ∷ xs) h =
        let (e, f) = commit-inversion random tick.deleting _ _ _ deleted st st' h in
        let (a, b) = deletes-length random (x ∷ xs) (suc n) st.table st.seed u in
        took (suc n) _ deleted (x ∷ xs) st.table _ st'
          (
            a,
            b,
            deletes-spares random (x ∷ xs) (suc n) st.table st.seed,
            deletes-HasUniqueIds random (x ∷ xs) (suc n) st.table st.seed u,
          )
          e f
