-- ===== src/Generator/Totals.antt =====
-- What the totals of scripts/data_generator.py say of the table, and when its loop ends.
use mathlib.Core.Path.{subst}
use payments_cdc_pipeline.Prelude.{
  false, suc, ◌<◌, ◌≤◌, ℕ, ◌+◌, ◌-◌, ◌%◌, String, List, [], ◌∷◌, ◌++◌, length, Bool-cases, ltb, ◌≡◌,
  refl, ap, ◌∙◌, inl, inr, arith,
}
use payments_cdc_pipeline.Errors.{ok}
use payments_cdc_pipeline.Exec.{Exec, pure-inversion, bind-inversion, ◌>>=◌, ◌>>◌, modify}
use payments_cdc_pipeline.Generator.{Random, State, Tick, do_inserts, do_updates, do_deletes}
use payments_cdc_pipeline.Generator.Deletes.{HasUniqueIds}
use payments_cdc_pipeline.Generator.Loop.{Args, stops, count_ops, refresh_ids, batch, loop}
use payments_cdc_pipeline.Generator.Moves.{
  Moves, do_inserts-Moves, do_updates-Moves, do_deletes-Moves,
}

-- The totals agree with each other and with a table that had so many rows.
abbrev pub Balances : {Seed : Type 0} → ℕ → State Seed → Type 0
Balances rows st =
    (st.total_ops ≡ st.total_inserts + st.total_updates + st.total_deletes)
    × (length st.table + st.total_deletes ≡ rows + st.total_inserts)
    × HasUniqueIds st.table

-- A round whose three transactions return keeps the balance.
round-Balances :
    {Seed : Type 0} (rows ops i u d : ℕ) (sample : List String) (st₀ st₁ st₂ st₃ : State Seed)
    → Balances rows st₀
    → Moves i 0 st₀ st₁
    → Moves 0 0 st₁ st₂
    → Moves 0 d st₂ st₃
    → Balances rows (refresh_ids ops sample (count_ops i u d st₃))
round-Balances rows ops i u d sample st₀ st₁ st₂ st₃ (b, l, h) (l₁, h₁, t₁) (l₂, h₂, t₂)
      (l₃, h₃, t₃) =
    let t = t₃ ∙ t₂ ∙ t₁ in
    let t_ops = ap (λ (x : ℕ × ℕ × ℕ × ℕ). x.0) t in
    let t_ins = ap (λ (x : ℕ × ℕ × ℕ × ℕ). x.1) t in
    let t_upd = ap (λ (x : ℕ × ℕ × ℕ × ℕ). x.2) t in
    let t_del = ap (λ (x : ℕ × ℕ × ℕ × ℕ). x.3) t in
    refreshed
      (omega (arith, b, t_ops, t_ins, t_upd, t_del), omega (arith, l, l₁, l₂, l₃, t_ins, t_del), h₃)
  where
    refreshed :
        Balances rows (count_ops i u d st₃)
        → Balances rows (refresh_ids ops sample (count_ops i u d st₃))
    refreshed k = elim (Bool-cases (ltb ((count_ops i u d st₃).total_ops % 2000) ops)) [
      | inl t ↦ rw t k
      | inr t ↦ rw t k
    ]

module _ {Seed : Type 0} (random : Random Seed) (args : Args) (merchant_ids : List String)
    (rows : ℕ) where
  batch-Balances :
      (tick : Tick) (st st' : State Seed)
      → Balances rows st
      → batch random args merchant_ids tick st ≡ (ok tt, st')
      → Balances rows st'
  unfolding batch
  batch-Balances tick st st' b h =
      let (i, st₁, e₁, h₁) = bind-inversion inserting after_inserts st st' tt h in
      let (u, st₂, e₂, h₂) = bind-inversion updating (after_updates i) st₁ st' tt h₁ in
      let (d, st₃, e₃, h₃) = bind-inversion deleting (after_deletes i u) st₂ st' tt h₂ in
      let m₁ = do_inserts-Moves random merchant_ids args.whale _ i tick st st₁ b.2 e₁ in
      let m₂ = do_updates-Moves random _ u tick st₁ st₂ m₁.1 e₂ in
      let m₃ = do_deletes-Moves random _ d tick st₂ st₃ m₂.1 e₃ in
      subst (λ (w : State Seed). Balances rows w) (pure-inversion tt tt _ st' h₃).1
        (round-Balances rows args.batch_size i u d tick.sample st st₁ st₂ st₃ b m₁ m₂ m₃)
    where
      inserting : Exec (State Seed) ℕ
      inserting = do_inserts random merchant_ids args.whale (args.share 70 args.batch_size) tick

      updating : Exec (State Seed) ℕ
      updating = do_updates random (args.share 20 args.batch_size) tick

      deleting : Exec (State Seed) ℕ
      deleting =
          do_deletes random
            (args.batch_size - args.share 70 args.batch_size - args.share 20 args.batch_size) tick

      after_deletes : ℕ → ℕ → ℕ → Exec (State Seed) (Unit {0})
      after_deletes i u d =
          modify (λ st. refresh_ids args.batch_size tick.sample (count_ops i u d st))

      after_updates : ℕ → ℕ → Exec (State Seed) (Unit {0})
      after_updates i u = deleting >>= after_deletes i u

      after_inserts : ℕ → Exec (State Seed) (Unit {0})
      after_inserts i = updating >>= after_updates i

-- The totals that the generator prints are true of the table: from a table with unique ids and totals that
-- agree with it, any rounds that end without an exception keep `ops = inserts + updates + deletes` and
-- `rows + deletes = rows at the start + inserts`, and the ids stay unique.
pub loop-Balances :
    {Seed : Type 0} (random : Random Seed) (args : Args) (merchant_ids : List String) (rows : ℕ)
    (ticks : List Tick) (st st' : State Seed)
    → Balances rows st
    → loop random args merchant_ids ticks st ≡ (ok tt, st')
    → Balances rows st'
unfolding loop
loop-Balances {Seed} random args merchant_ids rows [] st st' b h =
    subst (λ (w : State Seed). Balances rows w) (pure-inversion tt tt st st' h).1 b
loop-Balances {Seed} random args merchant_ids rows (tick ∷ ticks) st st' b h =
    elim (Bool-cases (stops args tick)) [
      | inl t ↦
          subst (λ (w : State Seed). Balances rows w) (pure-inversion tt tt st st' (rw t at h)).1 b
      | inr f ↦
          let (x, st₁, e, k) =
            bind-inversion (batch random args merchant_ids tick)
              (λ _. loop random args merchant_ids ticks) st st' tt (rw f at h) in
          loop-Balances random args merchant_ids rows ticks st₁ st'
            (batch-Balances random args merchant_ids rows tick st st₁ b e) k
    ]

-- The readings of the clock go up from round to round.
abbrev pub Rising : ℕ → List Tick → Type 0
Rising n [] = Unit
Rising n (tick ∷ ticks) = (n ≤ tick.elapsed) × Rising (suc tick.elapsed) ticks

goes_on :
    (args : Args) (tick : Tick)
    → 0 < args.duration
    → stops args tick ≡ false
    → suc tick.elapsed ≤ args.duration
goes_on args tick d f = ground (arith, d, f)

ends_from :
    {Seed : Type 0} (random : Random Seed) (args : Args) (merchant_ids : List String) (n : ℕ)
    (ticks later : List Tick)
    → 0 < args.duration
    → n ≤ args.duration
    → Rising n ticks
    → args.duration < n + length ticks
    → loop random args merchant_ids (ticks ++ later) ≡ loop random args merchant_ids ticks
unfolding loop
ends_from random args merchant_ids n [] later d l r h = absurd (omega (arith, l, h))
ends_from random args merchant_ids n (t ∷ ticks) later d l (e, r) h =
    elim (Bool-cases (stops args t)) [
      | inl s ↦ rw s refl
      | inr f ↦
          let g = goes_on args t d f in
          rw f (
            ap (λ rest. batch random args merchant_ids t >> rest)
              (ends_from random args merchant_ids (suc t.elapsed) ticks later d g r
                (omega (arith, e, h))))
    ]

-- The loop ends. With a duration, and a clock that goes up from round to round, it has stopped after no
-- more rounds than the duration has units: nothing that comes later changes its result or the stores,
-- whatever is drawn and however the writes end.
pub loop_ends :
    {Seed : Type 0} (random : Random Seed) (args : Args) (merchant_ids : List String)
    (ticks later : List Tick)
    → 0 < args.duration
    → Rising 0 ticks
    → args.duration < length ticks
    → (st : State Seed)
    → loop random args merchant_ids (ticks ++ later) st ≡ loop random args merchant_ids ticks st
loop_ends random args merchant_ids ticks later d r h st =
    ap (λ run. run st)
      (ends_from random args merchant_ids 0 ticks later d (omega arith) r (omega (arith, h)))
