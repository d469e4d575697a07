-- ===== src/Dlq/Refresh.antt =====
-- The merchant registry of spark/utils/dlq_writer.py: what it holds after a refresh, and that an
-- outage of Postgres leaves a loaded set in use.
use payments_cdc_pipeline.Prelude.{
  ℕ, String, List, [], Bool, true, false, Option, none, some, ◌≡◌, ◌≢◌, refl, ◌⊎◌, inl, inr, not,
  ◌&&◌, ltb, Bool-cases, arith,
}
use payments_cdc_pipeline.Errors.{Error, Result, ok, err, Result-cases}
use payments_cdc_pipeline.Dlq.{
  Registry, blank, age, merchant_refresh, fetch, refresh, merchants, constructed, answered,
  from_registry,
}

-- Postgres's answer to one query, if it gives one, is the set `ids`.
abbrev pub Answers : List String → Option (List (Option String)) → Type 0
Answers ids answer = (got : List String) → fetch answer ≡ ok got → got ≡ ids

-- The module's global registry holds the set `ids`, if it is there.
abbrev pub Registered : List String → Option Registry → Type 0
Registered ids none = Unit
Registered ids (some reg) = reg.merchant_ids ≡ ids

-- `refresh` over a set that is not empty never raises, whatever Postgres does.
pub refresh_stale :
    (force : Bool) (now : ℕ) (answer : Option (List (Option String))) (reg : Registry)
    → reg.merchant_ids ≢ []
    → (refresh force now answer reg).0 ≡ ok tt
unfolding refresh fetch
refresh_stale force now answer reg h = ground arith

refresh-ids :
    (force : Bool) (now : ℕ) (answer : Option (List (Option String))) (reg : Registry)
    → ((refresh force now answer reg).1 ≡ reg)
      ⊎ ((ids : List String) × (fetch answer ≡ ok ids)
          × ((refresh force now answer reg).1 ≡ record { merchant_ids = ids; loaded_at = now }))
unfolding refresh
refresh-ids force now answer reg =
    elim (Bool-cases (not force && ltb (age now reg) merchant_refresh)) [
      | inl t ↦ rw t (inl refl)
      | inr f ↦ rw f (elim (Result-cases (fetch answer)) [
        | inl (ids, e) ↦ rw e (inr (ids, refl, refl))
        | inr (x, e) ↦ rw e (inl refl)
      ])
    ]

fetch-ne-nil : (answer : Option (List (Option String))) → fetch answer ≢ ok []
unfolding fetch
fetch-ne-nil none e = cc
fetch-ne-nil (some rows) e = ground arith

-- A constructor that returns has loaded what Postgres answered.
new-ids :
    (now : ℕ) (answer : Option (List (Option String)))
    → (refresh true now answer blank).0 ≡ ok tt
    → (ids : List String) × (fetch answer ≡ ok ids)
      × ((refresh true now answer blank).1 ≡ record { merchant_ids = ids; loaded_at = now })
unfolding refresh
new-ids now answer h = elim (Result-cases (fetch answer)) [
  | inl (ids, e) ↦ rw e (ids, refl, refl)
  | inr (x, e) ↦ absurd (raised x e)
]
  where
    raised : (x : Error) → fetch answer ≡ err x → ⊥
    raised x e = ground arith

refresh-Registered :
    (ids : List String) (force : Bool) (now : ℕ) (answer : Option (List (Option String)))
    (reg : Registry)
    → Answers ids answer
    → reg.merchant_ids ≡ ids
    → (refresh force now answer reg).1.merchant_ids ≡ ids
refresh-Registered ids force now answer reg a h = elim (refresh-ids force now answer reg) [
  | inl e ↦ rw e h
  | inr (got, f, e) ↦ rw e (a got f)
]

answered-Registered :
    (ids : List String) (p : Result (Unit {0}) × Registry)
    → p.1.merchant_ids ≡ ids
    → Registered ids (answered p).1 × ((got : List String) → (answered p).0 ≡ ok got → got ≡ ids)
answered-Registered ids (ok t, reg) h = (h, λ got e. ground arith)
answered-Registered ids (err x, reg) h = (h, λ got e. cc)

-- Where Postgres has one answer, `merchants` returns it or raises, and the global holds it.
pub merchants-Registered :
    (ids : List String) (now : ℕ) (answer : Option (List (Option String)))
    (global : Option Registry)
    → Answers ids answer
    → Registered ids global
    → Registered ids (merchants now answer global).1
      × ((got : List String) → (merchants now answer global).0 ≡ ok got → got ≡ ids)
unfolding merchants
merchants-Registered ids now answer (some reg) a h =
    answered-Registered ids (refresh false now answer reg)
      (refresh-Registered ids false now answer reg a h)
merchants-Registered ids now answer none a h =
    go (refresh true now answer blank)
      (λ e. let (got, f, r) = new-ids now answer e in rw r (a got f))
  where
    go :
        (p : Result (Unit {0}) × Registry)
        → (p.0 ≡ ok tt → p.1.merchant_ids ≡ ids)
        → let q = from_registry now answer (constructed p) in
          Registered ids q.1 × ((got : List String) → q.0 ≡ ok got → got ≡ ids)
    go (ok t, reg) k =
        answered-Registered ids (refresh false now answer reg)
          (refresh-Registered ids false now answer reg a (k refl))
    go (err x, reg) k = (tt, λ got e. cc)
