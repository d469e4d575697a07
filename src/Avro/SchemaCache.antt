-- ===== src/Avro/SchemaCache.antt =====
-- The schema cache of spark/utils/avro_deserializer.py.
use payments_cdc_pipeline.Prelude.{
  ℕ, String, ◌∷◌, none, some, ◌==◌, ==_iff, Bool-cases, Option-cases, ◌≡◌, refl, sym, ap, ◌∙◌, inl,
  inr,
}
use mathlib.Core.Path.{subst}
use payments_cdc_pipeline.Errors.{Result, ok, err}
use payments_cdc_pipeline.Avro.{Cache, lookup, store, schema_by_id}

-- The cache holds nothing but what the registry has under each id.
abbrev pub IsCoherent : (ℕ → Result String) → Cache → Type 0
IsCoherent registry cache = (i : ℕ) (s : String) → lookup i cache ≡ some s → registry i ≡ ok s

cached :
    (registry : ℕ → Result String) (sid : ℕ) (cache : Cache) (s : String)
    → lookup sid cache ≡ some s
    → schema_by_id registry sid cache ≡ (ok s, cache)
unfolding schema_by_id
cached registry sid cache s e = rw (schema_by_id, e) refl

uncached :
    (registry : ℕ → Result String) (sid : ℕ) (cache : Cache)
    → lookup sid cache ≡ none
    → schema_by_id registry sid cache ≡ store sid (registry sid) cache
unfolding schema_by_id
uncached registry sid cache e = rw (schema_by_id, e) refl

lookup-stored : (sid : ℕ) (s : String) (cache : Cache) → lookup sid ((sid, s) ∷ cache) ≡ some s
lookup-stored sid s cache = rw ((==_iff sid sid).1 refl) refl

stored-IsCoherent :
    (registry : ℕ → Result String) (sid : ℕ) (s : String) (cache : Cache)
    → registry sid ≡ ok s
    → IsCoherent registry cache
    → IsCoherent registry ((sid, s) ∷ cache)
stored-IsCoherent registry sid s cache r h i t e = elim (Bool-cases (sid == i)) [
  | inl p ↦
      let q : sid ≡ i = (==_iff sid i).0 p in
      let u : s ≡ t = some_inj (rw p at e) in sym (ap registry q) ∙ r ∙ ap ok u
  | inr n ↦ h i t (rw n at e)
]
  where
    some_inj : {a b : String} → some a ≡ some b → a ≡ b
    some_inj e = cc

-- What a call has found and left in the cache.
abbrev Answered : (ℕ → Result String) → (ℕ → Result String) → ℕ → Result String × Cache → Type 0
Answered registry later sid p =
    (p.0 ≡ registry sid)
    × IsCoherent registry p.1
    × ((s : String) → registry sid ≡ ok s → schema_by_id later sid p.1 ≡ (ok s, p.1))

store-Answered :
    (registry later : ℕ → Result String) (sid : ℕ) (cache : Cache) (r : Result String)
    → registry sid ≡ r
    → IsCoherent registry cache
    → Answered registry later sid (store sid r cache)
store-Answered registry later sid cache (ok s) r h = (
  sym r,
  stored-IsCoherent registry sid s cache r h,
  λ t e.
      let u : s ≡ t = ok_inj (sym r ∙ e) in
      cached later sid ((sid, s) ∷ cache) t (lookup-stored sid s cache ∙ ap some u),
)
  where
    ok_inj : {a b : String} → ok a ≡ ok b → a ≡ b
    ok_inj e = cc
store-Answered registry later sid cache (err x) r h = (sym r, h, λ t e. absurd (clash (sym r ∙ e)))
  where
    clash : {t : String} → err x ≡ ok t → ⊥
    clash e = cc

-- Over a coherent cache `schema_by_id` gives what the registry has, or its exception, and leaves the
-- cache coherent; an id that was answered is then in the cache, where it is found even if the registry
-- has become unreachable.
pub schema_by_id-IsCoherent :
    (registry : ℕ → Result String) (later : ℕ → Result String) (sid : ℕ) (cache : Cache)
    → IsCoherent registry cache
    → ((schema_by_id registry sid cache).0 ≡ registry sid)
      × IsCoherent registry (schema_by_id registry sid cache).1
      × ((s : String)
          → registry sid ≡ ok s
          → schema_by_id later sid (schema_by_id registry sid cache).1
            ≡ (ok s, (schema_by_id registry sid cache).1))
schema_by_id-IsCoherent registry later sid cache h = elim (Option-cases (lookup sid cache)) [
  | inr (s, e) ↦ subst (Answered registry later sid) (sym (cached registry sid cache s e)) (
    sym (h sid s e),
    h,
    λ t r. cached later sid cache t (e ∙ ap some (ok_inj (sym (h sid s e) ∙ r))),
  )
  | inl e ↦
      subst (Answered registry later sid) (sym (uncached registry sid cache e))
        (store-Answered registry later sid cache (registry sid) refl h)
]
  where
    ok_inj : {a b : String} → ok a ≡ ok b → a ≡ b
    ok_inj e = cc
