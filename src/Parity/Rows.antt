-- ===== src/Parity/Rows.antt =====
-- What scripts/parity_checker.py compares after a first load: a row of Postgres for each event, and in Delta
-- the rows of the events that passed the gate.
use payments_cdc_pipeline.Prelude.{
  ◌≤◌, String, List, [], ◌∷◌, Bool, true, false, Option, none, some, map, not, any, any-In,
  any_witness, length, length-keep, count_if, count_if-map, count_if-keep_le, count_if-ext, keep,
  In, In-keep, keep-In, In-map, map-In, find_of_In, has_key, names, HasUniqueKeys, text_eq_refl,
  eq_iff, Bool-cases, ◌≡◌, refl, sym, ap, ◌∙◌, inl, inr, arith,
}
use payments_cdc_pipeline.Prelude.Int.{ℤ}
use mathlib.Core.Path.{subst}
use payments_cdc_pipeline.Sql.{Condition, equal, holds, either, negate}
use payments_cdc_pipeline.Change.{Change, Entry}
use payments_cdc_pipeline.Delta.{to_entry}
use payments_cdc_pipeline.Grouping.{same_value}
use payments_cdc_pipeline.Job.Dedup.{key_of}
use payments_cdc_pipeline.Parity.{Row, select, is_live, load_delta, left_anti, equal_ℤ, differs}
use payments_cdc_pipeline.Parity.Complete.{matches}

-- The row of Postgres that an event carries.
abbrev pub row_of : Change → Row
row_of c = select (to_entry c)

-- One live event for each row.
pub record IsLoad (df : List Change) : Type 0 where
  pub unique : HasUniqueKeys key_of df
  pub named : (c : Change) → In c df → (t : String) × (c.transaction_id ≡ some t)
  pub live : (c : Change) → In c df → c.is_delete ≡ some false

-- No row differs from itself.
holds-either : (a b : Condition) → holds a ≡ false → holds b ≡ false → holds (either a b) ≡ false
holds-either a b h k = ground arith

equal_refl : (t : Option String) → holds (negate (equal t t)) ≡ false
equal_refl none = refl
equal_refl (some t) = rw (text_eq_refl t) refl

equal_ℤ_refl : (n : Option ℤ) → holds (negate (equal_ℤ n n)) ≡ false
equal_ℤ_refl none = refl
equal_ℤ_refl (some n) = ground arith

none_holds :
    (a b c d e : Condition)
    → holds a ≡ false
    → holds b ≡ false
    → holds c ≡ false
    → holds d ≡ false
    → holds e ≡ false
    → holds (either (either (either (either a b) c) d) e) ≡ false
none_holds a b c d e h i j k l =
    holds-either (either (either (either a b) c) d) e
      (holds-either (either (either a b) c) d (holds-either (either a b) c (holds-either a b h i) j)
        k)
      l

pub differs_irrefl : (r : Row) → holds (differs r r) ≡ false
differs_irrefl r =
    none_holds (negate (equal r.merchant_id r.merchant_id))
      (negate (equal_ℤ r.amount_minor r.amount_minor)) (negate (equal r.currency r.currency))
      (negate (equal r.status r.status)) (negate (equal r.event_type r.event_type))
      (equal_refl r.merchant_id) (equal_ℤ_refl r.amount_minor) (equal_refl r.currency)
      (equal_refl r.status) (equal_refl r.event_type)

pub matches_both :
    (a b : Option String) (t : String) → a ≡ some t → b ≡ some t → holds (equal a b) ≡ true
matches_both a b t h k = rw (h, k) (text_eq_refl t)

pub matches-eq : (a b : Option String) → holds (equal a b) ≡ true → a ≡ b
matches-eq none b h = absurd (ground (arith, h))
matches-eq (some j) none h = absurd (ground (arith, h))
matches-eq (some j) (some k) h = ap some ((eq_iff j k).0 h)

count_if_members :
    (p q : Change → Bool) (xs : List Change)
    → ((c : Change) → In c xs → p c ≡ q c)
    → count_if p xs ≡ count_if q xs
count_if_members p q [] h = refl
count_if_members p q (x ∷ xs) h =
    rw (h x (inl refl), count_if_members p q xs (λ c m. h c (inr m))) refl

-- Events of one key are one event.
pub one_event :
    (df : List Change) (c d : Change)
    → IsLoad df
    → In c df
    → In d df
    → c.transaction_id ≡ d.transaction_id
    → c ≡ d
one_event df c d load m n e =
    let (t, f) = load.named d n in
    some_injective (
      sym (find_of_In key_of t df c (load.unique t) m (rw (e, f) (text_eq_refl t)))
      ∙ find_of_In key_of t df d (load.unique t) n (rw f (text_eq_refl t)))
  where
    some_injective : some c ≡ some d → c ≡ d
    some_injective p = cc

module _ (df staged : List Change) (p : Change → Bool) (load : IsLoad df)
    (from : (c : Change) → In c staged → In c df × (p c ≡ true))
    (to : (c : Change) → In c df → p c ≡ true → In c staged) where
  abbrev delta : List Row
  delta = load_delta (map to_entry staged)

  In-delta : (d : Row) → In d delta → (c : Change) × In c staged × (d ≡ row_of c)
  unfolding load_delta
  In-delta d m =
      let (e, n, q) = In-map select d (keep (λ r. holds (is_live r)) (map to_entry staged)) m in
      let (c, i, f) =
        In-map to_entry e staged (In-keep (λ r. holds (is_live r)) e (map to_entry staged) n).0 in
      (c, i, q ∙ ap select f)

  pub delta-In : (c : Change) → In c staged → In (row_of c) delta
  unfolding load_delta
  delta-In c m = map-In select (to_entry c) (keep (λ r. holds (is_live r)) (map to_entry staged)) (
      keep-In (λ r. holds (is_live r)) (to_entry c) (map to_entry staged)
        (map-In to_entry c staged m) (rw (load.live c (from c m).0) refl))

  -- A row has a partner in Delta exactly if its event passed the gate.
  matched : (c : Change) → In c df → any (matches (row_of c)) delta ≡ p c
  matched c m = elim (Bool-cases (p c)) [
    | inl t ↦
        any-In (matches (row_of c)) (row_of c) delta (delta-In c (to c m t))
          (let (k, e) = load.named c m in matches_both c.transaction_id c.transaction_id k e e)
        ∙ sym t
    | inr f ↦ elim (Bool-cases (any (matches (row_of c)) delta)) [
      | inr g ↦ g ∙ sym f
      | inl g ↦
          let (d, n, e) = any_witness (matches (row_of c)) delta g in
          let (s, i, q) = In-delta d n in
          let same = one_event df c s load m (from s i).0 (
            matches-eq c.transaction_id d.transaction_id e
            ∙ ap (λ (r : Row). r.transaction_id) q) in
          absurd (clash (ap p same ∙ (from s i).1) f)
    ]
  ]
    where
      clash : {b : Bool} → b ≡ true → b ≡ false → ⊥
      clash p q = cc

  -- The rows without a partner in Delta are those whose events were rejected.
  pub missing_count : length (left_anti (map row_of df) delta) ≡ count_if (λ c. not (p c)) df
  missing_count =
      length-keep (λ (r : Row). not (any (matches r) delta)) (map row_of df)
      ∙ count_if-map (λ (r : Row). not (any (matches r) delta)) row_of df
      ∙ count_if_members (λ c. not (any (matches (row_of c)) delta)) (λ c. not (p c)) df
          (λ c m. ap not (matched c m))

  pub known : (d : Row) → In d delta → (r : Row) × In r (map row_of df) × (matches d r ≡ true)
  known d m =
      let (s, i, q) = In-delta d m in
      let (k, e) = load.named s (from s i).0 in
      (
        row_of s,
        map-In row_of s df (from s i).0,
        matches_both d.transaction_id s.transaction_id k (ap (λ (r : Row). r.transaction_id) q ∙ e)
            e,
      )

  pub agree :
      (r d : Row)
      → In r (map row_of df)
      → In d delta
      → matches r d ≡ true
      → holds (differs r d) ≡ false
  agree r d m n e =
      let (c, i, q) = In-map row_of r df m in
      let (s, j, u) = In-delta d n in
      let key =
        ap (λ (r : Row). r.transaction_id) (sym q)
        ∙ matches-eq r.transaction_id d.transaction_id e
        ∙ ap (λ (r : Row). r.transaction_id) u in
      let same = q ∙ ap row_of (one_event df c s load i (from s j).0 key) ∙ sym u in
      subst (λ (x : Row). holds (differs r x) ≡ false) same (differs_irrefl r)

  pub once :
      HasUniqueKeys key_of staged
      → (k : String) → count_if (λ (d : Row). same_value (some k) d.transaction_id) delta ≤ 1
  unfolding load_delta
  once unique k =
      let live = keep (λ r. holds (is_live r)) (map to_entry staged) in
      omega (
        arith,
        count_if-map (λ (d : Row). same_value (some k) d.transaction_id) select live,
        count_if-keep_le (λ (e : Entry). same_value (some k) e.transaction_id)
            (λ r. holds (is_live r)) (map to_entry staged),
        count_if-map (λ (e : Entry). same_value (some k) e.transaction_id) to_entry staged,
        count_if-ext (λ (c : Change). same_value (some k) c.transaction_id) (has_key key_of k)
            staged (λ c. names_same c.transaction_id),
        unique k,
      )
    where
      names_same : (t : Option String) → same_value (some k) t ≡ names k t
      names_same none = refl
      names_same (some t) = refl
