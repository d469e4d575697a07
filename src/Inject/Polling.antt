-- ===== src/Inject/Polling.antt =====
-- The two loops of scripts/inject_bad_records.py that read the dead letter topic. Each poll comes with
-- the milliseconds that have passed when the loop tests its time.
use payments_cdc_pipeline.Prelude.{
  ℕ, suc, ◌+◌, ◌≤◌, ◌<◌, String, List, [], ◌∷◌, Bool, true, false, any, every, length, ltb, leb,
  ◌&&◌, ◌||◌, text_eq, eq_iff, if◌then◌else◌, Bool-cases, ◌≡◌, refl, sym, ◌∙◌, inl, inr, arith,
}
use mathlib.Core.Path.{subst}
use payments_cdc_pipeline.Sql.{member}
use payments_cdc_pipeline.Metrics.Json.{Fields}
use payments_cdc_pipeline.Inject.{Message, Codec, record_of, tid_of, dlq_hit, add}

pub data Poll : Type 0 where
  nothing : Poll
  failed : Poll
  message : Message → Poll

-- Sets as lists without order.
abbrev pub same_set : List String → List String → Bool
same_set a b = every (member a) b && every (member b) a

pub member-add :
    (s t : String) (ss : List String) → member (add s ss) t ≡ (text_eq s t || member ss t)
member-add s t ss = elim (Bool-cases (member ss s)) [
  | inl m ↦ rw m (elim (Bool-cases (text_eq s t)) [
    | inl e ↦ rw e (subst (λ x. member ss x ≡ true) ((eq_iff s t).0 e) m)
    | inr f ↦ rw f refl
  ])
  | inr n ↦ rw n refl
]

module _ (codec : Codec) where
  -- The loop that stops at a number of records.
  pub read_dlq_messages : ℕ → ℕ → ℕ → List (ℕ × Poll) → List Fields
  read_dlq_messages timeout max_records n [] = []
  read_dlq_messages timeout max_records n ((t, Poll.message m) ∷ polls) =
      let rest = read_dlq_messages timeout max_records (suc n) polls in
      if ltb t timeout
      then record_of codec m ∷ (if leb max_records (suc n) then [] else rest)
      else []
  read_dlq_messages timeout max_records n ((t, p) ∷ polls) =
      let rest = read_dlq_messages timeout max_records n polls in if ltb t timeout then rest else []

  -- The ids that have come, after a record.
  abbrev pub seen : List String → List String → Fields → List String
  seen want have rec = if member want (tid_of codec rec) then add (tid_of codec rec) have else have

  -- The loop that stops when every wanted id has come.
  unfoldable pub wait_for_dlq : ℕ → List String → List String → List (ℕ × Poll) → List Fields
  wait_for_dlq deadline want have [] = []
  wait_for_dlq deadline want have ((t, Poll.message m) ∷ polls) =
      let rec = record_of codec m in
      let rest = wait_for_dlq deadline want (seen want have rec) polls in
      if ltb t deadline then rec ∷ (if same_set (seen want have rec) want then [] else rest) else []
  wait_for_dlq deadline want have ((t, p) ∷ polls) =
      let rest = wait_for_dlq deadline want have polls in if ltb t deadline then rest else []

  -- The records of all messages up to the deadline.
  unfoldable pub in_time : ℕ → List (ℕ × Poll) → List Fields
  in_time deadline [] = []
  in_time deadline ((t, Poll.message m) ∷ polls) =
      let rest = in_time deadline polls in if ltb t deadline then record_of codec m ∷ rest else []
  in_time deadline ((t, p) ∷ polls) =
      let rest = in_time deadline polls in if ltb t deadline then rest else []

  abbrev pub is_about : String → Fields → Bool
  is_about tid rec = text_eq (tid_of codec rec) tid

  dlq_hit-any :
      (tid : String) (blob : List Fields) → (dlq_hit codec tid blob).0 ≡ any (is_about tid) blob
  unfolding dlq_hit
  dlq_hit-any tid [] = refl
  dlq_hit-any tid (rec ∷ blob) = elim (Bool-cases (is_about tid rec)) [
    | inl t ↦ rw t refl
    | inr f ↦ rw f (dlq_hit-any tid blob)
  ]

  seen-member :
      (want have : List String) (rec : Fields) (tid : String)
      → member want tid ≡ true
      → member (seen want have rec) tid ≡ (is_about tid rec || member have tid)
  seen-member want have rec tid w = elim (Bool-cases (is_about tid rec)) [
    | inl t ↦
        let q : tid_of codec rec ≡ tid = (eq_iff (tid_of codec rec) tid).0 t in
        rw t (
          rw
            (subst (λ x. member want x ≡ true) (sym q) w, member-add (tid_of codec rec) tid have, t)
            refl)
    | inr f ↦ rw f (elim (Bool-cases (member want (tid_of codec rec))) [
      | inl m ↦ rw (m, member-add (tid_of codec rec) tid have, f) refl
      | inr n ↦ rw n refl
    ])
  ]

  every-member :
      (have ts : List String) (t : String)
      → every (member have) ts ≡ true
      → member ts t ≡ true
      → member have t ≡ true
  every-member have [] t e m = absurd (ground arith)
  every-member have (x ∷ ts) t e m = elim (Bool-cases (text_eq x t)) [
    | inl q ↦ subst (λ z. member have z ≡ true) ((eq_iff x t).0 q) (ground arith)
    | inr q ↦ every-member have ts t (ground arith) (rw q at m)
  ]

  all_seen :
      (have want : List String) (tid : String)
      → same_set have want ≡ true
      → member want tid ≡ true
      → member have tid ≡ true
  all_seen have want tid s w =
      every-member have want tid (and_left (every (member have) want) (every (member want) have) s)
        w
    where
      and_left : (a b : Bool) → (a && b) ≡ true → a ≡ true
      and_left a b h = ground arith

  stopping :
      (tid : String) (rest : List Fields) (h a h' s y : Bool)
      → h' ≡ (a || h)
      → (s ≡ true → h' ≡ true)
      → (h' || any (is_about tid) rest) ≡ (h' || y)
      → (h || (a || any (is_about tid) (if s then [] else rest))) ≡ (h || (a || y))
  stopping tid rest h a h' true y e k i = let l : (a || h) ≡ true = sym e ∙ k refl in ground arith
  stopping tid rest h a h' false y e k i = ground arith

  wait_covers :
      (deadline : ℕ) (want : List String) (tid : String)
      → member want tid ≡ true
      → (have : List String) (polls : List (ℕ × Poll))
      → (member have tid || any (is_about tid) (wait_for_dlq deadline want have polls))
        ≡ (member have tid || any (is_about tid) (in_time deadline polls))
  unfolding wait_for_dlq in_time
  wait_covers deadline want tid w have [] = refl
  wait_covers deadline want tid w have ((t, Poll.nothing) ∷ polls) =
      elim (Bool-cases (ltb t deadline)) [
        | inl b ↦ rw b (wait_covers deadline want tid w have polls)
        | inr b ↦ rw b refl
      ]
  wait_covers deadline want tid w have ((t, Poll.failed) ∷ polls) =
      elim (Bool-cases (ltb t deadline)) [
        | inl b ↦ rw b (wait_covers deadline want tid w have polls)
        | inr b ↦ rw b refl
      ]
  wait_covers deadline want tid w have ((t, Poll.message m) ∷ polls) =
      let now = seen want have (record_of codec m) in
      elim (Bool-cases (ltb t deadline)) [
        | inl b ↦ rw b (
            stopping tid (wait_for_dlq deadline want now polls) (member have tid)
              (is_about tid (record_of codec m)) (member now tid) (same_set now want)
              (any (is_about tid) (in_time deadline polls))
              (seen-member want have (record_of codec m) tid w) (λ s. all_seen now want tid s w)
              (wait_covers deadline want tid w now polls))
        | inr b ↦ rw b refl
      ]

-- To stop early loses nothing that the suite asks for: for every wanted id, the messages that
-- `wait_for_dlq` returns have one of that id exactly if some message that arrives before the deadline has.
pub wait_for_dlq_exact :
    (codec : Codec) (deadline : ℕ) (ids : List String) (polls : List (ℕ × Poll)) (tid : String)
    → member ids tid ≡ true
    → (dlq_hit codec tid (wait_for_dlq codec deadline ids [] polls)).0
      ≡ any (is_about codec tid) (in_time codec deadline polls)
wait_for_dlq_exact codec deadline ids polls tid w =
    dlq_hit-any codec tid (wait_for_dlq codec deadline ids [] polls)
    ∙ wait_covers codec deadline ids tid w [] polls

-- The loop that reads everything never keeps more records than it was allowed to.
pub read_dlq_messages_bound :
    (codec : Codec) (timeout max_records n : ℕ) (polls : List (ℕ × Poll))
    → n < max_records
    → n + length (read_dlq_messages codec timeout max_records n polls) ≤ max_records
unfolding read_dlq_messages
read_dlq_messages_bound codec timeout max_records n [] h = omega (arith, h)
read_dlq_messages_bound codec timeout max_records n ((t, Poll.nothing) ∷ polls) h =
    ground (arith, read_dlq_messages_bound codec timeout max_records n polls h)
read_dlq_messages_bound codec timeout max_records n ((t, Poll.failed) ∷ polls) h =
    ground (arith, read_dlq_messages_bound codec timeout max_records n polls h)
read_dlq_messages_bound codec timeout max_records n ((t, Poll.message m) ∷ polls) h =
    ground (arith, read_dlq_messages_bound codec timeout max_records (suc n) polls)
