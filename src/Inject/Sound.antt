-- ===== src/Inject/Sound.antt =====
-- What a PASS of scripts/inject_bad_records.py shows of the topic and the table.
use payments_cdc_pipeline.Prelude.{
  ℕ, String, List, [], ◌∷◌, Bool, true, false, some, not, ◌&&◌, ◌||◌, In, keep-In, text_eq,
  text_eq_refl, eq_iff, ltb, if◌then◌else◌, Bool-cases, Option-cases, ◌≡◌, refl, sym, ap, ◌∙◌, inl,
  inr, arith,
}
use payments_cdc_pipeline.Sql.{holds, is_in, member}
use payments_cdc_pipeline.Change.{Entry}
use payments_cdc_pipeline.Parity.{is_live}
use payments_cdc_pipeline.Metrics.Json.{Fields}
use payments_cdc_pipeline.Inject.{
  Codec, contains, tid_of, reason_of, record_of, dlq_hit, present, delta_live_ids,
}
use payments_cdc_pipeline.Inject.Polling.{
  Poll, wait_for_dlq, in_time, seen, same_set, is_about, member-add,
}
use payments_cdc_pipeline.Inject.Suite.{Observed, verdict, poll_time}

module _ (codec : Codec) where
  dlq_hit-In :
      (tid : String) (blob : List Fields)
      → (dlq_hit codec tid blob).0 ≡ true
      → (rec : Fields) × In rec blob
        × (tid_of codec rec ≡ tid)
        × (reason_of codec rec ≡ (dlq_hit codec tid blob).1)
  unfolding dlq_hit
  dlq_hit-In tid [] h = absurd (ground (arith, h))
  dlq_hit-In tid (rec ∷ blob) h = elim (Bool-cases (is_about codec tid rec)) [
    | inl t ↦ (rec, inl refl, (eq_iff (tid_of codec rec) tid).0 t, rw t refl)
    | inr f ↦ let (r, i, e, k) = dlq_hit-In tid blob (rw f at h) in (r, inr i, e, rw f k)
  ]

  wait_for_dlq-In :
      (deadline : ℕ) (want have : List String) (polls : List (ℕ × Poll)) (rec : Fields)
      → In rec (wait_for_dlq codec deadline want have polls)
      → In rec (in_time codec deadline polls)
  unfolding wait_for_dlq in_time
  wait_for_dlq-In deadline want have [] rec i = i
  wait_for_dlq-In deadline want have ((t, Poll.nothing) ∷ polls) rec i =
      ground (arith, i, wait_for_dlq-In deadline want have polls rec)
  wait_for_dlq-In deadline want have ((t, Poll.failed) ∷ polls) rec i =
      ground (arith, i, wait_for_dlq-In deadline want have polls rec)
  wait_for_dlq-In deadline want have ((t, Poll.message m) ∷ polls) rec i =
      let rest =
        wait_for_dlq codec deadline want (seen codec want have (record_of codec m)) polls in
      let stop = same_set (seen codec want have (record_of codec m)) want in
      elim (Bool-cases (ltb t deadline)) [
        | inl b ↦ rw b (elim (rw b at i) [
          | inl e ↦ inl e
          | inr j ↦ inr (
              wait_for_dlq-In deadline want (seen codec want have (record_of codec m)) polls rec
                (unstopped stop rest j))
        ])
        | inr b ↦ absurd (rw b at i)
      ]
    where
      unstopped : (b : Bool) (rest : List Fields) → In rec (if b then [] else rest) → In rec rest
      unstopped true rest j = absurd j
      unstopped false rest j = j

present-member :
    (e : Entry) (t : String) (rows : List Entry)
    → In e rows
    → e.transaction_id ≡ some t
    → member (present rows) t ≡ true
present-member e t (r ∷ rows) (inl h) q =
    rw
      (
        sym (ap (λ (x : Entry). x.transaction_id) h) ∙ q,
        member-add t t (present rows),
        text_eq_refl t,
      )
      refl
present-member e t (r ∷ rows) (inr j) q = elim (Option-cases r.transaction_id) [
  | inl n ↦ rw n (present-member e t rows j q)
  | inr (u, s) ↦
      rw (s, member-add u t (present rows), present-member e t rows j q) (or_true (text_eq u t))
]
  where
    or_true : (b : Bool) → (b || true) ≡ true
    or_true b = ground arith
present-member e t [] i q = absurd i

delta_live_ids-member :
    (e : Entry) (t : String) (ids : List String) (table : List Entry)
    → In e table
    → holds (is_live e) ≡ true
    → e.transaction_id ≡ some t
    → member ids t ≡ true
    → member (delta_live_ids table ids) t ≡ true
unfolding delta_live_ids
delta_live_ids-member e t ids table i l q m =
    present-member e t _
      (keep-In (λ (x : Entry). holds (is_in ids x.transaction_id)) e _
        (keep-In (λ (x : Entry). holds (is_live x)) e table i l) (rw q m))
      q

-- A PASS of one of the first four tests is earned: a message of the row's id came from the topic in time,
-- with the reason that the test looks for, and the table that was read after the settling time has no live
-- row of that id.
pub verdict_sound :
    (codec : Codec) (o : Observed) (tid marker : String)
    → verdict codec o tid marker ≡ true
    → ((rec : Fields) × In rec (in_time codec poll_time o.polls)
        × (tid_of codec rec ≡ tid)
        × (contains marker (reason_of codec rec) ≡ true))
      × ((e : Entry) → In e o.settled → e.transaction_id ≡ some tid → holds (is_live e) ≡ false)
verdict_sound codec o tid marker h =
    let (hit, reason) = dlq_hit codec tid (wait_for_dlq codec poll_time (tid ∷ []) [] o.polls) in
    let leaked = member (delta_live_ids o.settled (tid ∷ [])) tid in
    let (a, b, c) = parts hit (contains marker reason) leaked h in
    let (rec, i, e, k) =
      dlq_hit-In codec tid (wait_for_dlq codec poll_time (tid ∷ []) [] o.polls) a in
    (
      (
        rec,
        wait_for_dlq-In codec poll_time (tid ∷ []) [] o.polls rec i,
        e,
        ap (contains marker) k ∙ b,
      ),
      λ x j q. not_live x (delta_live_ids-member x tid (tid ∷ []) o.settled j) q c,
    )
  where
    parts : (a b c : Bool) → (a && b && not c) ≡ true → (a ≡ true) × (b ≡ true) × (c ≡ false)
    parts a b c h = ground arith

    not_live :
        {leaked : Bool} (x : Entry)
        → (holds (is_live x) ≡ true
            → x.transaction_id ≡ some tid
            → member (tid ∷ []) tid ≡ true
            → leaked ≡ true)
        → x.transaction_id ≡ some tid
        → leaked ≡ false
        → holds (is_live x) ≡ false
    not_live x f q c = elim (Bool-cases (holds (is_live x))) [
      | inl t ↦ let l = f t q (rw (text_eq_refl tid) refl) in absurd (ground (arith, l, c))
      | inr g ↦ g
    ]
