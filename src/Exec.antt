-- ===== src/Exec.antt =====
-- Python functions that change the process or an outside store and may raise. What was written
-- before a raise stays written, so the state comes back beside the exception.
use payments_cdc_pipeline.Prelude.{◌≡◌, refl, ap, ◌⊎◌, inl, inr, arith}
use mathlib.Core.Path.{subst}
use payments_cdc_pipeline.Errors.{Error, Result, ok, err}

abbrev pub Exec : Type 0 → Type 0 → Type 0
Exec S A = S → Result A × S

-- How a write to an outside store ends: acknowledged, rejected before anything is stored, or stored
-- with the caller dead or cut off before the acknowledgement.
pub data Outcome : Type 0 where
  acknowledged refused lost : Outcome

pub Outcome-cases : (o : Outcome) → (o ≡ acknowledged) ⊎ ((o ≡ refused) ⊎ (o ≡ lost))
Outcome-cases acknowledged = inl refl
Outcome-cases refused = inr (inl refl)
Outcome-cases lost = inr (inr refl)

module _ {S A : Type 0} where
  abbrev pub pure : A → Exec S A
  pure a s = (ok a, s)

  abbrev pub raise : Error → Exec S A
  raise e s = (err e, s)

  abbrev pub gets : (S → A) → Exec S A
  gets f s = (ok (f s), s)

  abbrev pub embed : Result A → Exec S A
  embed r s = (r, s)

module _ {S A B : Type 0} where
  infixl 5 ◌>>=◌
  abbrev pub ◌>>=◌ : Exec S A → (A → Exec S B) → Exec S B
  ◌>>=◌ m f s = let (r, s') = m s in elim r [ ok a ↦ f a s' | err e ↦ (err e, s') ]

  infixl 5 ◌>>◌
  abbrev pub ◌>>◌ : Exec S A → Exec S B → Exec S B
  m >> n = m >>= λ _. n

module _ {S : Type 0} where
  abbrev pub modify : (S → S) → Exec S (Unit {0})
  modify f s = (ok tt, f s)

  -- A write to an outside store.
  abbrev pub write : Outcome → Error → (S → S) → Exec S (Unit {0})
  write acknowledged e f s = (ok tt, f s)
  write refused e f s = (err e, s)
  write lost e f s = (err e, f s)

-- A call that returns hands its value and state to what follows.
pub bind_ok :
    {S A B : Type 0} (m : Exec S A) (f : A → Exec S B) (s s' : S) (a : A)
    → m s ≡ (ok a, s')
    → (m >>= f) s ≡ f a s'
bind_ok {S} {A} {B} m f s s' a e = ap next e
  where
    next : Result A × S → Result B × S
    next p = elim p.0 [ ok a ↦ f a p.1 | err x ↦ (err x, p.1) ]

-- A property of how a call ends is proved of a sequence by its parts: of the second call where the
-- first returns, and of the exception where it raises.
pub bind-ends :
    {S A B : Type 0} (P : Result B → S → Type 0) (m : Exec S A) (f : A → Exec S B) (s : S)
    → ((a : A) (s' : S) → m s ≡ (ok a, s') → P (f a s').0 (f a s').1)
    → ((e : Error) (s' : S) → m s ≡ (err e, s') → P (err e) s')
    → P ((m >>= f) s).0 ((m >>= f) s).1
bind-ends {S} {A} {B} P m f s h k = go (m s) refl
  where
    next : Result A × S → Result B × S
    next p = elim p.0 [ ok a ↦ f a p.1 | err e ↦ (err e, p.1) ]

    go : (p : Result A × S) → m s ≡ p → P (next p).0 (next p).1
    go (ok a, s') e = h a s' e
    go (err x, s') e = k x s' e

-- A property of the state that a call keeps, however it ends.
abbrev pub Keeps : {S A : Type 0} → (S → Type 0) → Exec S A → Type 0
Keeps {S} P m = (s : S) → P s → P (m s).1

pub bind-Keeps :
    {S A B : Type 0} (P : S → Type 0) (m : Exec S A) (f : A → Exec S B)
    → Keeps P m
    → ((a : A) → Keeps P (f a))
    → Keeps P (m >>= f)
bind-Keeps {S} {A} {B} P m f h k s p =
    bind-ends (λ (r : Result B) (s' : S). P s') m f s
      (λ a s' e. k a s' (subst (λ (x : Result A × S). P x.1) e (h s p)))
      (λ x s' e. subst (λ (x : Result A × S). P x.1) e (h s p))

-- What follows a check that returns, and a write, returns only if the check passed and the write was
-- acknowledged.
pub check-inversion :
    {S B : Type 0} (r : Result (Unit {0})) (k : Exec S B) (s s' : S) (b : B)
    → (embed r >> k) s ≡ (ok b, s')
    → k s ≡ (ok b, s')
check-inversion (ok tt) k s s' b h = h
check-inversion (err x) k s s' b h = absurd (ground (arith, h))

pub write-inversion :
    {S A B : Type 0} (o : Outcome) (e : Error) (f : S → S) (a : A) (k : A → Exec S B) (s s' : S)
    (b : B)
    → (write o e f >> pure a >>= k) s ≡ (ok b, s')
    → k a (f s) ≡ (ok b, s')
write-inversion acknowledged e f a k s s' b h = h
write-inversion refused e f a k s s' b h = absurd (ground (arith, h))
write-inversion lost e f a k s s' b h = absurd (ground (arith, h))

-- The value and the state of a call that returned.
pub pure-inversion :
    {S A : Type 0} (a a' : A) (s s' : S) → pure a s ≡ (ok a', s') → (a ≡ a') × (s ≡ s')
pure-inversion {S} {A} a a' s s' h =
    (ap (λ (q : Result A × S). value q.0) h, ap (λ (q : Result A × S). q.1) h)
  where
    value : Result A → A
    value (ok x) = x
    value (err x) = a

-- A sequence that returns is two calls that return.
pub bind-inversion :
    {S A B : Type 0} (m : Exec S A) (f : A → Exec S B) (s s'' : S) (b : B)
    → (m >>= f) s ≡ (ok b, s'')
    → (a : A) × (s' : S) × (m s ≡ (ok a, s')) × (f a s' ≡ (ok b, s''))
bind-inversion {S} {A} {B} m f s s'' b = go (m s) refl
  where
    next : Result A × S → Result B × S
    next p = elim p.0 [ ok a ↦ f a p.1 | err e ↦ (err e, p.1) ]

    go :
        (p : Result A × S)
        → m s ≡ p
        → next p ≡ (ok b, s'')
        → (a : A) × (s' : S) × (m s ≡ (ok a, s')) × (f a s' ≡ (ok b, s''))
    go (ok a, s') e h = (a, s', e, h)
    go (err x, s') e h = absurd (ground (arith, h))
