-- ===== src/Effects/Monad.antt =====
-- Code that may throw, over a state that stays as it was written when an exception leaves.
use svc_hostify.Base.{
  Text, Bool, true, false, Option, none, some, List, ◌≡◌, refl, ap, sym, ◌∙◌, ◌⊎◌, inl, inr,
}

-- `formatted_runtime_error` carries its arguments in order; `aggregate_error::throw_nested` wraps
-- the exception that is being handled.
pub data Error : Type 0 where
  formatted : List Text → Error
  nested : Error → Error → Error
  foreign : Text → Error

-- `undefined`: the code reads an empty `std::optional` by `*`.
pub data Result (A : Type 0) : Type 0 where
  ok : A → Result A
  err : Error → Result A
  undefined : Result A

abbrev pub Action : Type 0 → Type 0 → Type 0
Action S A = S → Result A × S

module _ {S A : Type 0} where
  abbrev pub pure : A → Action S A
  pure a s = (ok a, s)

  abbrev pub throw : Error → Action S A
  throw e s = (err e, s)

  -- `*optional`
  abbrev pub deref : Option A → Action S A
  deref none s = (undefined, s)
  deref (some a) s = (ok a, s)

  abbrev pub gets : (S → A) → Action S A
  gets f s = (ok (f s), s)

infixl 5 ◌>>=◌ ◌>>◌
abbrev pub ◌>>=◌ : {S A B : Type 0} → Action S A → (A → Action S B) → Action S B
◌>>=◌ m f s =
    let (r, t) = m s in elim r [ ok a ↦ f a t | err e ↦ (err e, t) | undefined ↦ (undefined, t) ]

abbrev pub ◌>>◌ : {S A B : Type 0} → Action S A → Action S B → Action S B
m >> k = m >>= λ _. k

-- `if (c) throw …;`
abbrev pub throw_if : {S : Type 0} → Bool → Error → Action S (Unit {0})
throw_if true e s = (err e, s)
throw_if false e s = (ok tt, s)

abbrev pub modify : {S : Type 0} → (S → S) → Action S (Unit {0})
modify f s = (ok tt, f s)

-- `if (c) { … }`
abbrev pub when : {S : Type 0} → Bool → Action S (Unit {0}) → Action S (Unit {0})
when true m s = m s
when false m s = (ok tt, s)

-- `try { … } catch (const std::exception&) { … }`
abbrev pub catch : {S A : Type 0} → Action S A → (Error → Action S A) → Action S A
catch m h s =
    let (r, t) = m s in elim r [ ok a ↦ (ok a, t) | err e ↦ h e t | undefined ↦ (undefined, t) ]

-- A destructor at the end of a scope runs however the scope is left by the code.
abbrev pub finally : {S A : Type 0} → Action S A → (S → S) → Action S A
finally m f s = let (r, t) = m s in (r, f t)

-- How a run ended, with the equation.
pub Result-cases :
    {A : Type 0} (r : Result A)
    → ((a : A) × (r ≡ ok a)) ⊎ (((e : Error) × (r ≡ err e)) ⊎ (r ≡ undefined))
Result-cases (ok a) = inl (a, refl)
Result-cases (err e) = inr (inl (e, refl))
Result-cases undefined = inr (inr refl)

abbrev pub continue : {S A B : Type 0} → (A → Action S B) → Result A × S → Result B × S
continue f (r, t) = elim r [ ok a ↦ f a t | err e ↦ (err e, t) | undefined ↦ (undefined, t) ]

abbrev pub handle_error : {S A : Type 0} → (Error → Action S A) → Result A × S → Result A × S
handle_error h (r, t) = elim r [ ok a ↦ (ok a, t) | err e ↦ h e t | undefined ↦ (undefined, t) ]

-- The step past an action whose run is known.
pub >>=-ok :
    {S A B : Type 0} (m : Action S A) (f : A → Action S B) (s : S) {a : A} {t : S}
    → m s ≡ (ok a, t)
    → (m >>= f) s ≡ f a t
>>=-ok {S} {A} {B} m f s e = ap {B = Result B × S} (continue f) e

pub >>=-err :
    {S A B : Type 0} (m : Action S A) (f : A → Action S B) (s : S) {x : Error} {t : S}
    → m s ≡ (err x, t)
    → (m >>= f) s ≡ (err x, t)
>>=-err {S} {A} {B} m f s e = ap {B = Result B × S} (continue f) e

-- A run that succeeds ends with the run of the step behind its first action.
pub >>=-eq-ok :
    {S A B : Type 0} (m : Action S A) (f : A → Action S B) (s : S) {b : B}
    → ((m >>= f) s).0 ≡ ok b
    → (a : A) × (v : S) × (m s ≡ (ok a, v)) × ((m >>= f) s ≡ f a v)
>>=-eq-ok {S} {A} {B} m f s {b} h = go (m s) refl h
  where
    go :
        (p : Result A × S)
        → m s ≡ p
        → (continue f p).0 ≡ ok b
        → (a : A) × (v : S) × (m s ≡ (ok a, v)) × ((m >>= f) s ≡ f a v)
    go (ok a, v) e q = (a, v, e, >>=-ok m f s e)
    go (err x, v) e q = cc
    go (undefined, v) e q = cc

-- An action that throws has thrown in its first step, or behind it.
pub >>=-eq-err :
    {S A B : Type 0} (m : Action S A) (f : A → Action S B) (s : S) {e : Error} {t : S}
    → (m >>= f) s ≡ (err e, t)
    → (m s ≡ (err e, t)) ⊎ ((a : A) × (v : S) × (m s ≡ (ok a, v)) × (f a v ≡ (err e, t)))
>>=-eq-err {S} {A} {B} m f s {e} {t} h = go (m s) refl h
  where
    go :
        (p : Result A × S)
        → m s ≡ p
        → continue f p ≡ (err e, t)
        → (m s ≡ (err e, t)) ⊎ ((a : A) × (v : S) × (m s ≡ (ok a, v)) × (f a v ≡ (err e, t)))
    go (ok a, v) q r = inr (a, v, q, r)
    go (err x, v) q r = inl (q ∙ cc)
    go (undefined, v) q r = absurd (cc)

-- A run of `m` that succeeds ends with a run of `last`.
pub record EndsIn {S B : Type 0} (last m : Action S B) : Type 0 where
  pub apply : (s : S) (b : B) → (m s).0 ≡ ok b → (v : S) × (m s ≡ last v)

pub EndsIn-self : {S B : Type 0} (last : Action S B) → EndsIn last last
EndsIn-self last = record { apply = λ s b h. (s, refl) }

pub EndsIn-bind :
    {S A B : Type 0} (last : Action S B) (m : Action S A) (f : A → Action S B)
    → ((a : A) → EndsIn last (f a))
    → EndsIn last (m >>= f)
EndsIn-bind last m f k = record {
  apply = λ s b h.
      let (a, v, e, q) = >>=-eq-ok m f s h in
      let (u, r) = (k a).apply v b (ap (λ p. p.0) (sym q) ∙ h) in (u, q ∙ r);
}
