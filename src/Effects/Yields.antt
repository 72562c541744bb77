-- ===== src/Effects/Yields.antt =====
-- Runs that return or throw, and so read no empty optional: a postcondition with a rule for each
-- way to combine actions.
use svc_hostify.Base.{◌≡◌, ◌≢◌, refl, Bool, true, false}
use svc_hostify.Effects.Monad.{
  Error, Result, ok, err, undefined, Action, pure, throw, throw_if, when, catch, ◌>>=◌, continue,
  handle_error,
}

-- A result that is returned satisfies `P`.
abbrev pub Post : {A : Type 0} → (A → Type 0) → Result A → Type 0
Post P (ok a) = P a
Post P (err e) = Unit
Post P undefined = ⊥

pub record Yields {S A : Type 0} (P : A → Type 0) (m : Action S A) : Type 0 where
  pub apply : (s : S) → Post P (m s).0

-- Any result will do.
abbrev pub Total : {S A : Type 0} → Action S A → Type 0
Total m = Yields (λ a. Unit) m

pub Yields-bind :
    {S A B : Type 0} (P : A → Type 0) (Q : B → Type 0) (m : Action S A) (f : A → Action S B)
    → Yields P m
    → ((a : A) → P a → Yields Q (f a))
    → Yields Q (m >>= f)
Yields-bind {S} {A} {B} P Q m f k l = record { apply = λ s. step (m s) (k.apply s) }
  where
    step : (p : Result A × S) → Post P p.0 → Post Q (continue f p).0
    step (ok a, t) h = (l a h).apply t
    step (err e, t) h = tt
    step (undefined, t) h = h

pub Yields-catch :
    {S A : Type 0} (P : A → Type 0) (m : Action S A) (f : Error → Action S A)
    → Yields P m
    → ((e : Error) → Yields P (f e))
    → Yields P (catch m f)
Yields-catch {S} {A} P m f k l = record { apply = λ s. step (m s) (k.apply s) }
  where
    step : (p : Result A × S) → Post P p.0 → Post P (handle_error f p).0
    step (ok a, t) h = h
    step (err e, t) h = (l e).apply t
    step (undefined, t) h = h

pub Total-bind :
    {S A B : Type 0} (m : Action S A) (f : A → Action S B)
    → Total m
    → ((a : A) → Total (f a))
    → Total (m >>= f)
Total-bind m f k l = Yields-bind _ _ m f k (λ a h. l a)

pub Total-pure : {S A : Type 0} (a : A) → Total {S = S} (pure a)
Total-pure a = record { apply = λ s. tt }

pub Total-throw : {S A : Type 0} (e : Error) → Total {S = S} {A = A} (throw e)
Total-throw e = record { apply = λ s. tt }

pub Total-throw_if : {S : Type 0} (b : Bool) (e : Error) → Total {S = S} (throw_if b e)
Total-throw_if true e = record { apply = λ s. tt }
Total-throw_if false e = record { apply = λ s. tt }

pub Total-when : {S : Type 0} (b : Bool) (m : Action S (Unit {0})) → Total m → Total (when b m)
Total-when true m k = record { apply = λ s. k.apply s }
Total-when false m k = record { apply = λ s. tt }

pub Total-of_ne : {S A : Type 0} (m : Action S A) → ((s : S) → (m s).0 ≢ undefined) → Total m
Total-of_ne {S} {A} m k = record { apply = λ s. step (m s) (k s) }
  where
    step : (p : Result A × S) → p.0 ≢ undefined → Post (λ a. Unit) p.0
    step (ok a, t) h = tt
    step (err e, t) h = tt
    step (undefined, t) h = h refl

pub Total-ne-undefined : {S A : Type 0} (m : Action S A) → Total m → (s : S) → (m s).0 ≢ undefined
Total-ne-undefined {S} {A} m k s = step (m s) (k.apply s)
  where
    step : (p : Result A × S) → Post (λ a. Unit) p.0 → p.0 ≢ undefined
    step (ok a, t) h = λ e. cc
    step (err e, t) h = λ q. cc
    step (undefined, t) h = λ e. h

-- What a run returns, with the run.
pub Yields-run :
    {S A : Type 0} (m : Action S A)
    → Total m
    → Yields (λ a. (s : S) × (t : S) × (m s ≡ (ok a, t))) m
Yields-run {S} {A} m k = record { apply = λ s. step s (m s) refl (k.apply s) }
  where
    step :
        (s : S) (p : Result A × S)
        → m s ≡ p
        → Post (λ a. Unit) p.0
        → Post (λ a. (s : S) × (t : S) × (m s ≡ (ok a, t))) p.0
    step s (ok a, t) e h = (s, t, e)
    step s (err x, t) e h = tt
    step s (undefined, t) e h = h
