-- ===== src/Base/Strings.antt =====
-- Texts as lists of code units: `std::string` (bytes) and `std::wstring` (UTF-16 units) alike.
use Prim.Native.Char.{code}
use Prim.Native.String.{String}
use Prim.Native.Nat.{ℕ, zero, suc, ◌+◌}
use mathlib.Core.Path.{◌≡◌, refl, ap}
use mathlib.Core.Logic.{inl, inr, ◌≢◌}
use mathlib.Core.Bool.{Bool, true, false, ◌&&◌}
use mathlib.Core.List.{List, [], ◌∷◌, ◌++◌}
use mathlib.Core.Option.{Option, none, some}
use native.Mathlib.Omega.{arith}
use svc_hostify.Base.Tests.{◌==◌, if◌then◌else◌, Bool-cases}

abbrev pub Text : Type 0
Text = List ℕ

-- A literal of the source. It is shut, so that a proof does not spell messages out.
unfoldable pub codes : String → Text
codes String.[] = []
codes (String.◌∷◌ c s) = code c ∷ codes s

module _ {ℓ} {A : Type ℓ} where
  abbrev pub length : List A → ℕ
  length [] = 0
  length (x ∷ xs) = suc (length xs)

  abbrev pub take : ℕ → List A → List A
  take zero xs = []
  take (suc n) [] = []
  take (suc n) (x ∷ xs) = x ∷ take n xs

  abbrev pub drop : ℕ → List A → List A
  drop zero xs = xs
  drop (suc n) [] = []
  drop (suc n) (x ∷ xs) = drop n xs

  pub length-append : (xs ys : List A) → length (xs ++ ys) ≡ length xs + length ys
  length-append [] ys = omega arith
  length-append (x ∷ xs) ys = omega (arith, length-append xs ys)

  pub take-length-append : (xs ys : List A) → take (length xs) (xs ++ ys) ≡ xs
  take-length-append [] ys = refl
  take-length-append (x ∷ xs) ys = ap (λ (t : List A). x ∷ t) (take-length-append xs ys)

abbrev pub All {ℓ κ} : {A : Type ℓ} → (A → Type κ) → List A → Type κ
All P [] = Unit
All P (x ∷ xs) = P x × All P xs

pub All-append {ℓ κ} :
    {A : Type ℓ} (P : A → Type κ) (xs ys : List A) → All P xs → All P ys → All P (xs ++ ys)
All-append P [] ys hx hy = hy
All-append P (x ∷ xs) ys hx hy = (hx.0, All-append P xs ys hx.1 hy)

abbrev pub Lacks : ℕ → Text → Type 0
Lacks c = All (λ x. x ≢ c)

-- Equality of texts, as `std::equal_to<>` decides it.
unfoldable pub eq_text : Text → Text → Bool
eq_text [] [] = true
eq_text [] (y ∷ t) = false
eq_text (x ∷ s) [] = false
eq_text (x ∷ s) (y ∷ t) = x == y && eq_text s t

pub eq_text_refl : (s : Text) → eq_text s s ≡ true
unfolding eq_text
eq_text_refl [] = refl
eq_text_refl (x ∷ s) = ground (arith, eq_text_refl s)

pub eq_of_eq_text : (s t : Text) → eq_text s t ≡ true → s ≡ t
unfolding eq_text
eq_of_eq_text [] [] h = refl
eq_of_eq_text [] (y ∷ t) h = cc
eq_of_eq_text (x ∷ s) [] h = cc
eq_of_eq_text (x ∷ s) (y ∷ t) h = ground (arith, eq_of_eq_text s t)

pub eq_text_ne : (s t : Text) → s ≢ t → eq_text s t ≡ false
eq_text_ne s t h = elim (Bool-cases (eq_text s t)) [
  | inl e ↦ absurd (h (eq_of_eq_text s t e))
  | inr e ↦ e
]

-- `s.empty()`
abbrev pub is_empty : Text → Bool
is_empty [] = true
is_empty (x ∷ s) = false

-- The longest prefix whose units pass the test, and the rest.
unfoldable pub take_while : (ℕ → Bool) → Text → Text
take_while p [] = []
take_while p (c ∷ s) = if p c then c ∷ take_while p s else []

unfoldable pub drop_while : (ℕ → Bool) → Text → Text
drop_while p [] = []
drop_while p (c ∷ s) = if p c then drop_while p s else c ∷ s

abbrev pub Passes : (ℕ → Bool) → Text → Type 0
Passes p = All (λ c. p c ≡ true)

abbrev pub Fails : (ℕ → Bool) → Text → Type 0
Fails p = All (λ c. p c ≡ false)

-- The text does not begin with a unit that passes the test.
abbrev pub StopsAt : (ℕ → Bool) → Text → Type 0
StopsAt p [] = Unit
StopsAt p (c ∷ s) = p c ≡ false

pub take_while-append :
    (p : ℕ → Bool) (s t : Text) → Passes p s → StopsAt p t → take_while p (s ++ t) ≡ s
unfolding take_while
take_while-append p [] [] h k = refl
take_while-append p [] (c ∷ t) h k = rw k refl
take_while-append p (c ∷ s) t h k = rw (h.0, take_while-append p s t h.1 k) refl

pub drop_while-append :
    (p : ℕ → Bool) (s t : Text) → Passes p s → StopsAt p t → drop_while p (s ++ t) ≡ t
unfolding drop_while
drop_while-append p [] [] h k = refl
drop_while-append p [] (c ∷ t) h k = rw k refl
drop_while-append p (c ∷ s) t h k = rw h.0 (drop_while-append p s t h.1 k)

-- `std::unordered_map` built from a list: the first of two equal keys stays.
abbrev pub find {ℓ} : {V : Type ℓ} → Text → List (Text × V) → Option V
find k [] = none
find k ((j, v) ∷ m) = if eq_text j k then some v else find k m

-- The texts with a separator between them.
unfoldable pub join_with : ℕ → List Text → Text
join_with sep [] = []
join_with sep (s ∷ []) = s
join_with sep (s ∷ t ∷ l) = s ++ sep ∷ join_with sep (t ∷ l)
