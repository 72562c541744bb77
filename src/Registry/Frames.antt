-- ===== src/Registry/Frames.antt =====
-- What actions do to the value at one place of the registry: keep it, or leave a given one.
use svc_hostify.Base.{Text, eq_text, ℕ, ◌≡◌, refl, ◌∙◌, false, Option, none, some, List, arith}
use svc_hostify.Effects.{
  Os, World, Action, Result, ok, err, undefined, ◌>>=◌, continue, >>=-eq-ok, Hkey, RegType,
}
use svc_hostify.Essence.{Essence}
use svc_hostify.Registry.{
  c_str, decompose_entry, decompose_registry_path, store_value, check_registry_error, set_registry,
}
use svc_hostify.Registry.Store.{stored}

module _ (os : Os) (key : Hkey) (sub name : Text) where
  -- The value is as before, however the action ends.
  pub record Frames {A : Type 0} (m : Action World A) : Type 0 where
    pub apply :
        (w : World) → stored os (m w).1.history key sub name ≡ stored os w.history key sub name

  -- An action that returns leaves this value.
  pub record Writes (v : RegType × List ℕ) (m : Action World (Unit {0})) : Type 0 where
    pub apply : (w : World) → (m w).0 ≡ ok tt → stored os (m w).1.history key sub name ≡ some v

  pub Frames-bind :
      {A B : Type 0} (m : Action World A) (f : A → Action World B)
      → Frames m
      → ((a : A) → Frames (f a))
      → Frames (m >>= f)
  Frames-bind {A} {B} m f k l = record { apply = λ w. step w (m w) (k.apply w) }
    where
      step :
          (w : World) (p : Result A × World)
          → stored os p.1.history key sub name ≡ stored os w.history key sub name
          → stored os (continue f p).1.history key sub name ≡ stored os w.history key sub name
      step w (ok a, v) e = (l a).apply v ∙ e
      step w (err x, v) e = e
      step w (undefined, v) e = e

  pub Writes-first :
      {v : RegType × List ℕ} (m : Action World (Unit {0})) (f : Unit {0} → Action World (Unit {0}))
      → Writes v m
      → ((a : Unit {0}) → Frames (f a))
      → Writes v (m >>= f)
  Writes-first {v} m f k l = record { apply = λ w. step (m w) (k.apply w) }
    where
      step :
          (p : Result (Unit {0}) × World)
          → (p.0 ≡ ok tt → stored os p.1.history key sub name ≡ some v)
          → (continue f p).0 ≡ ok tt
          → stored os (continue f p).1.history key sub name ≡ some v
      step (ok tt, u) e h = (l tt).apply u ∙ e refl
      step (err x, u) e h = cc
      step (undefined, u) e h = cc

  pub Writes-last :
      {A : Type 0} {v : RegType × List ℕ} (m : Action World A) (f : A → Action World (Unit {0}))
      → ((a : A) → Writes v (f a))
      → Writes v (m >>= f)
  Writes-last m f l = record {
    apply = λ w h. let (a, u, e, q) = >>=-eq-ok m f w h in rw q ((l a).apply u (rw q at h));
  }

  module _ (essence : Essence) where
    decompose_entry-World :
        (p q r s : Text) (e : Option Hkey) (w : World)
        → (decompose_entry os essence p q r s e w).1 ≡ w
    unfolding decompose_entry
    decompose_entry-World p q r s none w = refl
    decompose_entry-World p q r s (some k) w = ground arith

    Frames-decompose_registry_path :
        (path : Text) → Frames (decompose_registry_path os essence path)
    unfolding decompose_registry_path
    Frames-decompose_registry_path path = record { apply = λ w. rw decompose_entry-World refl }

    Frames-store_value :
        (path n : Text) (k : Hkey) (s : Text) (type : RegType) (value : List ℕ)
        → eq_text (c_str (essence.to_native_string n)) name ≡ false
        → Frames (store_value os essence path n k s type value)
    unfolding store_value check_registry_error
    Frames-store_value path n k s type value other = record { apply = λ w. ground arith }

    -- Writing a value of another name keeps the value.
    pub Frames-set_registry :
        (path n : Text) (type : RegType) (value : List ℕ)
        → eq_text (c_str (essence.to_native_string n)) name ≡ false
        → Frames (set_registry os essence path n type value)
    unfolding set_registry
    Frames-set_registry path n type value other =
        Frames-bind _ _ (Frames-decompose_registry_path path)
          λ r. Frames-store_value path n r.0 r.1 type value other
