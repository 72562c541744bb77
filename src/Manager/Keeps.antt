-- ===== src/Manager/Keeps.antt =====
-- How often handles of the service control manager are opened and closed, and the steps of
-- service_manager.cpp that do neither or both.
use svc_hostify.Base.{
  Text, ℕ, ◌+◌, ◌==◌, ◌≡◌, refl, Bool, true, false, Option, none, some, List, [], ◌∷◌,
  if◌then◌else◌, arith,
}
use svc_hostify.Effects.{
  Os, World, Action, Result, ok, err, undefined, continue, handle_error, ◌>>=◌, Error, pure, when,
  catch, call, Call, History, open_sc_manager, create_service, open_service as open_service_call,
  close_service_handle, log, warn, Hkey, RegType,
}
use svc_hostify.Config.{ServiceConfig, error_checker}
use svc_hostify.System.{get_last_error as get_last_error_text}
use svc_hostify.Essence.{Essence}
use svc_hostify.Registry.{
  set_registry_multi_string, set_registry_dword, set_registry_string, set_registry, store_value,
  delete_registry_tree, delete_registry_value, delete_tree_at, delete_value_at,
  decompose_registry_path, decompose_entry, check_registry_error,
}
use svc_hostify.Manager.{ServiceManager, register_svchost, unregister_svchost, set_description}

-- Calls that return a handle of the service control manager.
abbrev pub opens_handle : Call → Bool
opens_handle open_sc_manager = true
opens_handle (create_service a b c d e f) = true
opens_handle (open_service_call a b c) = true
opens_handle _ = false

abbrev pub closes_handle : ℕ → Call → Bool
closes_handle x (close_service_handle h) = h == x
closes_handle x _ = false

-- How often the handle `x` is in an answer.
abbrev pub counts : ℕ → Option ℕ → ℕ
counts x none = 0
counts x (some h) = if h == x then 1 else 0

-- How often a history has opened, and closed, the handle `x`.
abbrev pub opened : Os → ℕ → History → ℕ
opened os x [] = 0
opened os x (c ∷ h) = (if opens_handle c then counts x (os.handle h c) else 0) + opened os x h

abbrev pub closed : ℕ → History → ℕ
closed x [] = 0
closed x (c ∷ h) = (if closes_handle x c then 1 else 0) + closed x h

-- From `v` to `w`, the handle `x` was opened `extra` times more than it was closed.
abbrev pub Balanced : Os → ℕ → World → World → ℕ → Type 0
Balanced os x v w extra =
    opened os x w.history + closed x v.history ≡ opened os x v.history + closed x w.history + extra

-- An action leaves no handle open, in every state.
pub record Keeps {A : Type 0} (os : Os) (x : ℕ) (m : Action World A) : Type 0 where
  pub apply : (w : World) → Balanced os x w (m w).1 0

module _ (os : Os) (x : ℕ) where
  pub Keeps-bind :
      {A B : Type 0} (m : Action World A) (f : A → Action World B)
      → Keeps os x m
      → ((a : A) → Keeps os x (f a))
      → Keeps os x (m >>= f)
  Keeps-bind {A} {B} m f k l = record { apply = λ w. step (m w) w (k.apply w) }
    where
      step :
          (p : Result A × World) (w : World)
          → Balanced os x w p.1 0
          → Balanced os x w (continue f p).1 0
      step (ok a, t) w h = omega (arith, (l a).apply t)
      step (err e, t) w h = h
      step (undefined, t) w h = h

  pub Keeps-catch :
      {A : Type 0} (m : Action World A) (f : Error → Action World A)
      → Keeps os x m
      → ((e : Error) → Keeps os x (f e))
      → Keeps os x (catch m f)
  Keeps-catch {A} m f k l = record { apply = λ w. step (m w) w (k.apply w) }
    where
      step :
          (p : Result A × World) (w : World)
          → Balanced os x w p.1 0
          → Balanced os x w (handle_error f p).1 0
      step (ok a, t) w h = h
      step (err e, t) w h = omega (arith, (l e).apply t)
      step (undefined, t) w h = h

  pub Keeps-when : (b : Bool) (m : Action World (Unit {0})) → Keeps os x m → Keeps os x (when b m)
  Keeps-when true m k = record { apply = λ w. k.apply w }
  Keeps-when false m k = record { apply = λ w. omega arith }

  pub Keeps-pure : {A : Type 0} (a : A) → Keeps os x (pure a)
  Keeps-pure a = record { apply = λ w. omega arith }

  pub Keeps-get_last_error_text : (essence : Essence) → Keeps os x (get_last_error_text os essence)
  unfolding get_last_error_text
  Keeps-get_last_error_text essence = record { apply = λ w. omega arith }

  pub Keeps-error_checker :
      (essence : Essence) (c : ServiceConfig) (b : Bool) (t : Text)
      → Keeps os x (error_checker os essence c b t)
  unfolding error_checker
  Keeps-error_checker essence c true t = record { apply = λ w. omega arith }
  Keeps-error_checker essence c false t = record { apply = λ w. omega arith }

  module _ (essence : Essence) where
    decompose_entry-keeps :
        (p q r s : Text) (e : Option Hkey) (w : World)
        → (decompose_entry os essence p q r s e w).1 ≡ w
    unfolding decompose_entry
    decompose_entry-keeps p q r s none w = refl
    decompose_entry-keeps p q r s (some k) w = ground arith

    pub Keeps-decompose_registry_path :
        (p : Text) → Keeps os x (decompose_registry_path os essence p)
    unfolding decompose_registry_path
    Keeps-decompose_registry_path p = record { apply = λ w. rw decompose_entry-keeps (omega arith) }

    pub Keeps-check_registry_error :
        (n : ℕ) (l : List Text) → Keeps os x (check_registry_error os essence n l)
    unfolding check_registry_error
    Keeps-check_registry_error n l = record { apply = λ w. ground arith }

    pub Keeps-store_value :
        (p n : Text) (k : Hkey) (s : Text) (t : RegType) (v : List ℕ)
        → Keeps os x (store_value os essence p n k s t v)
    unfolding store_value check_registry_error
    Keeps-store_value p n k s t v = record { apply = λ w. ground arith }

    pub Keeps-set_registry :
        (p n : Text) (t : RegType) (v : List ℕ) → Keeps os x (set_registry os essence p n t v)
    unfolding set_registry
    Keeps-set_registry p n t v =
        Keeps-bind (decompose_registry_path os essence p) _ (Keeps-decompose_registry_path p)
          (λ r. Keeps-store_value p n r.0 r.1 t v)

    pub Keeps-set_registry_multi_string :
        (p n : Text) (l : List Text) → Keeps os x (set_registry_multi_string os essence p n l)
    unfolding set_registry_multi_string
    Keeps-set_registry_multi_string p n l = Keeps-set_registry p n _ _

    pub Keeps-set_registry_dword :
        (p n : Text) (v : ℕ) → Keeps os x (set_registry_dword os essence p n v)
    unfolding set_registry_dword
    Keeps-set_registry_dword p n v = Keeps-set_registry p n _ _

    pub Keeps-set_registry_string :
        (p n v : Text) (b : Bool) → Keeps os x (set_registry_string os essence p n v b)
    unfolding set_registry_string
    Keeps-set_registry_string p n v b = Keeps-set_registry p n _ _

    pub Keeps-delete_tree_at :
        (p : Text) (k : Hkey) (t : Text) → Keeps os x (delete_tree_at os essence p k t)
    unfolding delete_tree_at check_registry_error
    Keeps-delete_tree_at p k t = record { apply = λ w. ground arith }

    pub Keeps-delete_value_at :
        (p n : Text) (k : Hkey) (t : Text) → Keeps os x (delete_value_at os essence p n k t)
    unfolding delete_value_at check_registry_error
    Keeps-delete_value_at p n k t = record { apply = λ w. ground arith }

    pub Keeps-delete_registry_tree : (p : Text) → Keeps os x (delete_registry_tree os essence p)
    unfolding delete_registry_tree
    Keeps-delete_registry_tree p =
        Keeps-bind (decompose_registry_path os essence p) _ (Keeps-decompose_registry_path p)
          (λ r. Keeps-delete_tree_at p r.0 r.1)

    pub Keeps-delete_registry_value :
        (p n : Text) → Keeps os x (delete_registry_value os essence p n)
    unfolding delete_registry_value
    Keeps-delete_registry_value p n =
        Keeps-bind (decompose_registry_path os essence p) _ (Keeps-decompose_registry_path p)
          (λ r. Keeps-delete_value_at p n r.0 r.1)

    pub Keeps-register_svchost : (m : ServiceManager) → Keeps os x (register_svchost os essence m)
    unfolding register_svchost
    Keeps-register_svchost m =
        search
          (
            Keeps-bind, Keeps-set_registry_multi_string, Keeps-set_registry_dword,
            Keeps-set_registry_string,
          )
          depth 8

    pub Keeps-log : (t : Text) → Keeps os x (call (log warn t))
    Keeps-log t = record { apply = λ w. omega arith }

    pub Keeps-unregister_svchost :
        (m : ServiceManager) → Keeps os x (unregister_svchost os essence m)
    unfolding unregister_svchost
    Keeps-unregister_svchost m = search (
      Keeps-catch, Keeps-bind, Keeps-delete_registry_tree, Keeps-delete_registry_value, Keeps-log,
    )

    pub Keeps-set_description :
        (m : ServiceManager) (h : ℕ) (d : Option Text)
        → Keeps os x (set_description os essence m h d)
    unfolding set_description
    Keeps-set_description m h none = Keeps-pure tt
    Keeps-set_description m h (some d) = record {
      apply = λ w. omega (arith, (Keeps-error_checker _ _ _ _).apply _);
    }
