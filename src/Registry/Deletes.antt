-- ===== src/Registry/Deletes.antt =====
-- What deleting a registry tree or value leaves in the registry.
use svc_hostify.Base.{
  Text, eq_text_refl, take, length, ◌≡◌, refl, sym, ap, ◌∙◌, none, [], ◌∷◌, append-nil,
  take-length-append, arith,
}
use svc_hostify.Effects.{Os, World, ok, History, Hkey, reg_delete_tree, reg_delete_key_value}
use svc_hostify.Essence.{Essence}
use svc_hostify.Registry.{c_str, delete_tree_at, delete_value_at, check_registry_error}
use svc_hostify.Registry.Store.{stored, same_hkey_refl}

take_all : (s : Text) → take (length s) s ≡ s
take_all s = ap (take (length s)) (sym (append-nil s)) ∙ take-length-append s []

stored_delete_tree :
    (os : Os) (h : History) (key : Hkey) (sub name : Text)
    → os.number h (reg_delete_tree key sub) ≡ 0
    → stored os (reg_delete_tree key sub ∷ h) key sub name ≡ none
stored_delete_tree os h key sub name done =
    rw (done, same_hkey_refl key, take_all sub, eq_text_refl sub) refl

stored_delete_value :
    (os : Os) (h : History) (key : Hkey) (sub name : Text)
    → os.number h (reg_delete_key_value key sub name) ≡ 0
    → stored os (reg_delete_key_value key sub name ∷ h) key sub name ≡ none
stored_delete_value os h key sub name done =
    rw (done, same_hkey_refl key, eq_text_refl sub, eq_text_refl name) refl

module _ (os : Os) (essence : Essence) where
  pub delete_tree_at-stored :
      (path : Text) (key : Hkey) (sub name : Text) (w : World)
      → (delete_tree_at os essence path key sub w).0 ≡ ok tt
      → stored os (delete_tree_at os essence path key sub w).1.history key (c_str sub) name ≡ none
  unfolding delete_tree_at check_registry_error
  delete_tree_at-stored path key sub name w h =
      ground (arith, stored_delete_tree os w.history key (c_str sub) name)

  pub delete_value_at-stored :
      (path name : Text) (key : Hkey) (sub : Text) (w : World)
      → (delete_value_at os essence path name key sub w).0 ≡ ok tt
      → stored os
          (delete_value_at os essence path name key sub w).1.history
          key
          (c_str sub)
          (c_str (essence.to_native_string name))
        ≡ none
  unfolding delete_value_at check_registry_error
  delete_value_at-stored path name key sub w h = ground (
    arith,
    stored_delete_value os w.history key (c_str sub) (c_str (essence.to_native_string name)),
  )

  -- Where there is no value, there is none behind the deletion of one.
  pub delete_value_at-none :
      (path name : Text) (key : Hkey) (sub : Text) (k : Hkey) (s n : Text) (w : World)
      → stored os w.history k s n ≡ none
      → stored os (delete_value_at os essence path name key sub w).1.history k s n ≡ none
  unfolding delete_value_at check_registry_error
  delete_value_at-none path name key sub k s n w h = ground arith
