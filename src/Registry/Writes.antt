-- ===== src/Registry/Writes.antt =====
-- What writing a registry value leaves in the registry.
use svc_hostify.Base.{Text, ℕ, ◌≡◌, some, List, arith}
use svc_hostify.Effects.{Os, World, ok, >>=-ok, Hkey, RegType}
use svc_hostify.Essence.{Essence}
use svc_hostify.Registry.{
  c_str, decompose_registry_path, set_registry, store_value, check_registry_error,
}
use svc_hostify.Registry.Store.{stored, stored_set}

module _ (os : Os) (essence : Essence) where
  module _ (path name : Text) (key : Hkey) (sub : Text) (type : RegType) (value : List ℕ) where
    store_value-stored :
        (w : World)
        → (store_value os essence path name key sub type value w).0 ≡ ok tt
        → stored os
            (store_value os essence path name key sub type value w).1.history
            key
            (c_str sub)
            (c_str (essence.to_native_string name))
          ≡ some (type, value)
    unfolding store_value check_registry_error
    store_value-stored w h = ground (
      arith,
      stored_set os w.history key (c_str sub) (c_str (essence.to_native_string name)) type value,
    )

    -- A call of `set_registry` that returns has stored the value at the key and the name.
    pub set_registry-stored :
        (w : World)
        → decompose_registry_path os essence path w ≡ (ok (key, sub), w)
        → (set_registry os essence path name type value w).0 ≡ ok tt
        → stored os
            (set_registry os essence path name type value w).1.history
            key
            (c_str sub)
            (c_str (essence.to_native_string name))
          ≡ some (type, value)
    unfolding set_registry
    set_registry-stored w parsed h =
        let e =
          >>=-ok (decompose_registry_path os essence path)
            (λ r. store_value os essence path name r.0 r.1 type value) w parsed in
        rw e (store_value-stored w (rw e at h))
