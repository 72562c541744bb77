-- ===== src/Manager/Registered.antt =====
-- What `install` leaves in the registry for a service in svchost.exe.
use svc_hostify.Base.{
  Text, codes, eq_text, ℕ, ◌≡◌, ap, ◌∙◌, Bool, true, false, not, Option, some, List,
}
use svc_hostify.Effects.{Os, World, Action, ok, when, finally, Hkey, local_machine, RegType, reg_sz}
use svc_hostify.Config.{Codec, to_msgpack_base64}
use svc_hostify.Essence.{Essence}
use svc_hostify.Registry.{c_str, set_registry_string}
use svc_hostify.Registry.Store.{stored}
use svc_hostify.Registry.Frames.{Frames, Writes, Writes-first, Writes-last, Frames-set_registry}
use svc_hostify.Manager.{
  ServiceManager, register_svchost, require, set_description, install_created, install, with_scm,
  create_request, close_handle_if,
}
use svc_hostify.Manager.Store.{stored_closed}
use svc_hostify.Manager.Keys.{}
use svc_hostify.Manager.Entries.{RegistryEntry, wide_name}

-- The registry that `w` leaves has an entry, below `HKEY_LOCAL_MACHINE`.
abbrev pub Holds : Os → Essence → Text → RegistryEntry → World → Type 0
Holds os essence sub e w =
    stored os w.history local_machine (c_str (essence.to_native_string sub))
      (wide_name os essence e.name)
    ≡ some (e.type, e.value)

Writes-when :
    (os : Os) (key : Hkey) (sub name : Text) (v : RegType × List ℕ) (b : Bool)
    (m : Action World (Unit {0}))
    → b ≡ true
    → Writes os key sub name v m
    → Writes os key sub name v (when b m)
Writes-when os key sub name v true m e k = record { apply = λ w. k.apply w }
Writes-when os key sub name v false m e k = absurd (true-ne-false e)
  where
    true-ne-false : false ≡ true → ⊥
    true-ne-false e = cc

module _ (os : Os) (essence : Essence) (codec : Codec) where
  -- What `register_svchost` leaves stays behind `install`, where it has another name than the
  -- configuration.
  module _ (m : ServiceManager) (shared : m.standalone ≡ false) (sub : Text) (e : RegistryEntry)
      (other : eq_text
          (wide_name os essence (codes "StartupConfiguration"))
          (wide_name os essence e.name)
        ≡ false)
      (registered : Writes os local_machine
        (c_str (essence.to_native_string sub))
        (wide_name os essence e.name)
        (e.type, e.value)
        (register_svchost os essence m)) where
    abbrev WritesEntry : Action World (Unit {0}) → Type 0
    WritesEntry =
        Writes os local_machine (c_str (essence.to_native_string sub)) (wide_name os essence e.name)
          (e.type, e.value)

    store_configuration-Frames :
        Frames os local_machine
          (c_str (essence.to_native_string sub))
          (wide_name os essence e.name)
          (set_registry_string os essence m.service_param_key
            (codes "StartupConfiguration")
            (to_msgpack_base64 codec m.config)
            false)
    unfolding set_registry_string
    store_configuration-Frames =
        Frames-set_registry os local_machine _ _ essence m.service_param_key
          (codes "StartupConfiguration") reg_sz _ other

    install_created-Writes :
        (handle : Option ℕ) → WritesEntry (install_created os essence codec m handle)
    unfolding install_created
    install_created-Writes handle =
        Writes-last os local_machine _ _
          (require os essence m handle (codes "Failed to install the service.")) _
          λ h.
            Writes-last os local_machine _ _ (set_description os essence m h m.config.description) _
              λ u.
                Writes-first os local_machine _ _
                  (when (not m.standalone) (register_svchost os essence m)) _
                  (Writes-when os local_machine _ _ _ (not m.standalone) _ (ap not shared)
                    registered)
                  λ u. store_configuration-Frames

    install_closed-Writes :
        (handle : Option ℕ)
        → WritesEntry (finally (install_created os essence codec m handle) (close_handle_if handle))
    install_closed-Writes handle = record {
      apply = λ w h.
          stored_closed os handle (install_created os essence codec m handle w).1 _ _ _
          ∙ (install_created-Writes handle).apply w h;
    }

    install-Writes : WritesEntry (install os essence codec m)
    unfolding install
    install-Writes =
        Writes-last os local_machine _ _ (with_scm os essence m (create_request os essence codec m))
          _ λ handle. install_closed-Writes handle

    -- An entry that `register_svchost` leaves is there behind an `install` that returns.
    pub install-Holds :
        (w : World)
        → (install os essence codec m w).0 ≡ ok tt
        → Holds os essence sub e (install os essence codec m w).1
    install-Holds w done = install-Writes.apply w done
