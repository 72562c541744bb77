-- ===== src/Manager/Layout.antt =====
-- The layout of the registry behind `install`, for a service in svchost.exe.
use svc_hostify.Base.{Text, ◌≡◌, false, [], ◌∷◌}
use svc_hostify.Effects.{Os, World, ok, local_machine}
use svc_hostify.Config.{ServiceConfig, Codec}
use svc_hostify.Essence.{Essence}
use svc_hostify.Registry.{c_str}
use svc_hostify.Registry.Paths.{TrimLaws}
use svc_hostify.Registry.Frames.{Writes}
use svc_hostify.Manager.{ServiceManager, new_manager, register_svchost, install}
use svc_hostify.Manager.Store.{IsPlainName, param_sub_key}
use svc_hostify.Manager.Keys.{DigestLaws, svchost_sub_key, group_sub_key}
use svc_hostify.Manager.Entries.{
  RegistryEntry, wide_name, write_then, Writes-write_then, Writes-write_then_last, group_entry,
  security_entry, dll_entry, unload_entry, main_entry, register_svchost_lem, NativeLaws,
}
use svc_hostify.Manager.Registered.{Holds, install-Holds}
use svc_hostify.Manager.Apart.{
  group_entry-Leads, security_entry-Leads, param_key-Leads, group_entry-Apart, security_entry-Apart,
  dll_entry-Apart, unload_entry-Apart, other_names,
}

module _ (os : Os) (essence : Essence) (codec : Codec) (trims : TrimLaws essence)
    (natives : NativeLaws essence) (digests : DigestLaws essence) (config : ServiceConfig)
    (plain : IsPlainName config.name) where
  abbrev pub manager : ServiceManager
  manager = new_manager os essence config

  abbrev Registers : Text → RegistryEntry → Type 0
  Registers sub e =
      Writes os local_machine (c_str (essence.to_native_string sub)) (wide_name os essence e.name)
        (e.type, e.value) (register_svchost os essence manager)

  registers :
      (sub : Text) (e : RegistryEntry)
      → Writes os local_machine
          (c_str (essence.to_native_string sub))
          (wide_name os essence e.name)
          (e.type, e.value)
          (write_then os essence
            (group_entry os essence manager
              ∷ security_entry os essence manager
              ∷ dll_entry os essence manager
              ∷ unload_entry os essence manager
              ∷ [])
            (main_entry os essence manager))
      → Registers sub e
  registers sub e k = rw (register_svchost_lem os essence manager) k

  -- An `install` of a service in svchost.exe that returns leaves in the registry, below
  -- HKEY_LOCAL_MACHINE: the service's name in its group of svchost.exe, the group's
  -- `CoInitializeSecurityParam` 1, and in the parameters of the service the path of this DLL, 1 for
  -- `ServiceDllUnloadOnStop`, and the name of `ServiceMain`. The name of the service has no `/` and no
  -- NUL.
  pub install-Holds_shared :
      (w : World)
      → manager.standalone ≡ false
      → (install os essence codec manager w).0 ≡ ok tt
      → let u = (install os essence codec manager w).1 in
        Holds os essence svchost_sub_key (group_entry os essence manager) u
        × Holds os essence
            (group_sub_key essence digests config.name)
            (security_entry os essence manager)
            u
        × Holds os essence (param_sub_key config.name) (dll_entry os essence manager) u
        × Holds os essence (param_sub_key config.name) (unload_entry os essence manager) u
        × Holds os essence (param_sub_key config.name) (main_entry os essence manager) u
  install-Holds_shared w shared done =
      let group = group_entry os essence manager in
      let security = security_entry os essence manager in
      let dll = dll_entry os essence manager in
      let unload = unload_entry os essence manager in
      let main = main_entry os essence manager in
      let (o1, o2, o3, o4, o5) = other_names os essence trims natives digests config plain in
      (
        install-Holds os essence codec manager shared svchost_sub_key group o1
            (registers svchost_sub_key group (
              Writes-write_then os essence local_machine _ [] group (security ∷ dll ∷ unload ∷ [])
                main (group_entry-Leads os essence trims natives digests config plain)
                (group_entry-Apart os essence trims natives digests config plain)))
            w done,
        install-Holds os essence codec manager shared (group_sub_key essence digests config.name)
            security o2
            (registers _ security (
              Writes-write_then os essence local_machine _ (group ∷ []) security (dll ∷ unload ∷ [])
                main (security_entry-Leads os essence trims natives digests config plain)
                (security_entry-Apart os essence trims natives digests config plain)))
            w done,
        install-Holds os essence codec manager shared (param_sub_key config.name) dll o3
            (registers _ dll (
              Writes-write_then os essence local_machine _ (group ∷ security ∷ []) dll (unload ∷ [])
                main (param_key-Leads os essence trims natives digests config plain)
                (dll_entry-Apart os essence trims natives digests config plain)))
            w done,
        install-Holds os essence codec manager shared (param_sub_key config.name) unload o4
            (registers _ unload (
              Writes-write_then os essence local_machine _ (group ∷ security ∷ dll ∷ []) unload []
                main (param_key-Leads os essence trims natives digests config plain)
                (unload_entry-Apart os essence trims natives digests config plain)))
            w done,
        install-Holds os essence codec manager shared (param_sub_key config.name) main o5
            (registers _ main (
              Writes-write_then_last os essence local_machine _
                (group ∷ security ∷ dll ∷ unload ∷ []) main
                (param_key-Leads os essence trims natives digests config plain)))
            w done,
      )
