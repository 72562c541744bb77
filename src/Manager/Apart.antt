-- ===== src/Manager/Apart.antt =====
-- The registry entries of a service in svchost.exe: the keys that their paths lead to, and names that
-- differ.
use svc_hostify.Base.{
  Text, codes, eq_text, take_while, ◌<◌, ◌≡◌, refl, false, [], ◌∷◌, ◌++◌, All, arith,
}
use svc_hostify.Effects.{Os, World, ok, local_machine}
use svc_hostify.Config.{ServiceConfig}
use svc_hostify.Essence.{Essence}
use svc_hostify.Registry.{c_str, decompose_registry_path}
use svc_hostify.Registry.Paths.{TrimLaws}
use svc_hostify.Manager.{ServiceManager, new_manager}
use svc_hostify.Manager.Store.{IsPlainName, param_sub_key, decompose_service_param_key}
use svc_hostify.Manager.Keys.{
  decompose-svchost_key, decompose-group_key, DigestLaws, svchost_sub_key, group_sub_key,
}
use svc_hostify.Manager.Entries.{
  wide_name, Apart, Leads, group_entry, security_entry, dll_entry, unload_entry, main_entry,
  NativeLaws, literals_apart, literal_apart,
}

broker-ascii : All (λ c. c < 128) (codes "Broker_")
unfolding codes
broker-ascii = omega arith

module _ (os : Os) (essence : Essence) (trims : TrimLaws essence) (natives : NativeLaws essence)
    (digests : DigestLaws essence) (config : ServiceConfig) (plain : IsPlainName config.name) where
  abbrev pub manager : ServiceManager
  manager = new_manager os essence config

  pub group_entry-Leads :
      Leads os essence
        (group_entry os essence manager)
        local_machine
        (essence.to_native_string svchost_sub_key)
  group_entry-Leads w = decompose-svchost_key essence digests os trims w

  pub security_entry-Leads :
      Leads os essence
        (security_entry os essence manager)
        local_machine
        (essence.to_native_string (group_sub_key essence digests config.name))
  security_entry-Leads w = decompose-group_key essence digests os trims config w plain

  pub param_key-Leads :
      (w : World)
      → decompose_registry_path os essence manager.service_param_key w
        ≡ (ok (local_machine, essence.to_native_string (param_sub_key config.name)), w)
  unfolding new_manager
  param_key-Leads w = decompose_service_param_key os essence trims config.name w plain

  apart_group :
      (s : Text)
      → All (λ c. c < 128) s
      → ((u : Text) → eq_text (c_str s) (c_str (codes "Broker_" ++ u)) ≡ false)
      → eq_text (wide_name os essence s) (wide_name os essence manager.group_name) ≡ false
  unfolding new_manager
  apart_group s h e = literal_apart essence natives s (codes "Broker_") _ h broker-ascii e

  apart_literals :
      (s t : Text)
      → All (λ c. c < 128) s
      → All (λ c. c < 128) t
      → eq_text (c_str s) (c_str t) ≡ false
      → eq_text (wide_name os essence s) (wide_name os essence t) ≡ false
  apart_literals = literals_apart essence natives

  pub group_entry-Apart : Apart os essence manager.group_name (
      security_entry os essence manager
      ∷ dll_entry os essence manager
      ∷ unload_entry os essence manager
      ∷ main_entry os essence manager
      ∷ [])
  unfolding codes eq_text take_while
  group_entry-Apart = (
    apart_group (codes "CoInitializeSecurityParam") (omega arith) (λ u. refl),
    (
      apart_group (codes "ServiceDll") (omega arith) (λ u. refl),
      (
        apart_group (codes "ServiceDllUnloadOnStop") (omega arith) (λ u. refl),
        (apart_group (codes "ServiceMain") (omega arith) (λ u. refl), tt),
      ),
    ),
  )

  pub security_entry-Apart : Apart os essence (codes "CoInitializeSecurityParam") (
      dll_entry os essence manager
      ∷ unload_entry os essence manager
      ∷ main_entry os essence manager
      ∷ [])
  unfolding codes eq_text take_while
  security_entry-Apart =
      let s = codes "CoInitializeSecurityParam" in
      (
        apart_literals (codes "ServiceDll") s (omega arith) (omega arith) refl,
        (
          apart_literals (codes "ServiceDllUnloadOnStop") s (omega arith) (omega arith) refl,
          (apart_literals (codes "ServiceMain") s (omega arith) (omega arith) refl, tt),
        ),
      )

  pub dll_entry-Apart :
      Apart os essence
        (codes "ServiceDll")
        (unload_entry os essence manager ∷ main_entry os essence manager ∷ [])
  unfolding codes eq_text take_while
  dll_entry-Apart = (
    apart_literals (codes "ServiceDllUnloadOnStop") (codes "ServiceDll") (omega arith) (omega arith)
        refl,
    (
      apart_literals (codes "ServiceMain") (codes "ServiceDll") (omega arith) (omega arith) refl,
      tt,
    ),
  )

  pub unload_entry-Apart :
      Apart os essence (codes "ServiceDllUnloadOnStop") (main_entry os essence manager ∷ [])
  unfolding codes eq_text take_while
  unload_entry-Apart = (
    apart_literals (codes "ServiceMain") (codes "ServiceDllUnloadOnStop") (omega arith)
        (omega arith) refl,
    tt,
  )

  -- What `install` stores behind the entries has another name.
  abbrev pub OtherName : Text → Type 0
  OtherName name =
      eq_text (wide_name os essence (codes "StartupConfiguration")) (wide_name os essence name)
      ≡ false

  pub other_names :
      OtherName manager.group_name
      × OtherName (codes "CoInitializeSecurityParam")
      × OtherName (codes "ServiceDll")
      × OtherName (codes "ServiceDllUnloadOnStop")
      × OtherName (codes "ServiceMain")
  unfolding codes eq_text take_while
  other_names =
      let s = codes "StartupConfiguration" in
      (
        apart_group s (omega arith) (λ u. refl),
        apart_literals s (codes "CoInitializeSecurityParam") (omega arith) (omega arith) refl,
        apart_literals s (codes "ServiceDll") (omega arith) (omega arith) refl,
        apart_literals s (codes "ServiceDllUnloadOnStop") (omega arith) (omega arith) refl,
        apart_literals s (codes "ServiceMain") (omega arith) (omega arith) refl,
      )
