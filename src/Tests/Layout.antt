-- ===== src/Tests/Layout.antt =====
-- Installing and removing a service in svchost.exe.
use svc_hostify.Base.{codes, eq_text, take_while, ◌≡◌, ◌⊎◌, refl, false, some, arith}
use svc_hostify.Effects.{start, ok}
use svc_hostify.Essence.{Essence}
use svc_hostify.Config.{ServiceConfig, to_msgpack_base64, error_checker}
use svc_hostify.Manager.{
  uninstall, open_service_raise, open_service, uninstall_opened, stop_service, unregister_svchost,
  new_manager, install, with_scm, ensure_scm, require, create_request, install_created,
  set_description, register_svchost,
}
use svc_hostify.Manager.Store.{IsPlainName, param_sub_key}
use svc_hostify.Manager.Keys.{DigestLaws, svchost_sub_key, group_sub_key}
use svc_hostify.Manager.Entries.{
  NativeLaws, group_entry, security_entry, dll_entry, unload_entry, main_entry,
}
use svc_hostify.Manager.Registered.{Holds}
use svc_hostify.Manager.Layout.{install-Holds_shared}
use svc_hostify.Manager.Removal.{Removed, WarnedAndClosed, uninstall-Removed}
use svc_hostify.Registry.{
  delete_registry_tree, delete_registry_value, delete_tree_at, delete_value_at, set_registry_string,
  set_registry_dword, set_registry_multi_string, set_registry, decompose_registry_path,
  decompose_entry, find_first_of, store_value, check_registry_error,
}
use svc_hostify.Registry.Paths.{TrimLaws}
use svc_hostify.Tests.Platform.{essence, sample, codec}
use svc_hostify.Tests.Registry.{trims, hive}

-- The library with a digest that is printed in hexadecimal digits.
abbrev digesting : Essence
digesting = record essence { sha3_224 = λ s. codes "6b4e" }

digesting_trims : TrimLaws digesting
digesting_trims = record {
  trim_right-append = trims.trim_right-append;
  trim-append = trims.trim-append;
}

digesting-DigestLaws : DigestLaws digesting
unfolding codes
digesting-DigestLaws = record { hex = λ s. omega arith }

digesting-NativeLaws : NativeLaws digesting
digesting-NativeLaws = record { empty = refl; ascii-append = λ s t h. refl }

abbrev shared_sample : ServiceConfig
shared_sample = record sample { standalone = some false }

shared_sample-IsPlainName : IsPlainName shared_sample.name
unfolding codes
shared_sample-IsPlainName = (omega arith, omega arith)

shared : (new_manager hive digesting shared_sample).standalone ≡ false
unfolding new_manager
shared = refl

shared_installed :
    (install hive digesting codec (new_manager hive digesting shared_sample) start).0 ≡ ok tt
unfolding install with_scm ensure_scm require error_checker create_request install_created
    set_description new_manager register_svchost set_registry_string set_registry_dword
    set_registry_multi_string set_registry decompose_registry_path decompose_entry find_first_of
    store_value check_registry_error codes eq_text take_while to_msgpack_base64
shared_installed = refl

install-Holds_shared_example :
    let m = new_manager hive digesting shared_sample in
    let u = (install hive digesting codec m start).1 in
    Holds hive digesting svchost_sub_key (group_entry hive digesting m) u
    × Holds hive digesting
        (group_sub_key digesting digesting-DigestLaws (codes "Svc"))
        (security_entry hive digesting m)
        u
    × Holds hive digesting (param_sub_key (codes "Svc")) (dll_entry hive digesting m) u
    × Holds hive digesting (param_sub_key (codes "Svc")) (unload_entry hive digesting m) u
    × Holds hive digesting (param_sub_key (codes "Svc")) (main_entry hive digesting m) u
install-Holds_shared_example =
    install-Holds_shared hive digesting codec digesting_trims digesting-NativeLaws
      digesting-DigestLaws shared_sample shared_sample-IsPlainName start shared shared_installed

shared_uninstalled :
    (uninstall hive digesting (new_manager hive digesting shared_sample) start).0 ≡ ok tt
unfolding uninstall open_service_raise open_service with_scm ensure_scm require error_checker
    uninstall_opened stop_service new_manager unregister_svchost delete_registry_tree
    delete_registry_value delete_tree_at delete_value_at decompose_registry_path decompose_entry
    find_first_of check_registry_error codes eq_text take_while
shared_uninstalled = refl

uninstall-Removed_example :
    let u = (uninstall hive digesting (new_manager hive digesting shared_sample) start).1 in
    Removed hive digesting digesting_trims digesting-DigestLaws shared_sample
      shared_sample-IsPlainName
      (codes "CoInitializeSecurityParam")
      u
    ⊎ WarnedAndClosed hive digesting digesting_trims digesting-DigestLaws shared_sample
        shared_sample-IsPlainName u
uninstall-Removed_example =
    uninstall-Removed hive digesting digesting_trims digesting-DigestLaws shared_sample
      shared_sample-IsPlainName (codes "CoInitializeSecurityParam") start shared shared_uninstalled
