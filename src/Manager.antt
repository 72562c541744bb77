-- ===== src/Manager.antt =====
-- src/service_manager.cpp and src/service_registry_keys.cxx: installing and removing the service.
-- A handle of the service control manager is closed at the end of its scope, however the scope is
-- left; `group_name_` and the keys are built from the service's name.
pub mod Keeps
pub mod Scm
pub mod Handles
pub mod Store
pub mod Keys
pub mod Entries
pub mod Registered
pub mod Apart
pub mod Layout
pub mod Removal
use svc_hostify.Base.{
  Text, codes, ℕ, ◌==◌, Bool, true, false, not, ◌||◌, Option, none, some, List, [], ◌∷◌, ◌++◌,
  if◌then◌else◌,
}
use svc_hostify.Effects.{
  Os, World, Action, ◌>>=◌, ◌>>◌, Error, throw, pure, deref, when, catch, finally, after, call,
  ask_flag, ask_handle, ask_number, Call, ServiceType, own_process, share_process, open_sc_manager,
  create_service, change_description, open_service as open_service_call, control_stop,
  delete_service, close_service_handle, get_last_error, log, warn,
}
use svc_hostify.Config.{ServiceConfig, Codec, value_or, defaults, error_checker, to_msgpack_base64}
use svc_hostify.Essence.{Essence}
use svc_hostify.System.{get_system_directory, get_executing_path}
use svc_hostify.Util.{get_service_account_name, get_executing_directory}
use svc_hostify.Registry.{
  set_registry_multi_string, set_registry_dword, set_registry_string, delete_registry_tree,
  delete_registry_value,
}

abbrev pub svchost_key : Text
svchost_key = codes "HKLM\\SOFTWARE\\Microsoft\\Windows NT\\CurrentVersion\\Svchost"

-- The pattern of the parameters' key, with the service's name in it.
abbrev pub service_param_key_of : Text → Text
service_param_key_of name =
    codes "HKLM\\SYSTEM\\CurrentControlSet\\Services\\" ++ (name ++ codes "\\Parameters")

abbrev pub co_initialize_security_param : Text
co_initialize_security_param = codes "CoInitializeSecurityParam"

abbrev pub service_dll : Text
service_dll = codes "ServiceDll"

abbrev pub service_dll_unload_on_stop : Text
service_dll_unload_on_stop = codes "ServiceDllUnloadOnStop"

abbrev pub service_main : Text
service_main = codes "ServiceMain"

abbrev pub startup_configuration : Text
startup_configuration = codes "StartupConfiguration"

abbrev pub error_service_not_active : ℕ
error_service_not_active = 1062

-- `service_manager::impl`; its checker is `error_checker` of the configuration.
pub record ServiceManager : Type 0 where
  pub config : ServiceConfig
  pub standalone : Bool
  pub service_name : Text
  pub group_name : Text
  pub group_key : Text
  pub service_param_key : Text

-- The destructor of a handle that may be null.
abbrev pub close_handle_if : Option ℕ → World → World
close_handle_if none w = w
close_handle_if (some h) w = after (close_service_handle h) w

abbrev pub is_some : Option ℕ → Bool
is_some none = false
is_some (some h) = true

module _ (os : Os) (essence : Essence) where
  unfoldable pub new_manager : ServiceConfig → ServiceManager
  new_manager config =
      let group_name =
        codes "Broker_" ++ (config.name ++ (codes "_" ++ essence.sha3_224 config.name)) in
      record {
        config = config;
        standalone =
            value_or config.standalone (defaults (get_executing_directory os essence)).standalone;
        service_name = essence.to_native_string config.name;
        group_name = group_name;
        group_key = svchost_key ++ b'\\' ∷ group_name;
        service_param_key = service_param_key_of config.name;
      }

  abbrev pub svchost_executable : Text
  svchost_executable = essence.generic (get_system_directory os essence ++ codes "\\svchost.exe")

  abbrev pub rundll32_executable : Text
  rundll32_executable = essence.generic (get_system_directory os essence ++ codes "\\rundll32.exe")

  abbrev pub service_path : ServiceManager → Text
  service_path m =
      if m.standalone
      then essence.to_native_string (
          rundll32_executable
          ++ (codes " \""
              ++ (get_executing_path os essence
                  ++ (codes "\" service " ++ essence.to_utf8_string m.service_name))))
      else essence.to_native_string (svchost_executable ++ (codes " -k " ++ m.group_name))

  -- A handle that is not null, or the checker's exception.
  unfoldable pub require : ServiceManager → Option ℕ → Text → Action World ℕ
  require m handle message = do
    error_checker os essence m.config (is_some handle) message
    deref handle

  unfoldable pub ensure_scm : ServiceManager → Action World ℕ
  ensure_scm m = do
    handle ← ask_handle os open_sc_manager
    require m handle (codes "Failed open the Service Control Manager.")

  -- A call on `ensure_scm().get()`, whose handle is a temporary of the full expression.
  unfoldable pub with_scm : ServiceManager → (ℕ → Call) → Action World (Option ℕ)
  with_scm m request = do
    scm ← ensure_scm m
    finally (ask_handle os (request scm)) (close_handle_if (some scm))

  unfoldable pub open_service : ServiceManager → List Text → Action World (Option ℕ)
  open_service m desired_access =
      with_scm m (λ scm. open_service_call scm m.service_name desired_access)

  -- `open_service<true>`
  unfoldable pub open_service_raise : ServiceManager → List Text → Action World ℕ
  open_service_raise m desired_access = do
    handle ← open_service m desired_access
    require m handle (codes "Failed to open the service.")

  unfoldable pub register_svchost : ServiceManager → Action World (Unit {0})
  register_svchost m = do
    set_registry_multi_string os essence svchost_key m.group_name (m.config.name ∷ [])
    set_registry_dword os essence m.group_key co_initialize_security_param 1
    set_registry_string os essence m.service_param_key service_dll (get_executing_path os essence)
        true
    set_registry_dword os essence m.service_param_key service_dll_unload_on_stop 1
    set_registry_string os essence m.service_param_key service_main (codes "ServiceMain") false

  unfoldable pub unregister_svchost : ServiceManager → Action World (Unit {0})
  unregister_svchost m =
      catch
        (do
          delete_registry_tree os essence m.group_key
          delete_registry_value os essence svchost_key m.group_name)
        (λ e. call (log warn (essence.what e)))

  unfoldable pub set_description : ServiceManager → ℕ → Option Text → Action World (Unit {0})
  set_description m handle none = pure tt
  set_description m handle (some description) = do
    changed ← ask_flag os (change_description handle (essence.to_native_string description))
    error_checker os essence m.config changed
        (codes "Failed to set the description of the service.")

  module _ (codec : Codec) where
    -- `install` behind `CreateServiceW`, with the handle that it returned.
    unfoldable pub install_created : ServiceManager → Option ℕ → Action World (Unit {0})
    install_created m created = do
      handle ← require m created (codes "Failed to install the service.")
      set_description m handle m.config.description
      when (not m.standalone) (register_svchost m)
      set_registry_string os essence m.service_param_key startup_configuration
          (to_msgpack_base64 codec m.config) false

    unfoldable pub create_request : ServiceManager → ℕ → Call
    create_request m scm =
        create_service scm m.service_name (essence.to_native_string m.config.display_name)
          (if m.standalone then own_process else share_process) (service_path m)
          (get_service_account_name m.config.account_type)

    unfoldable pub install : ServiceManager → Action World (Unit {0})
    install m = do
      handle ← with_scm m (create_request m)
      finally (install_created m handle) (close_handle_if handle)

  -- `ControlService(…) || GetLastError() == ERROR_SERVICE_NOT_ACTIVE`
  unfoldable pub stop_service : ℕ → Action World Bool
  stop_service handle = do
    stopped ← ask_flag os (control_stop handle)
    elim stopped [
      | true ↦ pure true
      | false ↦ do code ← ask_number os get_last_error; pure (code == error_service_not_active)
    ]

  unfoldable pub uninstall_opened : ServiceManager → ℕ → Action World (Unit {0})
  uninstall_opened m handle = do
    inactive ← stop_service handle
    error_checker os essence m.config inactive (codes "Failed to stop the service.")
    deleted ← ask_flag os (delete_service handle)
    error_checker os essence m.config deleted (codes "Failed to uninstall the service.")
    when (not m.standalone) (unregister_svchost m)

  unfoldable pub uninstall : ServiceManager → Action World (Unit {0})
  uninstall m = do
    handle ← open_service_raise m (codes "SERVICE_STOP" ∷ codes "DELETE" ∷ [])
    finally (uninstall_opened m handle) (close_handle_if (some handle))

  unfoldable pub installed : ServiceManager → Action World Bool
  installed m = do
    handle ← open_service m (codes "SERVICE_QUERY_CONFIG" ∷ [])
    finally (pure (is_some handle)) (close_handle_if handle)
