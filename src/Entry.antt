-- ===== src/Entry.antt =====
-- src/main.cpp: the functions that the DLL exports. `invokeW` is `invoke`, given the command line and
-- the argument parser; `ServiceMain` is `service_main`, given its first argument.
pub mod Outcome
pub mod Returns
pub mod Loader
pub mod Globals
pub mod Session
use svc_hostify.Base.{
  Text, codes, ℕ, ◌==◌, ◌^◌, leb, Bool, true, false, not, Option, none, some, [], ◌∷◌,
}
use svc_hostify.Effects.{
  Os, World, Action, ok, err, undefined, Result, ◌>>=◌, ◌>>◌, Error, formatted, throw, throw_if,
  pure, catch, finally, call, log, info, error, output_debug_string, ask_number, co_initialize,
  co_uninitialize, set_locale, run_command, run_at_exit, set_default_dll_directories,
}
use svc_hostify.Config.{ServiceConfig, Codec}
use svc_hostify.Essence.{Essence}
use svc_hostify.ConfigSetup.{load_config_and_setup, shutdown_logger}
use svc_hostify.Util.{current_session_id}
use svc_hostify.System.{parse_command_line, allocate_console_and_redirect}
use svc_hostify.Options.{StartupInfo, Parsed, Cli, startup_parser}
use svc_hostify.Manager.{new_manager, install, uninstall}
use svc_hostify.Worker.{
  ServiceWorker, make_service_worker, make_service_worker_from_registry, destroy,
}
use svc_hostify.Process.{Hosted, on_world, init, run, report_stopped}

-- Why the loader calls `DllMain`; another number is answered by `TRUE` alone.
pub data Reason : Type 0 where
  process_attach thread_attach thread_detach process_detach : Reason

-- `DllMain`. Three of the labels share one body.
unfoldable pub dll_main : Os → Reason → Action World Bool
dll_main os process_attach = do
  hr ← ask_number os co_initialize
  elim (leb (2 ^ 31) hr) [
    | true ↦ do call (output_debug_string (codes "CoInitializeEx failed.")); pure false
    | false ↦ do
      allocate_console_and_redirect
      call set_locale
      call (run_command (codes "chcp 65001"))
      call set_default_dll_directories
      pure true
  ]
dll_main os thread_attach = do call co_uninitialize; pure true
dll_main os thread_detach = do call co_uninitialize; pure true
dll_main os process_detach = do call co_uninitialize; pure true

module _ (os : Os) (essence : Essence) (codec : Codec) where
  unfoldable pub make_config : StartupInfo → Action World ServiceConfig
  make_config startup = load_config_and_setup os essence codec startup.config_file false

  -- The worker is made and destroyed before anything is installed.
  unfoldable pub install_checked : ServiceConfig → ServiceWorker → Action World (Unit {0})
  install_checked config worker = do
    destroy os essence worker
    install os essence codec (new_manager os essence config)
    call (log info (codes "Service successfully installed."))

  unfoldable pub check_and_install : ServiceConfig → Action World (Unit {0})
  check_and_install config = do
    worker ← make_service_worker os essence config
    install_checked config worker

  unfoldable pub install_service : StartupInfo → Action World (Unit {0})
  install_service startup = do config ← make_config startup; check_and_install config

  unfoldable pub uninstall_service : StartupInfo → Action World (Unit {0})
  uninstall_service startup = do
    config ← make_config startup
    uninstall os essence (new_manager os essence config)
    call (log info (codes "Service successfully uninstalled."))

  -- The two tests in their order.
  unfoldable pub dispatch : StartupInfo → Action World (Unit {0})
  dispatch startup = elim startup.install [
    | true ↦ install_service startup
    | false ↦ elim startup.uninstall [ true ↦ uninstall_service startup | false ↦ pure tt ]
  ]

  -- The handler of `invokeW`.
  abbrev pub log_error : Error → Action World (Unit {0})
  log_error ex = call (log error (essence.what ex))

  -- Nothing where the parser has failed or finds no model.
  unfoldable pub dispatch_parsed : Parsed → Action World (Unit {0})
  dispatch_parsed parsed = elim parsed.succeeded [
    | true ↦ elim parsed.model [ none ↦ pure tt | some startup ↦ dispatch startup ]
    | false ↦ pure tt
  ]

  unfoldable pub invoke_arguments : Cli → Text → Action World (Unit {0})
  invoke_arguments cli command_line = do
    call (run_at_exit (codes "pause"))
    parsed ← cli.parse (startup_parser os) (parse_command_line os essence command_line)
    dispatch_parsed parsed

  unfoldable pub invoke : Cli → Text → Action World (Unit {0})
  invoke cli command_line = catch (invoke_arguments cli command_line) log_error

  unfoldable pub host_service : Text → Action Hosted (Unit {0})
  host_service service_name = do
    id ← on_world (current_session_id os)
    throw_if (not (id == 0))
        (formatted (codes "The program can only be running in service mode." ∷ []))
    init os service_name
    worker ← on_world (make_service_worker_from_registry os essence codec service_name)
    run os essence worker

  -- The handler of `ServiceMain`.
  unfoldable pub give_up : Error → Action Hosted (Unit {0})
  give_up ex = do
    on_world (call (log error (essence.what ex)))
    on_world (call (output_debug_string (essence.to_native_string (essence.what ex))))
    report_stopped

  -- The token shuts the logger down at the end.
  unfoldable pub service_main : Text → Action Hosted (Unit {0})
  service_main service_name =
      finally (catch (host_service service_name) give_up) (λ s. (on_world shutdown_logger s).1)

  unfoldable pub service : Text → Action Hosted (Unit {0})
  service command_line = do
    on_world (call (output_debug_string command_line))
    service_main command_line
