-- ===== src/Effects/Calls.antt =====
-- The calls of Windows, the C++ file system and the loaded modules, and the state of a run.
use svc_hostify.Base.{Text, ℕ, Bool, Option, List}

pub data Hkey : Type 0 where
  classes_root current_config current_user local_machine users : Hkey

pub data RegType : Type 0 where
  reg_sz reg_expand_sz reg_binary reg_dword reg_multi_sz reg_qword : RegType

-- `SERVICE_*` states.
pub data ServiceState : Type 0 where
  stopped start_pending stop_pending running : ServiceState

pub data ServiceType : Type 0 where
  own_process share_process : ServiceType

-- `SERVICE_STATUS`
pub record ServiceStatus : Type 0 where
  pub service_type : ServiceType
  pub current_state : ServiceState
  pub controls_accepted : ℕ
  pub check_point : ℕ
  pub wait_hint : ℕ

pub data Level : Type 0 where
  info warn error : Level

pub data Stream : Type 0 where
  standard_output standard_error standard_input : Stream

-- Which module `GetModuleHandleExW` looks for: that of the process, or that of an address in this
-- one. Neither is counted as a reference.
pub data ModuleOf : Type 0 where
  of_process of_address : ModuleOf

-- The contents of a text after a call that fills it, and the number that the call returns.
pub record Filled : Type 0 where
  pub buffer : Text
  pub count : ℕ

-- A handle is a number, and `Option ℕ` a handle that may be null.
pub data Call : Type 0 where
  -- the C++ file system
  create_directories set_current_path is_regular_file is_directory read_file open_log_file :
      Text → Call
  -- spdlog, and the debugger
  output_debug_string : Text → Call
  log : Level → Text → Call
  flush_log : Call
  -- the process and its COM library
  co_initialize co_uninitialize alloc_console set_locale set_default_dll_directories : Call
  reopen_stream : Text → Text → Stream → Call
  set_unbuffered : Stream → Call
  print_line : Text → Call
  run_command run_at_exit : Text → Call
  -- the loader
  add_dll_directory load_library : Text → Call
  get_proc_address : ℕ → Text → Call
  free_library : ℕ → Call
  -- the registry
  reg_set_key_value : Hkey → Text → Text → RegType → List ℕ → Call
  reg_get_value_size : Hkey → Text → Text → RegType → Call
  reg_get_value : Hkey → Text → Text → RegType → ℕ → Call
  reg_delete_tree : Hkey → Text → Call
  reg_delete_key_value : Hkey → Text → Text → Call
  -- the service control manager
  open_sc_manager : Call
  create_service : ℕ → Text → Text → ServiceType → Text → Text → Call
  change_description : ℕ → Text → Call
  open_service : ℕ → Text → List Text → Call
  control_stop delete_service close_service_handle : ℕ → Call
  get_last_error : Call
  -- the running service
  register_ctrl_handler : Text → Call
  start_ctrl_dispatcher : Text → Call
  set_service_status : Option ℕ → ServiceStatus → Call
  register_stop_callback : Text → Call
  -- processes
  create_process : Text → Option Text → Call
  terminate_process wait_for_process close_handle : ℕ → Call
  post_quit_message : Option ℕ → Call
  get_session_id : Call
  -- the hosted code
  call_run : ℕ → List Text → Call
  call_on_stop : ℕ → Call
  create_instance : Text → Call
  com_run : ℕ → List Text → Call
  safe_array_access safe_array_unaccess : List Text → Call
  com_on_stop : ℕ → Call
  create_java_vm : ℕ → Text → Call
  add_class : ℕ → Text → Call
  add_static_method : ℕ → ℕ → Text → Text → Call
  java_run : ℕ → ℕ → List Text → Call
  java_on_stop : ℕ → ℕ → Call

abbrev pub History : Type 0
History = List Call

-- What the calls answer. Each function takes the calls made before, the newest first.
pub record Os : Type 0 where
  -- a `BOOL` or `bool`
  pub flag : History → Call → Bool
  -- a handle or a pointer, null or not
  pub handle : History → Call → Option ℕ
  -- an error code
  pub number : History → Call → ℕ
  -- a size in bytes, or another number, that is returned through a pointer
  pub size : History → Call → ℕ
  -- a buffer or a text that is filled
  pub buffer : History → Call → List ℕ
  -- What changes nothing, and is answered in the same way every time: `GetModuleHandleExW`, the
  -- texts that `GetModuleFileNameW` and `GetSystemDirectoryW` fill, given their size, the message of
  -- `FormatMessageW`, and `CommandLineToArgvW`.
  pub module_handle : ModuleOf → Option ℕ
  pub module_file_name : ℕ → ℕ → Filled
  pub system_directory_name : ℕ → Filled
  pub format_message : ℕ → Text
  -- `std::error_code::message` and `_com_error::ErrorMessage`
  pub error_code_message : ℕ → Text
  pub com_error_message : ℕ → Text
  pub command_line_arguments : Text → Option (List Text)
