-- ===== src/System.antt =====
-- src/util.cpp: error messages, the paths of the modules and of the system directory, the parsing
-- of a command line, and the console. A `std::wstring` that a call fills has as many elements as it
-- was made with, and is then resized to the number that the call returns.
pub mod Paths
use svc_hostify.Base.{
  Text, codes, ℕ, zero, suc, ◌-◌, Option, none, some, List, [], ◌∷◌, ◌++◌, take, length, map,
}
use svc_hostify.Effects.{
  Os, World, Action, ◌>>=◌, ◌>>◌, pure, ask_number, call, Filled, ModuleOf, of_process, of_address,
  Stream, standard_output, standard_error, standard_input, get_last_error as get_last_error_call,
  alloc_console, reopen_stream, set_unbuffered,
}
use svc_hostify.Essence.{Essence}

abbrev pub max_path : ℕ
max_path = 260

abbrev pub zeros : ℕ → Text
zeros zero = []
zeros (suc n) = 0 ∷ zeros n

-- `std::wstring::resize`
abbrev pub resize : ℕ → Text → Text
resize count s = take count s ++ zeros (count - length s)

-- A text of `max_path` elements that a call has filled, resized to what the call returns.
abbrev pub filled_text : Filled → Text
filled_text f = resize f.count (take max_path f.buffer)

module _ (os : Os) (essence : Essence) where
  -- The text of a handle that is null, and of a module.
  unfoldable pub module_path : Option ℕ → Text
  module_path none = []
  module_path (some handle) =
      essence.to_utf8_string (filled_text (os.module_file_name handle max_path))

  unfoldable pub get_module_path : ModuleOf → Text
  unfolding module_path
  get_module_path flags = module_path (os.module_handle flags)

  unfoldable pub get_system_error : ℕ → Text
  get_system_error code = essence.to_utf8_string (os.format_message code)

  unfoldable pub get_last_error : Action World Text
  unfolding get_system_error
  get_last_error = do code ← ask_number os get_last_error_call; pure (get_system_error code)

  unfoldable pub get_system_directory : Text
  get_system_directory = essence.to_utf8_string (filled_text (os.system_directory_name max_path))

  abbrev pub get_process_path : Text
  get_process_path = get_module_path of_process

  abbrev pub get_executing_path : Text
  get_executing_path = get_module_path of_address

  -- The arguments that `CommandLineToArgvW` returns, and none where it fails.
  unfoldable pub parse_command_line : Text → List Text
  parse_command_line command_line = elim (os.command_line_arguments command_line) [
    | none ↦ []
    | some argv ↦ map essence.to_utf8_string argv
  ]

unfoldable pub allocate_console_and_redirect : Action World (Unit {0})
allocate_console_and_redirect = do
  call alloc_console
  call (reopen_stream (codes "CONOUT$") (codes "w") standard_output)
  call (reopen_stream (codes "CONOUT$") (codes "w") standard_error)
  call (reopen_stream (codes "CONIN$") (codes "r") standard_input)
  call (set_unbuffered standard_output)
  call (set_unbuffered standard_error)
