-- ===== src/ConfigSetup.antt =====
-- src/config_setup.cpp: the logger's settings, the working directory and the DLL directories.
pub mod Logger
pub mod Setup
pub mod Streams
use svc_hostify.Base.{
  Text, codes, ℕ, ◌*◌, ◌==◌, Bool, true, false, not, ◌&&◌, ◌||◌, Option, none, some, List, [], ◌∷◌,
  ◌++◌, ltb, is_empty,
}
use svc_hostify.Effects.{
  Os, World, Action, Result, ◌>>=◌, ◌>>◌, Error, formatted, foreign, throw, throw_if, pure, deref,
  when, call, modify, gets, catch, ask_flag, ask_number, ask_buffer, Call, create_directories,
  set_current_path, read_file, open_log_file, log, flush_log, info, Sink, StdioToSinkDispatcher, ok,
  undefined,
}
use svc_hostify.FileSize.{
  parse_file_size, truncate_file_size_string, Defined, defined, undefined as undefined_size,
}
use svc_hostify.Config.{
  ServiceConfig, LoggerConfig, defaults, value_or, to_config, or_foreign, Codec,
}
use svc_hostify.Essence.{Essence}
use svc_hostify.Util.{get_executing_directory, add_dll_directories}

abbrev pub valid_file_size_range : ℕ × ℕ
valid_file_size_range = (1024, 1024 * 1024 * 1024 * 2)

abbrev pub valid_file_count_range : ℕ × ℕ
valid_file_count_range = (1, 32)

-- The result of `parse_logger_config`, its local `struct context`.
pub record LoggerContext : Type 0 where
  pub base_path : Text
  pub max_size : ℕ
  pub max_files : ℕ

-- Reading an empty optional inside `parse_file_size`.
abbrev pub lift_size : {S : Type 0} → Defined (Option ℕ) → Action S (Option ℕ)
lift_size (defined size) = pure size
lift_size undefined_size = deref none

-- `stdio_to_sink_dispatcher`'s constructor and methods.
abbrev pub new_dispatcher : StdioToSinkDispatcher
new_dispatcher = record { sink = none; watching = true }

unfoldable pub set_sink : Sink → StdioToSinkDispatcher → StdioToSinkDispatcher
set_sink sink d = record d { sink = some (record sink { plain_format = true; level = info }) }

abbrev pub log_line : Text → Sink → Sink
log_line message sink = record sink { lines = message ∷ sink.lines }

unfoldable pub process_message : Text → StdioToSinkDispatcher → StdioToSinkDispatcher
process_message message d = elim d.sink [
  | none ↦ d
  | some sink ↦ record d { sink = some (log_line message sink) }
]

-- A rotating sink for the settings; its formatter and level are set by `set_sink`.
abbrev pub rotating_file_sink : LoggerContext → Sink
rotating_file_sink c = record {
  base_path = c.base_path;
  max_size = c.max_size;
  max_files = c.max_files;
  plain_format = false;
  level = info;
  lines = [];
}

module _ (os : Os) (essence : Essence) where
  abbrev executing_directory : Text
  executing_directory = get_executing_directory os essence

  abbrev pub logger_of : ServiceConfig → LoggerConfig
  logger_of config = value_or config.logger (to_config (defaults executing_directory).logger)

  -- Creates the logging directory if the base path contains a parent path.
  unfoldable pub create_logging_directory : Text → Action World (Unit {0})
  create_logging_directory base_path =
      let directory = essence.parent_path base_path in
      when (not (is_empty directory)) (do
        created ← ask_flag os (create_directories directory)
        code ← ask_number os (create_directories directory)
        throw_if (not created && not (code == 0)) (
            formatted (
              codes "Logging Directory"
              ∷ directory
              ∷ codes "Message"
              ∷ codes "Failed to create the logging directory."
              ∷ codes "Internal"
              ∷ os.error_code_message code
              ∷ [])))

  -- The checks of the parsed size; the messages read `*logger_config.max_size`.
  unfoldable pub check_max_size : LoggerConfig → Option ℕ → Action World ℕ
  check_max_size logger_config none = do
    text ← deref logger_config.max_size
    throw (
        formatted (
          codes "Max Size"
          ∷ text
          ∷ codes "Message"
          ∷ codes "Invalid max file size of the logger."
          ∷ []))
  check_max_size logger_config (some max_size) =
      let (min, max) = valid_file_size_range in
      elim (ltb max_size min || ltb max max_size) [
        | true ↦ do
          text ← deref logger_config.max_size
          throw (
              formatted (
                codes "Max Size"
                ∷ text
                ∷ codes "Lower Bound"
                ∷ truncate_file_size_string essence.to_string min
                ∷ codes "Upper Bound"
                ∷ truncate_file_size_string essence.to_string max
                ∷ codes "Message"
                ∷ codes "The max file size was out of range."
                ∷ []))
        | false ↦ pure max_size
      ]

  unfoldable pub check_max_files : LoggerConfig → ℕ → Action World ℕ
  check_max_files logger_config max_files =
      let (min, max) = valid_file_count_range in
      elim (ltb max_files min || ltb max max_files) [
        | true ↦ do
          given ← deref logger_config.max_files
          throw (
              formatted (
                codes "Max Files"
                ∷ essence.to_string given
                ∷ codes "Lower Bound"
                ∷ essence.to_string min
                ∷ codes "Upper Bound"
                ∷ essence.to_string max
                ∷ codes "Message"
                ∷ codes "The max file count was out of range."
                ∷ []))
        | false ↦ pure max_files
      ]

  unfoldable pub parse_logger_config : ServiceConfig → Action World LoggerContext
  parse_logger_config config = do
    let logger_config = logger_of config
    let logger_defaults = (defaults executing_directory).logger
    throw_if (is_empty logger_config.base_path)
        (formatted (codes "The logger base path must be non-empty." ∷ []))
    create_logging_directory logger_config.base_path
    parsed ← lift_size (
        parse_file_size essence.from_string
          (value_or logger_config.max_size logger_defaults.max_size))
    max_size ← check_max_size logger_config parsed
    max_files ←
        check_max_files logger_config (value_or logger_config.max_files logger_defaults.max_files)
    pure
        (record { base_path = logger_config.base_path; max_size = max_size; max_files = max_files })

  -- The dispatcher for the settings; opening the log file may throw.
  unfoldable pub open_dispatcher :
      LoggerContext → Bool → Action World (Option StdioToSinkDispatcher)
  open_dispatcher logger_config true = do
    opened ← ask_flag os (open_log_file logger_config.base_path)
    throw_if (not opened) (foreign (codes "rotating_file_sink"))
    pure (some (set_sink (rotating_file_sink logger_config) new_dispatcher))
  open_dispatcher logger_config false = pure none

  -- The line is printed behind the store of the dispatcher.
  unfoldable pub log_logger : LoggerContext → Action World (Unit {0})
  log_logger logger_config = do
    dumped ←
        or_foreign
          (essence.dump_logger logger_config.base_path logger_config.max_size
            logger_config.max_files)
          (codes "json")
    call (log info (codes "Logger configuration: " ++ dumped))

  unfoldable pub store_logger : LoggerContext → Bool → Action World (Unit {0})
  store_logger logger_config enable_file_logging = do
    instance_of_file ← open_dispatcher logger_config enable_file_logging
    modify (λ w. record w { dispatcher = instance_of_file })
    log_logger logger_config

  unfoldable pub setup_logger : ServiceConfig → Bool → Action World (Unit {0})
  setup_logger config enable_file_logging = do
    logger_config ← parse_logger_config config
    store_logger logger_config enable_file_logging

  module _ (codec : Codec) where
    unfoldable pub setup_config : ServiceConfig → Bool → Action World (Unit {0})
    setup_config config enable_file_logging = do
      let working_directory =
          value_or config.working_directory (defaults executing_directory).working_directory
      call (log info (codes "Working directory: " ++ working_directory))
      code ← ask_number os (set_current_path working_directory)
      throw_if (not (code == 0)) (
          formatted (
            codes "Working Directory"
            ∷ working_directory
            ∷ codes "Message"
            ∷ codes "Failed to set the working directory."
            ∷ codes "Internal"
            ∷ os.error_code_message code
            ∷ []))
      setup_logger config enable_file_logging
      dumped ← or_foreign (codec.dump config) (codes "json")
      call (log info dumped)
      add_dll_directories os essence
          (value_or config.dll_directories [] ++ (defaults executing_directory).dll_directories)

    -- Every exception of reading and parsing becomes one error of this kind.
    unfoldable pub load_config : Text → Action World ServiceConfig
    load_config path =
        catch
          (do
            content ← ask_buffer os (read_file path)
            opened ← ask_flag os (read_file path)
            throw_if (not opened) (foreign (codes "open_read"))
            elim (codec.from_json content) [
              | none ↦ throw (foreign (codes "json"))
              | some config ↦ pure config
            ])
          (λ e. throw (
            formatted (
              codes "Message"
              ∷ codes "Failed to parse the configuration file."
              ∷ codes "Internal"
              ∷ [])))

    unfoldable pub load_config_and_setup : Text → Bool → Action World ServiceConfig
    load_config_and_setup path enable_file_logging = do
      config ← load_config path
      setup_config config enable_file_logging
      pure config

-- The deleter of `get_logger_shutdown_token()`.
unfoldable pub shutdown_logger : Action World (Unit {0})
shutdown_logger = do call flush_log; modify (λ w. record w { dispatcher = none })
