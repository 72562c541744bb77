-- ===== src/Options.antt =====
-- src/main.cpp: the options of `invokeW`, and src/startup_info.ixx. The argument parser of the
-- essence library is a parameter: a function of the options, of its two callbacks and of the
-- arguments, which may call back in any order.
use svc_hostify.Base.{Text, codes, Bool, false, Option, List, [], ◌∷◌, if◌then◌else◌}
use svc_hostify.Effects.{
  Os, World, Action, ◌>>=◌, pure, ask_flag, call, is_regular_file, log, error, print_line,
}

-- `startup_info`
pub record StartupInfo : Type 0 where
  pub install : Bool
  pub uninstall : Bool
  pub config_file : Text

pub record ValidationResult : Type 0 where
  pub success : Bool
  pub error : Text

-- `option<bool>` and `option<std::string>`
pub data ValueType : Type 0 where
  bool_value string_value : ValueType

-- An option; an option that has no validator keeps every result.
pub record CliOption : Type 0 where
  pub value_type : ValueType
  pub bound_name : Text
  pub description : Text
  pub aliases : List Text
  pub on_validation : Text → ValidationResult → Action World ValidationResult

-- `arg_parser`, before it parses.
pub record ArgParser : Type 0 where
  pub options : List CliOption
  pub on_output : Text → Action World (Unit {0})
  pub on_error : Text → Action World (Unit {0})

-- What the parser has made of the arguments: whether it converts to `true`, and its model.
pub record Parsed : Type 0 where
  pub succeeded : Bool
  pub model : Option StartupInfo

-- `arg_parser::parse` and `to_model<startup_info>`
pub record Cli : Type 0 where
  pub parse : ArgParser → List Text → Action World Parsed

abbrev pub opt_install : CliOption
opt_install = record {
  value_type = bool_value;
  bound_name = codes "install";
  description = codes "Installs the service.";
  aliases = codes "i" ∷ [];
  on_validation = λ value result. pure result;
}

abbrev pub opt_uninstall : CliOption
opt_uninstall = record {
  value_type = bool_value;
  bound_name = codes "uninstall";
  description = codes "Uninstalls the service.";
  aliases = codes "u" ∷ [];
  on_validation = λ value result. pure result;
}

-- The parser's `on_output`: a line on the standard output.
abbrev pub write_message : Text → Action World (Unit {0})
write_message message = call (print_line message)

abbrev pub report_error : Text → Action World (Unit {0})
report_error message = call (log error message)

module _ (os : Os) where
  -- The validator of the configuration file.
  unfoldable pub validate_config_file : Text → ValidationResult → Action World ValidationResult
  validate_config_file value result = do
    regular ← ask_flag os (is_regular_file value)
    pure (
        if regular then result else record {
          success = false;
          error = codes "The configuration file path must be a regular file.";
        })

  abbrev pub opt_config_file : CliOption
  opt_config_file = record {
    value_type = string_value;
    bound_name = codes "config_file";
    description = codes "Sets the configuration file path.";
    aliases = codes "c" ∷ [];
    on_validation = validate_config_file;
  }

  -- The parser with its options, in the order in which they are added.
  abbrev pub startup_parser : ArgParser
  startup_parser = record {
    options = opt_install ∷ opt_uninstall ∷ opt_config_file ∷ [];
    on_output = write_message;
    on_error = report_error;
  }
