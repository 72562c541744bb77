-- ===== src/Tests/ConfigSetup.antt =====
-- The logger's settings, from a configuration with and without a logger.
use svc_hostify.Base.{codes, eq_text, ◌≡◌, ◌≢◌, refl, some, [], ◌∷◌, take_while, drop_while, true}
use svc_hostify.FileSize.{parse_file_size, starts_with_icase, undefined as undefined_size}
use svc_hostify.Effects.{info, start, ok, undefined}
use svc_hostify.Config.{ServiceConfig, LoggerConfig}
use svc_hostify.ConfigSetup.Streams.{
  message, new_sink, messages, dispatch_all, dispatch_all-messages_append,
}
use svc_hostify.ConfigSetup.{
  new_dispatcher, rotating_file_sink, parse_logger_config, check_max_size, check_max_files,
  create_logging_directory, LoggerContext, setup_config,
}
use svc_hostify.ConfigSetup.Logger.{
  IsValid, parse_logger_config-IsValid, parse_logger_config-ne-undefined,
}
use svc_hostify.ConfigSetup.Setup.{Redirects, setup_config-Redirects}
use svc_hostify.Tests.Platform.{essence, os, from_string, from_string-ReadsDecimal, codec, sample}

abbrev sample_logger : LoggerConfig
sample_logger = record {
  base_path = codes "logs/a.log";
  max_size = some (codes "10 MiB");
  max_files = some 10;
}

abbrev with_logger : ServiceConfig
with_logger = record sample { logger = some sample_logger }

abbrev settings : LoggerContext
settings = record { base_path = codes "logs/a.log"; max_size = 10485760; max_files = 10 }

settings_read : (parse_logger_config os essence with_logger start).0 ≡ ok settings
unfolding parse_logger_config parse_file_size eq_text codes starts_with_icase take_while drop_while
    check_max_size check_max_files create_logging_directory
settings_read = refl

parse_logger_config-IsValid_example : IsValid os essence with_logger settings
parse_logger_config-IsValid_example =
    parse_logger_config-IsValid os essence with_logger start settings_read

sample_size_defined : parse_file_size from_string (codes "50 MiB") ≢ undefined_size
unfolding parse_file_size eq_text codes starts_with_icase take_while drop_while
sample_size_defined = cc

parse_logger_config-ne-undefined_example :
    (parse_logger_config os essence sample start).0 ≢ undefined
parse_logger_config-ne-undefined_example =
    parse_logger_config-ne-undefined os essence sample start from_string-ReadsDecimal
      sample_size_defined

setup_config-Redirects_example :
    Redirects os essence codec sample true start (setup_config os essence codec sample true start)
setup_config-Redirects_example = setup_config-Redirects os essence codec sample true start

-- A line that is read before there is a file, and the lines that follow.
dispatch_all-messages_append_example :
    (dispatch_all
      (message (codes "lost")
        ∷ new_sink (rotating_file_sink settings)
        ∷ messages (codes "a" ∷ codes "b" ∷ []))
      new_dispatcher).sink
    ≡ some (record {
      base_path = codes "logs/a.log";
      max_size = 10485760;
      max_files = 10;
      plain_format = true;
      level = info;
      lines = codes "b" ∷ codes "a" ∷ [];
    })
dispatch_all-messages_append_example =
    dispatch_all-messages_append (message (codes "lost") ∷ []) settings (codes "a" ∷ codes "b" ∷ [])
      new_dispatcher
