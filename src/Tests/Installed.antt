-- ===== src/Tests/Installed.antt =====
-- A DLL that is installed, loaded and hosted.
use svc_hostify.Base.{
  false, codes, eq_text, take_while, drop_while, ◌≡◌, refl, some, List, [], ◌∷◌, arith,
}
use svc_hostify.Effects.{World, ok, start as start_world}
use svc_hostify.Config.{
  ServiceConfig, Codec, pure_c, to_msgpack_base64, from_msgpack_base64, error_checker,
}
use svc_hostify.FileSize.{parse_file_size, starts_with_icase}
use svc_hostify.ConfigSetup.{
  setup_config, setup_logger, store_logger, open_dispatcher, log_logger, parse_logger_config,
  create_logging_directory, check_max_size, check_max_files, set_sink, process_message,
}
use svc_hostify.Util.{add_dll_directories}
use svc_hostify.Registry.{
  set_registry_string, set_registry, decompose_registry_path, decompose_entry, find_first_of,
  store_value, check_registry_error, get_registry_string, get_registry, query_registry,
}
use svc_hostify.Registry.Wide.{wide_bytes, wide_of_bytes}
use svc_hostify.Manager.{
  new_manager, install, with_scm, ensure_scm, require, create_request, install_created,
  set_description,
}
use svc_hostify.Worker.{
  ServiceWorker, pure_c_worker, make_worker_of, make_service_worker, make_configured, make_decoded,
  make_service_worker_from_registry,
}
use svc_hostify.Worker.PureC as PureC
use svc_hostify.Worker.PureC.{PureCServiceWorker}
use svc_hostify.Worker.Load.{Transcribes}
use svc_hostify.Process.{Hosted, new_process}
use svc_hostify.Hosting.{Party, starter, hosted_run, stop_request, hosting_of, take_steps}
use svc_hostify.Hosting.Turns.{EndsAs, has_in_order, whole_life}
use svc_hostify.Hosting.Installed.{Exports, install-EndsAs}
use svc_hostify.Hosting.Calls.{argv_of}
use svc_hostify.Tests.Platform.{essence, sample, codec, to_string}
use svc_hostify.Tests.Registry.{trims, hive, hive-ReadsTexts}

abbrev library : ServiceConfig
library = record sample { worker_type = pure_c; context = codes "C:\\svc.dll" }

abbrev library_codec : Codec
library_codec = record codec { from_msgpack = λ b. some (record library { name = b }) }

library-Transcribes : Transcribes essence library_codec library
unfolding codes to_msgpack_base64
library-Transcribes = record {
  plain = (omega arith, omega arith);
  name_back = refl;
  text_back = refl;
  text_plain = omega arith;
  reads_back = record { msgpack = refl; base64 = refl };
}

library_installed :
    (install hive essence library_codec (new_manager hive essence library) start_world).0 ≡ ok tt
unfolding install with_scm ensure_scm require error_checker create_request install_created
    set_description new_manager set_registry_string set_registry decompose_registry_path
    decompose_entry find_first_of store_value check_registry_error codes eq_text take_while
    to_msgpack_base64 wide_bytes
library_installed = refl

abbrev worker : ServiceWorker
worker =
    pure_c_worker
      (record { config = library; module_dll = 7; run_function = 8; on_stop_function = 9 })

abbrev registered : World
registered = (install hive essence library_codec (new_manager hive essence library) start_world).1

abbrev loaded : World
loaded = (make_service_worker_from_registry hive essence library_codec (codes "Svc") registered).1

library_loaded :
    make_service_worker_from_registry hive essence library_codec (codes "Svc") registered
    ≡ (ok worker, loaded)
unfolding make_service_worker_from_registry get_registry_string get_registry query_registry
    check_registry_error decompose_registry_path decompose_entry find_first_of make_decoded
    from_msgpack_base64 make_configured setup_config make_service_worker make_worker_of PureC.make
    PureC.find_function PureC.load_module add_dll_directories setup_logger store_logger
    open_dispatcher log_logger parse_logger_config create_logging_directory parse_file_size
    check_max_size check_max_files codes eq_text take_while drop_while starts_with_icase set_sink
    process_message wide_of_bytes install with_scm ensure_scm require error_checker create_request
    install_created set_description new_manager set_registry_string set_registry store_value
    to_msgpack_base64 wide_bytes
library_loaded = refl

abbrev hosted : Hosted
hosted = record {
  process = record (new_process hive essence) { standalone = false; worker = some worker };
  world = loaded;
}

abbrev schedule : List Party
schedule =
    starter ∷ starter ∷ starter ∷ starter ∷ hosted_run ∷ hosted_run ∷ hosted_run ∷ stop_request
    ∷ hosted_run ∷ starter ∷ starter ∷ []

hive-Exports : Exports hive library.context 8 9
unfolding eq_text codes
hive-Exports = record {
  dll = 7;
  loads = λ h. refl;
  finds_run = λ h. refl;
  finds_on_stop = λ h. refl;
}

install-EndsAs_example :
    (w : PureCServiceWorker) × (worker ≡ pure_c_worker w)
    × (w.config ≡ library)
    × EndsAs
        (argv_of w)
        (has_in_order whole_life schedule)
        (take_steps hive essence to_string 8 9 schedule (hosting_of hosted))
install-EndsAs_example =
    install-EndsAs hive essence trims library_codec hive-ReadsTexts to_string 8 9 library
      start_world hive-Exports library-Transcribes refl library_installed worker loaded
      library_loaded schedule hosted refl
