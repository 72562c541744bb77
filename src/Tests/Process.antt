-- ===== src/Tests/Process.antt =====
-- A run of the service by its threads, and the exported functions.
use svc_hostify.Base.{
  false, ℕ, List, codes, eq_text, take_while, drop_while, ◌≡◌, ◌≢◌, refl, true, false, some, [],
  ◌∷◌,
}
use svc_hostify.Effects.{stop_pending, ok, undefined, start as start_world}
use svc_hostify.Config.{from_msgpack_base64}
use svc_hostify.Worker as W
use svc_hostify.Worker.{
  ServiceWorker, pure_c_worker, make_service_worker, make_service_worker_from_registry,
  make_decoded, make_configured,
}
use svc_hostify.Util.{current_session_id, add_dll_directories}
use svc_hostify.Registry.{
  get_registry_string, get_registry, query_registry, check_registry_error, decompose_registry_path,
  decompose_entry, find_first_of,
}
use svc_hostify.Registry.Wide.{wide_of_bytes}
use svc_hostify.FileSize.{parse_file_size, starts_with_icase}
use svc_hostify.ConfigSetup.{
  setup_config, setup_logger, store_logger, open_dispatcher, log_logger, parse_logger_config,
  create_logging_directory, check_max_size, check_max_files, set_sink, process_message,
  shutdown_logger,
}
use svc_hostify.Worker.Executable as Executable
use svc_hostify.Worker.PureC as PureC
use svc_hostify.Process.{
  Hosted, new_process, register_control_handler, report_status, set_status, report_stopped,
  report_running, begin_start, start_worker, start, run_business, run, init, service_ctrl_handler,
  service_control_stop,
}
use svc_hostify.Process.Reports.{reports, view}
use svc_hostify.Process.Threads.{
  finished, state_of_last, Machine, serving, accepts_stop, Reachable, fresh, next, begins, starts,
  announces, sends, stops,
}
use svc_hostify.Process.Safety.{Sound, Reachable-Sound}
use svc_hostify.Process.Late.{Reachable-late_stop}
use svc_hostify.Entry.{host_service, give_up, service_main}
use svc_hostify.Entry.{Reason, process_attach, thread_attach, thread_detach, process_detach}
use svc_hostify.Entry.Loader.{
  loader_calls, count_calls, is_initialize, is_uninitialize, loader_calls-count_calls,
}
use svc_hostify.Entry.Outcome.{EndsStopped, service_main-EndsStopped}
use svc_hostify.Entry.Returns.{service_main-ok}
use mathlib.Core.Path.{subst}
use mathlib.Core.Option.{some-injective}
use svc_hostify.Worker.Totality.{SizeFits, Answerable}
use svc_hostify.Tests.Platform.{essence, os, sample, codec, from_string-ReadsDecimal}

abbrev worker : ServiceWorker
worker =
    pure_c_worker
      (record { config = sample; module_dll = 7; run_function = 7; on_stop_function = 7 })

abbrev before : Hosted
before = record {
  process = record (new_process os essence) { standalone = false; worker = some worker };
  world = start_world;
}

abbrev pending : Hosted
pending = (begin_start os essence before).1

abbrev begun : Hosted
begun = (start_worker os essence pending).1

abbrev announced : Hosted
announced = (report_running os essence begun).1

worker_started : start_worker os essence pending ≡ (ok tt, begun)
unfolding start_worker W.on_start begin_start register_control_handler report_status set_status
worker_started = refl

announced-accepts_stop : accepts_stop (reports announced.world.history) ≡ true
unfolding report_running report_status set_status start_worker W.on_start begin_start
    register_control_handler
announced-accepts_stop = refl

announced-Reachable :
    Reachable os essence (record { stage = serving; hosted = announced; sent = false })
announced-Reachable =
    next _ _
      (next _ _ (next _ _ (fresh before refl refl) (begins false before))
        (starts false pending begun worker_started))
      (announces false begun)

abbrev stopping : Machine
stopping = record {
  stage = serving;
  hosted = (service_ctrl_handler os essence service_control_stop announced).1;
  sent = false;
}

Reachable-Sound_example : Sound (view stopping.hosted)
Reachable-Sound_example = Reachable-Sound os essence stopping (
    next _ _ (next _ _ announced-Reachable (sends serving announced announced-accepts_stop))
      (stops serving announced))

-- A stop is sent, and its handler is not called yet.
abbrev notified : Machine
notified = record { stage = serving; hosted = announced; sent = true }

notified-Reachable : Reachable os essence notified
notified-Reachable = next _ _ announced-Reachable (sends serving announced announced-accepts_stop)

abbrev returned : Hosted
returned = (run_business os essence announced).1

worker_returned : run_business os essence announced ≡ (ok tt, returned)
unfolding run_business W.run PureC.run report_running start_worker W.on_start begin_start
    register_control_handler report_status set_status
worker_returned = refl

Reachable-late_stop_example :
    (m : Machine) × Reachable os essence m
    × (m.stage ≡ finished)
    × (m.sent ≡ false)
    × (state_of_last (reports m.hosted.world.history) ≡ some stop_pending)
Reachable-late_stop_example =
    Reachable-late_stop os essence announced returned notified-Reachable worker_returned

service_main_returns : (service_main os essence codec (codes "Svc") before).0 ≡ ok tt
unfolding service_main host_service give_up current_session_id init register_control_handler
    make_service_worker_from_registry get_registry_string get_registry query_registry
    check_registry_error decompose_registry_path decompose_entry find_first_of make_decoded
    from_msgpack_base64 make_configured setup_config make_service_worker Executable.make run start
    begin_start start_worker report_running run_business report_stopped report_status set_status
    W.on_start W.run Executable.on_start Executable.run shutdown_logger add_dll_directories
    setup_logger store_logger open_dispatcher log_logger parse_logger_config
    create_logging_directory parse_file_size check_max_size check_max_files codes eq_text take_while
    drop_while starts_with_icase set_sink process_message wide_of_bytes
service_main_returns = refl

service_main-defined : (service_main os essence codec (codes "Svc") before).0 ≢ undefined
service_main-defined = rw service_main_returns (λ e. cc)

decoded-SizeFits : (bytes : List ℕ) → SizeFits os essence (record sample { name = bytes })
unfolding parse_file_size eq_text codes starts_with_icase take_while drop_while
decoded-SizeFits bytes = cc

platform_Answerable : Answerable os essence codec (codes "Svc")
platform_Answerable = record {
  reads_decimal = from_string-ReadsDecimal;
  size_fits = λ v w base64 bytes config a d e.
      subst (SizeFits os essence) (some-injective _ _ e) (decoded-SizeFits bytes);
  gives_object = λ h clsid e. cc;
}

service_main-ok_example : (service_main os essence codec (codes "Svc") before).0 ≡ ok tt
service_main-ok_example = service_main-ok os essence codec (codes "Svc") platform_Answerable before

service_main-EndsStopped_example :
    EndsStopped (service_main os essence codec (codes "Svc") before).1
service_main-EndsStopped_example =
    service_main-EndsStopped os essence codec (codes "Svc") before refl service_main-defined

-- A process in which one thread begins and ends.
abbrev reasons : List Reason
reasons = process_attach ∷ thread_attach ∷ thread_detach ∷ process_detach ∷ []

loader_calls-count_calls_example :
    (count_calls is_initialize (loader_calls os reasons start_world).history ≡ 1)
    × (count_calls is_uninitialize (loader_calls os reasons start_world).history ≡ 3)
loader_calls-count_calls_example = loader_calls-count_calls os reasons start_world
