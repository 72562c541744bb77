-- ===== src/Tests/Hosting.antt =====
-- A hosted service from its start to its end, and a worker that does not start.
use svc_hostify.Base.{codes, ◌≡◌, refl, false, some, none, List, [], ◌∷◌, ◌⊎◌}
use svc_hostify.Effects.{
  ok, Os, err, Error, formatted, nested, start as start_world, start_pending, running,
}
use svc_hostify.Worker as W
use svc_hostify.Worker.{ServiceWorker, pure_c_worker, executable_worker}
use svc_hostify.Worker.PureC.{PureCServiceWorker}
use svc_hostify.Worker.Executable as Executable
use svc_hostify.Process.{
  run_business, report_running, Hosted, new_process, pending_wait_hint, service_main, start,
  begin_start, start_worker, register_control_handler, report_status, set_status,
}
use svc_hostify.Process.Reports.{view, announce}
use svc_hostify.Process.Callback.{service_main-err}
use svc_hostify.Hosting.{
  Party, starter, hosted_run, stop_request, host_callback, hosting_of, take_steps,
}
use svc_hostify.Hosting.Turns.{EndsAs, has_in_order, whole_life}
use svc_hostify.Hosting.Calls.{argv_of}
use svc_hostify.Hosting.Life.{take_steps-EndsAs}
use svc_hostify.Tests.Platform.{os, essence, sample, to_string}

abbrev worker : PureCServiceWorker
worker = record { config = sample; module_dll = 7; run_function = 7; on_stop_function = 8 }

abbrev hosted : Hosted
hosted = record {
  process = record (new_process os essence) {
    standalone = false;
    worker = some (pure_c_worker worker);
  };
  world = start_world;
}

-- A stop that comes too early, and one that ends the service.
abbrev schedule : List Party
schedule =
    starter ∷ starter ∷ starter ∷ starter ∷ hosted_run ∷ stop_request ∷ hosted_run ∷ starter
    ∷ hosted_run ∷ stop_request ∷ hosted_run ∷ host_callback ∷ starter ∷ starter ∷ []

take_steps-EndsAs_example :
    EndsAs
      (argv_of worker)
      (has_in_order whole_life schedule)
      (take_steps os essence to_string 7 8 schedule (hosting_of hosted))
take_steps-EndsAs_example =
    take_steps-EndsAs os essence to_string worker 7 8 refl refl schedule hosted refl

-- A platform that creates no process, and a worker that asks for one.
abbrev refusing : Os
refusing = record os { flag = λ h c. false }

abbrev standing : Hosted
standing = record {
  process = record (new_process refusing essence) {
    worker = some (
        executable_worker
          (record { config = sample; wrapped_thread = none; wrapped_process = none }));
  };
  world = start_world;
}

abbrev failure : Error
failure =
    nested (formatted (codes "Failed to start the service." ∷ []))
      (formatted (codes "Failed to create the process." ∷ []))

abbrev left_behind : Hosted
left_behind = (service_main refusing essence standing).1

refused : service_main refusing essence standing ≡ (err failure, left_behind)
unfolding service_main start begin_start start_worker W.on_start Executable.on_start
    register_control_handler report_status set_status
refused = refl

service_main-err_example :
    let begun = (begin_start refusing essence standing).1 in
    ((start_worker refusing essence begun ≡ (err failure, left_behind))
      × (view left_behind ≡ announce start_pending pending_wait_hint (view standing)))
    ⊎ ((v : Hosted) × (start_worker refusing essence begun ≡ (ok tt, v))
        × (run_business refusing essence (report_running refusing essence v).1
            ≡ (err failure, left_behind))
        × (view left_behind
            ≡ announce running 0 (announce start_pending pending_wait_hint (view standing))))
service_main-err_example = service_main-err refusing essence standing left_behind failure refused
