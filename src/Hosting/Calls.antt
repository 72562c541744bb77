-- ===== src/Hosting/Calls.antt =====
-- The calls of the hosted functions, by the process of src/service_process.cpp with the worker of
-- src/workers/pure_c_service_worker.cpp.
use svc_hostify.Base.{Text, codes, ◌≡◌, none, some, List, [], arith, if◌then◌else◌}
use svc_hostify.Effects.{
  Os, World, ok, after, log, info, stop_pending, call_run, call_on_stop, register_stop_callback,
}
use svc_hostify.Essence.{Essence}
use svc_hostify.Worker as W
use svc_hostify.Worker.{pure_c_worker}
use svc_hostify.Worker.PureC as PureC
use svc_hostify.Worker.PureC.{PureCServiceWorker, make_argv}
use svc_hostify.Process.{
  Hosted, pending_wait_hint, service_control_stop, stop_callback_of, report_status, set_status,
  start_worker, run_business, service_ctrl_handler, stop, try_stop,
}

-- `argv`, as the worker passes it on.
abbrev pub argv_of : PureCServiceWorker → List Text
argv_of worker = elim worker.config.arguments [ some arguments ↦ make_argv arguments | none ↦ [] ]

module _ (os : Os) (essence : Essence) (w : PureCServiceWorker) where
  pub start_worker-pure_c :
      (s : Hosted)
      → s.process.worker ≡ some (pure_c_worker w)
      → ((start_worker os essence s).0 ≡ ok tt)
        × ((start_worker os essence s).1.process.worker ≡ some (pure_c_worker w))
  unfolding start_worker W.on_start
  start_worker-pure_c s e = ground arith

  -- The process in the call of `run`.
  abbrev registered : Hosted → World
  registered s =
      if stop_callback_of s.process.global_data
      then after (register_stop_callback s.process.service_name) s.world
      else s.world

  abbrev pub run_called : Hosted → Hosted
  run_called s = record {
    process = record s.process { worker = some (pure_c_worker w) };
    world = after (call_run w.run_function (argv_of w)) (registered s);
  }

  pub run_business-pure_c :
      (s : Hosted)
      → s.process.worker ≡ some (pure_c_worker w)
      → run_business os essence s ≡ (ok tt, run_called s)
  unfolding run_business W.run PureC.run
  run_business-pure_c s e = ground arith

  -- The process behind the control handler, in the call of `on_stop`.
  abbrev pub stop_asked : Hosted → Hosted
  stop_asked s =
      let u = (report_status stop_pending pending_wait_hint s).1 in
      record u {
        world =
            after (call_on_stop w.on_stop_function)
              (after (log info (codes "The service stop is pending.")) u.world);
      }

  pub service_ctrl_handler-pure_c :
      (s : Hosted)
      → s.process.worker ≡ some (pure_c_worker w)
      → (service_ctrl_handler os essence service_control_stop s).1 ≡ stop_asked s
  unfolding service_ctrl_handler stop try_stop report_status set_status W.on_stop PureC.on_stop
  service_ctrl_handler-pure_c s e = ground arith
