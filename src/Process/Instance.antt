-- ===== src/Process/Instance.antt =====
-- The static process object of src/service_process.cpp, the forwarding methods of
-- `service_process`, and `SvchostPushServiceGlobals`.
pub mod Globals
use svc_hostify.Base.{Text, Option, none, some}
use svc_hostify.Effects.{Os, World, Action, ok, Result}
use svc_hostify.Essence.{Essence}
use svc_hostify.Worker.{ServiceWorker}
use svc_hostify.Process.{
  ServiceProcess, Hosted, SvchostGlobalData, new_process, init as init_process, run as run_process,
  report_stopped as report_process_stopped, set_global_data as set_process_global_data,
}

-- The static of `instance`, which the first call makes, and the world.
pub record Library : Type 0 where
  pub process : Option ServiceProcess
  pub world : World

module _ (os : Os) (essence : Essence) where
  unfoldable pub instance_of : Option ServiceProcess → ServiceProcess
  instance_of none = new_process os essence
  instance_of (some p) = p

  -- The process object and the world that a method finds.
  abbrev pub hosted_by : Library → Hosted
  hosted_by l = record { process = instance_of l.process; world = l.world }

  -- A method of the implementation, called on the instance.
  unfoldable pub forward : {A : Type 0} → Action Hosted A → Action Library A
  unfolding instance_of
  forward m l =
      let (r, s) = m (hosted_by l) in (r, record { process = some s.process; world = s.world })

  abbrev pub init : Text → Action Library (Unit {0})
  init service_name = forward (init_process os service_name)

  abbrev pub run : ServiceWorker → Action Library (Unit {0})
  run worker = forward (run_process os essence worker)

  abbrev pub report_stopped : Action Library (Unit {0})
  report_stopped = forward report_process_stopped

  abbrev pub set_global_data : Option SvchostGlobalData → Action Library (Unit {0})
  set_global_data data_of_host = forward (set_process_global_data data_of_host)

  -- `SvchostPushServiceGlobals`
  unfoldable pub svchost_push_service_globals : Option SvchostGlobalData → Action Library (Unit {0})
  svchost_push_service_globals global_data = set_global_data global_data
