-- ===== src/Tests/Instance.antt =====
-- The static process object, and the lifetime of a worker that runs a process.
use svc_hostify.Base.{arith, codes, ◌≡◌, none, some, [], ◌∷◌, true}
use svc_hostify.Effects.{
  Os, start, ok, flush_log, log, info, error, set_service_status, output_debug_string,
  get_session_id,
}
use svc_hostify.Process.{SvchostGlobalData, Hosted, new_process}
use svc_hostify.Process.Instance.{Library, instance_of, forward, svchost_push_service_globals}
use svc_hostify.Entry.{service_main}
use svc_hostify.Entry.Session.{stopped_status, service_main-wrong_session}
use svc_hostify.Entry.Globals.{push-service_main}
use svc_hostify.Worker.Kernel.{starts, runs, stops, lifetime, AllClosed, lifetime-AllClosed}
use svc_hostify.Tests.Platform.{os, essence, codec, sample}

abbrev library : Library
library = record { process = none; world = start }

abbrev pushed : SvchostGlobalData
pushed = record { register_stop_callback = true }

push-service_main_example :
    let u = (svchost_push_service_globals os essence (some pushed) library).1 in
    let v = (forward os essence (service_main os essence codec (codes "Svc")) u).1 in
    ((instance_of os essence u.process).global_data ≡ some pushed)
    × ((instance_of os essence v.process).global_data ≡ some pushed)
push-service_main_example = push-service_main os essence codec (some pushed) (codes "Svc") library

-- A platform whose processes have the handles 8 and 9.
abbrev spawning : Os
spawning = record os { buffer = λ h c. 8 ∷ 9 ∷ [] }

lifetime-AllClosed_example :
    AllClosed spawning essence 9 start
      (lifetime spawning essence sample (starts ∷ stops ∷ runs ∷ starts ∷ []) start).1
lifetime-AllClosed_example =
    lifetime-AllClosed spawning essence 9 sample (starts ∷ stops ∷ runs ∷ starts ∷ []) start

-- A platform whose processes run in the session 1.
abbrev interactive : Os
interactive = record os { size = λ h c. 1 }

abbrev hosted : Hosted
hosted = record { process = new_process interactive essence; world = start }

service_main-wrong_session_example :
    ((service_main interactive essence codec (codes "Svc") hosted).0 ≡ ok tt)
    × ((service_main interactive essence codec (codes "Svc") hosted).1.world.history
        ≡ flush_log
          ∷ log info (codes "The service has stopped.")
          ∷ set_service_status none (stopped_status hosted)
          ∷ output_debug_string []
          ∷ log error []
          ∷ get_session_id
          ∷ [])
service_main-wrong_session_example =
    service_main-wrong_session interactive essence codec (codes "Svc") hosted (omega arith)
