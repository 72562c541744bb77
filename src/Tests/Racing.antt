-- ===== src/Tests/Racing.antt =====
-- Two threads that nothing orders: those of a worker of a process, and those that report.
use svc_hostify.Base.{◌≡◌, ◌≤◌, ◌+◌, refl, some, List, [], ◌∷◌}
use svc_hostify.Effects.{start}
use svc_hostify.Worker.Executable.{ExecutableServiceWorker}
use svc_hostify.Worker.Kernel.{closed, owned}
use svc_hostify.Worker.Racing.{
  Racer, run_racer, stop_racer, racing, race, race_turn, run_turn, stop_turn, late_calls,
}
use svc_hostify.Worker.Racing.Handles.{race-late_calls}
use svc_hostify.Process.{new_process}
use svc_hostify.Process.Torn.{Shared}
use svc_hostify.Tests.Platform.{sample, os, essence}

abbrev worker : ExecutableServiceWorker
worker = record { config = sample; wrapped_thread = some 9; wrapped_process = some 8 }

-- `run` closes the handles between the read of `on_stop` and its call.
abbrev late_schedule : List Racer
late_schedule =
    stop_racer ∷ stop_racer ∷ run_racer ∷ run_racer ∷ run_racer ∷ stop_racer ∷ stop_racer ∷ []

late_schedule-is_late : late_calls (race late_schedule (racing worker start)).world.history ≡ 1
unfolding race race_turn run_turn stop_turn
late_schedule-is_late = refl

race-late_calls_example :
    let r = race late_schedule (racing worker start) in
    (late_calls r.world.history ≤ 1)
    × (closed 9 r.world.history + owned 9 r.worker ≡ closed 9 start.history + owned 9 worker)
race-late_calls_example =
    race-late_calls 9 8 refl worker start refl refl refl refl refl 9 late_schedule

abbrev unreported : Shared
unreported = record { process = new_process os essence; made = [] }
