-- ===== src/Process/Late.antt =====
-- A stop that src/service_process.cpp handles too late.
use svc_hostify.Base.{ap, ◌≡◌, refl, true, false, some}
use svc_hostify.Effects.{Os, ok, stop_pending}
use svc_hostify.Essence.{Essence}
use svc_hostify.Process.{
  Hosted, service_control_stop, run_business, report_stopped, service_ctrl_handler,
}
use svc_hostify.Process.Reports.{reports}
use svc_hostify.Process.Views.{view-service_ctrl_handler}
use svc_hostify.Process.Threads.{
  Machine, serving, finished, state_of_last, serves, finishes, stops, Reachable, next,
}

-- A stop is sent while the service runs, and `run` returns by itself before the handler is called:
-- the threads can end with a finished service that was last reported as one whose stop is pending.
pub Reachable-late_stop :
    (os : Os) (essence : Essence) (s t : Hosted)
    → Reachable os essence (record { stage = serving; hosted = s; sent = true })
    → run_business os essence s ≡ (ok tt, t)
    → (m : Machine) × Reachable os essence m
      × (m.stage ≡ finished)
      × (m.sent ≡ false)
      × (state_of_last (reports m.hosted.world.history) ≡ some stop_pending)
Reachable-late_stop os essence s t r e =
    let u = (report_stopped t).1 in
    let m : Machine = record {
      stage = finished;
      hosted = (service_ctrl_handler os essence service_control_stop u).1;
      sent = false;
    } in
    (
      m,
      next _ _ (next _ _ (next _ _ r (serves true s t e)) (finishes true t)) (stops finished u),
      refl,
      refl,
      ap (λ v. state_of_last v.made) (view-service_ctrl_handler os essence u),
    )
