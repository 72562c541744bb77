-- ===== src/Process/Views.antt =====
-- What each method of src/service_process.cpp reports.
use svc_hostify.Base.{Text, ℕ, ◌==◌, ◌≡◌, refl, Bool, false, arith}
use svc_hostify.Effects.{
  Os, Result, ok, err, undefined, continue, Error, pure, stopped, start_pending, stop_pending,
  running,
}
use svc_hostify.Essence.{Essence}
use svc_hostify.Worker.{ServiceWorker}
use svc_hostify.Process.{
  ServiceProcess, Hosted, the_process, keep_worker, throw_nested, register_callback,
  pending_wait_hint, service_control_stop, set_status, report_status, report_stopped,
  register_control_handler, run_business, start_worker, begin_start, report_running, stop, try_stop,
  service_ctrl_handler,
}
use svc_hostify.Process.Reports.{
  view, announce, Silent-on_start, Silent-on_stop, Silent-run, Quiet, Quiet-bind, Quiet-catch,
  Quiet-on_world, Quiet-the_worker,
}

pub view-report_stopped : (s : Hosted) → view (report_stopped s).1 ≡ announce stopped 0 (view s)
unfolding report_stopped report_status set_status
view-report_stopped s = refl

Quiet-keep_worker : (w : ServiceWorker) → Quiet (keep_worker w)
Quiet-keep_worker w = record { apply = λ s. refl }

Quiet-throw_nested : (t : Text) (e : Error) → Quiet (throw_nested t e)
Quiet-throw_nested t e = record { apply = λ s. refl }

Quiet-the_process : Quiet the_process
Quiet-the_process = record { apply = λ s. refl }

Quiet-register_callback : (p : ServiceProcess) → Quiet (register_callback p)
Quiet-register_callback p = record { apply = λ s. ground arith }

Quiet-done : Quiet {A = Unit {0}} (pure tt)
Quiet-done = record { apply = λ s. refl }

module _ (os : Os) where
  Quiet-register_control_handler : (force : Bool) → Quiet (register_control_handler os force)
  unfolding register_control_handler
  Quiet-register_control_handler force = record { apply = λ s. ground arith }

  module _ (essence : Essence) where
    pub Quiet-start_worker : Quiet (start_worker os essence)
    unfolding start_worker
    Quiet-start_worker =
        Quiet-catch _ _
          (Quiet-bind _ _ Quiet-the_worker λ worker.
            Quiet-bind _ _ (Quiet-on_world _ (Silent-on_start os essence worker)) Quiet-keep_worker)
          (Quiet-throw_nested _)

    pub Quiet-run_business : Quiet (run_business os essence)
    unfolding run_business
    Quiet-run_business =
        Quiet-catch _ _
          (Quiet-bind _ _ Quiet-the_process λ p. Quiet-bind _ _ (Quiet-register_callback p) λ u.
            Quiet-bind _ _ Quiet-the_worker λ worker.
              Quiet-bind _ _ (Quiet-on_world _ (Silent-run os essence worker)) Quiet-keep_worker)
          (Quiet-throw_nested _)

    pub view-report_running :
        (s : Hosted) → view (report_running os essence s).1 ≡ announce running 0 (view s)
    unfolding report_running report_status set_status
    view-report_running s = refl

    pub view-begin_start :
        (s : Hosted)
        → view (begin_start os essence s).1 ≡ announce start_pending pending_wait_hint (view s)
    unfolding begin_start register_control_handler report_status set_status
    view-begin_start s = refl

    Quiet-try_stop : Quiet (try_stop os essence)
    unfolding try_stop
    Quiet-try_stop =
        Quiet-catch _ _
          (Quiet-bind _ _ Quiet-the_worker
            λ worker. Quiet-on_world _ (Silent-on_stop os essence worker))
          (λ e. Quiet-done)

    pub view-stop :
        (s : Hosted) → view (stop os essence s).1 ≡ announce stop_pending pending_wait_hint (view s)
    unfolding stop report_status set_status
    view-stop s = Quiet-try_stop.apply _

    pub view-service_ctrl_handler :
        (s : Hosted)
        → view (service_ctrl_handler os essence service_control_stop s).1
          ≡ announce stop_pending pending_wait_hint (view s)
    unfolding service_ctrl_handler stop report_status set_status
    view-service_ctrl_handler s = handled (stop os essence s) (view-stop s)
      where
        handled :
            (p : Result (Unit {0}) × Hosted)
            → view p.1 ≡ announce stop_pending pending_wait_hint (view s)
            → view (continue {B = ℕ} (λ u. pure 0) p).1
              ≡ announce stop_pending pending_wait_hint (view s)
        handled (ok a, t) h = h
        handled (err e, t) h = h
        handled (undefined, t) h = h

    pub service_ctrl_handler-other :
        (control : ℕ) (s : Hosted)
        → (control == service_control_stop) ≡ false
        → service_ctrl_handler os essence control s ≡ (ok 0, s)
    unfolding service_ctrl_handler
    service_ctrl_handler-other control s h = rw (h, service_ctrl_handler) refl
