-- ===== src/Process/Instance/Globals.antt =====
-- What svchost.exe hands over stays with the process object while the service runs.
use svc_hostify.Base.{Text, ℕ, Bool, true, false, ◌≡◌, refl, ◌∙◌, some, arith}
use svc_hostify.Effects.{
  Os, World, Action, Result, ok, err, undefined, ◌>>=◌, continue, handle_error, catch, Error,
  ServiceState, call, start_ctrl_dispatcher,
}
use svc_hostify.Essence.{Essence}
use svc_hostify.Worker.{ServiceWorker}
use svc_hostify.Process.{
  Hosted, on_world, set_status, report_status, report_stopped, report_running, begin_start,
  start_worker, run_business, start, run, init, register_control_handler,
}
use svc_hostify.Process.Instance.{}

-- The global data are as before, however the action ends.
pub record Retains {A : Type 0} (m : Action Hosted A) : Type 0 where
  pub apply : (s : Hosted) → (m s).1.process.global_data ≡ s.process.global_data

pub Retains-bind :
    {A B : Type 0} (m : Action Hosted A) (f : A → Action Hosted B)
    → Retains m
    → ((a : A) → Retains (f a))
    → Retains (m >>= f)
Retains-bind {A} {B} m f k l = record { apply = λ s. step s (m s) (k.apply s) }
  where
    step :
        (s : Hosted) (p : Result A × Hosted)
        → p.1.process.global_data ≡ s.process.global_data
        → (continue f p).1.process.global_data ≡ s.process.global_data
    step s (ok a, t) e = (l a).apply t ∙ e
    step s (err x, t) e = e
    step s (undefined, t) e = e

pub Retains-catch :
    {A : Type 0} (m : Action Hosted A) (h : Error → Action Hosted A)
    → Retains m
    → ((e : Error) → Retains (h e))
    → Retains (catch m h)
Retains-catch {A} m h k l = record { apply = λ s. step s (m s) (k.apply s) }
  where
    step :
        (s : Hosted) (p : Result A × Hosted)
        → p.1.process.global_data ≡ s.process.global_data
        → (handle_error h p).1.process.global_data ≡ s.process.global_data
    step s (ok a, t) e = e
    step s (err x, t) e = (l x).apply t ∙ e
    step s (undefined, t) e = e

pub Retains-on_world : {A : Type 0} (m : Action World A) → Retains (on_world m)
Retains-on_world m = record { apply = λ s. refl }

Retains-report_status : (state : ServiceState) (hint : ℕ) → Retains (report_status state hint)
unfolding report_status set_status
Retains-report_status state hint = record { apply = λ s. refl }

pub Retains-report_stopped : Retains report_stopped
unfolding report_stopped report_status set_status
Retains-report_stopped = record { apply = λ s. refl }

module _ (os : Os) where
  pub Retains-init : (name : Text) → Retains (init os name)
  unfolding init register_control_handler
  Retains-init name = record { apply = λ s. ground arith }

  module _ (essence : Essence) where
    Retains-begin_start : Retains (begin_start os essence)
    unfolding begin_start register_control_handler report_status set_status
    Retains-begin_start = record { apply = λ s. refl }

    Retains-run_business : Retains (run_business os essence)
    unfolding run_business
    Retains-run_business = record { apply = λ s. ground arith }

    Retains-start_worker : Retains (start_worker os essence)
    unfolding start_worker
    Retains-start_worker = record { apply = λ s. ground arith }

    Retains-report_running : Retains (report_running os essence)
    unfolding report_running report_status set_status
    Retains-report_running = record { apply = λ s. refl }

    Retains-start : Retains (start os essence)
    unfolding start
    Retains-start = search (
      Retains-bind, Retains-begin_start, Retains-start_worker, Retains-report_running,
      Retains-run_business, Retains-report_stopped,
    )

    pub Retains-run : (worker : ServiceWorker) → Retains (run os essence worker)
    unfolding run
    Retains-run worker = record { apply = λ s. by_kind s.process.standalone (emplace s) }
      where
        emplace : Hosted → Hosted
        emplace s = record s { process = record s.process { worker = some worker } }

        by_kind :
            (b : Bool) (s : Hosted)
            → ((elim b as (λ b. Action Hosted (Unit {0})) [
              | true ↦ on_world (call (start_ctrl_dispatcher s.process.service_name))
              | false ↦ start os essence
            ])
                s).1.process.global_data
              ≡ s.process.global_data
        by_kind true s = refl
        by_kind false s = Retains-start.apply s
