-- ===== src/Process/Threads.antt =====
-- The threads of src/service_process.cpp: the one that starts the service, the control handler,
-- and the callback of the host. A step is the part of a thread between two status reports, so a
-- stop that is handled while the worker runs stands before the step that ends its run.
use svc_hostify.Base.{Option, none, some, ℕ, ◌==◌, ◌≡◌, Bool, true, false, not, ◌&&◌, List, [], ◌∷◌}
use svc_hostify.Effects.{Os, ok, err, Error, ServiceState, stopped, ServiceStatus}
use svc_hostify.Essence.{Essence}
use svc_hostify.Process.{
  Hosted, service_accept_stop, service_control_stop, report_stopped, run_business, start_worker,
  begin_start, report_running, service_ctrl_handler,
}
use svc_hostify.Process.Reports.{reports}

-- Where the thread that starts the service is.
pub data Stage : Type 0 where
  idle starting started serving served failed finished : Stage

-- `sent`: a stop was sent, and its handler is not called yet.
pub record Machine : Type 0 where
  pub stage : Stage
  pub hosted : Hosted
  pub sent : Bool

abbrev pub is_stopped : ServiceState → Bool
is_stopped stopped = true
is_stopped _ = false

-- Whether the service control manager sends a stop: the newest report accepts it, and is not
-- that of a stopped service.
abbrev pub accepts_stop : List ServiceStatus → Bool
accepts_stop [] = false
accepts_stop (s ∷ l) =
    not (is_stopped s.current_state) && s.controls_accepted == service_accept_stop

abbrev pub state_of_last : List ServiceStatus → Option ServiceState
state_of_last [] = none
state_of_last (s ∷ l) = some s.current_state

-- Whether the host may call back: its callback is registered before the worker runs, and can be
-- called at any time behind that, also behind the end.
abbrev pub has_callback : Stage → Bool
has_callback idle = false
has_callback starting = false
has_callback started = false
has_callback serving = true
has_callback served = true
has_callback failed = true
has_callback finished = true

-- One step of one thread. A stop is sent where the last report accepts it, and handled any time later.
pub data Step (os : Os) (essence : Essence) : Machine → Machine → Type 0 where
  begins :
      (q : Bool) (s : Hosted)
      → Step os essence
          (record { stage = idle; hosted = s; sent = q })
          (record { stage = starting; hosted = (begin_start os essence s).1; sent = q })
  starts :
      (q : Bool) (s t : Hosted)
      → start_worker os essence s ≡ (ok tt, t)
      → Step os essence
          (record { stage = starting; hosted = s; sent = q })
          (record { stage = started; hosted = t; sent = q })
  refuses :
      (q : Bool) (s t : Hosted) (e : Error)
      → start_worker os essence s ≡ (err e, t)
      → Step os essence
          (record { stage = starting; hosted = s; sent = q })
          (record { stage = failed; hosted = t; sent = q })
  announces :
      (q : Bool) (s : Hosted)
      → Step os essence
          (record { stage = started; hosted = s; sent = q })
          (record { stage = serving; hosted = (report_running os essence s).1; sent = q })
  serves :
      (q : Bool) (s t : Hosted)
      → run_business os essence s ≡ (ok tt, t)
      → Step os essence
          (record { stage = serving; hosted = s; sent = q })
          (record { stage = served; hosted = t; sent = q })
  breaks :
      (q : Bool) (s t : Hosted) (e : Error)
      → run_business os essence s ≡ (err e, t)
      → Step os essence
          (record { stage = serving; hosted = s; sent = q })
          (record { stage = failed; hosted = t; sent = q })
  finishes :
      (q : Bool) (s : Hosted)
      → Step os essence
          (record { stage = served; hosted = s; sent = q })
          (record { stage = finished; hosted = (report_stopped s).1; sent = q })
  abandons :
      (q : Bool) (s : Hosted)
      → Step os essence
          (record { stage = failed; hosted = s; sent = q })
          (record { stage = finished; hosted = (report_stopped s).1; sent = q })
  sends :
      (g : Stage) (s : Hosted)
      → accepts_stop (reports s.world.history) ≡ true
      → Step os essence
          (record { stage = g; hosted = s; sent = false })
          (record { stage = g; hosted = s; sent = true })
  stops :
      (g : Stage) (s : Hosted)
      → Step os essence
          (record { stage = g; hosted = s; sent = true })
          (record {
            stage = g;
            hosted = (service_ctrl_handler os essence service_control_stop s).1;
            sent = false;
          })
  ignores :
      (q : Bool) (g : Stage) (s : Hosted) (control : ℕ)
      → (control == service_control_stop) ≡ false
      → Step os essence
          (record { stage = g; hosted = s; sent = q })
          (record { stage = g; hosted = (service_ctrl_handler os essence control s).1; sent = q })
  calls_back :
      (q : Bool) (g : Stage) (s : Hosted)
      → has_callback g ≡ true
      → Step os essence
          (record { stage = g; hosted = s; sent = q })
          (record { stage = g; hosted = (report_stopped s).1; sent = q })

-- The machines that runs reach from a process that has not reported.
pub data Reachable (os : Os) (essence : Essence) : Machine → Type 0 where
  fresh :
      (s : Hosted)
      → reports s.world.history ≡ []
      → s.process.check_point ≡ 0
      → Reachable os essence (record { stage = idle; hosted = s; sent = false })
  next : (m n : Machine) → Reachable os essence m → Step os essence m n → Reachable os essence n
