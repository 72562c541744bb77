-- ===== src/Process.antt =====
-- src/service_process.cpp: the running service, its status reports, and its control handler.
-- A method is an action on the process object and the world; the functions that Windows calls back
-- (`service_main`, `service_ctrl_handler`, the stop callback) are actions of their own.
pub mod Reports
pub mod Views
pub mod Threads
pub mod Safety
pub mod Definedness
pub mod Callback
pub mod Late
pub mod Torn
pub mod Instance
use mathlib.Core.List.{reverse}
use svc_hostify.Base.{
  Text, codes, take, length, eq_text, ℕ, ◌==◌, ◌+◌, ◌%◌, ◌^◌, Bool, true, false, not, ◌||◌, Option,
  none, some, [], ◌∷◌, if◌then◌else◌,
}
use svc_hostify.Effects.{
  Os, World, Action, ok, err, undefined, Result, ◌>>=◌, ◌>>◌, Error, formatted, nested, throw, pure,
  deref, gets, modify, when, catch, call, ask_handle, Call, ServiceState, stopped, start_pending,
  stop_pending, running, ServiceType, own_process, share_process, ServiceStatus, log, info,
  register_ctrl_handler, start_ctrl_dispatcher, set_service_status, register_stop_callback,
}
use svc_hostify.Essence.{Essence}
use svc_hostify.System.{get_process_path}
use svc_hostify.Worker as W
use svc_hostify.Worker.{ServiceWorker}

abbrev pub pending_wait_hint : ℕ
pending_wait_hint = 10000

abbrev pub service_accept_stop : ℕ
service_accept_stop = 1

abbrev pub service_control_stop : ℕ
service_control_stop = 1

-- `SVCHOST_GLOBAL_DATA`: whether its `RegisterStopCallback` is not null.
pub record SvchostGlobalData : Type 0 where
  pub register_stop_callback : Bool

-- `service_process::impl`, with the static of `report_status`.
pub record ServiceProcess : Type 0 where
  pub standalone : Bool
  pub status : ServiceStatus
  pub status_handle : Option ℕ
  pub worker : Option ServiceWorker
  pub service_name : Text
  pub global_data : Option SvchostGlobalData
  pub check_point : ℕ

-- The process object and the world around it.
pub record Hosted : Type 0 where
  pub process : ServiceProcess
  pub world : World

abbrev pub ends_with : Text → Text → Bool
ends_with s suffix = eq_text (take (length suffix) (reverse s)) (reverse suffix)

-- The constructor; what it leaves out of the status is zero.
abbrev pub new_process : Os → Essence → ServiceProcess
new_process os essence =
    let standalone = not (ends_with (get_process_path os essence) (codes "svchost.exe")) in
    record {
      standalone = standalone;
      status = record {
        service_type = if standalone then own_process else share_process;
        current_state = stopped;
        controls_accepted = 0;
        check_point = 0;
        wait_hint = 0;
      };
      status_handle = none;
      worker = none;
      service_name = [];
      global_data = none;
      check_point = 0;
    }

-- An action of the world, by the process.
abbrev pub on_world : {A : Type 0} → Action World A → Action Hosted A
on_world m s = let (r, w) = m s.world in (r, record s { world = w })

abbrev pub change : (ServiceProcess → ServiceProcess) → Action Hosted (Unit {0})
change f s = (ok tt, record s { process = f s.process })

abbrev pub the_process : Action Hosted ServiceProcess
the_process s = pure s.process s

abbrev pub counts : ServiceState → Bool
counts start_pending = true
counts stop_pending = true
counts running = false
counts stopped = false

abbrev pub controls_of : ServiceState → ℕ
controls_of start_pending = 0
controls_of stop_pending = service_accept_stop
controls_of running = service_accept_stop
controls_of stopped = service_accept_stop

-- `++check_point` on a `DWORD`
abbrev pub increment : ℕ → ℕ
increment n = (n + 1) % 2 ^ 32

-- The fields that a report of a state sets, and the counter.
unfoldable pub set_status : ServiceState → ℕ → ServiceProcess → ServiceProcess
set_status current_state wait_hint p =
    let count = if counts current_state then increment p.check_point else p.check_point in
    record p {
      status = record {
        service_type = p.status.service_type;
        current_state = current_state;
        controls_accepted = controls_of current_state;
        check_point = if counts current_state then count else 0;
        wait_hint = wait_hint;
      };
      check_point = count;
    }

unfoldable pub report_status : ServiceState → ℕ → Action Hosted (Unit {0})
report_status current_state wait_hint = do
  change (set_status current_state wait_hint)
  p ← the_process
  on_world (call (set_service_status p.status_handle p.status))

unfoldable pub report_stopped : Action Hosted (Unit {0})
report_stopped = do
  report_status stopped 0
  on_world (call (log info (codes "The service has stopped.")))

unfoldable pub set_global_data : Option SvchostGlobalData → Action Hosted (Unit {0})
set_global_data data_of_host = change (λ p. record p { global_data = data_of_host })

abbrev pub stop_callback_of : Option SvchostGlobalData → Bool
stop_callback_of none = false
stop_callback_of (some d) = d.register_stop_callback

-- `worker_->`
abbrev pub the_worker : Action Hosted ServiceWorker
the_worker = do p ← the_process; deref p.worker

-- The worker as a method leaves it.
abbrev pub keep_worker : ServiceWorker → Action Hosted (Unit {0})
keep_worker worker = change (λ p. record p { worker = some worker })

-- `aggregate_error::throw_nested(formatted_runtime_error{…})`
abbrev pub throw_nested : Text → Error → Action Hosted (Unit {0})
throw_nested message e = throw (nested (formatted (message ∷ [])) e)

abbrev pub register_callback : ServiceProcess → Action Hosted (Unit {0})
register_callback p =
    when (stop_callback_of p.global_data) (on_world (call (register_stop_callback p.service_name)))

module _ (os : Os) where
  unfoldable pub register_control_handler : Bool → Action Hosted (Unit {0})
  register_control_handler force = do
    p ← the_process
    when (force || not p.standalone) (do
      h ← on_world (ask_handle os (register_ctrl_handler p.service_name))
      change (λ q. record q { status_handle = h }))

  unfoldable pub init : Text → Action Hosted (Unit {0})
  init service_name = do
    change (λ p. record p { service_name = service_name })
    register_control_handler false

  module _ (essence : Essence) where
    -- The worker runs on a thread of its own, whose exception is thrown again by the future; the
    -- callback is registered before the worker's first call.
    unfoldable pub run_business : Action Hosted (Unit {0})
    run_business =
        catch
          (do
            p ← the_process
            register_callback p
            worker ← the_worker
            finished ← on_world (W.run os essence worker)
            keep_worker finished)
          (throw_nested (codes "An error occurred during the service running."))

    -- The `try` block of `start`.
    unfoldable pub start_worker : Action Hosted (Unit {0})
    start_worker =
        catch
          (do
            worker ← the_worker
            started ← on_world (W.on_start os essence worker)
            keep_worker started)
          (throw_nested (codes "Failed to start the service."))

    -- `start`, up to the worker's `on_start`, and behind it.
    unfoldable pub begin_start : Action Hosted (Unit {0})
    begin_start = do
      register_control_handler true
      report_status start_pending pending_wait_hint
      on_world (call (log info (codes "The service start is pending.")))

    unfoldable pub report_running : Action Hosted (Unit {0})
    report_running = do
      report_status running 0
      on_world (call (log info (codes "The service is running.")))

    unfoldable pub start : Action Hosted (Unit {0})
    start = do begin_start; start_worker; report_running; run_business; report_stopped

    -- What the dispatcher of a process of its own calls, on a thread of its own.
    unfoldable pub service_main : Action Hosted (Unit {0})
    service_main = start

    -- The worker's `on_stop`, whose exceptions are dropped.
    unfoldable pub try_stop : Action Hosted (Unit {0})
    try_stop = catch (do worker ← the_worker; on_world (W.on_stop os essence worker)) (λ e. pure tt)

    unfoldable pub stop : Action Hosted (Unit {0})
    stop = do
      report_status stop_pending pending_wait_hint
      on_world (call (log info (codes "The service stop is pending.")))
      try_stop

    -- The dispatcher calls `start` on a thread of its own, as `service_main`.
    unfoldable pub run : ServiceWorker → Action Hosted (Unit {0})
    run worker = do
      change (λ p. record p { worker = some worker })
      p ← the_process
      elim p.standalone [
        | true ↦ on_world (call (start_ctrl_dispatcher p.service_name))
        | false ↦ start
      ]

    unfoldable pub service_ctrl_handler : ℕ → Action Hosted ℕ
    service_ctrl_handler control = elim (control == service_control_stop) [
      | true ↦ do stop; pure 0
      | false ↦ pure 0
    ]
