-- ===== src/Hosting.antt =====
-- The service of samples/cpp/test-service/src/entry.cpp behind the pure C worker of
-- src/workers/pure_c_service_worker.cpp in the process of src/service_process.cpp. Four parties take
-- turns: the thread that starts the service, the thread of the hosted `run`, the service control
-- manager, which sends a stop, and the host, which calls back. The service does what the calls of
-- its two functions make it do: their addresses are parameters.
pub mod Turns
pub mod Calls
pub mod Steps
pub mod Stops
pub mod Life
pub mod Installed
use svc_hostify.Base.{
  Text, ℕ, ◌==◌, Bool, true, false, ◌&&◌, not, Option, none, some, List, [], ◌∷◌, if◌then◌else◌,
}
use svc_hostify.Effects.{Os, Result, ok, err, undefined, Call, History, call_run, call_on_stop}
use svc_hostify.Essence.{Essence}
use svc_hostify.Process.{
  Hosted, stop_callback_of, service_control_stop, begin_start, start_worker, report_running,
  run_business, report_stopped, service_ctrl_handler,
}
use svc_hostify.Process.Reports.{reports}
use svc_hostify.Process.Threads.{accepts_stop}
use svc_hostify.TestService.{
  Point, entered, greeted, looping, returned, TestService, fresh, advance, on_stop,
}

-- Where the thread that starts the service is. Inside `run_business` it waits for the call of the
-- worker's `run`, which will end with a result.
pub data Phase : Type 0 where
  idle starting started serving : Phase
  inside : Result (Unit {0}) → Phase
  served failed finished : Phase

-- The process with its phase, the service, whether its `run` was called, and whether the host has
-- called back, which it does once.
pub record Hosting : Type 0 where
  pub phase : Phase
  pub hosted : Hosted
  pub service : TestService
  pub called : Bool
  pub called_back : Bool

pub data Party : Type 0 where
  starter hosted_run stop_request host_callback : Party

abbrev pub has_returned : Point → Bool
has_returned entered = false
has_returned greeted = false
has_returned (looping i) = false
has_returned returned = true

-- Whether the hosted `run` was called and has not returned.
abbrev pub is_running : Hosting → Bool
is_running h = h.called && not (has_returned h.service.point)

-- Whether `run_business` was called and its thread has ended.
abbrev pub thread_ended : Hosting → Bool
thread_ended h = elim h.phase [
  | idle ↦ false
  | starting ↦ false
  | started ↦ false
  | serving ↦ false
  | inside r ↦ not (is_running h)
  | served ↦ true
  | failed ↦ true
  | finished ↦ true
]

-- A service whose DLL is loaded.
abbrev pub hosting_of : Hosted → Hosting
hosting_of hosted = record {
  phase = idle;
  hosted = hosted;
  service = fresh [];
  called = false;
  called_back = false;
}

-- The phase behind an action with this result. A process that has a worker reads no empty optional.
abbrev pub phase_of : Phase → Result (Unit {0}) → Phase
phase_of phase (ok u) = phase
phase_of phase (err e) = failed
phase_of phase undefined = failed

abbrev pub behind : Phase → Result (Unit {0}) × Hosted → Hosting → Hosting
behind phase (r, t) h = record h { phase = phase_of phase r; hosted = t }

module _ (os : Os) (essence : Essence) (to_string : ℕ → Text) (run_address stop_address : ℕ) where
  -- The last call, where it is one of the service's functions.
  abbrev pub hear_call : Call → Hosting → Hosting
  hear_call (call_run f argv) h =
      if f == run_address
      then record h { service = record h.service { args = argv }; called = true }
      else h
  hear_call (call_on_stop f) h =
      if f == stop_address then record h { service = on_stop to_string h.service } else h
  hear_call _ h = h

  unfoldable pub hear : History → Hosting → Hosting
  hear [] h = h
  hear (c ∷ l) h = hear_call c h

  -- What `run_business` does up to the hosted `run`, which its last call is.
  abbrev pub enter : Result (Unit {0}) × Hosted → Hosting → Hosting
  enter (r, t) h = hear t.world.history (record h { phase = inside r; hosted = t })

  -- The next step of `start`, and of its caller where it has thrown.
  unfoldable pub start_step : Phase → Hosting → Hosting
  unfolding hear
  start_step idle h = behind starting (begin_start os essence h.hosted) h
  start_step starting h = behind started (start_worker os essence h.hosted) h
  start_step started h = behind serving (report_running os essence h.hosted) h
  start_step serving h = enter (run_business os essence h.hosted) h
  start_step (inside r) h = if is_running h then h else record h { phase = phase_of served r }
  start_step served h = behind finished (report_stopped h.hosted) h
  start_step failed h = behind finished (report_stopped h.hosted) h
  start_step finished h = h

  unfoldable pub run_step : Hosting → Hosting
  run_step h =
      if h.called then record h { service = advance to_string h.service.point h.service } else h

  -- A stop is only sent where the last report accepts it.
  unfoldable pub stop_step : Hosting → Hosting
  unfolding hear
  stop_step h =
      if accepts_stop (reports h.hosted.world.history)
      then (let handled = (service_ctrl_handler os essence service_control_stop h.hosted).1 in
          hear handled.world.history (record h { hosted = handled }))
      else h

  -- The host calls back once, some time after the thread of `run` has ended.
  unfoldable pub callback_step : Hosting → Hosting
  callback_step h =
      if thread_ended h && (stop_callback_of h.hosted.process.global_data && not h.called_back)
      then record h { hosted = (report_stopped h.hosted).1; called_back = true }
      else h

  unfoldable pub take_step : Party → Hosting → Hosting
  unfolding start_step run_step stop_step callback_step
  take_step starter h = start_step h.phase h
  take_step hosted_run h = run_step h
  take_step stop_request h = stop_step h
  take_step host_callback h = callback_step h

  unfoldable pub take_steps : List Party → Hosting → Hosting
  take_steps [] h = h
  take_steps (p ∷ l) h = take_steps l (take_step p h)
