-- ===== src/Worker/Racing.antt =====
-- src/workers/executable_service_worker.cpp on two threads: `run` on its own, and `on_stop`, one
-- call after another, on that of the control handler. Nothing orders them, so a schedule says whose
-- read or call is next; a turn of `run` at its wait is the one in which the wait ends.
pub mod Balance
pub mod Handles
pub mod Atomic
use svc_hostify.Base.{
  ℕ, ◌+◌, ◌==◌, Bool, true, false, not, ◌&&◌, ◌||◌, Option, none, some, List, [], ◌∷◌,
  if◌then◌else◌,
}
use svc_hostify.Effects.{
  World, after, Call, History, terminate_process, post_quit_message, wait_for_process,
}
use svc_hostify.Config.{value_or}
use svc_hostify.Worker.Executable.{ExecutableServiceWorker, close_kernel_handle}
use svc_hostify.Worker.Kernel.{is_close}

-- Where `run` is: at its wait, before each of the two resets, or behind them.
pub data RunPoint : Type 0 where
  waiting resetting_thread resetting_process run_done : RunPoint

-- Where `on_stop` is: not called, behind its test of the process, or with the handle that it has
-- read, which may be null.
pub data StopPoint : Type 0 where
  not_called tested : StopPoint
  read : Option ℕ → StopPoint

pub record Race : Type 0 where
  pub run_point : RunPoint
  pub stop_point : StopPoint
  pub worker : ExecutableServiceWorker
  pub world : World

pub data Racer : Type 0 where
  run_racer stop_racer : Racer

-- A worker whose `run` is called.
abbrev pub racing : ExecutableServiceWorker → World → Race
racing worker world = record {
  run_point = waiting;
  stop_point = not_called;
  worker = worker;
  world = world;
}

abbrev pub null_handle : ℕ
null_handle = 0

abbrev pub waited_for : Option ℕ → World → World
waited_for none w = w
waited_for (some process) w = after (wait_for_process process) w

unfoldable pub run_turn : RunPoint → Race → Race
run_turn waiting r = record r {
  run_point = resetting_thread;
  world = waited_for r.worker.wrapped_process r.world;
}
run_turn resetting_thread r = record r {
  run_point = resetting_process;
  worker = record r.worker { wrapped_thread = none };
  world = close_kernel_handle r.worker.wrapped_thread r.world;
}
run_turn resetting_process r = record r {
  run_point = run_done;
  worker = record r.worker { wrapped_process = none };
  world = close_kernel_handle r.worker.wrapped_process r.world;
}
run_turn run_done r = r

-- Whether a stop is a message for the thread.
abbrev pub posts : ExecutableServiceWorker → Bool
posts worker = value_or worker.config.post_quit_message false

-- The handle that a stop is sent to.
abbrev pub target : ExecutableServiceWorker → Option ℕ
target worker = if posts worker then worker.wrapped_thread else worker.wrapped_process

abbrev pub stop_call : Bool → Option ℕ → Call
stop_call true h = post_quit_message h
stop_call false none = terminate_process null_handle
stop_call false (some h) = terminate_process h

unfoldable pub stop_turn : StopPoint → Race → Race
stop_turn not_called r = elim r.worker.wrapped_process [
  | none ↦ r
  | some process ↦ record r { stop_point = tested }
]
stop_turn tested r = record r { stop_point = read (target r.worker) }
stop_turn (read h) r = record r {
  stop_point = not_called;
  world = after (stop_call (posts r.worker) h) r.world;
}

unfoldable pub race_turn : Racer → Race → Race
unfolding run_turn stop_turn
race_turn run_racer r = run_turn r.run_point r
race_turn stop_racer r = stop_turn r.stop_point r

unfoldable pub race : List Racer → Race → Race
race [] r = r
race (t ∷ l) r = race l (race_turn t r)

-- Whether a handle was closed, and whether a call uses one that was.
abbrev pub was_closed : ℕ → History → Bool
was_closed x [] = false
was_closed x (c ∷ h) = is_close x c || was_closed x h

abbrev pub is_late : Call → History → Bool
is_late (terminate_process x) h = not (x == null_handle) && was_closed x h
is_late (post_quit_message (some x)) h = was_closed x h
is_late _ h = false

abbrev pub late_calls : History → ℕ
late_calls [] = 0
late_calls (c ∷ h) = (if is_late c h then 1 else 0) + late_calls h
