-- ===== src/Process/Torn.antt =====
-- Two threads in `report_status` of src/service_process.cpp, which share the status and the counter
-- with no lock: a turn of a thread is one statement.
use svc_hostify.Base.{ℕ, ◌≡◌, refl, List, [], ◌∷◌, if◌then◌else◌}
use svc_hostify.Effects.{ServiceState, stopped, stop_pending, ServiceStatus}
use svc_hostify.Process.{
  ServiceProcess, pending_wait_hint, counts, controls_of, increment, set_status,
}

-- What the threads share, with the reports that were made, the newest first.
pub record Shared : Type 0 where
  pub process : ServiceProcess
  pub made : List ServiceStatus

-- The statement of `report_status` that is next.
pub data Statement : Type 0 where
  set_state set_wait_hint set_controls set_check_point call_windows reported : Statement

-- A call of `report_status` that is under way.
pub record Reporting : Type 0 where
  pub current_state : ServiceState
  pub wait_hint : ℕ
  pub statement : Statement

pub record Both : Type 0 where
  pub starter : Reporting
  pub handler : Reporting
  pub shared : Shared

pub data Writer : Type 0 where
  starter_turn handler_turn : Writer

abbrev pub write : (ServiceStatus → ServiceStatus) → Shared → Shared
write f s = record s { process = record s.process { status = f s.process.status } }

-- The counter is a static, so it is also shared.
abbrev pub count_up : ServiceState → ServiceProcess → ServiceProcess
count_up state p =
    let count = if counts state then increment p.check_point else p.check_point in
    record p {
      status = record p.status { check_point = if counts state then count else 0 };
      check_point = count;
    }

unfoldable pub execute : Statement → Reporting → Shared → Shared
execute set_state r s = write (λ t. record t { current_state = r.current_state }) s
execute set_wait_hint r s = write (λ t. record t { wait_hint = r.wait_hint }) s
execute set_controls r s =
    write (λ t. record t { controls_accepted = controls_of r.current_state }) s
execute set_check_point r s = record s { process = count_up r.current_state s.process }
execute call_windows r s = record s { made = s.process.status ∷ s.made }
execute reported r s = s

abbrev pub next_statement : Statement → Statement
next_statement set_state = set_wait_hint
next_statement set_wait_hint = set_controls
next_statement set_controls = set_check_point
next_statement set_check_point = call_windows
next_statement call_windows = reported
next_statement reported = reported

abbrev pub go_on : Reporting → Reporting
go_on r = record r { statement = next_statement r.statement }

unfoldable pub write_turn : Writer → Both → Both
unfolding execute
write_turn starter_turn b = record b {
  starter = go_on b.starter;
  shared = execute b.starter.statement b.starter b.shared;
}
write_turn handler_turn b = record b {
  handler = go_on b.handler;
  shared = execute b.handler.statement b.handler b.shared;
}

unfoldable pub write_turns : List Writer → Both → Both
write_turns [] b = b
write_turns (t ∷ l) b = write_turns l (write_turn t b)

-- The starter reports the end, and the handler that the stop is pending.
abbrev pub ending : Shared → Both
ending s = record {
  starter = record { current_state = stopped; wait_hint = 0; statement = set_state };
  handler = record {
    current_state = stop_pending;
    wait_hint = pending_wait_hint;
    statement = set_state;
  };
  shared = s;
}

abbrev pub five : Writer → List Writer
five t = t ∷ t ∷ t ∷ t ∷ t ∷ []

-- A thread that is not interrupted sets what `set_status` sets, and reports it.
pub write_turns-set_status :
    (state : ServiceState) (hint : ℕ) (other : Reporting) (s : Shared)
    → (write_turns (five starter_turn) (record {
      starter = record { current_state = state; wait_hint = hint; statement = set_state };
      handler = other;
      shared = s;
    })).shared
      ≡ record {
        process = set_status state hint s.process;
        made = (set_status state hint s.process).status ∷ s.made;
      }
unfolding write_turns write_turn execute set_status
write_turns-set_status state hint other s = refl

-- The handler is interrupted before it counts, and the starter before it calls Windows.
abbrev interrupted : List Writer
interrupted =
    handler_turn ∷ handler_turn ∷ handler_turn ∷ starter_turn ∷ starter_turn ∷ starter_turn
    ∷ starter_turn ∷ handler_turn ∷ starter_turn ∷ []
