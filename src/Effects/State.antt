-- ===== src/Effects/State.antt =====
-- The state of a run: the calls made, and the static variables of the program.
use svc_hostify.Base.{Text, ℕ, Bool, Option, none, List, ◌∷◌}
use svc_hostify.Effects.Monad.{ok, Action}
use svc_hostify.Effects.Calls.{Call, History, Os, Level}

-- A rotating file sink: its settings and what has been logged to it, the newest first.
pub record Sink : Type 0 where
  pub base_path : Text
  pub max_size : ℕ
  pub max_files : ℕ
  pub plain_format : Bool
  pub level : Level
  pub lines : List Text

-- `stdio_to_sink_dispatcher`: its atomic sink, and whether the two watchers are started.
pub record StdioToSinkDispatcher : Type 0 where
  pub sink : Option Sink
  pub watching : Bool

-- `dispatcher` is a static of config_setup.cpp; `jvm_class_key` and `jvm_init` (the module handle
-- that it keeps) are those of jvm_service_worker.cpp.
pub record World : Type 0 where
  pub history : History
  pub dispatcher : Option StdioToSinkDispatcher
  pub jvm_class_key : ℕ
  pub jvm_init : Option ℕ

abbrev pub start : World
start = record { history = List.[]; dispatcher = none; jvm_class_key = 1; jvm_init = none }

-- `w` after one more call.
abbrev pub after : Call → World → World
after c w = record w { history = c ∷ w.history }

abbrev pub call : Call → Action World (Unit {0})
call c w = (ok tt, after c w)

module _ (os : Os) where
  abbrev pub ask_flag : Call → Action World Bool
  ask_flag c w = (ok (os.flag w.history c), after c w)

  abbrev pub ask_handle : Call → Action World (Option ℕ)
  ask_handle c w = (ok (os.handle w.history c), after c w)

  abbrev pub ask_number : Call → Action World ℕ
  ask_number c w = (ok (os.number w.history c), after c w)

  -- What a call returns through a pointer is asked for before the call itself.
  abbrev pub ask_buffer : Call → Action World (List ℕ)
  ask_buffer c w = (ok (os.buffer w.history c), w)

  abbrev pub ask_size : Call → Action World ℕ
  ask_size c w = (ok (os.size w.history c), w)
