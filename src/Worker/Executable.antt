-- ===== src/Worker/Executable.antt =====
-- src/workers/executable_service_worker.cpp: a worker that runs a process.
use svc_hostify.Base.{Text, codes, ℕ, true, false, not, is_empty, Option, none, some, List, [], ◌∷◌}
use svc_hostify.Effects.{
  Os, World, Action, ◌>>=◌, ◌>>◌, formatted, throw, throw_if, pure, call, modify, after, ask_flag,
  ask_buffer, is_regular_file, create_process, terminate_process, post_quit_message,
  wait_for_process, close_handle,
}
use svc_hostify.Config.{ServiceConfig, value_or}
use svc_hostify.Essence.{Essence}
use svc_hostify.Util.CommandLine.{make_command_line}

pub record ExecutableServiceWorker : Type 0 where
  pub config : ServiceConfig
  pub wrapped_thread : Option ℕ
  pub wrapped_process : Option ℕ

-- `reset` and the destructor of a `kernel_handle` close a handle that is not null.
abbrev pub close_kernel_handle : Option ℕ → World → World
close_kernel_handle none w = w
close_kernel_handle (some h) w = after (close_handle h) w

-- `PROCESS_INFORMATION`: the process and its first thread.
abbrev pub process_of : List ℕ → Option ℕ
process_of [] = none
process_of (p ∷ pi) = some p

abbrev pub thread_of : List ℕ → Option ℕ
thread_of [] = none
thread_of (p ∷ []) = none
thread_of (p ∷ t ∷ pi) = some t

module _ (os : Os) (essence : Essence) where
  -- The constructor.
  unfoldable pub make : ServiceConfig → Action World ExecutableServiceWorker
  make config = do
    throw_if (is_empty config.context)
        (formatted (codes "The context must be a non-empty executable path." ∷ []))
    regular ← ask_flag os (is_regular_file config.context)
    throw_if (not regular) (
        formatted (
          codes "Executable Path"
          ∷ config.context
          ∷ codes "Message"
          ∷ codes "The executable path must be a regular file."
          ∷ []))
    pure (record { config = config; wrapped_thread = none; wrapped_process = none })

  abbrev pub command_line_of : Option (List Text) → Option Text
  command_line_of none = none
  command_line_of (some arguments) = some (make_command_line essence arguments)

  unfoldable pub on_start : ExecutableServiceWorker → Action World ExecutableServiceWorker
  on_start worker = do
    let request =
        create_process (essence.to_native_string worker.config.context)
          (command_line_of worker.config.arguments)
    pi ← ask_buffer os request
    created ← ask_flag os request
    elim created [
      | true ↦ do
        modify (close_kernel_handle worker.wrapped_thread)
        modify (close_kernel_handle worker.wrapped_process)
        pure (record worker { wrapped_thread = thread_of pi; wrapped_process = process_of pi })
      | false ↦ throw (formatted (codes "Failed to create the process." ∷ []))
    ]

-- A quit message for the thread, or the end of the process.
unfoldable pub on_stop : ExecutableServiceWorker → Action World (Unit {0})
on_stop worker = elim worker.wrapped_process [
  | none ↦ pure tt
  | some process ↦ elim (value_or worker.config.post_quit_message false) [
    | true ↦ call (post_quit_message worker.wrapped_thread)
    | false ↦ call (terminate_process process)
  ]
]

abbrev pub wait_for : Option ℕ → Action World (Unit {0})
wait_for none = pure tt
wait_for (some process) = call (wait_for_process process)

unfoldable pub run : ExecutableServiceWorker → Action World ExecutableServiceWorker
run worker = do
  wait_for worker.wrapped_process
  modify (close_kernel_handle worker.wrapped_thread)
  modify (close_kernel_handle worker.wrapped_process)
  pure (record worker { wrapped_thread = none; wrapped_process = none })

-- The destructor, and those of the two handles in the reverse order of their declaration.
unfoldable pub destroy : ExecutableServiceWorker → Action World (Unit {0})
unfolding on_stop
destroy worker = do
  on_stop worker
  modify (close_kernel_handle worker.wrapped_process)
  modify (close_kernel_handle worker.wrapped_thread)
