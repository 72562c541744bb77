-- ===== src/Worker/PureC.antt =====
-- src/workers/pure_c_service_worker.cpp: a worker that calls two exported functions of a DLL.
use svc_hostify.Base.{Text, codes, ℕ, is_empty, none, some, List, [], ◌∷◌, map}
use svc_hostify.Effects.{
  Os, World, Action, ◌>>=◌, ◌>>◌, Error, formatted, throw, throw_if, pure, call, ask_handle,
  load_library, get_proc_address, free_library, call_run, call_on_stop,
}
use svc_hostify.Config.{ServiceConfig}
use svc_hostify.Essence.{Essence}
use svc_hostify.Registry.{c_str}

pub record PureCServiceWorker : Type 0 where
  pub config : ServiceConfig
  pub module_dll : ℕ
  pub run_function : ℕ
  pub on_stop_function : ℕ

-- `argv`: the arguments as C strings.
abbrev pub make_argv : List Text → List Text
make_argv = map c_str

module _ (os : Os) (essence : Essence) where
  -- An exported function; the module is released where the constructor throws.
  unfoldable pub find_function : ℕ → Text → Error → Action World ℕ
  find_function dll name failed = do
    address ← ask_handle os (get_proc_address dll name)
    elim address [ none ↦ do call (free_library dll); throw failed | some function ↦ pure function ]

  unfoldable pub load_module : ServiceConfig → Action World ℕ
  load_module config = do
    loaded ← ask_handle os (load_library (essence.to_native_string config.context))
    elim loaded [
      | none ↦ throw (
          formatted (
            codes "DLL Path"
            ∷ config.context
            ∷ codes "Message"
            ∷ codes "Failed to load the DLL."
            ∷ []))
      | some dll ↦ pure dll
    ]

  unfoldable pub make : ServiceConfig → Action World PureCServiceWorker
  make config = do
    throw_if (is_empty config.context)
        (formatted (codes "The context must be a non-empty DLL path." ∷ []))
    dll ← load_module config
    run_function ←
        find_function dll (codes "refvalue_svchostify_run")
          (formatted (codes "Failed to load the 'refvalue_svchostify_run' function." ∷ []))
    on_stop_function ←
        find_function dll (codes "refvalue_svchostify_on_stop")
          (formatted (codes "Failed to load the 'refvalue_svchostify_on_stop' function." ∷ []))
    pure (record {
      config = config;
      module_dll = dll;
      run_function = run_function;
      on_stop_function = on_stop_function;
    })

unfoldable pub on_stop : PureCServiceWorker → Action World (Unit {0})
on_stop worker = call (call_on_stop worker.on_stop_function)

-- `argc` is the length of the list.
unfoldable pub run : PureCServiceWorker → Action World (Unit {0})
run worker = elim worker.config.arguments [
  | some arguments ↦ call (call_run worker.run_function (make_argv arguments))
  | none ↦ call (call_run worker.run_function [])
]

unfoldable pub destroy : PureCServiceWorker → Action World (Unit {0})
destroy worker = call (free_library worker.module_dll)
