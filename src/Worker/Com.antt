-- ===== src/Worker/Com.antt =====
-- src/workers/com_service_worker.cpp: a worker that calls a COM object.
use svc_hostify.Base.{Text, codes, ℕ, ◌^◌, leb, is_empty, List, [], ◌∷◌, ◌++◌, map}
use svc_hostify.Effects.{
  Os, World, Action, ◌>>=◌, ◌>>◌, formatted, throw_if, pure, deref, ask_number, gets,
  create_instance, com_run, com_on_stop, safe_array_access, safe_array_unaccess,
}
use svc_hostify.Config.{ServiceConfig, value_or}
use svc_hostify.Essence.{Essence}
use svc_hostify.Registry.{c_str}

pub record ComServiceWorker : Type 0 where
  pub config : ServiceConfig
  pub broker : ℕ

module _ (os : Os) (essence : Essence) where
  -- `FAILED(hr)`: the sign bit of the 32-bit result is set.
  unfoldable pub check_com_error : ℕ → List Text → Action World (Unit {0})
  check_com_error hr args =
      throw_if (leb (2 ^ 31) hr) (
        formatted
          (args ++ codes "Internal" ∷ essence.to_utf8_string (os.com_error_message hr) ∷ []))

  -- The array of strings for `Run`.
  unfoldable pub make_args : List Text → Action World (List Text)
  make_args args = do
    let array = map (λ inner. c_str (essence.to_native_string inner)) args
    accessed ← ask_number os (safe_array_access array)
    check_com_error accessed (codes "Message" ∷ codes "Failed to access the array data." ∷ [])
    unaccessed ← ask_number os (safe_array_unaccess array)
    check_com_error unaccessed (codes "Message" ∷ codes "Failed to unaccess the array data." ∷ [])
    pure array

  unfoldable pub make : ServiceConfig → Action World ComServiceWorker
  make config = do
    throw_if (is_empty config.context) (
        formatted (
          codes "The context must be a non-empty CLSID of your ISvcHostify implementation coclass."
          ∷ []))
    let request = create_instance (c_str (essence.to_native_string config.context))
    created ← gets (λ w. os.handle w.history request)
    hr ← ask_number os request
    check_com_error hr (
        codes "CLSID"
        ∷ config.context
        ∷ codes "Message"
        ∷ codes "Failed to create an instance."
        ∷ [])
    broker ← deref created
    pure (record { config = config; broker = broker })

  unfoldable pub on_stop : ComServiceWorker → Action World (Unit {0})
  on_stop worker = do
    hr ← ask_number os (com_on_stop worker.broker)
    check_com_error hr (
        codes "CLSID"
        ∷ worker.config.context
        ∷ codes "Message"
        ∷ codes "An error orrcurred inside the ISvcHostify instance when stopping."
        ∷ [])

  unfoldable pub run : ComServiceWorker → Action World (Unit {0})
  run worker = do
    args ← make_args (value_or worker.config.arguments [])
    hr ← ask_number os (com_run worker.broker args)
    check_com_error hr (
        codes "CLSID"
        ∷ worker.config.context
        ∷ codes "Message"
        ∷ codes "An error orrcurred inside the ISvcHostify instance when running."
        ∷ [])
