-- ===== src/Worker.antt =====
-- src/abstract/service_worker.cxx and src/service_worker.cpp: the four kinds of workers behind one
-- interface, and how one is made. `com` is `com_server` here.
pub mod Executable
pub mod PureC
pub mod Com
pub mod Jvm
pub mod Load
pub mod Modules
pub mod Kernel
pub mod Racing
pub mod Totality
use svc_hostify.Base.{Text, codes, true, Option, none, some, [], ◌∷◌}
use svc_hostify.Effects.{Os, World, Action, ◌>>=◌, ◌>>◌, pure, throw, formatted}
use svc_hostify.Config.{
  ServiceConfig, ServiceWorkerType, Codec, executable, pure_c, com_server, jvm, nameless,
  from_msgpack_base64,
}
use svc_hostify.Essence.{Essence}
use svc_hostify.ConfigSetup.{setup_config}
use svc_hostify.Registry.{get_registry_string}
use svc_hostify.Manager.{service_param_key_of, startup_configuration}
use Executable.{ExecutableServiceWorker}
use PureC.{PureCServiceWorker}
use Com.{ComServiceWorker}
use Jvm.{JvmServiceWorker}

-- The wrapper of a worker of some type.
pub data ServiceWorker : Type 0 where
  executable_worker : ExecutableServiceWorker → ServiceWorker
  pure_c_worker : PureCServiceWorker → ServiceWorker
  com_worker : ComServiceWorker → ServiceWorker
  jvm_worker : JvmServiceWorker → ServiceWorker

abbrev pub config : ServiceWorker → ServiceConfig
config (executable_worker w) = w.config
config (pure_c_worker w) = w.config
config (com_worker w) = w.config
config (jvm_worker w) = w.config

module _ (os : Os) (essence : Essence) where
  -- A method returns the worker as it leaves it.
  unfoldable pub on_start : ServiceWorker → Action World ServiceWorker
  on_start (executable_worker w) = do
    started ← Executable.on_start os essence w
    pure (executable_worker started)
  on_start (pure_c_worker w) = pure (pure_c_worker w)
  on_start (com_worker w) = pure (com_worker w)
  on_start (jvm_worker w) = pure (jvm_worker w)

  unfoldable pub on_stop : ServiceWorker → Action World (Unit {0})
  on_stop (executable_worker w) = Executable.on_stop w
  on_stop (pure_c_worker w) = PureC.on_stop w
  on_stop (com_worker w) = Com.on_stop os essence w
  on_stop (jvm_worker w) = Jvm.on_stop os essence w

  unfoldable pub run : ServiceWorker → Action World ServiceWorker
  run (executable_worker w) = do finished ← Executable.run w; pure (executable_worker finished)
  run (pure_c_worker w) = PureC.run w >> pure (pure_c_worker w)
  run (com_worker w) = Com.run os essence w >> pure (com_worker w)
  run (jvm_worker w) = Jvm.run os essence w >> pure (jvm_worker w)

  -- The destructor of the wrapper. The release of a COM object is not a call of the history, and a
  -- Java class stays registered.
  unfoldable pub destroy : ServiceWorker → Action World (Unit {0})
  destroy (executable_worker w) = Executable.destroy w
  destroy (pure_c_worker w) = PureC.destroy w
  destroy (com_worker w) = pure tt
  destroy (jvm_worker w) = pure tt

  -- What each worker's file exports.
  abbrev pub make_executable_service_worker : ServiceConfig → Action World ServiceWorker
  make_executable_service_worker config = do
    w ← Executable.make os essence config
    pure (executable_worker w)

  abbrev pub make_pure_c_service_worker : ServiceConfig → Action World ServiceWorker
  make_pure_c_service_worker config = do w ← PureC.make os essence config; pure (pure_c_worker w)

  abbrev pub make_com_service_worker : ServiceConfig → Action World ServiceWorker
  make_com_service_worker config = do w ← Com.make os essence config; pure (com_worker w)

  abbrev pub make_jvm_service_worker : ServiceConfig → Action World ServiceWorker
  make_jvm_service_worker config = do w ← Jvm.make os essence config; pure (jvm_worker w)

  -- The `switch` of `make_service_worker`.
  unfoldable pub make_worker_of : ServiceWorkerType → ServiceConfig → Action World ServiceWorker
  make_worker_of executable config = make_executable_service_worker config
  make_worker_of pure_c config = make_pure_c_service_worker config
  make_worker_of com_server config = make_com_service_worker config
  make_worker_of jvm config = make_jvm_service_worker config
  make_worker_of nameless config = throw (formatted (codes "Invalid worker type." ∷ []))

  unfoldable pub make_service_worker : ServiceConfig → Action World ServiceWorker
  unfolding make_worker_of
  make_service_worker config = make_worker_of config.worker_type config

  module _ (codec : Codec) where
    unfoldable pub make_configured : ServiceConfig → Action World ServiceWorker
    make_configured config = do
      setup_config os essence codec config true
      make_service_worker config

    unfoldable pub make_decoded : Text → Action World ServiceWorker
    make_decoded base64 = do config ← from_msgpack_base64 codec base64; make_configured config

    unfoldable pub make_service_worker_from_registry : Text → Action World ServiceWorker
    make_service_worker_from_registry service_name = do
      base64 ←
          get_registry_string os essence
            (service_param_key_of (essence.to_utf8_string service_name)) startup_configuration
      make_decoded base64
