-- ===== src/Hosting/Installed.antt =====
-- A DLL that src/service_manager.cpp installs, that src/service_worker.cpp loads, and that
-- src/service_process.cpp hosts.
use svc_hostify.Base.{codes, true, Text, ℕ, ◌≡◌, sym, ap, ◌∙◌, some, ◌∷◌, List, arith}
use svc_hostify.Effects.{
  History, load_library, get_proc_address, Os, World, Result, ok, >>=-eq-ok, pure,
}
use svc_hostify.Config.{ServiceConfig, Codec, pure_c}
use svc_hostify.Essence.{Essence}
use svc_hostify.ConfigSetup.{setup_config}
use svc_hostify.Registry.Paths.{TrimLaws}
use svc_hostify.Registry.Values.{ReadsTexts}
use svc_hostify.Manager.{new_manager, install}
use svc_hostify.Worker.{
  ServiceWorker, pure_c_worker, make_worker_of, make_service_worker, make_configured,
  make_service_worker_from_registry,
}
use svc_hostify.Worker.PureC.{PureCServiceWorker, make, find_function, load_module}
use svc_hostify.Worker.Load.{Transcribes, install-load}
use svc_hostify.Process.{Hosted}
use svc_hostify.Hosting.{Party, hosting_of, take_steps}
use svc_hostify.Hosting.Turns.{EndsAs, has_in_order, whole_life}
use svc_hostify.Hosting.Calls.{argv_of}
use svc_hostify.Hosting.Life.{take_steps-EndsAs}

-- What the loader answers for the sample's DLL: the file is loaded, at some handle, and its two
-- exported functions are found by their names.
pub record Exports (os : Os) (path : Text) (run_address stop_address : ℕ) : Type 0 where
  pub dll : ℕ
  pub loads : (h : History) → os.handle h (load_library path) ≡ some dll
  pub finds_run :
      (h : History)
      → os.handle h (get_proc_address dll (codes "refvalue_svchostify_run")) ≡ some run_address
  pub finds_on_stop :
      (h : History)
      → os.handle h (get_proc_address dll (codes "refvalue_svchostify_on_stop")) ≡ some stop_address

module _ (os : Os) (essence : Essence) (run_address stop_address : ℕ) where
  -- The worker of a configuration, with the functions of the DLL.
  abbrev pub Exported : ServiceConfig → PureCServiceWorker → Type 0
  Exported config w =
      (w.config ≡ config) × (w.run_function ≡ run_address) × (w.on_stop_function ≡ stop_address)

  abbrev Named : ServiceConfig → Type 0
  Named config = Exports os (essence.to_native_string config.context) run_address stop_address

  make-Exported :
      (config : ServiceConfig) (exports : Named config) (v : World) (w : PureCServiceWorker)
      (u : World)
      → make os essence config v ≡ (ok w, u)
      → Exported config w
  unfolding make find_function load_module
  make-Exported config exports v w u e =
      let loading = load_library (essence.to_native_string config.context) in
      let finding = get_proc_address exports.dll (codes "refvalue_svchostify_run") in
      let l = exports.loads v.history in
      let f = exports.finds_run (loading ∷ v.history) in
      let g = exports.finds_on_stop (finding ∷ loading ∷ v.history) in ground (arith, l, f, g)

  -- A worker of that type is one of a DLL, with the configuration.
  abbrev IsWorkerOf : ServiceConfig → ServiceWorker → Type 0
  IsWorkerOf config worker =
      (w : PureCServiceWorker) × (worker ≡ pure_c_worker w) × Exported config w

  make_worker_of-IsWorkerOf :
      (config : ServiceConfig) (exports : Named config) (v : World) (worker : ServiceWorker)
      (u : World)
      → make_worker_of os essence pure_c config v ≡ (ok worker, u)
      → IsWorkerOf config worker
  unfolding make_worker_of
  make_worker_of-IsWorkerOf config exports v worker u e =
      let (w, x, q, r) =
        >>=-eq-ok (make os essence config) (λ w. pure (pure_c_worker w)) v
          (ap (λ (p : Result ServiceWorker × World). p.0) e) in
      (w, cc (e, r), make-Exported config exports v w x q)

  make_configured-IsWorkerOf :
      (codec : Codec) (config : ServiceConfig) (exports : Named config) (v : World)
      (worker : ServiceWorker) (u : World)
      → config.worker_type ≡ pure_c
      → make_configured os essence codec config v ≡ (ok worker, u)
      → IsWorkerOf config worker
  unfolding make_configured make_service_worker
  make_configured-IsWorkerOf codec config exports v worker u type e =
      let (a, x, q, r) =
        >>=-eq-ok (setup_config os essence codec config true)
          (λ a. make_worker_of os essence config.worker_type config) v
          (ap (λ (p : Result ServiceWorker × World). p.0) e) in
      make_worker_of-IsWorkerOf config exports x worker u
        (ap (λ t. make_worker_of os essence t config x) (sym type) ∙ (sym r ∙ e))

-- A DLL with the sample service that was installed, and from whose registered configuration a worker
-- was then made, is hosted with that configuration: the worker is one of a DLL, with the addresses
-- of the two functions, and the service in a process with this worker ends just where its schedule
-- starts it and calls its `run`, has that set its flag, sends a stop, and lets `run` return and the
-- end be reported, in this order; `run` is called with the configured arguments. The loader finds
-- the DLL at the configured path and the functions by their names; what is asked of the name, the
-- text conversions, the serialisers and the registry is as for `install-load`.
pub install-EndsAs :
    (os : Os) (essence : Essence) (trims : TrimLaws essence) (codec : Codec)
    (reading : ReadsTexts os)
    → (to_string : ℕ → Text) (run_address stop_address : ℕ) (config : ServiceConfig) (v : World)
    → Exports os (essence.to_native_string config.context) run_address stop_address
    → Transcribes essence codec config
    → config.worker_type ≡ pure_c
    → (install os essence codec (new_manager os essence config) v).0 ≡ ok tt
    → (worker : ServiceWorker) (u : World)
    → make_service_worker_from_registry os essence codec
        (essence.to_native_string config.name)
        (install os essence codec (new_manager os essence config) v).1
      ≡ (ok worker, u)
    → (l : List Party) (s : Hosted) → s.process.worker ≡ some worker
    → (w : PureCServiceWorker) × (worker ≡ pure_c_worker w)
      × (w.config ≡ config)
      × EndsAs
          (argv_of w)
          (has_in_order whole_life l)
          (take_steps os essence to_string run_address stop_address l (hosting_of s))
install-EndsAs os essence trims codec reading to_string run_address stop_address config v exports k
      type installed worker u e l s h =
    let (w, a, (b, runs, stops)) =
      make_configured-IsWorkerOf os essence run_address stop_address codec config exports _ worker u
        type (sym (install-load os essence trims codec reading config v k installed) ∙ e) in
    (
      w,
      a,
      b,
      take_steps-EndsAs os essence to_string w run_address stop_address runs stops l s
          (h ∙ ap (λ (x : ServiceWorker). some x) a),
    )
