-- ===== src/Process/Definedness.antt =====
-- The worker of src/service_process.cpp is there whenever a method of it is called.
use mathlib.Core.Path.{subst}
use svc_hostify.Base.{Text, codes, ◌≡◌, ◌≢◌, refl, sym, Bool, true, false, Option, some, arith}
use svc_hostify.Effects.{
  Os, World, Action, Result, ok, err, undefined, continue, handle_error, ◌>>=◌, ◌>>◌, deref, catch,
  when, call, register_stop_callback,
}
use svc_hostify.Effects.Yields.{Total, Total-of_ne, Total-ne-undefined}
use svc_hostify.Essence.{Essence}
use svc_hostify.Worker as W
use svc_hostify.Worker.{ServiceWorker, executable_worker, pure_c_worker, com_worker, jvm_worker}
use svc_hostify.Worker.Executable as Executable
use svc_hostify.Worker.PureC as PureC
use svc_hostify.Worker.Com as Com
use svc_hostify.Worker.Jvm as Jvm
use svc_hostify.Process.{
  Hosted, on_world, keep_worker, throw_nested, the_worker, stop_callback_of, run_business,
  start_worker, report_stopped, report_running, report_status, set_status, begin_start,
  register_control_handler, start,
}

-- Where an action succeeds, the process has a worker, and it reads no empty optional.
abbrev pub HasWorker : Result (Unit {0}) × Hosted → Type 0
HasWorker (ok u, t) = (w : ServiceWorker) × (t.process.worker ≡ some w)
HasWorker (err e, t) = Unit
HasWorker (undefined, t) = ⊥

pub HasWorker-ne-undefined : (p : Result (Unit {0}) × Hosted) → HasWorker p → p.0 ≢ undefined
HasWorker-ne-undefined (ok u, t) h = λ e. cc
HasWorker-ne-undefined (err x, t) h = λ e. cc
HasWorker-ne-undefined (undefined, t) h = absurd h

module _ (os : Os) (essence : Essence) where
  Total-on_start : (w : ServiceWorker) → Total (W.on_start os essence w)
  unfolding W.on_start Executable.on_start
  Total-on_start (executable_worker w) = Total-of_ne _ (λ v. ground arith)
  Total-on_start (pure_c_worker w) = Total-of_ne _ (λ v. ground arith)
  Total-on_start (com_worker w) = Total-of_ne _ (λ v. ground arith)
  Total-on_start (jvm_worker w) = Total-of_ne _ (λ v. ground arith)

  Total-run : (w : ServiceWorker) → Total (W.run os essence w)
  unfolding W.run Executable.run PureC.run Com.run Com.make_args Com.check_com_error Jvm.run
      Jvm.handle_java_exception
  Total-run (executable_worker w) = Total-of_ne _ (λ v. ground arith)
  Total-run (pure_c_worker w) = Total-of_ne _ (λ v. ground arith)
  Total-run (com_worker w) = Total-of_ne _ (λ v. ground arith)
  Total-run (jvm_worker w) = Total-of_ne _ (λ v. ground arith)

  -- A method that leaves a worker, whose exceptions are thrown again.
  abbrev keep : Text → Hosted → Result ServiceWorker × World → Result (Unit {0}) × Hosted
  keep message s p =
      handle_error (throw_nested message) (continue keep_worker (p.0, record s { world = p.1 }))

  keep-HasWorker :
      (message : Text) (s : Hosted) (p : Result ServiceWorker × World)
      → p.0 ≢ undefined
      → HasWorker (keep message s p)
  keep-HasWorker message s (ok w, v) h = (w, refl)
  keep-HasWorker message s (err e, v) h = tt
  keep-HasWorker message s (undefined, v) h = absurd (h refl)

  abbrev attempt :
      Text
      → (ServiceWorker → Action World ServiceWorker)
      → Option ServiceWorker
      → Action Hosted (Unit {0})
  attempt message method o s =
      handle_error (throw_nested message)
        (continue (λ w. on_world (method w) >>= keep_worker) ((deref o) s))

  -- The worker's method, by the service process.
  abbrev through_worker : (ServiceWorker → Action World ServiceWorker) → Action Hosted (Unit {0})
  through_worker method = do
    worker ← the_worker
    result ← on_world (method worker)
    keep_worker result

  through_worker-HasWorker :
      (message : Text) (method : ServiceWorker → Action World ServiceWorker)
      → ((w : ServiceWorker) → Total (method w))
      → (s : Hosted) (w : ServiceWorker) → s.process.worker ≡ some w
      → HasWorker (catch (through_worker method) (throw_nested message) s)
  through_worker-HasWorker message method total s w h =
      subst (λ (o : Option ServiceWorker). HasWorker (attempt message method o s)) (sym h)
        (keep-HasWorker message s (method w s.world)
          (Total-ne-undefined (method w) (total w) s.world))

  -- A process that has a worker starts it without reading an empty optional, and keeps one.
  pub start_worker-HasWorker :
      (s : Hosted) (w : ServiceWorker)
      → s.process.worker ≡ some w
      → HasWorker (start_worker os essence s)
  unfolding start_worker
  start_worker-HasWorker s w h =
      through_worker-HasWorker (codes "Failed to start the service.") (W.on_start os essence)
        Total-on_start s w h

  -- And runs it.
  pub run_business-HasWorker :
      (s : Hosted) (w : ServiceWorker)
      → s.process.worker ≡ some w
      → HasWorker (run_business os essence s)
  unfolding run_business
  run_business-HasWorker s w h = by_flag (stop_callback_of s.process.global_data)
    where
      by_flag :
          (b : Bool)
          → HasWorker (
              catch
                (when b (on_world (call (register_stop_callback s.process.service_name)))
                  >> through_worker (W.run os essence))
                (throw_nested (codes "An error occurred during the service running."))
                s)
      by_flag true = through_worker-HasWorker _ (W.run os essence) Total-run _ w h
      by_flag false = through_worker-HasWorker _ (W.run os essence) Total-run s w h

  HasWorker-bind :
      (f : Action Hosted (Unit {0})) (p : Result (Unit {0}) × Hosted)
      → HasWorker p
      → ((t : Hosted) (w : ServiceWorker) → t.process.worker ≡ some w → HasWorker (f t))
      → HasWorker (continue {B = Unit {0}} (λ u. f) p)
  HasWorker-bind f (ok u, t) (w, h) k = k t w h
  HasWorker-bind f (err e, t) h k = tt
  HasWorker-bind f (undefined, t) h k = h

  report_stopped-HasWorker :
      (s : Hosted) (w : ServiceWorker) → s.process.worker ≡ some w → HasWorker (report_stopped s)
  unfolding report_stopped report_status set_status
  report_stopped-HasWorker s w h = (w, h)

  report_running-HasWorker :
      (s : Hosted) (w : ServiceWorker)
      → s.process.worker ≡ some w
      → HasWorker (report_running os essence s)
  unfolding report_running report_status set_status
  report_running-HasWorker s w h = (w, h)

  -- A process that has a worker starts it, runs it and reports that it has stopped, or throws; it
  -- reads no empty optional.
  pub start-HasWorker :
      (s : Hosted) (w : ServiceWorker) → s.process.worker ≡ some w → HasWorker (start os essence s)
  unfolding start begin_start register_control_handler report_status set_status
  start-HasWorker s w h =
      let begun = (begin_start os essence s).1 in
      HasWorker-bind _ (start_worker os essence begun) (start_worker-HasWorker begun w h) λ t v k.
        HasWorker-bind _ (report_running os essence t) (report_running-HasWorker t v k) λ t v k.
          HasWorker-bind _ (run_business os essence t) (run_business-HasWorker t v k)
            report_stopped-HasWorker
