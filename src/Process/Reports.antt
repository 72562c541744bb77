-- ===== src/Process/Reports.antt =====
-- The status reports that a run of src/service_process.cpp has made, and the calls that make none.
use svc_hostify.Base.{
  ℕ, ◌≡◌, refl, ap, ◌∙◌, Option, none, some, List, [], ◌∷◌, if◌then◌else◌, arith,
}
use svc_hostify.Effects.{
  Os, World, Action, Result, ok, err, undefined, continue, handle_error, ◌>>=◌, Error, pure, deref,
  modify, catch, History, ServiceState, ServiceType, ServiceStatus, set_service_status,
}
use svc_hostify.Essence.{Essence}
use svc_hostify.Worker as W
use svc_hostify.Worker.{ServiceWorker, executable_worker, pure_c_worker, com_worker, jvm_worker}
use svc_hostify.Worker.Executable as Executable
use svc_hostify.Worker.Executable.{ExecutableServiceWorker, close_kernel_handle, wait_for}
use svc_hostify.Worker.PureC as PureC
use svc_hostify.Worker.PureC.{PureCServiceWorker}
use svc_hostify.Worker.Com as Com
use svc_hostify.Worker.Com.{ComServiceWorker}
use svc_hostify.Worker.Jvm as Jvm
use svc_hostify.Worker.Jvm.{JvmServiceWorker}
use svc_hostify.Process.{Hosted, on_world, counts, controls_of, increment, the_worker}

-- The reports of a history, the newest first.
abbrev pub reports : History → List ServiceStatus
reports [] = []
reports (set_service_status handle status ∷ h) = status ∷ reports h
reports (_ ∷ h) = reports h

-- What the service control manager knows of the process, and the counter of the next report.
pub record Reporter : Type 0 where
  pub made : List ServiceStatus
  pub count : ℕ
  pub service_type : ServiceType

abbrev pub view : Hosted → Reporter
view s = record {
  made = reports s.world.history;
  count = s.process.check_point;
  service_type = s.process.status.service_type;
}

-- One report, as the documentation of `SERVICE_STATUS` describes it: the pending states are
-- counted, and the state of a start accepts no control.
abbrev pub announce : ServiceState → ℕ → Reporter → Reporter
announce state hint r =
    let count = if counts state then increment r.count else r.count in
    record r {
      made =
          record {
            service_type = r.service_type;
            current_state = state;
            controls_accepted = controls_of state;
            check_point = if counts state then count else 0;
            wait_hint = hint;
          }
          ∷ r.made;
      count = count;
    }

-- An action of the world that makes no report.
pub record Silent {A : Type 0} (m : Action World A) : Type 0 where
  pub apply : (w : World) → reports (m w).1.history ≡ reports w.history

pub Silent-bind :
    {A B : Type 0} (m : Action World A) (f : A → Action World B)
    → Silent m
    → ((a : A) → Silent (f a))
    → Silent (m >>= f)
Silent-bind {A} {B} m f k l = record { apply = λ w. step (m w) w (k.apply w) }
  where
    step :
        (p : Result A × World) (w : World)
        → reports p.1.history ≡ reports w.history
        → reports (continue f p).1.history ≡ reports w.history
    step (ok a, t) w h = (l a).apply t ∙ h
    step (err e, t) w h = h
    step (undefined, t) w h = h

Silent-close : (o : Option ℕ) → Silent (modify (close_kernel_handle o))
Silent-close none = record { apply = λ w. refl }
Silent-close (some h) = record { apply = λ w. refl }

Silent-wait : (o : Option ℕ) → Silent (wait_for o)
Silent-wait none = record { apply = λ w. refl }
Silent-wait (some h) = record { apply = λ w. refl }

Silent-pure : {A : Type 0} (a : A) → Silent (pure a)
Silent-pure a = record { apply = λ w. refl }

Silent-executable_run : (w : ExecutableServiceWorker) → Silent (Executable.run w)
unfolding Executable.run
Silent-executable_run w = Silent-bind _ _ (Silent-wait w.wrapped_process) λ _.
    Silent-bind _ _ (Silent-close w.wrapped_thread) λ _.
      Silent-bind _ _ (Silent-close w.wrapped_process)
        λ _. Silent-pure (record w { wrapped_thread = none; wrapped_process = none })

Silent-executable_on_stop : (w : ExecutableServiceWorker) → Silent (Executable.on_stop w)
unfolding Executable.on_stop
Silent-executable_on_stop w = record { apply = λ v. ground arith }

module _ (os : Os) (essence : Essence) where
  Silent-executable_on_start :
      (w : ExecutableServiceWorker) → Silent (Executable.on_start os essence w)
  unfolding Executable.on_start
  Silent-executable_on_start w = record {
    apply = λ v.
        ground
          (arith, (Silent-close w.wrapped_thread).apply, (Silent-close w.wrapped_process).apply);
  }

  Silent-com_on_stop : (w : ComServiceWorker) → Silent (Com.on_stop os essence w)
  unfolding Com.on_stop Com.check_com_error
  Silent-com_on_stop w = record { apply = λ v. ground arith }

  Silent-com_run : (w : ComServiceWorker) → Silent (Com.run os essence w)
  unfolding Com.run Com.check_com_error Com.make_args
  Silent-com_run w = record { apply = λ v. ground arith }

  Silent-jvm_on_stop : (w : JvmServiceWorker) → Silent (Jvm.on_stop os essence w)
  unfolding Jvm.on_stop Jvm.handle_java_exception
  Silent-jvm_on_stop w = record { apply = λ v. ground arith }

  Silent-jvm_run : (w : JvmServiceWorker) → Silent (Jvm.run os essence w)
  unfolding Jvm.run Jvm.handle_java_exception
  Silent-jvm_run w = record { apply = λ v. ground arith }

  pub Silent-on_start : (w : ServiceWorker) → Silent (W.on_start os essence w)
  unfolding W.on_start
  Silent-on_start (executable_worker w) =
      Silent-bind _ _ (Silent-executable_on_start w) λ _. Silent-pure _
  Silent-on_start (pure_c_worker w) = Silent-pure _
  Silent-on_start (com_worker w) = Silent-pure _
  Silent-on_start (jvm_worker w) = Silent-pure _

  pub Silent-on_stop : (w : ServiceWorker) → Silent (W.on_stop os essence w)
  unfolding W.on_stop PureC.on_stop
  Silent-on_stop (executable_worker w) = Silent-executable_on_stop w
  Silent-on_stop (pure_c_worker w) = record { apply = λ v. refl }
  Silent-on_stop (com_worker w) = Silent-com_on_stop w
  Silent-on_stop (jvm_worker w) = Silent-jvm_on_stop w

  pub Silent-run : (w : ServiceWorker) → Silent (W.run os essence w)
  unfolding W.run PureC.run
  Silent-run (executable_worker w) = Silent-bind _ _ (Silent-executable_run w) λ _. Silent-pure _
  Silent-run (pure_c_worker w) = record { apply = λ v. ground arith }
  Silent-run (com_worker w) = Silent-bind _ _ (Silent-com_run w) λ _. Silent-pure _
  Silent-run (jvm_worker w) = Silent-bind _ _ (Silent-jvm_run w) λ _. Silent-pure _

-- An action of the process that makes no report.
pub record Quiet {A : Type 0} (m : Action Hosted A) : Type 0 where
  pub apply : (s : Hosted) → view (m s).1 ≡ view s

pub Quiet-bind :
    {A B : Type 0} (m : Action Hosted A) (f : A → Action Hosted B)
    → Quiet m
    → ((a : A) → Quiet (f a))
    → Quiet (m >>= f)
Quiet-bind {A} {B} m f k l = record { apply = λ s. step (m s) s (k.apply s) }
  where
    step : (p : Result A × Hosted) (s : Hosted) → view p.1 ≡ view s → view (continue f p).1 ≡ view s
    step (ok a, t) s h = (l a).apply t ∙ h
    step (err e, t) s h = h
    step (undefined, t) s h = h

pub Quiet-catch :
    {A : Type 0} (m : Action Hosted A) (f : Error → Action Hosted A)
    → Quiet m
    → ((e : Error) → Quiet (f e))
    → Quiet (catch m f)
Quiet-catch {A} m f k l = record { apply = λ s. step (m s) s (k.apply s) }
  where
    step :
        (p : Result A × Hosted) (s : Hosted)
        → view p.1 ≡ view s
        → view (handle_error f p).1 ≡ view s
    step (ok a, t) s h = h
    step (err e, t) s h = (l e).apply t ∙ h
    step (undefined, t) s h = h

pub Quiet-on_world : {A : Type 0} (m : Action World A) → Silent m → Quiet (on_world m)
Quiet-on_world m k = record {
  apply = λ s.
      ap
        (λ (l : List ServiceStatus). record {
          made = l;
          count = s.process.check_point;
          service_type = s.process.status.service_type;
        })
        (k.apply s.world);
}

pub Quiet-the_worker : Quiet the_worker
Quiet-the_worker = record { apply = λ s. by_worker s.process.worker s }
  where
    by_worker : (o : Option ServiceWorker) (s : Hosted) → view ((deref o) s).1 ≡ view s
    by_worker none s = refl
    by_worker (some w) s = refl
