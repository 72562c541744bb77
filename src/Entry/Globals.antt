-- ===== src/Entry/Globals.antt =====
-- `SvchostPushServiceGlobals` and `ServiceMain`, as svchost.exe calls them on the static process
-- object.
use svc_hostify.Base.{Text, Bool, true, false, ◌≡◌, refl, Option}
use svc_hostify.Effects.{Os, World, Action, throw_if, catch, finally, Error}
use svc_hostify.Essence.{Essence}
use svc_hostify.Config.{Codec}
use svc_hostify.ConfigSetup.{shutdown_logger}
use svc_hostify.Process.{Hosted, SvchostGlobalData, on_world, set_global_data}
use svc_hostify.Process.Instance.{Library, instance_of, forward, svchost_push_service_globals}
use svc_hostify.Process.Instance.Globals.{
  Retains, Retains-bind, Retains-catch, Retains-on_world, Retains-report_stopped, Retains-init,
  Retains-run,
}
use svc_hostify.Entry.{host_service, give_up, service_main}

Retains-throw_if : (wrong : Bool) (e : Error) → Retains (throw_if wrong e)
Retains-throw_if true e = record { apply = λ s. refl }
Retains-throw_if false e = record { apply = λ s. refl }

Retains-finally :
    {A : Type 0} (m : Action Hosted A) (k : Action World (Unit {0}))
    → Retains m
    → Retains (finally m (λ s. (on_world k s).1))
Retains-finally m k r = record { apply = λ s. r.apply s }

module _ (os : Os) (essence : Essence) (codec : Codec) where
  Retains-host_service : (name : Text) → Retains (host_service os essence codec name)
  unfolding host_service
  Retains-host_service name =
      search (Retains-bind, Retains-on_world, Retains-throw_if, Retains-init, Retains-run)

  Retains-give_up : (ex : Error) → Retains (give_up os essence codec ex)
  unfolding give_up
  Retains-give_up ex = search (Retains-bind, Retains-on_world, Retains-report_stopped)

  Retains-service_main : (name : Text) → Retains (service_main os essence codec name)
  unfolding service_main
  Retains-service_main name =
      Retains-finally (catch (host_service os essence codec name) (give_up os essence codec))
        shutdown_logger
        (Retains-catch (host_service os essence codec name) (give_up os essence codec)
          (Retains-host_service name) Retains-give_up)

  -- The process object has the data that svchost.exe pushes when `ServiceMain` is called, and has
  -- them when it has ended, also where the object is made by the push, and however it ends.
  pub push-service_main :
      (global_data : Option SvchostGlobalData) (name : Text) (l : Library)
      → let u = (svchost_push_service_globals os essence global_data l).1 in
        let v = (forward os essence (service_main os essence codec name) u).1 in
        ((instance_of os essence u.process).global_data ≡ global_data)
        × ((instance_of os essence v.process).global_data ≡ global_data)
  unfolding svchost_push_service_globals forward instance_of set_global_data
  push-service_main global_data name l = (refl, (Retains-service_main name).apply _)
