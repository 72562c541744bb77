-- ===== src/Entry/Returns.antt =====
-- `ServiceMain` of src/main.cpp returns.
use svc_hostify.Base.{Text, codes, ℕ, ◌==◌, ◌≡◌, ◌≢◌, refl, Bool, true, false, not, [], ◌∷◌, arith}
use svc_hostify.Effects.{
  Os, World, Action, ok, err, undefined, Result, handle_error, ◌>>◌, Error, formatted, throw_if,
  call, start_ctrl_dispatcher,
}
use svc_hostify.Config.{Codec}
use svc_hostify.Essence.{Essence}
use svc_hostify.ConfigSetup.{shutdown_logger}
use svc_hostify.Util.{current_session_id}
use svc_hostify.Worker.{ServiceWorker, make_service_worker_from_registry}
use svc_hostify.Process.{
  Hosted, on_world, init, run, start, report_stopped, report_status, register_control_handler,
}
use svc_hostify.Effects.Yields.{Post, Total, Total-bind, Total-of_ne, Total-throw_if}
use svc_hostify.Worker.Totality.{Answerable, Total-make_service_worker_from_registry}
use svc_hostify.Process.Definedness.{start-HasWorker, HasWorker-ne-undefined}
use svc_hostify.Entry.{host_service, give_up, service_main}
use svc_hostify.Entry.Outcome.{emplace, make_and_run}

module _ (os : Os) (essence : Essence) (codec : Codec) where
  run-Total : (worker : ServiceWorker) → Total (run os essence worker)
  unfolding run
  run-Total worker = Total-of_ne _ (λ s. by_kind s.process.standalone s)
    where
      by_kind :
          (b : Bool) (s : Hosted)
          → ((elim b as (λ b. Action Hosted (Unit {0})) [
            | true ↦ on_world (call (start_ctrl_dispatcher s.process.service_name))
            | false ↦ start os essence
          ])
              (emplace os essence worker s)).0
            ≢ undefined
      by_kind true s = λ e. cc
      by_kind false s =
          HasWorker-ne-undefined _
            (start-HasWorker os essence (emplace os essence worker s) worker refl)

  Total-on_world : {A : Type 0} (m : Action World A) → Total m → Total (on_world m)
  Total-on_world m k = record { apply = λ s. k.apply s.world }

  init-Total : (name : Text) → Total (init os name)
  unfolding init register_control_handler
  init-Total name = Total-of_ne _ (λ s. ground arith)

  session-Total : Total (current_session_id os)
  unfolding current_session_id
  session-Total = record { apply = λ w. tt }

  module _ (name : Text) (answers : Answerable os essence codec name) where
    make_and_run-Total : Total (make_and_run os essence codec name)
    make_and_run-Total =
        Total-bind (on_world (make_service_worker_from_registry os essence codec name))
          (run os essence)
          (Total-on_world _ (Total-make_service_worker_from_registry os essence codec name answers))
          run-Total

    checked-Total :
        (wrong : Bool) (failed : Error)
        → Total (throw_if wrong failed >> (init os name >> make_and_run os essence codec name))
    checked-Total wrong failed =
        Total-bind (throw_if wrong failed) (λ u. init os name >> make_and_run os essence codec name)
          (Total-throw_if wrong failed)
          λ u.
            Total-bind (init os name) (λ u. make_and_run os essence codec name) (init-Total name)
              λ u. make_and_run-Total

    host_service-Total : Total (host_service os essence codec name)
    unfolding host_service
    host_service-Total =
        Total-bind (on_world (current_session_id os))
          (λ (id : ℕ).
            throw_if (not (id == 0))
              (formatted (codes "The program can only be running in service mode." ∷ []))
            >> (init os name >> make_and_run os essence codec name))
          (Total-on_world _ session-Total) (λ id. checked-Total (not (id == 0)) _)

    give_up-ok : (ex : Error) (s : Hosted) → (give_up os essence codec ex s).0 ≡ ok tt
    unfolding give_up report_stopped report_status
    give_up-ok ex s = refl

    -- Where each call of Windows and of the hosted code returns, so does `ServiceMain`: it lets no
    -- exception out and reads no empty optional, as long as the size in the configuration that is
    -- registered for the service fits into 64 bits, numbers are read exactly, and a
    -- `CoCreateInstance` that succeeds gives an object.
    pub service_main-ok : (s : Hosted) → (service_main os essence codec name s).0 ≡ ok tt
    unfolding service_main shutdown_logger
    service_main-ok s =
        by_result (host_service os essence codec name s) (host_service-Total.apply s)
      where
        by_result :
            (p : Result (Unit {0}) × Hosted)
            → Post (λ u. Unit {0}) p.0
            → (handle_error (give_up os essence codec) p).0 ≡ ok tt
        by_result (ok tt, t) h = refl
        by_result (err e, t) h = give_up-ok e t
        by_result (undefined, t) h = absurd h
