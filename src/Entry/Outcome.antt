-- ===== src/Entry/Outcome.antt =====
-- How the exported functions of src/main.cpp end.
use svc_hostify.Base.{
  Text, codes, ℕ, ◌==◌, ◌≡◌, ◌≢◌, refl, sym, ap, ◌∙◌, Bool, true, false, not, some, List, [], ◌∷◌,
  arith,
}
use svc_hostify.Effects.{
  Os, Action, ok, err, undefined, Result, handle_error, ◌>>=◌, ◌>>◌, >>=-eq-ok, EndsIn, EndsIn-bind,
  EndsIn-self, Error, formatted, throw_if, call, start_ctrl_dispatcher, ServiceStatus,
}
use svc_hostify.Config.{Codec}
use svc_hostify.Essence.{Essence}
use svc_hostify.ConfigSetup.{shutdown_logger}
use svc_hostify.Util.{current_session_id}
use svc_hostify.Worker.{ServiceWorker, make_service_worker_from_registry}
use svc_hostify.Process.{
  Hosted, on_world, init, run, start, report_stopped, report_status, set_status,
  register_control_handler,
}
use svc_hostify.Process.Reports.{reports}
use svc_hostify.Process.Threads.{is_stopped}
use svc_hostify.Entry.{host_service, give_up, service_main}

-- Whether the newest report is that of a stopped service.
abbrev pub ends_stopped : List ServiceStatus → Bool
ends_stopped [] = false
ends_stopped (s ∷ l) = is_stopped s.current_state

abbrev pub EndsStopped : Hosted → Type 0
EndsStopped s = ends_stopped (reports s.world.history) ≡ true

report_stopped-EndsStopped : (s : Hosted) → EndsStopped (report_stopped s).1
unfolding report_stopped report_status set_status
report_stopped-EndsStopped s = refl

module _ (os : Os) (essence : Essence) where
  start-EndsIn : EndsIn report_stopped (start os essence)
  unfolding start
  start-EndsIn = search (EndsIn-bind, EndsIn-self)

  abbrev pub emplace : ServiceWorker → Hosted → Hosted
  emplace worker s = record s { process = record s.process { worker = some worker } }

  run-start :
      (worker : ServiceWorker) (s : Hosted)
      → s.process.standalone ≡ false
      → run os essence worker s ≡ start os essence (emplace worker s)
  unfolding run
  run-start worker s shared =
      ap
        (λ (b : Bool).
          (elim b as (λ b. Action Hosted (Unit {0})) [
            | true ↦ on_world (call (start_ctrl_dispatcher s.process.service_name))
            | false ↦ start os essence
          ])
            (emplace worker s))
        shared

  run-EndsStopped :
      (worker : ServiceWorker) (s : Hosted)
      → s.process.standalone ≡ false
      → (run os essence worker s).0 ≡ ok tt
      → EndsStopped (run os essence worker s).1
  run-EndsStopped worker s shared h =
      let e = run-start worker s shared in
      let (v, q) = start-EndsIn.apply (emplace worker s) tt (rw e at h) in
      rw (e, q) (report_stopped-EndsStopped v)

  module _ (codec : Codec) where
    give_up-EndsStopped : (ex : Error) (s : Hosted) → EndsStopped (give_up os essence codec ex s).1
    unfolding give_up report_stopped report_status set_status
    give_up-EndsStopped ex s = refl

    init-standalone :
        (name : Text) (s : Hosted) → (init os name s).1.process.standalone ≡ s.process.standalone
    unfolding init register_control_handler
    init-standalone name s = ground arith

    -- The chain behind `init`.
    abbrev pub make_and_run : Text → Action Hosted (Unit {0})
    make_and_run name = do
      worker ← on_world (make_service_worker_from_registry os essence codec name)
      run os essence worker

    make_and_run-EndsStopped :
        (name : Text) (s : Hosted)
        → s.process.standalone ≡ false
        → (make_and_run name s).0 ≡ ok tt
        → EndsStopped (make_and_run name s).1
    make_and_run-EndsStopped name s shared h =
        let (worker, v, e, q) =
          >>=-eq-ok (on_world (make_service_worker_from_registry os essence codec name))
            (run os essence) s h in
        rw q
          (run-EndsStopped worker v (ap (λ p. p.1.process.standalone) (sym e) ∙ shared) (rw q at h))

    initialised-EndsStopped :
        (name : Text) (s : Hosted)
        → s.process.standalone ≡ false
        → ((init os name >> make_and_run name) s).0 ≡ ok tt
        → EndsStopped ((init os name >> make_and_run name) s).1
    initialised-EndsStopped name s shared h =
        let (u, v, e, q) = >>=-eq-ok (init os name) (λ u. make_and_run name) s h in
        rw q (
          make_and_run-EndsStopped name v
            (ap (λ p. p.1.process.standalone) (sym e) ∙ (init-standalone name s ∙ shared))
            (rw q at h))

    checked-EndsStopped :
        (wrong : Bool) (failed : Error) (name : Text) (s : Hosted)
        → s.process.standalone ≡ false
        → ((throw_if wrong failed >> (init os name >> make_and_run name)) s).0 ≡ ok tt
        → EndsStopped ((throw_if wrong failed >> (init os name >> make_and_run name)) s).1
    checked-EndsStopped true failed name s shared h = cc
    checked-EndsStopped false failed name s shared h = initialised-EndsStopped name s shared h

    host_service-EndsStopped :
        (name : Text) (s : Hosted)
        → s.process.standalone ≡ false
        → (host_service os essence codec name s).0 ≡ ok tt
        → EndsStopped (host_service os essence codec name s).1
    unfolding host_service
    host_service-EndsStopped name s shared h =
        let (id, v, e, q) =
          >>=-eq-ok (on_world (current_session_id os))
            (λ (id : ℕ). do
              throw_if (not (id == 0))
                  (formatted (codes "The program can only be running in service mode." ∷ []))
              init os name
              make_and_run name)
            s h in
        rw q (
          checked-EndsStopped (not (id == 0)) _ name v
            (ap (λ p. p.1.process.standalone) (sym e) ∙ shared) (rw q at h))

    -- In a process of svchost.exe, a run of `ServiceMain` that reads no empty optional ends with
    -- the report of a stopped service, whether the session is wrong, the configuration is missing
    -- or broken, the worker fails to be made, to start or to run, or ends by itself.
    pub service_main-EndsStopped :
        (name : Text) (s : Hosted)
        → s.process.standalone ≡ false
        → (service_main os essence codec name s).0 ≢ undefined
        → EndsStopped (service_main os essence codec name s).1
    unfolding service_main shutdown_logger
    service_main-EndsStopped name s shared =
        by_result (host_service os essence codec name s) (host_service-EndsStopped name s shared)
      where
        by_result :
            (p : Result (Unit {0}) × Hosted)
            → (p.0 ≡ ok tt → EndsStopped p.1)
            → (handle_error (give_up os essence codec) p).0 ≢ undefined
            → EndsStopped (handle_error (give_up os essence codec) p).1
        by_result (ok tt, t) k h = k refl
        by_result (err e, t) k h = give_up-EndsStopped e t
        by_result (undefined, t) k h = absurd (h refl)
