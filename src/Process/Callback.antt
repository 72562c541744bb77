-- ===== src/Process/Callback.antt =====
-- What the dispatcher calls in a process of its own, where nothing catches an exception.
use svc_hostify.Base.{ap, sym, ◌≡◌, ◌∙◌, ◌⊎◌, inl, inr}
use svc_hostify.Effects.{Os, Action, ok, err, Error, ◌>>◌, >>=-eq-err, start_pending, running}
use svc_hostify.Essence.{Essence}
use svc_hostify.Process.{
  Hosted, pending_wait_hint, begin_start, start_worker, report_running, run_business,
  report_stopped, report_status, set_status, register_control_handler, start, service_main,
}
use svc_hostify.Process.Reports.{view, announce}
use svc_hostify.Process.Views.{Quiet-start_worker, Quiet-run_business}

module _ (os : Os) (essence : Essence) where
  abbrev serve : Action Hosted (Unit {0})
  serve = run_business os essence >> report_stopped

  abbrev announce_and_serve : Action Hosted (Unit {0})
  announce_and_serve = report_running os essence >> serve

  -- `report_stopped` does not throw.
  serve-err :
      (s t : Hosted) (e : Error) → serve s ≡ (err e, t) → run_business os essence s ≡ (err e, t)
  unfolding report_stopped report_status
  serve-err s t e h = elim (>>=-eq-err (run_business os essence) (λ u. report_stopped) s h) [
    | inl q ↦ q
    | inr (a, v, q, r) ↦ absurd (cc)
  ]

  -- Where `service_main` throws, which its caller does not catch, it is never reported that the
  -- service has stopped: the exception is that of the worker's `on_start`, and the last report is
  -- that the start is pending, or that of its `run`, and the last report is that the service is
  -- running.
  pub service_main-err :
      (s t : Hosted) (e : Error)
      → service_main os essence s ≡ (err e, t)
      → let begun = (begin_start os essence s).1 in
        ((start_worker os essence begun ≡ (err e, t))
          × (view t ≡ announce start_pending pending_wait_hint (view s)))
        ⊎ ((v : Hosted) × (start_worker os essence begun ≡ (ok tt, v))
            × (run_business os essence (report_running os essence v).1 ≡ (err e, t))
            × (view t ≡ announce running 0 (announce start_pending pending_wait_hint (view s))))
  unfolding service_main start begin_start register_control_handler report_running report_status
      set_status
  service_main-err s t e h =
      let begun = (begin_start os essence s).1 in
      elim (>>=-eq-err (start_worker os essence) (λ u. announce_and_serve) begun h) [
        | inl q ↦ inl (q, ap (λ p. view p.1) (sym q) ∙ (Quiet-start_worker os essence).apply begun)
        | inr (a, v, q, r) ↦
            (let broken = serve-err (report_running os essence v).1 t e r in
              inr (
                v,
                q,
                broken,
                ap (λ p. view p.1) (sym broken)
                    ∙ ((Quiet-run_business os essence).apply (report_running os essence v).1
                        ∙ ap (announce running 0) (
                            ap (λ p. view p.1) (sym q)
                            ∙ (Quiet-start_worker os essence).apply begun)),
              ))
      ]
