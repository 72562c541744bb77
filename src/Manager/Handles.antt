-- ===== src/Manager/Handles.antt =====
-- Every handle of the service control manager that `install`, `uninstall` and `installed` open is
-- closed again, on every path.
use svc_hostify.Base.{
  Text, codes, ℕ, ◌≡◌, refl, true, false, Option, none, some, [], ◌∷◌, arith, Option-cases, inl,
  inr,
}
use svc_hostify.Effects.{
  Os, World, Action, Result, ok, err, undefined, continue, delete_service,
  open_service as open_service_call, open_sc_manager, pure, deref, finally, ask_flag, Call,
}
use svc_hostify.Config.{Codec, error_checker}
use svc_hostify.Essence.{Essence}
use svc_hostify.Manager.{
  ServiceManager, close_handle_if, is_some, require, with_scm, open_service, open_service_raise,
  install_created, create_request, install, stop_service, uninstall_opened, uninstall, installed,
}
use svc_hostify.Manager.Keeps.{
  opens_handle, closes_handle, counts, Balanced, Keeps, Keeps-bind, Keeps-when, Keeps-pure,
  Keeps-error_checker, Keeps-set_registry_string, Keeps-register_svchost, Keeps-unregister_svchost,
  Keeps-set_description,
}
use svc_hostify.Manager.Scm.{require-some, require-none, with_scm-some, with_scm-none}

module _ (os : Os) (x : ℕ) (essence : Essence) where
  -- The handles that a result carries out of an action.
  abbrev carried : Result (Option ℕ) → ℕ
  carried (ok handle) = counts x handle
  carried (err e) = 0
  carried undefined = 0

  Keeps-deref : (o : Option ℕ) → Keeps os x (deref o)
  Keeps-deref none = record { apply = λ w. omega arith }
  Keeps-deref (some h) = record { apply = λ w. omega arith }

  Keeps-require :
      (m : ServiceManager) (h : Option ℕ) (t : Text) → Keeps os x (require os essence m h t)
  unfolding require
  Keeps-require m h t =
      Keeps-bind os x (error_checker os essence m.config (is_some h) t) _
        (Keeps-error_checker os x essence m.config (is_some h) t) (λ _. Keeps-deref h)

  with_scm-Balanced :
      (m : ServiceManager) (request : ℕ → Call) (w : World)
      → ((scm : ℕ) → opens_handle (request scm) ≡ true)
      → ((scm : ℕ) → closes_handle x (request scm) ≡ false)
      → Balanced os x w
          (with_scm os essence m request w).1
          (carried (with_scm os essence m request w).0)
  with_scm-Balanced m request w opens closes =
      elim (Option-cases (os.handle w.history open_sc_manager)) [
        | inl e ↦ rw (with_scm-none os essence m request w e) (ground arith)
        | inr (h, e) ↦
            rw (with_scm-some os essence m request w e) (ground (arith, e, opens h, closes h))
      ]

  -- A handle that is carried out of an action and closed behind the next is not left open.
  bind_scoped :
      {A : Type 0} (p : Result (Option ℕ) × World) (f : Option ℕ → Action World A) (w : World)
      → Balanced os x w p.1 (carried p.0)
      → ((h : Option ℕ) → Keeps os x (f h))
      → Balanced os x w (continue (λ h. finally (f h) (close_handle_if h)) p).1 0
  bind_scoped (ok none, v) f w b k = omega (arith, (k none).apply v)
  bind_scoped (ok (some h), v) f w b k = grind (arith, (k (some h)).apply v)
  bind_scoped (err e, v) f w b k = b
  bind_scoped (undefined, v) f w b k = b

  module _ (codec : Codec) where
    Keeps-install_created :
        (m : ServiceManager) (h : Option ℕ) → Keeps os x (install_created os essence codec m h)
    unfolding install_created
    Keeps-install_created m h = search (
      Keeps-bind, Keeps-require, Keeps-set_description, Keeps-when, Keeps-register_svchost,
      Keeps-set_registry_string,
    )

    install-Balanced :
        (m : ServiceManager) (w : World) → Balanced os x w (install os essence codec m w).1 0
    unfolding install create_request
    install-Balanced m w =
        bind_scoped (with_scm os essence m (create_request os essence codec m) w)
          (install_created os essence codec m) w
          (with_scm-Balanced m (create_request os essence codec m) w (λ _. refl) (λ _. refl))
          (Keeps-install_created m)

  bind_required :
      {A : Type 0} (m : ServiceManager) (t : Text) (p : Result (Option ℕ) × World)
      (f : ℕ → Action World A) (w : World)
      → Balanced os x w p.1 (carried p.0)
      → ((h : ℕ) → Keeps os x (f h))
      → Balanced os x w
          (continue
            (λ h. finally (f h) (close_handle_if (some h)))
            (continue (λ o. require os essence m o t) p)).1
          0
  bind_required m t (ok none, v) f w b k = rw (require-none os essence m t v) (omega (arith, b))
  bind_required m t (ok (some h), v) f w b k =
      rw (require-some os essence m h t v) (grind (arith, (k h).apply v))
  bind_required m t (err e, v) f w b k = b
  bind_required m t (undefined, v) f w b k = b

  Keeps-stop_service : (h : ℕ) → Keeps os x (stop_service os essence h)
  unfolding stop_service
  Keeps-stop_service h = record { apply = λ w. ground arith }

  Keeps-delete : (h : ℕ) → Keeps os x (ask_flag os (delete_service h))
  Keeps-delete h = record { apply = λ w. omega arith }

  Keeps-uninstall_opened :
      (m : ServiceManager) (h : ℕ) → Keeps os x (uninstall_opened os essence m h)
  unfolding uninstall_opened
  Keeps-uninstall_opened m h =
      search
        (
          Keeps-bind, Keeps-stop_service, Keeps-error_checker, Keeps-delete, Keeps-when,
          Keeps-unregister_svchost,
        )
        depth 8

  uninstall-Balanced :
      (m : ServiceManager) (w : World) → Balanced os x w (uninstall os essence m w).1 0
  unfolding uninstall open_service_raise open_service
  uninstall-Balanced m w =
      bind_required m (codes "Failed to open the service.")
        (open_service os essence m (codes "SERVICE_STOP" ∷ codes "DELETE" ∷ []) w)
        (uninstall_opened os essence m) w
        (with_scm-Balanced m
          (λ scm. open_service_call scm m.service_name (codes "SERVICE_STOP" ∷ codes "DELETE" ∷ []))
          w (λ _. refl) (λ _. refl))
        (Keeps-uninstall_opened m)

  installed-Balanced :
      (m : ServiceManager) (w : World) → Balanced os x w (installed os essence m w).1 0
  unfolding installed open_service
  installed-Balanced m w =
      bind_scoped (open_service os essence m (codes "SERVICE_QUERY_CONFIG" ∷ []) w)
        (λ o. pure (is_some o)) w
        (with_scm-Balanced m
          (λ scm. open_service_call scm m.service_name (codes "SERVICE_QUERY_CONFIG" ∷ [])) w
          (λ _. refl) (λ _. refl))
        (λ o. Keeps-pure os x (is_some o))

  -- Whatever the calls answer and wherever an exception leaves them, `install`, `uninstall` and
  -- `installed` open each handle of the service control manager as often as they close it.
  pub handles_closed :
      (codec : Codec) (m : ServiceManager) (w : World)
      → Balanced os x w (install os essence codec m w).1 0
        × Balanced os x w (uninstall os essence m w).1 0
        × Balanced os x w (installed os essence m w).1 0
  handles_closed codec m w =
      (install-Balanced codec m w, uninstall-Balanced m w, installed-Balanced m w)
