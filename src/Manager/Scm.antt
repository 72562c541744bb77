-- ===== src/Manager/Scm.antt =====
-- The runs of `ensure_scm` and of one call on its handle.
use svc_hostify.Base.{Text, codes, ℕ, ◌≡◌, refl, ap, ◌∙◌, Option, none, some, [], ◌∷◌}
use svc_hostify.Effects.{
  Os, World, ok, err, Error, formatted, >>=-ok, >>=-err, open_sc_manager, get_last_error,
  close_service_handle, finally, after, ask_handle, Call,
}
use svc_hostify.Config.{error_checker}
use svc_hostify.System.{get_system_error, get_last_error as get_last_error_text}
use svc_hostify.Essence.{Essence}
use svc_hostify.Manager.{ServiceManager, close_handle_if, require, ensure_scm, with_scm}

module _ (os : Os) (essence : Essence) where
  pub require-some :
      (m : ServiceManager) (h : ℕ) (t : Text) (w : World)
      → require os essence m (some h) t w ≡ (ok h, w)
  unfolding require error_checker
  require-some m h t w = refl

  -- The checker's exception.
  abbrev pub checker_error : ServiceManager → Text → World → Error
  checker_error m message w = formatted (
      codes "Name"
      ∷ m.config.name
      ∷ codes "Path"
      ∷ m.config.context
      ∷ codes "Message"
      ∷ message
      ∷ codes "Internal"
      ∷ get_system_error os essence (os.number w.history get_last_error)
      ∷ [])

  pub require-none :
      (m : ServiceManager) (t : Text) (w : World)
      → require os essence m none t w ≡ (err (checker_error m t w), after get_last_error w)
  unfolding require error_checker get_last_error_text
  require-none m t w = refl

  pub ensure_scm-some :
      (m : ServiceManager) (w : World) {h : ℕ}
      → os.handle w.history open_sc_manager ≡ some h
      → ensure_scm os essence m w ≡ (ok h, after open_sc_manager w)
  unfolding ensure_scm
  ensure_scm-some m w {h} e =
      ap
        (λ (o : Option ℕ).
          require os essence m o (codes "Failed open the Service Control Manager.")
            (after open_sc_manager w))
        e
      ∙ require-some m h _ _

  pub ensure_scm-none :
      (m : ServiceManager) (w : World)
      → os.handle w.history open_sc_manager ≡ none
      → ensure_scm os essence m w ≡ (
        err (
            checker_error m
              (codes "Failed open the Service Control Manager.")
              (after open_sc_manager w)),
        after get_last_error (after open_sc_manager w),
      )
  unfolding ensure_scm
  ensure_scm-none m w e =
      ap
        (λ (o : Option ℕ).
          require os essence m o (codes "Failed open the Service Control Manager.")
            (after open_sc_manager w))
        e
      ∙ require-none m _ _

  pub with_scm-some :
      (m : ServiceManager) (request : ℕ → Call) (w : World) {h : ℕ}
      → os.handle w.history open_sc_manager ≡ some h
      → with_scm os essence m request w ≡ (
        ok (os.handle (open_sc_manager ∷ w.history) (request h)),
        after (close_service_handle h) (after (request h) (after open_sc_manager w)),
      )
  unfolding with_scm
  with_scm-some m request w e =
      >>=-ok (ensure_scm os essence m)
        (λ scm. finally (ask_handle os (request scm)) (close_handle_if (some scm))) w
        (ensure_scm-some m w e)

  pub with_scm-none :
      (m : ServiceManager) (request : ℕ → Call) (w : World)
      → os.handle w.history open_sc_manager ≡ none
      → with_scm os essence m request w ≡ (
        err (
            checker_error m
              (codes "Failed open the Service Control Manager.")
              (after open_sc_manager w)),
        after get_last_error (after open_sc_manager w),
      )
  unfolding with_scm
  with_scm-none m request w e =
      >>=-err (ensure_scm os essence m)
        (λ scm. finally (ask_handle os (request scm)) (close_handle_if (some scm))) w
        (ensure_scm-none m w e)
