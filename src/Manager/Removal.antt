-- ===== src/Manager/Removal.antt =====
-- What `uninstall` leaves in the registry of a service in svchost.exe.
use svc_hostify.Base.{
  Text, codes, ℕ, ◌≡◌, refl, sym, ap, ◌∙◌, ◌⊎◌, inl, inr, Bool, false, not, none, some, [], ◌∷◌,
}
use svc_hostify.Effects.{
  Os, World, Action, Result, ok, err, undefined, ◌>>◌, >>=-ok, >>=-eq-ok, handle_error, EndsIn,
  EndsIn-bind, EndsIn-self, when, finally, after, call, log, warn, close_service_handle,
  local_machine, Error,
}
use svc_hostify.Config.{ServiceConfig}
use svc_hostify.Essence.{Essence}
use svc_hostify.Registry.{
  c_str, decompose_registry_path, delete_registry_tree, delete_registry_value, delete_tree_at,
  delete_value_at,
}
use svc_hostify.Registry.Paths.{TrimLaws}
use svc_hostify.Registry.Store.{stored}
use svc_hostify.Registry.Deletes.{
  delete_tree_at-stored, delete_value_at-stored, delete_value_at-none,
}
use svc_hostify.Manager.{
  ServiceManager, new_manager, svchost_key, unregister_svchost, uninstall, uninstall_opened,
  open_service_raise, close_handle_if,
}
use svc_hostify.Manager.Store.{IsPlainName, stored_closed}
use svc_hostify.Manager.Keys.{
  DigestLaws, svchost_sub_key, group_sub_key, decompose-svchost_key, decompose-group_key,
}

module _ (os : Os) (essence : Essence) (trims : TrimLaws essence) (digests : DigestLaws essence)
    (config : ServiceConfig) (plain : IsPlainName config.name) where
  abbrev pub manager : ServiceManager
  manager = new_manager os essence config

  -- The group has no value of this name, and is not among the groups of svchost.exe.
  abbrev pub Removed : Text → World → Type 0
  Removed name w =
      (stored os w.history local_machine
          (c_str (essence.to_native_string (group_sub_key essence digests config.name))) name
        ≡ none)
      × (stored os w.history local_machine (c_str (essence.to_native_string svchost_sub_key))
            (c_str (essence.to_native_string manager.group_name))
          ≡ none)

  -- The last call was a warning.
  abbrev pub Warned : World → Type 0
  Warned w = (message : Text) × (v : World) × (w ≡ after (log warn message) v)

  delete_group :
      (w : World)
      → delete_registry_tree os essence manager.group_key w
        ≡ delete_tree_at os essence manager.group_key local_machine
            (essence.to_native_string (group_sub_key essence digests config.name))
            w
  unfolding delete_registry_tree
  delete_group w =
      >>=-ok (decompose_registry_path os essence manager.group_key)
        (λ r. delete_tree_at os essence manager.group_key r.0 r.1) w
        (decompose-group_key essence digests os trims config w plain)

  delete_name :
      (w : World)
      → delete_registry_value os essence svchost_key manager.group_name w
        ≡ delete_value_at os essence svchost_key manager.group_name local_machine
            (essence.to_native_string svchost_sub_key)
            w
  unfolding delete_registry_value
  delete_name w =
      >>=-ok (decompose_registry_path os essence svchost_key)
        (λ r. delete_value_at os essence svchost_key manager.group_name r.0 r.1) w
        (decompose-svchost_key essence digests os trims w)

  abbrev deletes : Action World (Unit {0})
  deletes =
      delete_registry_tree os essence manager.group_key
      >> delete_registry_value os essence svchost_key manager.group_name

  deletes-Removed : (name : Text) (w : World) → (deletes w).0 ≡ ok tt → Removed name (deletes w).1
  deletes-Removed name w h =
      let (u, v, e, q) =
        >>=-eq-ok (delete_registry_tree os essence manager.group_key)
          (λ u. delete_registry_value os essence svchost_key manager.group_name) w h in
      let run = sym (delete_group w) ∙ e in
      let tree =
        delete_tree_at-stored os essence manager.group_key local_machine
          (essence.to_native_string (group_sub_key essence digests config.name)) name w
          (ap (λ p. p.0) run) in
      let last = q ∙ delete_name v in
      rw last (
        delete_value_at-none os essence svchost_key manager.group_name local_machine
            (essence.to_native_string svchost_sub_key) local_machine _ name v (rw run at tree),
        delete_value_at-stored os essence svchost_key manager.group_name local_machine
            (essence.to_native_string svchost_sub_key) v (rw last at h),
      )

  abbrev warn_of : Error → Action World (Unit {0})
  warn_of e = call (log warn (essence.what e))

  unregister_svchost-Removed :
      (name : Text) (w : World)
      → (unregister_svchost os essence manager w).0 ≡ ok tt
      → Removed name (unregister_svchost os essence manager w).1
        ⊎ Warned (unregister_svchost os essence manager w).1
  unfolding unregister_svchost
  unregister_svchost-Removed name w h = by_result (deletes w) (deletes-Removed name w) h
    where
      by_result :
          (p : Result (Unit {0}) × World)
          → (p.0 ≡ ok tt → Removed name p.1)
          → (handle_error warn_of p).0 ≡ ok tt
          → Removed name (handle_error warn_of p).1 ⊎ Warned (handle_error warn_of p).1
      by_result (ok tt, v) k e = inl (k refl)
      by_result (err x, v) k e = inr (essence.what x, v, refl)
      by_result (undefined, v) k e = cc

  unfoldable unregister_when : Action World (Unit {0})
  unregister_when = when (not manager.standalone) (unregister_svchost os essence manager)

  uninstall_opened-EndsIn :
      (handle : ℕ) → EndsIn unregister_when (uninstall_opened os essence manager handle)
  unfolding uninstall_opened unregister_when
  uninstall_opened-EndsIn handle = search (EndsIn-bind, EndsIn-self)

  unregister_when-shared :
      (w : World)
      → manager.standalone ≡ false
      → unregister_when w ≡ unregister_svchost os essence manager w
  unfolding unregister_when
  unregister_when-shared w shared =
      ap (λ (b : Bool). when (not b) (unregister_svchost os essence manager) w) shared

  -- The last call but one was a warning: behind it, the service's handle was closed.
  abbrev pub WarnedAndClosed : World → Type 0
  WarnedAndClosed w =
      (handle : ℕ) × (v : World) × (w ≡ after (close_service_handle handle) v) × Warned v

  opened-Removed :
      (name : Text) (handle : ℕ) (w : World)
      → manager.standalone ≡ false
      → (uninstall_opened os essence manager handle w).0 ≡ ok tt
      → Removed name (uninstall_opened os essence manager handle w).1
        ⊎ Warned (uninstall_opened os essence manager handle w).1
  opened-Removed name handle w shared h =
      let (v, q) = (uninstall_opened-EndsIn handle).apply w tt h in
      let e = q ∙ unregister_when-shared v shared in
      rw e (unregister_svchost-Removed name v (rw e at h))

  closed-Removed :
      (name : Text) (handle : ℕ) (w : World)
      → Removed name w ⊎ Warned w
      → Removed name (close_handle_if (some handle) w)
        ⊎ WarnedAndClosed (close_handle_if (some handle) w)
  closed-Removed name handle w (inl (a, b)) = inl (
    stored_closed os (some handle) w local_machine _ name ∙ a,
    stored_closed os (some handle) w local_machine _ _ ∙ b,
  )
  closed-Removed name handle w (inr warned) = inr (handle, w, refl, warned)

  -- An `uninstall` of a service in svchost.exe that returns leaves no value in the key of its group
  -- and no entry for the group among those of svchost.exe, or it has logged a warning and closed the
  -- service's handle as its last calls. The name of the service has no `/` and no NUL.
  pub uninstall-Removed :
      (name : Text) (w : World)
      → manager.standalone ≡ false
      → (uninstall os essence manager w).0 ≡ ok tt
      → Removed name (uninstall os essence manager w).1
        ⊎ WarnedAndClosed (uninstall os essence manager w).1
  unfolding uninstall
  uninstall-Removed name w shared h =
      let (handle, v, e, q) =
        >>=-eq-ok
          (open_service_raise os essence manager (codes "SERVICE_STOP" ∷ codes "DELETE" ∷ []))
          (λ handle.
            finally (uninstall_opened os essence manager handle) (close_handle_if (some handle)))
          w h in
      rw q (
        closed-Removed name handle (uninstall_opened os essence manager handle v).1
          (opened-Removed name handle v shared (rw q at h)))
