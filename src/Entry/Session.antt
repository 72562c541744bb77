-- ===== src/Entry/Session.antt =====
-- `ServiceMain` of src/main.cpp outside the session of the services.
use svc_hostify.Base.{Text, codes, ℕ, ◌^◌, ◌-◌, ◌≡◌, ◌≢◌, [], ◌∷◌, arith, if◌then◌else◌}
use svc_hostify.Effects.{
  Os, ok, Error, formatted, get_session_id, log, info, error, output_debug_string,
  set_service_status, flush_log, stopped, ServiceStatus,
}
use svc_hostify.Essence.{Essence}
use svc_hostify.Config.{Codec}
use svc_hostify.ConfigSetup.{shutdown_logger}
use svc_hostify.Util.{current_session_id}
use svc_hostify.Process.{Hosted, report_stopped, report_status, set_status}
use svc_hostify.Entry.{host_service, give_up, service_main}

abbrev pub wrong_session : Error
wrong_session = formatted (codes "The program can only be running in service mode." ∷ [])

-- The status of a service that has stopped.
abbrev pub stopped_status : Hosted → ServiceStatus
stopped_status s = record {
  service_type = s.process.status.service_type;
  current_state = stopped;
  controls_accepted = 1;
  check_point = 0;
  wait_hint = 0;
}

module _ (os : Os) (essence : Essence) (codec : Codec) where
  -- The number of the session.
  abbrev pub session_of : Hosted → ℕ
  session_of s =
      if os.flag s.world.history get_session_id
      then os.size s.world.history get_session_id
      else 2 ^ 32 - 1

  -- In a session that is not that of the services, and where the session is not found, `ServiceMain`
  -- returns and only logs the error and reports that the service has stopped: it registers no
  -- handler, reads no configuration and makes no worker.
  pub service_main-wrong_session :
      (name : Text) (s : Hosted)
      → session_of s ≢ 0
      → ((service_main os essence codec name s).0 ≡ ok tt)
        × ((service_main os essence codec name s).1.world.history
            ≡ flush_log
              ∷ log info (codes "The service has stopped.")
              ∷ set_service_status s.process.status_handle (stopped_status s)
              ∷ output_debug_string (essence.to_native_string (essence.what wrong_session))
              ∷ log error (essence.what wrong_session)
              ∷ get_session_id
              ∷ s.world.history)
  unfolding service_main host_service give_up shutdown_logger report_stopped report_status
      set_status current_session_id
  service_main-wrong_session name s wrong = (ground arith, ground arith)
