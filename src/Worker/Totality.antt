-- ===== src/Worker/Totality.antt =====
-- Making a worker from the registry reads no empty optional, under the documented behaviour of the
-- calls and for sizes that fit.
use svc_hostify.Base.{
  Text, codes, ℕ, ◌^◌, ◌==◌, leb, not, ◌≡◌, ◌≢◌, refl, sym, Bool, true, false, Option, none, some,
  List, [], ◌∷◌, ◌++◌, Bool-cases, inl, inr, arith,
}
use svc_hostify.Effects.{
  Os, World, Action, Result, ◌>>◌, Call, History, create_instance, call, Hkey, RegType,
  add_dll_directory, log, info, ask_flag, ask_number, ok,
}
use svc_hostify.Effects.Yields.{
  Post, Yields, Total, Yields-bind, Total-bind, Total-pure, Total-when, Total-of_ne, Yields-run,
  Total-throw,
}
use svc_hostify.Config.{
  ServiceConfig, ServiceWorkerType, Codec, value_or, or_foreign, from_msgpack_base64, executable,
  pure_c, com_server, jvm, nameless,
}
use svc_hostify.Essence.{Essence}
use svc_hostify.FileSize.{parse_file_size, undefined as undefined_size}
use svc_hostify.FileSize.Parse.{ReadsDecimal}
use svc_hostify.ConfigSetup.{
  logger_of, setup_logger, setup_config, parse_logger_config, store_logger, open_dispatcher,
  log_logger, LoggerContext,
}
use svc_hostify.ConfigSetup.Logger.{parse_logger_config-ne-undefined}
use svc_hostify.Util.{add_dll_directories, get_executing_directory}
use svc_hostify.ConfigSetup.Setup.{code, moved, setup_config-moved, setup_config_stuck, log_and_add}
use mathlib.Core.Path.{subst}
use svc_hostify.Registry.{
  c_str, decompose_entry, decompose_registry_path, query_registry, check_registry_error,
  get_registry, get_registry_string,
}
use svc_hostify.Manager.{service_param_key_of, startup_configuration}
use svc_hostify.Worker.{
  make_worker_of, make_service_worker, make_configured, make_decoded,
  make_service_worker_from_registry,
}
use svc_hostify.Worker.Executable as Executable
use svc_hostify.Worker.PureC as PureC
use svc_hostify.Worker.PureC.{load_module, find_function}
use svc_hostify.Worker.Com as Com
use svc_hostify.Worker.Com.{check_com_error}
use svc_hostify.Worker.Jvm as Jvm
use svc_hostify.Worker.Jvm.{ensure_jvm, initialize_jvm, load_jvm, next_class_key}

-- The number in the size of a configuration fits into 64 bits.
abbrev pub SizeFits : Os → Essence → ServiceConfig → Type 0
SizeFits os essence config =
    parse_file_size essence.from_string
      (value_or (logger_of os essence config).max_size (codes "50 MiB"))
    ≢ undefined_size

-- What the registry answers for the configuration of a service.
abbrev pub ask_configuration : Os → Essence → Text → Action World Text
ask_configuration os essence service_name =
    get_registry_string os essence (service_param_key_of (essence.to_utf8_string service_name))
      startup_configuration

-- What `ServiceMain` needs: numbers are read exactly, the size in the configuration that is
-- registered for this service fits, and a call of `CoCreateInstance` that succeeds gives an object.
pub record Answerable (os : Os) (essence : Essence) (codec : Codec) (service_name : Text)
    : Type 0 where
  pub reads_decimal : ReadsDecimal essence.from_string
  pub size_fits :
      (v w : World) (base64 : Text) (bytes : List ℕ) (config : ServiceConfig)
      → ask_configuration os essence service_name v ≡ (ok base64, w)
      → codec.base64_decode base64 ≡ some bytes
      → codec.from_msgpack bytes ≡ some config
      → SizeFits os essence config
  pub gives_object :
      (h : History) (clsid : Text)
      → leb (2 ^ 31) (os.number h (create_instance clsid)) ≡ false
      → os.handle h (create_instance clsid) ≢ none

Yields-or_foreign :
    {S A : Type 0} (P : A → Type 0) (o : Option A) (what : Text)
    → ((a : A) → o ≡ some a → P a)
    → Yields P (or_foreign {S = S} o what)
Yields-or_foreign P none what h = record { apply = λ s. tt }
Yields-or_foreign P (some a) what h = record { apply = λ s. h a refl }

Total-call : (c : Call) → Total (call c)
Total-call c = record { apply = λ s. tt }

module _ (os : Os) (essence : Essence) where
  Total-ask_flag : (c : Call) → Total (ask_flag os c)
  Total-ask_flag c = record { apply = λ s. tt }

  Total-ask_number : (c : Call) → Total (ask_number os c)
  Total-ask_number c = record { apply = λ s. tt }

  Total-add_dll_directories : (l : List Text) → Total (add_dll_directories os essence l)
  unfolding add_dll_directories
  Total-add_dll_directories [] = Total-pure _
  Total-add_dll_directories (item ∷ l) = Total-bind _ _ (Total-ask_flag _) λ found.
      Total-bind _ _
        (Total-when found _ (Total-call (add_dll_directory (essence.to_native_string item))))
        λ u. Total-add_dll_directories l

  Total-decompose_entry :
      (p q r s : Text) (e : Option Hkey) → Total (decompose_entry os essence p q r s e)
  unfolding decompose_entry
  Total-decompose_entry p q r s none = Total-of_ne _ (λ w. ground arith)
  Total-decompose_entry p q r s (some k) = Total-of_ne _ (λ w. ground arith)

  Total-query_registry :
      (capacity : ℕ → ℕ) (path name : Text) (key : Hkey) (sub_key : Text) (flags : RegType)
      → Total (query_registry os essence capacity path name key sub_key flags)
  unfolding query_registry check_registry_error
  Total-query_registry capacity path name key sub_key flags = Total-of_ne _ (λ w. ground arith)

  Total-get_registry_string : (path name : Text) → Total (get_registry_string os essence path name)
  unfolding get_registry_string get_registry decompose_registry_path
  Total-get_registry_string path name =
      Total-bind _ _
        (Total-bind _ _ (Total-decompose_entry _ _ _ _ _)
          λ r. Total-query_registry _ path name r.0 r.1 _)
        λ bytes. Total-pure _

  Total-executable : (config : ServiceConfig) → Total (Executable.make os essence config)
  unfolding Executable.make
  Total-executable config = Total-of_ne _ (λ w. ground arith)

  Total-pure_c : (config : ServiceConfig) → Total (PureC.make os essence config)
  unfolding PureC.make load_module find_function
  Total-pure_c config = Total-of_ne _ (λ w. ground arith)

  Total-jvm : (config : ServiceConfig) → Total (Jvm.make os essence config)
  unfolding Jvm.make ensure_jvm initialize_jvm load_jvm add_dll_directories next_class_key
  Total-jvm config = Total-of_ne _ (λ w. ground arith)

  module _ (codec : Codec) (service_name : Text)
      (k : Answerable os essence codec service_name) where
    Total-com : (config : ServiceConfig) → Total (Com.make os essence config)
    unfolding Com.make check_com_error
    Total-com config = Total-of_ne _ (λ w.
        ground (arith, k.gives_object w.history (c_str (essence.to_native_string config.context))))

    Total-make_worker_of :
        (t : ServiceWorkerType) (config : ServiceConfig)
        → Total (make_worker_of os essence t config)
    unfolding make_worker_of
    Total-make_worker_of executable config =
        Total-bind _ _ (Total-executable config) λ w. Total-pure _
    Total-make_worker_of pure_c config = Total-bind _ _ (Total-pure_c config) λ w. Total-pure _
    Total-make_worker_of com_server config = Total-bind _ _ (Total-com config) λ w. Total-pure _
    Total-make_worker_of nameless config = Total-throw _
    Total-make_worker_of jvm config = Total-bind _ _ (Total-jvm config) λ w. Total-pure _

    Total-make_service_worker :
        (config : ServiceConfig) → Total (make_service_worker os essence config)
    unfolding make_service_worker
    Total-make_service_worker config = Total-make_worker_of config.worker_type config

    Total-or_foreign :
        {A : Type 0} (o : Option A) (what : Text) → Total {S = World} (or_foreign o what)
    Total-or_foreign o what = Yields-or_foreign _ o what (λ a e. tt)

    Total-store_logger :
        (c : LoggerContext) (enable : Bool) → Total (store_logger os essence c enable)
    unfolding store_logger open_dispatcher log_logger
    Total-store_logger c true = Total-of_ne _ (λ w. ground arith)
    Total-store_logger c false = Total-of_ne _ (λ w. ground arith)

    Total-setup_logger :
        (config : ServiceConfig) (enable : Bool)
        → SizeFits os essence config
        → Total (setup_logger os essence config enable)
    unfolding setup_logger
    Total-setup_logger config enable fits =
        Total-bind (parse_logger_config os essence config) _
          (Total-of_ne _
            (λ w. parse_logger_config-ne-undefined os essence config w k.reads_decimal fits))
          λ c. Total-store_logger c enable

    -- What is left of `setup_config` where the working directory could be set.
    abbrev setup_rest : ServiceConfig → Bool → Action World (Unit {0})
    setup_rest config enable =
        setup_logger os essence config enable
        >> log_and_add os essence codec config
            (value_or config.dll_directories [] ++ (get_executing_directory os essence ∷ []))

    Total-setup_rest :
        (config : ServiceConfig) (enable : Bool)
        → SizeFits os essence config
        → Total (setup_rest config enable)
    Total-setup_rest config enable fits =
        Total-bind (setup_logger os essence config enable) _ (Total-setup_logger config enable fits)
          λ u. Total-bind _ _ (Total-or_foreign (codec.dump config) _) λ t.
            Total-bind (call (log info t)) _ (Total-call _) λ u.
              Total-add_dll_directories
                (value_or config.dll_directories [] ++ (get_executing_directory os essence ∷ []))

    Total-setup_config :
        (config : ServiceConfig) (enable : Bool)
        → SizeFits os essence config
        → Total (setup_config os essence codec config enable)
    Total-setup_config config enable fits = record {
      apply = λ w. elim (Bool-cases (not (code os essence codec config enable w == 0))) [
        | inl bad ↦ rw (setup_config_stuck os essence codec config enable w bad) tt
        | inr good ↦
            subst (λ (p : Result (Unit {0}) × World). Post (λ a. Unit {0}) p.0)
              (sym (setup_config-moved os essence codec config enable w good))
              ((Total-setup_rest config enable fits).apply (moved os essence codec config enable w))
      ];
    }

    Yields-from_msgpack_base64 :
        (v w : World) (base64 : Text)
        → ask_configuration os essence service_name v ≡ (ok base64, w)
        → Yields {S = World}
            (λ config. SizeFits os essence config)
            (from_msgpack_base64 codec base64)
    unfolding from_msgpack_base64
    Yields-from_msgpack_base64 v w base64 asked =
        Yields-bind (λ bytes. codec.base64_decode base64 ≡ some bytes) (SizeFits os essence)
          (or_foreign (codec.base64_decode base64) (codes "base64"))
          (λ bytes. or_foreign (codec.from_msgpack bytes) (codes "msgpack"))
          (Yields-or_foreign _ (codec.base64_decode base64) (codes "base64") (λ b e. e))
          λ bytes decoded.
            Yields-or_foreign _ (codec.from_msgpack bytes) (codes "msgpack")
              λ config e. k.size_fits v w base64 bytes config asked decoded e

    -- Making a worker from the registry returns or throws.
    pub Total-make_service_worker_from_registry :
        Total (make_service_worker_from_registry os essence codec service_name)
    unfolding make_service_worker_from_registry make_decoded make_configured
    Total-make_service_worker_from_registry =
        Yields-bind _ _ _ _
          (Yields-run (ask_configuration os essence service_name) (Total-get_registry_string _ _))
          λ base64 (v, w, asked).
            Yields-bind _ _ _ _ (Yields-from_msgpack_base64 v w base64 asked) λ config fits.
              Total-bind _ _ (Total-setup_config config true fits)
                λ u. Total-make_service_worker config
