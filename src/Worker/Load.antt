-- ===== src/Worker/Load.antt =====
-- The configuration that a service starts with: what src/service_manager.cpp stores in the registry
-- is what src/service_worker.cpp reads.
use svc_hostify.Base.{Text, codes, length, Option, List, ℕ, ◌≡◌, ap, ◌∙◌, [], ◌∷◌, ◌++◌, Lacks}
use svc_hostify.Effects.{Os, World, ok, >>=-ok, ◌>>=◌, local_machine, reg_sz}
use svc_hostify.Config.{
  ServiceConfig, Codec, ReadsBack, from_msgpack_base64, to_msgpack_base64, or_foreign,
}
use svc_hostify.Essence.{Essence}
use svc_hostify.Registry.{c_str, get_registry_string}
use svc_hostify.Registry.Paths.{TrimLaws}
use svc_hostify.Registry.Wide.{wide_bytes}
use svc_hostify.Registry.Values.{ReadsTexts, queried, get_registry_string-Answers}
use svc_hostify.Manager.{service_param_key_of, new_manager, install}
use svc_hostify.Manager.Store.{
  IsPlainName, param_sub_key, decompose_service_param_key, Stores, install-new_manager-Stores,
}
use svc_hostify.Worker.{make_configured, make_decoded, make_service_worker_from_registry}

-- What the text conversions and the serialisers must do for one configuration.
pub record Transcribes (essence : Essence) (codec : Codec) (config : ServiceConfig) : Type 0 where
  pub plain : IsPlainName config.name
  pub name_back : essence.to_utf8_string (essence.to_native_string config.name) ≡ config.name
  pub text_back :
      essence.to_utf8_string (essence.to_native_string (to_msgpack_base64 codec config))
      ≡ to_msgpack_base64 codec config
  pub text_plain : Lacks 0 (essence.to_native_string (to_msgpack_base64 codec config))
  pub reads_back : ReadsBack codec config

module _ (os : Os) (essence : Essence) (trims : TrimLaws essence) (codec : Codec)
    (reading : ReadsTexts os) where
  -- The state after the configuration was read.
  abbrev pub configuration_read : ServiceConfig → World → World
  configuration_read config =
      queried local_machine (c_str (essence.to_native_string (param_sub_key config.name)))
        (c_str (essence.to_native_string (codes "StartupConfiguration"))) reg_sz
        (length (wide_bytes (essence.to_native_string (to_msgpack_base64 codec config) ++ 0 ∷ [])))

  from_msgpack_base64-to_msgpack_base64 :
      (config : ServiceConfig) (w : World)
      → ReadsBack codec config
      → from_msgpack_base64 codec (to_msgpack_base64 codec config) w ≡ (ok config, w)
  unfolding to_msgpack_base64 from_msgpack_base64
  from_msgpack_base64-to_msgpack_base64 config w back =
      ap
        (λ (o : Option (List ℕ)).
          (or_foreign {S = World} o (codes "base64") >>= λ bytes.
          or_foreign (codec.from_msgpack bytes) (codes "msgpack"))
            w)
        back.base64
      ∙ ap (λ (o : Option ServiceConfig). or_foreign {S = World} o (codes "msgpack") w) back.msgpack

  make_decoded-to_msgpack_base64 :
      (config : ServiceConfig) (w : World)
      → ReadsBack codec config
      → make_decoded os essence codec (to_msgpack_base64 codec config) w
        ≡ make_configured os essence codec config w
  unfolding make_decoded
  make_decoded-to_msgpack_base64 config w back =
      >>=-ok (from_msgpack_base64 codec (to_msgpack_base64 codec config))
        (make_configured os essence codec) w (from_msgpack_base64-to_msgpack_base64 config w back)

  get_registry_string-Stores :
      (config : ServiceConfig) (w : World)
      → Transcribes essence codec config
      → Stores os essence trims codec (new_manager os essence config) w
      → get_registry_string os essence
          (service_param_key_of config.name)
          (codes "StartupConfiguration")
          w
        ≡ (ok (to_msgpack_base64 codec config), configuration_read config w)
  unfolding new_manager
  get_registry_string-Stores config w k s =
      get_registry_string-Answers os essence (service_param_key_of config.name)
        (codes "StartupConfiguration") local_machine
        (essence.to_native_string (param_sub_key config.name))
        (essence.to_native_string (to_msgpack_base64 codec config)) w
        (decompose_service_param_key os essence trims config.name w k.plain) k.text_plain
        (reading.answers w.history local_machine _ _ _ k.text_plain s)
      ∙ ap (λ (t : Text). (ok t, configuration_read config w)) k.text_back

  load-Stores :
      (config : ServiceConfig) (w : World)
      → Transcribes essence codec config
      → Stores os essence trims codec (new_manager os essence config) w
      → make_service_worker_from_registry os essence codec (essence.to_native_string config.name) w
        ≡ make_configured os essence codec config (configuration_read config w)
  unfolding make_service_worker_from_registry
  load-Stores config w k s =
      ap
        (λ (t : Text).
          (get_registry_string os essence (service_param_key_of t) (codes "StartupConfiguration")
              >>= make_decoded os essence codec)
            w)
        k.name_back
      ∙ (>>=-ok
            (get_registry_string os essence (service_param_key_of config.name)
              (codes "StartupConfiguration"))
            (make_decoded os essence codec) w (get_registry_string-Stores config w k s)
          ∙ make_decoded-to_msgpack_base64 config (configuration_read config w) k.reads_back)

  -- A service that was installed makes its worker from the configuration that it was installed
  -- with: `make_service_worker_from_registry`, after an `install` that returned, sets that
  -- configuration up and makes its worker. The name has no `/` and no NUL, the text conversions and
  -- the serialisers read back what they wrote for it, and the registry returns stored texts.
  pub install-load :
      (config : ServiceConfig) (w : World)
      → Transcribes essence codec config
      → (install os essence codec (new_manager os essence config) w).0 ≡ ok tt
      → make_service_worker_from_registry os essence codec
          (essence.to_native_string config.name)
          (install os essence codec (new_manager os essence config) w).1
        ≡ make_configured os essence codec config (
            configuration_read config
              (install os essence codec (new_manager os essence config) w).1)
  install-load config w k h =
      load-Stores config (install os essence codec (new_manager os essence config) w).1 k
        (install-new_manager-Stores os essence trims codec config w k.plain h)
