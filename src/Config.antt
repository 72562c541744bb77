-- ===== src/Config.antt =====
-- src/common_types.ixx (its worker type `com` is `com_server` here), src/service_config.ixx and
-- src/service_config.cpp: the configuration of a hosted service, its defaults, and its form in the
-- registry. The serialisers are parameters, in a record.
use svc_hostify.Base.{Text, codes, ℕ, Bool, true, false, Option, none, some, List, [], ◌∷◌, ◌≡◌}
use svc_hostify.Effects.{Os, World, Action, ◌>>=◌, formatted, foreign, throw, pure}
use svc_hostify.System.{get_last_error}
use svc_hostify.Essence.{Essence}

-- `nameless`: a value that is no enumerator.
pub data ServiceWorkerType : Type 0 where
  executable pure_c com_server jvm nameless : ServiceWorkerType

pub data ServiceAccountType : Type 0 where
  local_system local_service network_service : ServiceAccountType

pub record LoggerConfig : Type 0 where
  pub base_path : Text
  pub max_size : Option Text
  pub max_files : Option ℕ

pub record LoggerDefaults : Type 0 where
  pub base_path : Text
  pub max_size : Text
  pub max_files : ℕ

pub record DefaultValues : Type 0 where
  pub standalone : Bool
  pub post_quit_message : Bool
  pub working_directory : Text
  pub dll_directories : List Text
  pub logger : LoggerDefaults

pub record ServiceConfig : Type 0 where
  pub worker_type : ServiceWorkerType
  pub name : Text
  pub display_name : Text
  pub context : Text
  pub account_type : ServiceAccountType
  pub standalone : Option Bool
  pub post_quit_message : Option Bool
  pub description : Option Text
  pub jdk_directory : Option Text
  pub working_directory : Option Text
  pub arguments : Option (List Text)
  pub dll_directories : Option (List Text)
  pub logger : Option LoggerConfig

-- `optional.value_or(…)`
abbrev pub value_or {ℓ} : {A : Type ℓ} → Option A → A → A
value_or none d = d
value_or (some a) d = a

abbrev pub to_config : LoggerDefaults → LoggerConfig
to_config d = record {
  base_path = d.base_path;
  max_size = some d.max_size;
  max_files = some d.max_files;
}

-- `defaults()`, given what `get_executing_directory()` returns.
abbrev pub defaults : Text → DefaultValues
defaults executing_directory = record {
  standalone = true;
  post_quit_message = false;
  working_directory = executing_directory;
  dll_directories = executing_directory ∷ [];
  logger = record {
    base_path = codes "logs/svchostify.log";
    max_size = codes "50 MiB";
    max_files = 5;
  };
}

-- The serialisers: `json::to_msgpack`, `json::from_msgpack(…).get<service_config>()`,
-- `json::parse(…).get<service_config>()`, base64, and `dump` is
-- `json(config).dump(4)`; `none` where they throw.
pub record Codec : Type 0 where
  pub to_msgpack : ServiceConfig → List ℕ
  pub from_msgpack : List ℕ → Option ServiceConfig
  pub base64_encode : List ℕ → Text
  pub base64_decode : Text → Option (List ℕ)
  pub from_json : List ℕ → Option ServiceConfig
  pub dump : ServiceConfig → Option Text

-- The serialisers read back what they have written for a configuration.
pub record ReadsBack (codec : Codec) (config : ServiceConfig) : Type 0 where
  pub msgpack : codec.from_msgpack (codec.to_msgpack config) ≡ some config
  pub base64 :
      codec.base64_decode (codec.base64_encode (codec.to_msgpack config))
      ≡ some (codec.to_msgpack config)

-- An exception of the library where there is no value.
abbrev pub or_foreign : {S A : Type 0} → Option A → Text → Action S A
or_foreign none what = throw (foreign what)
or_foreign (some a) what = pure a

module _ (codec : Codec) where
  unfoldable pub to_msgpack_base64 : ServiceConfig → Text
  to_msgpack_base64 config = codec.base64_encode (codec.to_msgpack config)

  unfoldable pub from_msgpack_base64 : {S : Type 0} → Text → Action S ServiceConfig
  from_msgpack_base64 base64 = do
    bytes ← or_foreign (codec.base64_decode base64) (codes "base64")
    or_foreign (codec.from_msgpack bytes) (codes "msgpack")

module _ (os : Os) (essence : Essence) where
  -- `make_service_error_checker`
  unfoldable pub error_checker : ServiceConfig → Bool → Text → Action World (Unit {0})
  unfolding get_last_error
  error_checker config true message = pure tt
  error_checker config false message = do
    internal ← get_last_error os essence
    throw (
        formatted (
          codes "Name"
          ∷ config.name
          ∷ codes "Path"
          ∷ config.context
          ∷ codes "Message"
          ∷ message
          ∷ codes "Internal"
          ∷ internal
          ∷ []))
