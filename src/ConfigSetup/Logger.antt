-- ===== src/ConfigSetup/Logger.antt =====
-- The checks of `parse_logger_config`, and what `setup_config` leaves behind.
use svc_hostify.Base.{
  Text, codes, ℕ, ◌*◌, ◌^◌, ◌≤◌, ◌<◌, ◌≡◌, ◌≢◌, ◌⊎◌, inl, inr, refl, false, Option, none, some, [],
  ◌∷◌, ◌++◌, is_empty, arith, Option-cases,
}
use svc_hostify.Effects.{Os, World, formatted, ok, err, undefined}
use svc_hostify.FileSize.{parse_file_size, defined, undefined as undefined_size}
use svc_hostify.FileSize.Parse.{ReadsDecimal, mib, parse_file_size-unit}
use svc_hostify.FileSize.Print.{truncate_file_size_string_lem}
use svc_hostify.Config.{ServiceConfig, LoggerConfig, value_or}
use svc_hostify.Essence.{Essence}
use svc_hostify.ConfigSetup.{
  logger_of, parse_logger_config, LoggerContext, create_logging_directory, check_max_size,
  check_max_files,
}

-- What the settings of a logger that is set up satisfy.
pub record IsValid (os : Os) (essence : Essence) (config : ServiceConfig) (c : LoggerContext)
    : Type 0 where
  pub same_path : c.base_path ≡ (logger_of os essence config).base_path
  pub has_path : is_empty c.base_path ≡ false
  pub size_read :
      parse_file_size essence.from_string
        (value_or (logger_of os essence config).max_size (codes "50 MiB"))
      ≡ defined (some c.max_size)
  pub size_lower : 1024 ≤ c.max_size
  pub size_upper : c.max_size ≤ 2 ^ 31
  pub files_given : c.max_files ≡ value_or (logger_of os essence config).max_files 5
  pub files_lower : 1 ≤ c.max_files
  pub files_upper : c.max_files ≤ 32

module _ (os : Os) (essence : Essence) where
  check_max_size-eq-ok :
      (l : LoggerConfig) (parsed : Option ℕ) (w : World) {n : ℕ}
      → (check_max_size os essence l parsed w).0 ≡ ok n
      → (parsed ≡ some n) × (1024 ≤ n) × (n ≤ 2 ^ 31)
  unfolding check_max_size
  check_max_size-eq-ok l none w h = ground arith
  check_max_size-eq-ok l (some m) w h = ground arith

  check_max_files-eq-ok :
      (l : LoggerConfig) (m : ℕ) (w : World) {n : ℕ}
      → (check_max_files os essence l m w).0 ≡ ok n
      → (m ≡ n) × (1 ≤ n) × (n ≤ 32)
  unfolding check_max_files
  check_max_files-eq-ok l m w h = ground arith

  create_logging_directory-ne-undefined :
      (p : Text) (w : World) → (create_logging_directory os essence p w).0 ≢ undefined
  unfolding create_logging_directory
  create_logging_directory-ne-undefined p w h = ground arith

  -- Settings that are accepted are those of the configuration or the defaults, and lie in the
  -- range of 1 KiB to 2 GiB for the size and of 1 to 32 for the number of files.
  pub parse_logger_config-IsValid :
      (config : ServiceConfig) (w : World) {c : LoggerContext}
      → (parse_logger_config os essence config w).0 ≡ ok c
      → IsValid os essence config c
  unfolding parse_logger_config
  parse_logger_config-IsValid config w h =
      grind (arith, check_max_size-eq-ok, check_max_files-eq-ok)

  check_max_size-ne-undefined :
      (l : LoggerConfig) (parsed : Option ℕ) (w : World)
      → (l.max_size ≢ none) ⊎ (parsed ≡ some (50 * 2 ^ 20))
      → (check_max_size os essence l parsed w).0 ≢ undefined
  unfolding check_max_size
  check_max_size-ne-undefined l none w e h = ground arith
  check_max_size-ne-undefined l (some m) w e h = ground arith

  check_max_files-ne-undefined :
      (l : LoggerConfig) (w : World)
      → (check_max_files os essence l (value_or l.max_files 5) w).0 ≢ undefined
  unfolding check_max_files
  check_max_files-ne-undefined l w h = ground arith

  default_size :
      ReadsDecimal essence.from_string
      → parse_file_size essence.from_string (codes "50 MiB") ≡ defined (some (50 * 2 ^ 20))
  unfolding codes
  default_size reads =
      parse_file_size-unit essence.from_string reads mib [] (codes "50") (codes " ") [] tt
        (refl, (refl, tt)) (cc) (refl, tt) (omega arith)

  -- The code reads no empty optional, as long as the number in the size fits into 64 bits: the
  -- error messages take `*logger_config.max_size` only where it is given, since the defaults are
  -- in range.
  pub parse_logger_config-ne-undefined :
      (config : ServiceConfig) (w : World)
      → ReadsDecimal essence.from_string
      → parse_file_size essence.from_string
          (value_or (logger_of os essence config).max_size (codes "50 MiB"))
        ≢ undefined_size
      → (parse_logger_config os essence config w).0 ≢ undefined
  unfolding parse_logger_config
  parse_logger_config-ne-undefined config w reads fits h =
      elim (Option-cases (logger_of os essence config).max_size) [
        | inl e ↦ grind (
          arith,
          check_max_size-ne-undefined,
          check_max_files-ne-undefined,
          create_logging_directory-ne-undefined,
          default_size reads,
        )
        | inr (t, e) ↦ grind (
          arith, check_max_size-ne-undefined, check_max_files-ne-undefined,
          create_logging_directory-ne-undefined,
        )
      ]

  -- A size out of range is refused with a message that gives `0 TiB` for both bounds.
  pub check_max_size_message :
      (l : LoggerConfig) (text : Text) (n : ℕ) (w : World)
      → l.max_size ≡ some text
      → (n < 1024) ⊎ (2 ^ 31 < n)
      → let bound = essence.to_string 0 ++ b' ' ∷ codes "TiB" in
        check_max_size os essence l (some n) w ≡ (
          err (
              formatted (
                codes "Max Size"
                ∷ text
                ∷ codes "Lower Bound"
                ∷ bound
                ∷ codes "Upper Bound"
                ∷ bound
                ∷ codes "Message"
                ∷ codes "The max file size was out of range."
                ∷ [])),
          w,
        )
  unfolding check_max_size
  check_max_size_message l text n w given out = ground (
    arith,
    truncate_file_size_string_lem essence.to_string 1024,
    truncate_file_size_string_lem essence.to_string (2 ^ 31),
  )
