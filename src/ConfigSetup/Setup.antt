-- ===== src/ConfigSetup/Setup.antt =====
-- What `setup_config` leaves behind: the dispatcher, and the calls it made.
use mathlib.Core.Path.{subst}
use svc_hostify.Base.{
  Text, codes, ℕ, ◌≡◌, inl, inr, refl, sym, ◌==◌, Bool, true, false, not, Option, none, some, List,
  [], ◌∷◌, ◌++◌, arith, Bool-cases, ◌∙◌, ◌⊎◌, ap,
}
use svc_hostify.Effects.{
  Os, World, Result, ok, err, undefined, Error, formatted, ◌>>◌, call, after, StdioToSinkDispatcher,
  set_current_path, log, info, Action, ◌>>=◌, open_log_file, continue, throw_if, foreign, pure,
  modify,
}
use svc_hostify.Config.{ServiceConfig, LoggerConfig, value_or, Codec, or_foreign}
use svc_hostify.Essence.{Essence}
use svc_hostify.Util.{add_dll_directories}
use svc_hostify.ConfigSetup.Logger.{IsValid, parse_logger_config-IsValid}
use svc_hostify.ConfigSetup.{
  executing_directory, parse_logger_config, LoggerContext, create_logging_directory, check_max_size,
  check_max_files, setup_logger, setup_config, set_sink, rotating_file_sink, new_dispatcher,
  store_logger, open_dispatcher, log_logger,
}

module _ (os : Os) (essence : Essence) where
  add_dll_directories-keeps :
      (ds : List Text) (w : World)
      → ((add_dll_directories os essence ds w).0 ≡ ok tt)
        × ((add_dll_directories os essence ds w).1.dispatcher ≡ w.dispatcher)
  unfolding add_dll_directories
  add_dll_directories-keeps [] w = (refl, refl)
  add_dll_directories-keeps (d ∷ ds) w = grind (arith, add_dll_directories-keeps ds)

  create_logging_directory-keeps :
      (p : Text) (w : World) → (create_logging_directory os essence p w).1.dispatcher ≡ w.dispatcher
  unfolding create_logging_directory
  create_logging_directory-keeps p w = ground arith

  check_max_size-keeps :
      (l : LoggerConfig) (parsed : Option ℕ) (w : World)
      → (check_max_size os essence l parsed w).1 ≡ w
  unfolding check_max_size
  check_max_size-keeps l none w = ground arith
  check_max_size-keeps l (some n) w = ground arith

  check_max_files-keeps :
      (l : LoggerConfig) (n : ℕ) (w : World) → (check_max_files os essence l n w).1 ≡ w
  unfolding check_max_files
  check_max_files-keeps l n w = ground arith

  parse_logger_config-keeps :
      (config : ServiceConfig) (w : World)
      → (parse_logger_config os essence config w).1.dispatcher ≡ w.dispatcher
  unfolding parse_logger_config
  parse_logger_config-keeps config w =
      grind (arith, create_logging_directory-keeps, check_max_size-keeps, check_max_files-keeps)

  -- The dispatcher that a run with these settings stores.
  abbrev pub installed : Bool → LoggerContext → Option StdioToSinkDispatcher
  installed true c = some (set_sink (rotating_file_sink c) new_dispatcher)
  installed false c = none

  module _ (codec : Codec) where
    -- The dispatcher for valid settings of the configuration is stored.
    abbrev pub Stores : ServiceConfig → Bool → World → LoggerContext → Type 0
    Stores config enable w c = IsValid os essence config c × (w.dispatcher ≡ installed enable c)

    -- One of the two lines behind the store cannot be printed.
    abbrev pub Unprintable : ServiceConfig → LoggerContext → Type 0
    Unprintable config c =
        (essence.dump_logger c.base_path c.max_size c.max_files ≡ none) ⊎ (codec.dump config ≡ none)

    -- What a call that began in `w` has done, by how it ended.
    abbrev pub Redirects : ServiceConfig → Bool → World → Result (Unit {0}) × World → Type 0
    Redirects config enable w (ok _, w') = (c : LoggerContext) × Stores config enable w' c
    Redirects config enable w (err _, w') =
        (w'.dispatcher ≡ w.dispatcher)
        ⊎ ((c : LoggerContext) × Stores config enable w' c × Unprintable config c)
    Redirects config enable w (undefined, w') = w'.dispatcher ≡ w.dispatcher

    log_logger-Redirects :
        (config : ServiceConfig) (enable : Bool) (w v : World) (c : LoggerContext)
        → Stores config enable v c
        → Redirects config enable w (log_logger os essence c v)
    unfolding log_logger
    log_logger-Redirects config enable w v c stored =
        by_text (essence.dump_logger c.base_path c.max_size c.max_files) refl
      where
        by_text :
            (o : Option Text)
            → essence.dump_logger c.base_path c.max_size c.max_files ≡ o
            → Redirects config enable w (
                (or_foreign o (codes "json") >>= λ dumped.
                call (log info (codes "Logger configuration: " ++ dumped)))
                  v)
        by_text none e = inr (c, stored, inl e)
        by_text (some t) e = (c, stored)

    store_logger-Redirects :
        (config : ServiceConfig) (enable : Bool) (w v : World) (c : LoggerContext)
        → v.dispatcher ≡ w.dispatcher
        → IsValid os essence config c
        → Redirects config enable w (store_logger os essence c enable v)
    unfolding store_logger open_dispatcher
    store_logger-Redirects config true w v c same valid =
        by_flag (os.flag v.history (open_log_file c.base_path))
      where
        by_flag :
            (b : Bool)
            → Redirects config true w (
                ((throw_if (not b) (foreign (codes "rotating_file_sink"))
                      >> pure (some (set_sink (rotating_file_sink c) new_dispatcher)))
                    >>= λ d. modify (λ w. record w { dispatcher = d }) >> log_logger os essence c)
                  (after (open_log_file c.base_path) v))
        by_flag true = log_logger-Redirects config true w _ c (valid, refl)
        by_flag false = inl same
    store_logger-Redirects config false w v c same valid =
        log_logger-Redirects config false w _ c (valid, refl)

    setup_logger-Redirects :
        (config : ServiceConfig) (enable : Bool) (w : World)
        → Redirects config enable w (setup_logger os essence config enable w)
    unfolding setup_logger
    setup_logger-Redirects config enable w =
        by_result (parse_logger_config os essence config w) refl
          (parse_logger_config-keeps config w)
      where
        by_result :
            (p : Result LoggerContext × World)
            → parse_logger_config os essence config w ≡ p
            → p.1.dispatcher ≡ w.dispatcher
            → Redirects config enable w (continue (λ c. store_logger os essence c enable) p)
        by_result (ok c, v) e same = store_logger-Redirects config enable w v c same (
            parse_logger_config-IsValid os essence config w
              (ap (λ (p : Result LoggerContext × World). p.0) e))
        by_result (err x, v) e same = inl same
        by_result (undefined, v) e same = same

    Redirects-within :
        (config : ServiceConfig) (enable : Bool) (v w : World) (r : Result (Unit {0}) × World)
        → v.dispatcher ≡ w.dispatcher
        → Redirects config enable v r
        → Redirects config enable w r
    Redirects-within config enable v w (ok _, w') same h = h
    Redirects-within config enable v w (err _, w') same (inl h) = inl (h ∙ same)
    Redirects-within config enable v w (err _, w') same (inr h) = inr h
    Redirects-within config enable v w (undefined, w') same h = h ∙ same

    -- What is left behind `setup_logger`.
    abbrev pub log_and_add : ServiceConfig → List Text → Action World (Unit {0})
    log_and_add config ds = do
      dumped ← or_foreign (codec.dump config) (codes "json")
      call (log info dumped)
      add_dll_directories os essence ds

    add_after-Redirects :
        (config : ServiceConfig) (enable : Bool) (ds : List Text) (w : World)
        (r : Result (Unit {0}) × World)
        → Redirects config enable w r
        → Redirects config enable w (((λ _. r) >> log_and_add config ds) w)
    add_after-Redirects config enable ds w (ok _, w') (c, (valid, e)) =
        by_text (codec.dump config) refl
      where
        by_text :
            (o : Option Text)
            → codec.dump config ≡ o
            → Redirects config enable w (
                (or_foreign o (codes "json") >>= λ dumped.
                call (log info dumped) >> add_dll_directories os essence ds)
                  w')
        by_text none d = inr (c, (valid, e), inr d)
        by_text (some t) d =
            let w'' = after (log info t) w' in
            rw (Redirects, (add_dll_directories-keeps ds w'').0)
              (c, (valid, (add_dll_directories-keeps ds w'').1 ∙ e))
    add_after-Redirects config enable ds w (err _, w') h = h
    add_after-Redirects config enable ds w (undefined, w') h = h

    -- The state in which the working directory is set, and the code that this returns.
    module _ (config : ServiceConfig) (enable : Bool) (w : World) where
      abbrev pub directory : Text
      directory = value_or config.working_directory (executing_directory os essence)

      abbrev pub logged : World
      logged = after (log info (codes "Working directory: " ++ directory)) w

      abbrev pub code : ℕ
      code = os.number logged.history (set_current_path directory)

      abbrev pub moved : World
      moved = after (set_current_path directory) logged

      pub setup_config-moved :
          not (code == 0) ≡ false
          → setup_config os essence codec config enable w
            ≡ ((λ _. setup_logger os essence config enable moved)
                  >> log_and_add config
                      (value_or config.dll_directories [] ++ (executing_directory os essence ∷ [])))
                moved
      unfolding setup_config
      setup_config-moved good = rw good refl

      abbrev pub directory_error : Error
      directory_error = formatted (
          codes "Working Directory"
          ∷ directory
          ∷ codes "Message"
          ∷ codes "Failed to set the working directory."
          ∷ codes "Internal"
          ∷ os.error_code_message code
          ∷ [])

      pub setup_config_stuck :
          not (code == 0) ≡ true
          → setup_config os essence codec config enable w ≡ (err directory_error, moved)
      unfolding setup_config
      setup_config_stuck bad = rw bad refl

      -- A run of `setup_config` that succeeds has valid settings and has stored the dispatcher for
      -- them, or none where file logging is off; one that throws leaves the dispatcher as it was, or
      -- has stored that for valid settings and cannot print these or the configuration.
      pub setup_config-Redirects :
          Redirects config enable w (setup_config os essence codec config enable w)
      setup_config-Redirects = elim (Bool-cases (not (code == 0))) [
        | inl bad ↦
            subst (λ r. Redirects config enable w r) (sym (setup_config_stuck bad)) (inl refl)
        | inr good ↦
            subst (λ r. Redirects config enable w r) (sym (setup_config-moved good))
              (Redirects-within config enable moved w _ refl (
                add_after-Redirects config enable _ moved _
                  (setup_logger-Redirects config enable moved)))
      ]
