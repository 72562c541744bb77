-- ===== src/Worker/Modules.antt =====
-- The DLLs that src/workers/pure_c_service_worker.cpp and src/workers/jvm_service_worker.cpp load.
use svc_hostify.Base.{
  Text, ℕ, ◌+◌, ◌==◌, ◌≡◌, Bool, true, false, Option, none, some, [], ◌∷◌, if◌then◌else◌, arith,
}
use svc_hostify.Effects.{
  Os, World, ok, err, ◌>>=◌, Error, Call, History, load_library, free_library,
}
use svc_hostify.Config.{ServiceConfig}
use svc_hostify.Essence.{Essence}
use svc_hostify.Util.{add_dll_directories}
use svc_hostify.Worker.PureC as PureC
use svc_hostify.Worker.PureC.{PureCServiceWorker, load_module, find_function}
use svc_hostify.Worker.Jvm.{ensure_jvm, initialize_jvm, load_jvm}

abbrev pub is_load : Call → Bool
is_load (load_library path) = true
is_load _ = false

abbrev pub is_free : ℕ → Call → Bool
is_free x (free_library dll) = dll == x
is_free x _ = false

abbrev pub is_handle : ℕ → Option ℕ → Bool
is_handle x none = false
is_handle x (some h) = h == x

-- How often a history has loaded, and freed, the module `x`.
abbrev pub loaded : Os → ℕ → History → ℕ
loaded os x [] = 0
loaded os x (c ∷ h) =
    (if is_load c then (if is_handle x (os.handle h c) then 1 else 0) else 0) + loaded os x h

abbrev pub freed : ℕ → History → ℕ
freed x [] = 0
freed x (c ∷ h) = (if is_free x c then 1 else 0) + freed x h

-- From `v` to `w`, the module `x` was loaded as often as it was freed.
abbrev pub Released : Os → ℕ → World → World → Type 0
Released os x v w =
    loaded os x w.history + freed x v.history ≡ loaded os x v.history + freed x w.history

module _ (os : Os) (essence : Essence) (x : ℕ) where
  -- Making a worker of a DLL and destroying it, as `invokeW` does before it installs, frees the DLL
  -- as often as it loads it, also where the constructor throws.
  pub make-destroy-Released :
      (config : ServiceConfig) (w : World)
      → Released os x w ((PureC.make os essence config >>= PureC.destroy) w).1
  unfolding PureC.make PureC.destroy load_module find_function
  make-destroy-Released config w = ground arith

  -- Where the virtual machine cannot be created, the modules that were loaded for it are freed, and
  -- nothing is kept: the next worker tries again.
  pub ensure_jvm-Released :
      (jdk_directory class_path : Text) (w : World) (e : Error)
      → (ensure_jvm os essence jdk_directory class_path w).0 ≡ err e
      → Released os x w (ensure_jvm os essence jdk_directory class_path w).1
        × ((ensure_jvm os essence jdk_directory class_path w).1.jvm_init ≡ none)
  unfolding ensure_jvm initialize_jvm load_jvm add_dll_directories
  ensure_jvm-Released jdk_directory class_path w e h = ground arith

  -- Once it is created, it is not created again, and the arguments are not looked at.
  pub ensure_jvm-again :
      (a b c d : Text) (w : World)
      → (ensure_jvm os essence a b w).0 ≡ ok tt
      → ensure_jvm os essence c d (ensure_jvm os essence a b w).1
        ≡ (ok tt, (ensure_jvm os essence a b w).1)
  unfolding ensure_jvm
  ensure_jvm-again a b c d w h = ground arith
