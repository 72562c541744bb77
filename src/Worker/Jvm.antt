-- ===== src/Worker/Jvm.antt =====
-- src/workers/jvm_service_worker.cpp: a worker that calls static methods of a Java class.
use svc_hostify.Base.{
  Text, codes, ℕ, ◌+◌, ◌==◌, ◌%◌, ◌^◌, Bool, true, false, not, is_empty, Option, none, some, List,
  [], ◌∷◌, ◌++◌,
}
use svc_hostify.Effects.{
  Os, World, Action, ◌>>=◌, ◌>>◌, Error, formatted, throw, throw_if, pure, gets, modify, call,
  after, ask_flag, ask_handle, ask_number, ask_buffer, is_directory, load_library, get_proc_address,
  free_library, create_java_vm, add_class, add_static_method, java_run, java_on_stop,
}
use svc_hostify.Config.{ServiceConfig, value_or}
use svc_hostify.Essence.{Essence}
use svc_hostify.Util.{add_dll_directories}

-- The class and the methods are identified by the key and the number that they are registered by.
pub record JvmServiceWorker : Type 0 where
  pub config : ServiceConfig
  pub class_key : ℕ
  pub method_run : ℕ
  pub method_on_stop : ℕ

-- Modules that a constructor releases where it throws, the last declared first.
abbrev pub free_all : List ℕ → World → World
free_all [] w = w
free_all (m ∷ l) w = free_all l (after (free_library m) w)

module _ (os : Os) (essence : Essence) where
  abbrev pub bin_directory : Text → Text
  bin_directory jdk_directory = jdk_directory ++ codes "\\bin"

  abbrev pub jvm_path : Text → Text
  jvm_path jdk_directory =
      essence.generic (bin_directory jdk_directory ++ codes "\\server\\jvm.dll")

  abbrev pub awt_path : Text → Text
  awt_path jdk_directory = essence.generic (bin_directory jdk_directory ++ codes "\\awt.dll")

  -- A handle, or the release of the modules that are loaded and an exception.
  abbrev pub or_release : Option ℕ → List ℕ → Error → Action World ℕ
  or_release none loaded failed w = (throw failed) (free_all loaded w)
  or_release (some h) loaded failed w = pure h w

  -- `load_jvm`: the module of the virtual machine, that of AWT, and `JNI_CreateJavaVM`.
  unfoldable pub load_jvm : Text → Action World (ℕ × ℕ × ℕ)
  load_jvm jdk_directory = do
    add_dll_directories os essence (essence.generic (bin_directory jdk_directory) ∷ [])
    loaded ← ask_handle os (load_library (jvm_path jdk_directory))
    jvm_module ← or_release loaded [] (
        formatted (
          codes "JVM Runtime"
          ∷ jvm_path jdk_directory
          ∷ codes "Message"
          ∷ codes "Failed to load JVM."
          ∷ []))
    loaded ← ask_handle os (load_library (awt_path jdk_directory))
    awt_module ← or_release loaded (jvm_module ∷ []) (
        formatted (
          codes "AWT Runtime"
          ∷ awt_path jdk_directory
          ∷ codes "Message"
          ∷ codes "Failed to load AWT."
          ∷ []))
    found ← ask_handle os (get_proc_address jvm_module (codes "JNI_CreateJavaVM"))
    create ←
        or_release found (awt_module ∷ jvm_module ∷ [])
          (formatted (codes "Failed to load the 'JNI_CreateJavaVM' function." ∷ []))
    pure (jvm_module, awt_module, create)

  -- `jvm_initializer`, which keeps the modules loaded.
  unfoldable pub initialize_jvm : Text → Text → Action World ℕ
  initialize_jvm jdk_directory class_path = do
    modules ← load_jvm jdk_directory
    code ← ask_number os (create_java_vm modules.2 (codes "-Djava.class.path=" ++ class_path))
    elim (code == 0) [
      | true ↦ pure modules.0
      | false ↦ do
        modify (free_all (modules.1 ∷ modules.0 ∷ []))
        throw (formatted (codes "Failed to create Java VM." ∷ []))
    ]

  -- The static local: it is initialised by the first constructor that gets there without an
  -- exception, and its arguments are not looked at again.
  unfoldable pub ensure_jvm : Text → Text → Action World (Unit {0})
  ensure_jvm jdk_directory class_path = do
    known ← gets (λ w. w.jvm_init)
    elim known [
      | some machine ↦ pure tt
      | none ↦ do
        machine ← initialize_jvm jdk_directory class_path
        modify (λ w. record w { jvm_init = some machine })
    ]

  -- `jvm_class_key.fetch_add(1)`, a 32-bit counter.
  unfoldable pub next_class_key : Action World ℕ
  next_class_key w =
      (pure w.jvm_class_key) (record w { jvm_class_key = (w.jvm_class_key + 1) % 2 ^ 32 })

  unfoldable pub make : ServiceConfig → Action World JvmServiceWorker
  make config = do
    throw_if (is_empty config.context) (
        formatted (
          codes "Class Path"
          ∷ config.context
          ∷ codes "Message"
          ∷ codes "The context must be a non-empty CLASSPATH for JVM bootstrap."
          ∷ []))
    elim config.jdk_directory [
      | none ↦ throw (formatted (codes "The JDK directory must be set." ∷ []))
      | some jdk_directory ↦ do
        found ← ask_flag os (is_directory jdk_directory)
        throw_if (not found) (
            formatted (
              codes "JDK Directory"
              ∷ config.context
              ∷ codes "Message"
              ∷ codes "The JDK directory must exist."
              ∷ []))
        class_key ← next_class_key
        ensure_jvm jdk_directory config.context
        call (add_class class_key (codes "org/refvalue/SvcHostify"))
        method_run ←
            ask_number os
              (add_static_method class_key 1 (codes "run") (codes "([Ljava/lang/String;)V"))
        method_on_stop ←
            ask_number os (add_static_method class_key 2 (codes "onStop") (codes "()V"))
        pure (record {
          config = config;
          class_key = class_key;
          method_run = method_run;
          method_on_stop = method_on_stop;
        })
    ]

  -- `handle_java_exception`, given whether an exception is pending.
  unfoldable pub handle_java_exception : Bool → Text → Action World (Unit {0})
  handle_java_exception pending text = throw_if pending (
      formatted (
        codes "Message"
        ∷ codes "An exception was thrown inside the java code."
        ∷ codes "Java Exception"
        ∷ text
        ∷ []))

  -- The answer of a call is whether it left an exception, and the exception's text.
  unfoldable pub on_stop : JvmServiceWorker → Action World (Unit {0})
  on_stop worker = do
    text ← ask_buffer os (java_on_stop worker.class_key worker.method_on_stop)
    pending ← ask_flag os (java_on_stop worker.class_key worker.method_on_stop)
    handle_java_exception pending text

  unfoldable pub run : JvmServiceWorker → Action World (Unit {0})
  run worker = do
    let request = java_run worker.class_key worker.method_run (value_or worker.config.arguments [])
    text ← ask_buffer os request
    pending ← ask_flag os request
    handle_java_exception pending text
