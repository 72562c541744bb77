-- ===== src/Entry/Loader.antt =====
-- `DllMain` of src/main.cpp and the COM library.
use svc_hostify.Base.{ℕ, ◌+◌, ◌≡◌, refl, Bool, true, false, List, [], ◌∷◌, if◌then◌else◌, arith}
use svc_hostify.Effects.{Os, World, History, Call, co_initialize, co_uninitialize}
use svc_hostify.System.{allocate_console_and_redirect}
use svc_hostify.Entry.{
  Reason, process_attach, thread_attach, thread_detach, process_detach, dll_main,
}

-- The state after the loader's calls, in their order.
abbrev pub loader_calls : Os → List Reason → World → World
loader_calls os [] w = w
loader_calls os (reason ∷ l) w = loader_calls os l (dll_main os reason w).1

abbrev pub is_initialize : Call → Bool
is_initialize co_initialize = true
is_initialize _ = false

abbrev pub is_uninitialize : Call → Bool
is_uninitialize co_uninitialize = true
is_uninitialize _ = false

abbrev pub count_calls : (Call → Bool) → History → ℕ
count_calls p [] = 0
count_calls p (c ∷ h) = (if p c then 1 else 0) + count_calls p h

abbrev pub attaches : Reason → Bool
attaches process_attach = true
attaches _ = false

abbrev pub count_attaches : List Reason → ℕ
count_attaches [] = 0
count_attaches (r ∷ l) = (if attaches r then 1 else 0) + count_attaches l

abbrev pub count_others : List Reason → ℕ
count_others [] = 0
count_others (r ∷ l) = (if attaches r then 0 else 1) + count_others l

-- How often one call initialises and uninitialises.
dll_main_counts :
    (os : Os) (reason : Reason) (w : World)
    → (count_calls is_initialize (dll_main os reason w).1.history
        ≡ (if attaches reason then 1 else 0) + count_calls is_initialize w.history)
      × (count_calls is_uninitialize (dll_main os reason w).1.history
          ≡ (if attaches reason then 0 else 1) + count_calls is_uninitialize w.history)
unfolding dll_main allocate_console_and_redirect
dll_main_counts os process_attach w = (ground arith, ground arith)
dll_main_counts os thread_attach w = (refl, refl)
dll_main_counts os thread_detach w = (refl, refl)
dll_main_counts os process_detach w = (refl, refl)

-- `CoInitializeEx` is called once for each attachment to the process, and `CoUninitialize` once for
-- every other call of the loader: not only where the process ends, but also where a thread begins
-- and where one ends.
pub loader_calls-count_calls :
    (os : Os) (l : List Reason) (w : World)
    → (count_calls is_initialize (loader_calls os l w).history
        ≡ count_attaches l + count_calls is_initialize w.history)
      × (count_calls is_uninitialize (loader_calls os l w).history
          ≡ count_others l + count_calls is_uninitialize w.history)
loader_calls-count_calls os [] w = (omega arith, omega arith)
loader_calls-count_calls os (reason ∷ l) w =
    let (a, b) = dll_main_counts os reason w in
    let (c, d) = loader_calls-count_calls os l (dll_main os reason w).1 in
    (omega arith, omega arith)
