-- ===== src/Lib.antt =====
-- SvcHostify: a DLL for Windows that hosts user code (a program, a DLL, a COM object or a Java
-- class) as a service, either inside svchost.exe or on its own through rundll32.exe.
--
-- How the parts work together. `invokeW` of src/main.cpp reads a configuration file, sets the
-- process up (src/config_setup.cpp), tries the worker, and registers the service with the
-- service control manager (src/service_manager.cpp), which keeps the encoded configuration in
-- the registry (src/registry.cxx). When Windows starts the service, `ServiceMain` of
-- src/main.cpp reads that configuration back, makes the worker (src/service_worker.cpp,
-- src/workers/) and runs it in the service process (src/service_process.cpp), which reports
-- every change of its state.
--
-- Which module is about which part:
--   Config       src/service_config.cpp, service_config.ixx, common_types.ixx
--   FileSize     src/file_size_unit.cxx: `parse_file_size`, `truncate_file_size_string`
--   ConfigSetup  src/config_setup.cpp: `setup_config`, the checks of the logger's settings, the log file
--   System       src/util.cpp: paths of modules, messages of errors, `parse_command_line`, console
--   Util         src/util.cpp: account names, session, DLL directories; CommandLine its
--                `make_command_line`
--   Registry     src/registry.cxx, filesystem_tokens.cxx
--   Manager      src/service_manager.cpp, service_registry_keys.cxx: `install`, `uninstall`
--   Worker       src/service_worker.cpp, abstract/service_worker.cxx and src/workers/; Racing has the
--                two threads of src/workers/executable_service_worker.cpp, turn by turn
--   Process      src/service_process.cpp: status reports, `start`, `stop`, the control handler;
--                Callback its `service_main`; Threads the steps of its threads, Late and Torn where
--                their order fails; Instance its static object and `SvchostPushServiceGlobals`
--   Options      src/main.cpp, startup_info.ixx: the options of `invokeW`
--   Entry        src/main.cpp: `invoke` is `invokeW`, `service_main` is `ServiceMain`,
--                `dll_main` is `DllMain`
--   TestService  samples/cpp/test-service/src/entry.cpp, a DLL that can be hosted
--   Hosting      that DLL behind src/workers/pure_c_service_worker.cpp in the service process: the
--                four parties take turns, as a schedule says, and the service does what the calls of
--                its two exported functions, at the addresses given, make it do
--
-- Base has the shared helpers, Essence the parameters of the essence library, Effects the state
-- of a run, and Tests the concrete runs. A function has the name that it has in the source; an
-- overload has the type of its argument in its name (`set_registry_dword`), and the parts of a
-- long function have names of their own.
--
-- State and errors. A function that calls Windows is a function of the calls made so far. `Os`
-- is what the calls answer, a parameter that may depend on that whole history: a theorem holds
-- for every such `Os`, or names what it needs of it (`ReadsTexts`, `ReadsValues`, `ReadsLists`,
-- `FillsName`, `Exports`, `Answerable`). The paths of modules, the messages of error codes and
-- the arguments in a command line do not depend on the history. An exception is a value that
-- keeps the state in which it was thrown; reading an empty `std::optional` by `*` is a result of
-- its own, `undefined`. Handles close where their scope ends. Texts are lists of code units, and
-- integers of the source that can wrap around are reduced by their width (`% 2 ^ 64` for a file
-- size, `% 2 ^ 32` for check points).
--
-- Parameters. The essence library (text conversions, trimming, digests, decimal numbers), the
-- serialisers, and the argument parser are arguments of the definitions; the laws that a theorem
-- needs of them are its hypotheses (`TrimLaws`, `ReadsDecimal`, `ReadsBack`, `NativeLaws`,
-- `DigestLaws`). The `std::unordered_map` of a table keeps the first of two equal keys. All
-- loops are structural, so no fuel is used.
--
-- Threads. The functions of the service process are actions on the process object; a step
-- relation orders the starting thread, the control handler and the callback of the host between
-- status reports. A report is atomic there, and a stop is handled some time after it was sent;
-- Process/Torn has the statements of two reports at once. The steps `abandons` and `calls_back`
-- belong to a process of svchost.exe. The callback may come at any time after the thread of
-- `run` has ended, also behind the end of `start`. A schedule of Hosting also has the turns of
-- the hosted `run`, which `run_business` calls and then waits for, and handles a stop when it is
-- sent. In Worker/Racing, the turn of `run` at its wait is the one in which the wait ends.
--
-- Not modelled: what runs at the exit of rundll32.exe, the memory that calls of Windows
-- allocate, JNI and COM below the calls named in Effects/Calls, and the samples in C# and Java.
pub mod Base
pub mod Effects
pub mod Essence
pub mod System
pub mod Config
pub mod FileSize
pub mod Util
pub mod ConfigSetup
pub mod Registry
pub mod Manager
pub mod Worker
pub mod Process
pub mod Options
pub mod Entry
pub mod Hosting
pub mod TestService
mod Tests
