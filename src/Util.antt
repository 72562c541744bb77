-- ===== src/Util.antt =====
-- src/util.cpp: the account names, the session, and the DLL directories. Command lines are in a
-- module of their own.
pub mod CommandLine
use svc_hostify.Base.{
  Text, codes, ℕ, ◌-◌, ◌^◌, Bool, true, false, Option, none, some, List, [], ◌∷◌, if◌then◌else◌,
}
use svc_hostify.Effects.{
  Os, World, Action, ◌>>=◌, ◌>>◌, pure, ask_flag, ask_size, when, call, is_directory,
  add_dll_directory, get_session_id,
}
use svc_hostify.Config.{ServiceAccountType, local_system, local_service, network_service}
use svc_hostify.Essence.{Essence}
use svc_hostify.System.{get_executing_path}

-- `get_service_account_name`; the default branch returns an empty view, whose pointer is null.
abbrev pub get_service_account_name : ServiceAccountType → Text
get_service_account_name local_service = codes "NT AUTHORITY\\LocalService"
get_service_account_name network_service = codes "NT AUTHORITY\\NetworkService"
get_service_account_name local_system = []

module _ (os : Os) (essence : Essence) where
  abbrev pub get_executing_directory : Text
  get_executing_directory = essence.generic (essence.parent_path (get_executing_path os essence))

  -- The filter is lazy: a directory is tested and added before the next is tested.
  unfoldable pub add_dll_directories : List Text → Action World (Unit {0})
  add_dll_directories [] = pure tt
  add_dll_directories (item ∷ directories) = do
    found ← ask_flag os (is_directory item)
    when found (call (add_dll_directory (essence.to_native_string item)))
    add_dll_directories directories

-- `get_session_id()`: the largest `DWORD` where the call fails.
unfoldable pub current_session_id : Os → Action World ℕ
current_session_id os = do
  id ← ask_size os get_session_id
  known ← ask_flag os get_session_id
  pure (if known then id else 2 ^ 32 - 1)
