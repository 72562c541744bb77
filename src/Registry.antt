-- ===== src/Registry.antt =====
-- src/registry.cxx, with the separators of src/filesystem_tokens.cxx: registry paths, and typed
-- access to registry values. `trim` and `trim_right` are taken to return views into their
-- argument, as the pointer arithmetic of `decompose_registry_path` needs.
pub mod Wide
pub mod Paths
pub mod Store
pub mod Values
pub mod Numbers
pub mod Lists
pub mod Frames
pub mod Deletes
pub mod Writes
pub mod Roots
use svc_hostify.Base.{
  join_with, Text, codes, take, drop, take_while, find, length, ℕ, suc, ◌-◌, ◌*◌, ◌/◌, ◌==◌, Bool,
  true, false, not, ltb, ◌&&◌, Option, none, some, List, [], ◌∷◌, ◌++◌, map, if◌then◌else◌,
}
use svc_hostify.Effects.{
  Os, World, Action, ◌>>=◌, ◌>>◌, formatted, throw, throw_if, pure, ask_number, ask_size,
  ask_buffer, Hkey, classes_root, current_config, current_user, local_machine, users, RegType,
  reg_sz, reg_expand_sz, reg_binary, reg_dword, reg_multi_sz, reg_qword, reg_set_key_value,
  reg_get_value_size, reg_get_value, reg_delete_tree, reg_delete_key_value,
}
use svc_hostify.Essence.{Essence}
use svc_hostify.System.{get_system_error}
use Wide.{wide_bytes, wide_of_bytes, little_endian, of_little_endian, split}

abbrev pub generic_separator : ℕ
generic_separator = b'/'

abbrev pub preferred_separator : ℕ
preferred_separator = b'\\'

abbrev pub preferred_separator_group : Text
preferred_separator_group = preferred_separator ∷ []

-- The table as it is written: the first name stands twice.
abbrev pub predefined_hkeys : List (Text × Hkey)
predefined_hkeys =
    (codes "HKEY_LOCAL_MACHINE", classes_root)
    ∷ (codes "HKEY_CURRENT_CONFIG", current_config)
    ∷ (codes "HKEY_CURRENT_USER", current_user)
    ∷ (codes "HKEY_LOCAL_MACHINE", local_machine)
    ∷ (codes "HKEY_USERS", users)
    ∷ (codes "HKCR", classes_root)
    ∷ (codes "HKCC", current_config)
    ∷ (codes "HKCU", current_user)
    ∷ (codes "HKLM", local_machine)
    ∷ (codes "HKU", users)
    ∷ []

-- What a pointer to the characters is read as: the text up to the first NUL.
abbrev pub c_str : Text → Text
c_str = take_while (λ c. not (c == 0))

unfoldable pub find_first_of : ℕ → Text → Option ℕ
find_first_of sep [] = none
find_first_of sep (c ∷ s) =
    if c == sep then some 0 else elim (find_first_of sep s) [ none ↦ none | some i ↦ some (suc i) ]

-- `substr(0, count)`; `none` is `npos`.
abbrev pub substr : Text → Option ℕ → Text
substr s none = s
substr s (some count) = take count s

abbrev pub to_preferred : Text → Text
to_preferred = map (λ ch. if ch == generic_separator then preferred_separator else ch)

-- A `std::wstring` of `size / 2` elements.
abbrev pub wide_capacity : ℕ → ℕ
wide_capacity size = size / 2 * 2

-- `registry_integer_adapter`: `size()` is the number of bytes, and it is multiplied by it again.
abbrev pub integer_capacity : ℕ → ℕ → ℕ
integer_capacity width size = width * width

module _ (os : Os) (essence : Essence) where
  unfoldable pub check_registry_error : ℕ → List Text → Action World (Unit {0})
  check_registry_error code args =
      throw_if (not (code == 0))
        (formatted (args ++ codes "Internal" ∷ get_system_error os essence code ∷ []))

  -- The last test and the two results, for the entry that was found.
  unfoldable pub decompose_entry :
      Text → Text → Text → Text → Option Hkey → Action World (Hkey × Text)
  decompose_entry path preferred_path pure_path first_component none =
      throw (formatted (codes "Key" ∷ path ∷ codes "Message" ∷ codes "Illegal registry key." ∷ []))
  decompose_entry path preferred_path pure_path first_component (some key) =
      if ltb (length first_component) (length pure_path)
      then pure (
        key,
        essence.to_native_string (
            essence.trim (c_str (drop (suc (length first_component)) preferred_path))
              preferred_separator_group),
      )
      else throw
          (formatted (codes "Key" ∷ path ∷ codes "Message" ∷ codes "Illegal registry key." ∷ []))

  unfoldable pub decompose_registry_path : Text → Action World (Hkey × Text)
  decompose_registry_path path =
      let preferred_path = to_preferred path in
      let pure_path = essence.trim_right preferred_path preferred_separator_group in
      let first_component = substr pure_path (find_first_of preferred_separator preferred_path) in
      decompose_entry path preferred_path pure_path first_component
        (find first_component predefined_hkeys)

  -- `set_registry` behind the path.
  unfoldable pub store_value :
      Text → Text → Hkey → Text → RegType → List ℕ → Action World (Unit {0})
  store_value path name key sub_key type value = do
    code ←
        ask_number os
          (reg_set_key_value key (c_str sub_key) (c_str (essence.to_native_string name)) type value)
    check_registry_error code (
        codes "Key"
        ∷ path
        ∷ codes "Name"
        ∷ name
        ∷ codes "Message"
        ∷ codes "Failed to set the registry value."
        ∷ [])

  unfoldable pub set_registry : Text → Text → RegType → List ℕ → Action World (Unit {0})
  set_registry path name type value = do
    (key, sub_key) ← decompose_registry_path path
    store_value path name key sub_key type value

  -- The two calls of `get_registry<Container>`. `capacity` is `size()` of the resized container
  -- times the size of its elements, from the size that the first call returns.
  unfoldable pub query_registry :
      (ℕ → ℕ) → Text → Text → Hkey → Text → RegType → Action World (List ℕ)
  query_registry capacity path name key sub_key flags = do
    let wide_name = c_str (essence.to_native_string name)
    let size_call = reg_get_value_size key (c_str sub_key) wide_name flags
    size ← ask_size os size_call
    code ← ask_number os size_call
    check_registry_error code (
        codes "Key"
        ∷ path
        ∷ codes "Name"
        ∷ name
        ∷ codes "Message"
        ∷ codes "Failed to get the storage size of the registry value."
        ∷ [])
    let value_call = reg_get_value key (c_str sub_key) wide_name flags (capacity size)
    result ← ask_buffer os value_call
    code ← ask_number os value_call
    check_registry_error code (
        codes "Key"
        ∷ path
        ∷ codes "Name"
        ∷ name
        ∷ codes "Message"
        ∷ codes "Failed to get the context of the registry value."
        ∷ [])
    pure (take (capacity size) result)

  unfoldable pub get_registry : (ℕ → ℕ) → Text → Text → RegType → Action World (List ℕ)
  get_registry capacity path name flags = do
    (key, sub_key) ← decompose_registry_path path
    query_registry capacity path name key sub_key flags

  unfoldable pub get_registry_binary : Text → Text → Action World (List ℕ)
  get_registry_binary path name = get_registry (λ size. size) path name reg_binary

  unfoldable pub get_registry_dword : Text → Text → Action World ℕ
  get_registry_dword path name = do
    bytes ← get_registry (integer_capacity 4) path name reg_dword
    pure (of_little_endian (take 4 bytes))

  unfoldable pub get_registry_qword : Text → Text → Action World ℕ
  get_registry_qword path name = do
    bytes ← get_registry (integer_capacity 8) path name reg_qword
    pure (of_little_endian (take 8 bytes))

  unfoldable pub get_registry_string : Text → Text → Action World Text
  get_registry_string path name = do
    bytes ← get_registry wide_capacity path name reg_sz
    pure (essence.to_utf8_string (c_str (wide_of_bytes bytes)))

  unfoldable pub get_registry_multi_string : Text → Text → Action World (List Text)
  get_registry_multi_string path name = do
    bytes ← get_registry wide_capacity path name reg_multi_sz
    let buffer = wide_of_bytes bytes
    pure (map essence.to_utf8_string (split 0 (take (length buffer - 1) buffer)))

  unfoldable pub set_registry_multi_string : Text → Text → List Text → Action World (Unit {0})
  set_registry_multi_string path name values =
      set_registry path name reg_multi_sz
        (wide_bytes (join_with 0 (map essence.to_native_string values) ++ 0 ∷ 0 ∷ []))

  unfoldable pub set_registry_string : Text → Text → Text → Bool → Action World (Unit {0})
  set_registry_string path name value expand_sz =
      set_registry path name (if expand_sz then reg_expand_sz else reg_sz)
        (wide_bytes (essence.to_native_string value))

  unfoldable pub set_registry_dword : Text → Text → ℕ → Action World (Unit {0})
  set_registry_dword path name value = set_registry path name reg_dword (little_endian 4 value)

  unfoldable pub set_registry_qword : Text → Text → ℕ → Action World (Unit {0})
  set_registry_qword path name value = set_registry path name reg_qword (little_endian 8 value)

  unfoldable pub set_registry_binary : Text → Text → List ℕ → Action World (Unit {0})
  set_registry_binary path name values = set_registry path name reg_binary values

  -- The two deletions behind the path.
  unfoldable pub delete_tree_at : Text → Hkey → Text → Action World (Unit {0})
  delete_tree_at path key sub_key = do
    code ← ask_number os (reg_delete_tree key (c_str sub_key))
    check_registry_error code
        (codes "Key" ∷ path ∷ codes "Message" ∷ codes "Failed to delete the registry tree." ∷ [])

  unfoldable pub delete_value_at : Text → Text → Hkey → Text → Action World (Unit {0})
  delete_value_at path name key sub_key = do
    code ←
        ask_number os
          (reg_delete_key_value key (c_str sub_key) (c_str (essence.to_native_string name)))
    check_registry_error code (
        codes "Key"
        ∷ path
        ∷ codes "Name"
        ∷ name
        ∷ codes "Message"
        ∷ codes "Failed to delete the registry value."
        ∷ [])

  unfoldable pub delete_registry_tree : Text → Action World (Unit {0})
  delete_registry_tree path = do
    (key, sub_key) ← decompose_registry_path path
    delete_tree_at path key sub_key

  unfoldable pub delete_registry_value : Text → Text → Action World (Unit {0})
  delete_registry_value path name = do
    (key, sub_key) ← decompose_registry_path path
    delete_value_at path name key sub_key
