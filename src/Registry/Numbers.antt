-- ===== src/Registry/Numbers.antt =====
-- Integers and bytes that are written to the registry and read back.
use svc_hostify.Base.{Text, ℕ, ◌^◌, ◌<◌, ◌≤◌, ◌≡◌, ap, ◌∙◌, some, List, take, length, arith}
use svc_hostify.Effects.{
  Os, World, Result, ok, ◌>>=◌, pure, >>=-ok, History, Hkey, RegType, reg_binary, reg_dword,
  reg_qword,
}
use svc_hostify.Essence.{Essence}
use svc_hostify.Registry.{
  c_str, decompose_registry_path, get_registry, set_registry, get_registry_dword,
  get_registry_binary, set_registry_dword, set_registry_binary, integer_capacity,
}
use svc_hostify.Registry.Store.{stored}
use svc_hostify.Registry.Values.{AnswersIn, get_registry-AnswersIn, take_within}
use svc_hostify.Registry.Wide.{
  little_endian, length-little_endian, of_little_endian, of_little_endian-little_endian_4,
}
use svc_hostify.Registry.Writes.{set_registry-stored}

-- The types whose values `RegGetValueW` returns as they are stored.
pub data IsPlain : RegType → Type 0 where
  plain_binary : IsPlain reg_binary
  plain_dword : IsPlain reg_dword
  plain_qword : IsPlain reg_qword

-- The documented behaviour of `RegGetValueW` for such a value: both calls succeed and the bytes are
-- returned, in every buffer that is told to be large enough.
pub record ReadsValues (os : Os) : Type 0 where
  pub answers :
      (h : History) (key : Hkey) (sub name : Text) (type : RegType) (capacity : ℕ) (bytes : List ℕ)
      → IsPlain type
      → length bytes ≤ capacity
      → stored os h key sub name ≡ some (type, bytes)
      → AnswersIn os h key sub name type capacity bytes

module _ (os : Os) (essence : Essence) (reads : ReadsValues os) (path name : Text) (key : Hkey)
    (sub : Text)
    (parsed : (v : World) → decompose_registry_path os essence path v ≡ (ok (key, sub), v)) where
  -- What is read behind a `set_registry` that returns.
  get_registry-set_registry :
      (capacity : ℕ → ℕ) (type : RegType) (bytes : List ℕ) (w : World)
      → IsPlain type
      → length bytes ≤ capacity (length bytes)
      → (set_registry os essence path name type bytes w).0 ≡ ok tt
      → (v : World) × (get_registry os essence capacity path name type
            (set_registry os essence path name type bytes w).1
          ≡ (ok bytes, v))
  get_registry-set_registry capacity type bytes w plain fits done =
      let u = (set_registry os essence path name type bytes w).1 in
      (
        _,
        get_registry-AnswersIn os essence capacity path name key sub type bytes u fits (parsed u) (
            reads.answers u.history key (c_str sub) (c_str (essence.to_native_string name)) type
              (capacity (length bytes)) bytes plain fits
              (set_registry-stored os essence path name key sub type bytes w (parsed w) done)),
      )

  -- The integer in the bytes that are read, `width` of them.
  read_integer :
      (width : ℕ) (type : RegType) (value : ℕ) (w : World)
      → IsPlain type
      → width ≤ integer_capacity width width
      → of_little_endian (little_endian width value) ≡ value
      → (set_registry os essence path name type (little_endian width value) w).0 ≡ ok tt
      → ((get_registry os essence (integer_capacity width) path name type >>= λ bytes.
            pure (of_little_endian (take width bytes)))
          (set_registry os essence path name type (little_endian width value) w).1).0
        ≡ ok value
  read_integer width type value w plain fits back done =
      let bytes = little_endian width value in
      let (v, e) =
        get_registry-set_registry (integer_capacity width) type bytes w plain
          (omega (arith, length-little_endian width value, fits)) done in
      ap (λ (p : Result ℕ × World). p.0)
        (>>=-ok (get_registry os essence (integer_capacity width) path name type)
          (λ b. pure (of_little_endian (take width b)))
          (set_registry os essence path name type bytes w).1 e)
      ∙ ap ok (
          ap of_little_endian
            (take_within width bytes (omega (arith, length-little_endian width value)))
          ∙ back)

  -- A 32-bit integer is read back from the registry as it was written, where the registry takes it:
  -- `RegGetValueW` is told of a buffer with 16 bytes and returns the 4 that are stored.
  pub get_registry_dword-set :
      (value : ℕ) (w : World)
      → value < 2 ^ 32
      → (set_registry_dword os essence path name value w).0 ≡ ok tt
      → (get_registry_dword os essence path name
          (set_registry_dword os essence path name value w).1).0
        ≡ ok value
  unfolding set_registry_dword get_registry_dword
  get_registry_dword-set value w fits done =
      read_integer 4 reg_dword value w plain_dword (omega arith)
        (of_little_endian-little_endian_4 value fits) done

  -- Bytes are read back from the registry as they were written, where the registry takes them.
  pub get_registry_binary-set :
      (bytes : List ℕ) (w : World)
      → (set_registry_binary os essence path name bytes w).0 ≡ ok tt
      → (get_registry_binary os essence path name
          (set_registry_binary os essence path name bytes w).1).0
        ≡ ok bytes
  unfolding set_registry_binary get_registry_binary
  get_registry_binary-set bytes w done =
      ap (λ (p : Result (List ℕ) × World). p.0)
        (get_registry-set_registry (λ n. n) reg_binary bytes w plain_binary (omega arith) done).1
