-- ===== src/Registry/Values.antt =====
-- What reading a registry value returns, given the bytes that the registry holds for it.
use svc_hostify.Base.{
  join_with, Text, take, take_while, length, All, Lacks, ℕ, ◌-◌, ◌≡◌, refl, sym, ap, ◌∙◌, some,
  List, [], ◌∷◌, ◌++◌, map, arith, zero, suc, ◌≤◌,
}
use mathlib.Core.Path.{subst}
use svc_hostify.Effects.{
  Os, World, Result, ok, >>=-ok, after, Call, History, Hkey, RegType, reg_sz, reg_multi_sz,
  reg_get_value_size, reg_get_value,
}
use svc_hostify.Essence.{Essence}
use svc_hostify.Registry.{
  c_str, decompose_registry_path, get_registry, query_registry, get_registry_string,
  get_registry_multi_string, check_registry_error, wide_capacity,
}
use svc_hostify.Registry.Store.{stored}
use svc_hostify.Registry.Wide.{
  wide_bytes, wide_of_bytes, split, wide_of_bytes-wide_bytes_self, wide_capacity_fits,
  split-join_with,
}

-- The two calls of `get_registry` for a string, from the state `w` on.
abbrev pub size_query : Hkey → Text → Text → RegType → Call
size_query key sub name flags = reg_get_value_size key sub name flags

-- `RegGetValueW` succeeds twice and returns these bytes, in a buffer for `capacity` bytes.
pub record AnswersIn (os : Os) (h : History) (key : Hkey) (sub name : Text) (flags : RegType)
    (capacity : ℕ) (bytes : List ℕ) : Type 0 where
  pub sized : os.number h (reg_get_value_size key sub name flags) ≡ 0
  pub size : os.size h (reg_get_value_size key sub name flags) ≡ length bytes
  pub read :
      os.number
        (reg_get_value_size key sub name flags ∷ h)
        (reg_get_value key sub name flags capacity)
      ≡ 0
  pub filled :
      os.buffer
        (reg_get_value_size key sub name flags ∷ h)
        (reg_get_value key sub name flags capacity)
      ≡ bytes

-- The same with a buffer that has the size of the bytes.
abbrev pub Answers : Os → History → Hkey → Text → Text → RegType → List ℕ → Type 0
Answers os h key sub name flags bytes = AnswersIn os h key sub name flags (length bytes) bytes

-- The documented behaviour of `RegGetValueW` for a text that is stored without the NUL that ends
-- it: it is returned with one. Both calls succeed where the text is stored.
pub record ReadsTexts (os : Os) : Type 0 where
  pub answers :
      (h : History) (key : Hkey) (sub name u : Text)
      → Lacks 0 u
      → stored os h key sub name ≡ some (reg_sz, wide_bytes u)
      → Answers os h key sub name reg_sz (wide_bytes (u ++ 0 ∷ []))

-- The documented behaviour for several texts: what is stored with the two NULs that end them is
-- returned as it is.
pub record ReadsLists (os : Os) : Type 0 where
  pub answers :
      (h : History) (key : Hkey) (sub name u : Text)
      → stored os h key sub name ≡ some (reg_multi_sz, wide_bytes (u ++ 0 ∷ 0 ∷ []))
      → Answers os h key sub name reg_multi_sz (wide_bytes (u ++ 0 ∷ 0 ∷ []))

-- The state after the two calls.
abbrev pub queried : Hkey → Text → Text → RegType → ℕ → World → World
queried key sub name flags n w =
    after (reg_get_value key sub name flags n) (after (reg_get_value_size key sub name flags) w)

pub take_within : (n : ℕ) (s : List ℕ) → length s ≤ n → take n s ≡ s
take_within zero [] h = refl
take_within (suc n) [] h = refl
take_within zero (c ∷ s) h = absurd (omega arith)
take_within (suc n) (c ∷ s) h = ap (λ (t : List ℕ). c ∷ t) (take_within n s (omega arith))

module _ (os : Os) (essence : Essence) where
  -- `get_registry` with a buffer that may be larger than the bytes.
  pub get_registry-AnswersIn :
      (capacity : ℕ → ℕ) (path name : Text) (key : Hkey) (sub : Text) (flags : RegType)
      (bytes : List ℕ) (w : World)
      → length bytes ≤ capacity (length bytes)
      → decompose_registry_path os essence path w ≡ (ok (key, sub), w)
      → AnswersIn os w.history key
          (c_str sub)
          (c_str (essence.to_native_string name))
          flags
          (capacity (length bytes))
          bytes
      → get_registry os essence capacity path name flags w ≡ (
        ok bytes,
        queried key
            (c_str sub)
            (c_str (essence.to_native_string name))
            flags
            (capacity (length bytes))
            w,
      )
  unfolding get_registry query_registry check_registry_error
  get_registry-AnswersIn capacity path name key sub flags bytes w fits parsed a =
      >>=-ok (decompose_registry_path os essence path)
        (λ r. query_registry os essence capacity path name r.0 r.1 flags) w parsed
      ∙ rw (a.size, a.sized, a.read, a.filled, take_within (capacity (length bytes)) bytes fits)
          refl

  get_registry-Answers :
      (capacity : ℕ → ℕ) (path name : Text) (key : Hkey) (sub : Text) (flags : RegType)
      (bytes : List ℕ) (w : World)
      → capacity (length bytes) ≡ length bytes
      → decompose_registry_path os essence path w ≡ (ok (key, sub), w)
      → Answers os w.history key (c_str sub) (c_str (essence.to_native_string name)) flags bytes
      → get_registry os essence capacity path name flags w ≡ (
        ok bytes,
        queried key (c_str sub) (c_str (essence.to_native_string name)) flags (length bytes) w,
      )
  get_registry-Answers capacity path name key sub flags bytes w fits parsed a =
      let wide = c_str (essence.to_native_string name) in
      get_registry-AnswersIn capacity path name key sub flags bytes w (omega (arith, fits)) parsed
        (subst (λ n. AnswersIn os w.history key (c_str sub) wide flags n bytes) (sym fits) a)
      ∙ ap (λ (n : ℕ). (Result.ok bytes, queried key (c_str sub) wide flags n w)) fits

  -- What is read from the bytes of several texts: one empty text more.
  pub get_registry_multi_string-Answers :
      (path name : Text) (key : Hkey) (sub : Text) (x : Text) (values : List Text) (w : World)
      → decompose_registry_path os essence path w ≡ (ok (key, sub), w)
      → All (Lacks 0) (map essence.to_native_string (x ∷ values))
      → Answers os w.history key
          (c_str sub)
          (c_str (essence.to_native_string name))
          reg_multi_sz
          (wide_bytes (join_with 0 (map essence.to_native_string (x ∷ values)) ++ 0 ∷ 0 ∷ []))
      → (get_registry_multi_string os essence path name w).0
        ≡ ok (map essence.to_utf8_string (map essence.to_native_string (x ∷ values) ++ [] ∷ []))
  unfolding get_registry_multi_string
  get_registry_multi_string-Answers path name key sub x values w parsed plain a =
      ap (λ (p : Result (List Text) × World). p.0)
        (>>=-ok (get_registry os essence wide_capacity path name reg_multi_sz)
          (λ bytes v. (ok (texts_of (wide_of_bytes bytes)), v)) w
          (get_registry-Answers wide_capacity path name key sub reg_multi_sz _ w
            (wide_capacity_fits written) parsed a))
      ∙ (ap (λ (s : Text). ok (texts_of s)) (wide_of_bytes-wide_bytes_self written)
          ∙ ap (λ (l : List Text). ok (map essence.to_utf8_string l))
              (split-join_with (essence.to_native_string x) (map essence.to_native_string values)
                plain))
    where
      texts_of : Text → List Text
      texts_of buffer = map essence.to_utf8_string (split 0 (take (length buffer - 1) buffer))

      written : Text
      written = join_with 0 (map essence.to_native_string (x ∷ values)) ++ 0 ∷ 0 ∷ []

  c_str-terminated : (s : Text) → Lacks 0 s → c_str (s ++ 0 ∷ []) ≡ s
  unfolding take_while
  c_str-terminated [] h = refl
  c_str-terminated (c ∷ s) h = ground (arith, c_str-terminated s)

  -- A text is read back from the bytes that were written for it, with the NUL that the registry adds.
  pub get_registry_string-Answers :
      (path name : Text) (key : Hkey) (sub value : Text) (w : World)
      → decompose_registry_path os essence path w ≡ (ok (key, sub), w)
      → Lacks 0 value
      → Answers os w.history key
          (c_str sub)
          (c_str (essence.to_native_string name))
          reg_sz
          (wide_bytes (value ++ 0 ∷ []))
      → get_registry_string os essence path name w ≡ (
        ok (essence.to_utf8_string value),
        queried key
            (c_str sub)
            (c_str (essence.to_native_string name))
            reg_sz
            (length (wide_bytes (value ++ 0 ∷ [])))
            w,
      )
  unfolding get_registry_string
  get_registry_string-Answers path name key sub value w parsed plain a =
      >>=-ok (get_registry os essence wide_capacity path name reg_sz)
        (λ bytes. λ v. (ok (essence.to_utf8_string (c_str (wide_of_bytes bytes))), v)) w
        (get_registry-Answers wide_capacity path name key sub reg_sz _ w
          (wide_capacity_fits (value ++ 0 ∷ [])) parsed a)
      ∙ rw (wide_of_bytes-wide_bytes_self (value ++ 0 ∷ []), c_str-terminated value plain)
