-- ===== src/System/Paths.antt =====
-- The paths that src/util.cpp returns, where the calls of Windows behave as they are documented.
use svc_hostify.Base.{
  Text, ℕ, ◌+◌, ◌-◌, ◌<◌, ◌≤◌, ◌≡◌, ap, sym, ◌∙◌, ltb, some, [], ◌∷◌, ◌++◌, take, length,
  length-append, take-length-append, append-nil, arith, if◌then◌else◌,
}
use svc_hostify.Effects.{Os, Filled, ModuleOf}
use svc_hostify.Essence.{Essence}
use svc_hostify.System.{max_path, resize, zeros, filled_text, get_module_path, module_path}

-- A text of `size` elements after `GetModuleFileNameW` for a module with the path `path`: a path
-- that does not fit is cut, behind it stands a NUL, and the whole size is returned.
pub data FillsName (path : Text) (size : ℕ) : Filled → Type 0 where
  whole :
      (rest : Text)
      → length path < size
      → length (path ++ 0 ∷ rest) ≡ size
      → FillsName path size (record { buffer = path ++ 0 ∷ rest; count = length path })
  cut :
      (kept rest : Text)
      → path ≡ kept ++ rest
      → length kept + 1 ≡ size
      → size ≤ length path
      → FillsName path size (record { buffer = kept ++ 0 ∷ []; count = size })

abbrev take_all : (s : Text) → take (length s) s ≡ s
take_all s = ap (take (length s)) (sym (append-nil s)) ∙ take-length-append s []

no_zeros : (s t : Text) → length s - length (s ++ t) ≡ 0
no_zeros s t = omega (arith, length-append s t)

resize-append : (s t : Text) → resize (length s) (s ++ t) ≡ s
resize-append s t =
    ap (λ (n : ℕ). take (length s) (s ++ t) ++ zeros n) (no_zeros s t)
    ∙ (append-nil (take (length s) (s ++ t)) ∙ take-length-append s t)

take_whole : (s : Text) (n : ℕ) → length s ≡ n → take n s ≡ s
take_whole s n e =
    ap (λ (m : ℕ). take m s) (sym e)
    ∙ (ap (take (length s)) (sym (append-nil s)) ∙ take-length-append s [])

-- A path as it is returned: one that does not fit is cut and ends in a NUL.
abbrev pub shortened : ℕ → Text → Text
shortened size path = if ltb (length path) size then path else take (size - 1) path ++ 0 ∷ []

filled_text-append :
    (s t : Text)
    → length (s ++ t) ≡ max_path
    → filled_text (record { buffer = s ++ t; count = length s }) ≡ s
filled_text-append s t e =
    ap (resize (length s)) (take_whole (s ++ t) max_path e) ∙ resize-append s t

filled_text-full :
    (s : Text) → length s ≡ max_path → filled_text (record { buffer = s; count = max_path }) ≡ s
filled_text-full s e =
    ap (resize max_path) (take_whole s max_path e)
    ∙ (ap (λ (t : Text). t ++ zeros (max_path - length s)) (take_whole s max_path e)
        ∙ (ap (λ (n : ℕ). s ++ zeros n) none_left ∙ append-nil s))
  where
    none_left : max_path - length s ≡ 0
    none_left = omega (arith, e)

shortened_whole : (path : Text) (size : ℕ) → length path < size → shortened size path ≡ path
shortened_whole path size fits = ground arith

shortened_cut :
    (path : Text) (size : ℕ)
    → size ≤ length path
    → shortened size path ≡ take (size - 1) path ++ 0 ∷ []
shortened_cut path size long = ground arith

filled_text-FillsName :
    (path : Text) (f : Filled) → FillsName path max_path f → filled_text f ≡ shortened max_path path
filled_text-FillsName path _ (whole rest fits e) =
    filled_text-append path (0 ∷ rest) e ∙ sym (shortened_whole path max_path fits)
filled_text-FillsName path _ (cut kept rest e k long) =
    filled_text-full (kept ++ 0 ∷ []) full
    ∙ sym (shortened_cut path max_path long ∙ ap (λ (s : Text). s ++ 0 ∷ []) kept_path)
  where
    full : length (kept ++ 0 ∷ []) ≡ max_path
    full = omega (arith, length-append kept (0 ∷ []))

    kept_count : max_path - 1 ≡ length kept
    kept_count = omega (arith, k)

    kept_path : take (max_path - 1) path ≡ kept
    kept_path =
        ap (λ (n : ℕ). take n path) kept_count
        ∙ (ap (take (length kept)) e ∙ take-length-append kept rest)

module _ (os : Os) (essence : Essence) where
  -- The path of a module, given that `GetModuleFileNameW` behaves as it is documented: the path
  -- itself where it has fewer than 260 characters, and otherwise its first 259 and a NUL.
  pub get_module_path-FillsName :
      (flags : ModuleOf) (handle : ℕ) (path : Text)
      → os.module_handle flags ≡ some handle
      → FillsName path max_path (os.module_file_name handle max_path)
      → get_module_path os essence flags ≡ essence.to_utf8_string (shortened max_path path)
  unfolding get_module_path module_path
  get_module_path-FillsName flags handle path found fills =
      rw found (ap essence.to_utf8_string (filled_text-FillsName path _ fills))
