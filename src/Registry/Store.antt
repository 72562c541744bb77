-- ===== src/Registry/Store.antt =====
-- An abstract view of the registry: the value that the last successful call has left at a place,
-- and the documented behaviour of `RegGetValueW` in its terms.
use svc_hostify.Base.{
  Text, eq_text, ℕ, ◌==◌, ◌≡◌, Bool, true, false, ◌&&◌, Option, none, some, List, [], ◌∷◌, take,
  length, refl, eq_text_refl, if◌then◌else◌,
}
use svc_hostify.Effects.{
  Os, Call, History, Hkey, classes_root, current_config, current_user, local_machine, users,
  RegType, reg_set_key_value, reg_delete_tree, reg_delete_key_value,
}

abbrev pub same_hkey : Hkey → Hkey → Bool
same_hkey classes_root classes_root = true
same_hkey current_config current_config = true
same_hkey current_user current_user = true
same_hkey local_machine local_machine = true
same_hkey users users = true
same_hkey _ _ = false

pub same_hkey_refl : (k : Hkey) → same_hkey k k ≡ true
same_hkey_refl classes_root = refl
same_hkey_refl current_config = refl
same_hkey_refl current_user = refl
same_hkey_refl local_machine = refl
same_hkey_refl users = refl

-- What a call does to the value at a key and a name: nothing, or the new value.
abbrev pub effect : Call → Hkey → Text → Text → Option (Option (RegType × List ℕ))
effect (reg_set_key_value k s n ty d) key sub name =
    if same_hkey k key && (eq_text s sub && eq_text n name) then some (some (ty, d)) else none
effect (reg_delete_key_value k s n) key sub name =
    if same_hkey k key && (eq_text s sub && eq_text n name) then some none else none
effect (reg_delete_tree k s) key sub name =
    if same_hkey k key && eq_text s (take (length s) sub) then some none else none
effect _ key sub name = none

-- The value that a history leaves there.
abbrev pub settle :
    Bool
    → Option (Option (RegType × List ℕ))
    → Option (RegType × List ℕ)
    → Option (RegType × List ℕ)
settle true (some v) old = v
settle true none old = old
settle false change old = old

abbrev pub stored : Os → History → Hkey → Text → Text → Option (RegType × List ℕ)
stored os [] key sub name = none
stored os (c ∷ h) key sub name =
    settle (os.number h c == 0) (effect c key sub name) (stored os h key sub name)

-- The value that a successful `RegSetKeyValueW` leaves.
pub stored_set :
    (os : Os) (h : History) (key : Hkey) (sub name : Text) (type : RegType) (value : List ℕ)
    → os.number h (reg_set_key_value key sub name type value) ≡ 0
    → stored os (reg_set_key_value key sub name type value ∷ h) key sub name ≡ some (type, value)
stored_set os h key sub name type value done =
    rw (done, same_hkey_refl key, eq_text_refl sub, eq_text_refl name) refl
