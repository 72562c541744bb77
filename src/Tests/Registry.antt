-- ===== src/Tests/Registry.antt =====
-- The registry: a registry that returns what the calls have stored, and the theorems at concrete
-- paths and values.
use svc_hostify.Base.{
  Text, codes, length, eq_text, ℕ, ◌%◌, ◌/◌, find, ◌≡◌, refl, sym, ap, ◌∙◌, true, Option, none,
  some, List, [], ◌∷◌, ◌++◌, Passes, drop_while-append, drop_while, All-append, append_assoc, arith,
  join_with, if◌then◌else◌,
}
use svc_hostify.Effects.{
  Os, start, ok, Call, History, Hkey, RegType, reg_sz, classes_root, current_user,
  reg_get_value_size, reg_get_value, World, Result, >>=-ok, reg_multi_sz, get_proc_address,
}
use svc_hostify.Registry.{
  preferred_separator_group, decompose_registry_path, predefined_hkeys, get_registry_multi_string,
  set_registry_multi_string, set_registry, store_value, check_registry_error,
}
use svc_hostify.Registry.Wide.{wide_bytes}
use svc_hostify.Registry.Paths.{
  is_separator, EndsClean, BeginsClean, EndsClean-append, TrimLaws, Spells, Decomposed,
  decompose_registry_path-Spells,
}
use svc_hostify.Registry.Store.{stored, settle, effect}
use svc_hostify.Registry.Values.{ReadsTexts, ReadsLists}
use svc_hostify.Registry.Lists.{get_registry_multi_string-set}
use svc_hostify.Registry.Roots.{decompose_registry_path-classes_root}
use svc_hostify.Tests.Platform.{essence, os, trim_right, is_backslash}

trim_right-separators :
    (seps : Text) → Passes is_separator seps → trim_right seps preferred_separator_group ≡ []
trim_right-separators [] h = refl
trim_right-separators (c ∷ seps) h = rw (h.0, trim_right-separators seps h.1) refl

trim_right-append :
    (s seps : Text)
    → EndsClean s
    → Passes is_separator seps
    → trim_right (s ++ seps) preferred_separator_group ≡ s
trim_right-append [] seps h k = trim_right-separators seps k
trim_right-append (c ∷ []) seps h k = rw (trim_right-separators seps k, h) refl
trim_right-append (c ∷ d ∷ s) seps h k = rw (trim_right-append (d ∷ s) seps h k) (ground arith)

trim-append :
    (before s seps : Text)
    → Passes is_separator before
    → BeginsClean s
    → EndsClean s
    → Passes is_separator seps
    → drop_while is_backslash (trim_right (before ++ (s ++ seps)) preferred_separator_group) ≡ s
unfolding drop_while
trim-append before [] seps hb b e hs =
    rw (trim_right-separators (before ++ seps) (All-append _ before seps hb hs)) refl
trim-append before (c ∷ s) seps hb b e hs =
    ap (λ (t : Text). drop_while is_backslash (trim_right t preferred_separator_group))
      (sym (append_assoc before (c ∷ s) seps))
    ∙ (ap (drop_while is_backslash)
          (trim_right-append (before ++ c ∷ s) seps (EndsClean-append before c s e) hs)
        ∙ drop_while-append is_backslash before (c ∷ s) hb b)

pub trims : TrimLaws essence
trims = record { trim_right-append = trim_right-append; trim-append = trim-append }

-- What a stored value is returned as: a text gets the NUL that ends it.
abbrev pub returned : Option (RegType × List ℕ) → List ℕ
returned none = []
returned (some (reg_sz, bytes)) = bytes ++ 0 ∷ 0 ∷ []
returned (some (type, bytes)) = bytes

abbrev answer : History → Call → List ℕ
answer h (reg_get_value_size key sub name flags) = returned (stored os h key sub name)
answer h (reg_get_value key sub name flags size) = returned (stored os h key sub name)
answer h _ = []

-- The two functions of a service's DLL are found at addresses of their own.
abbrev address_of : Call → Option ℕ
address_of (get_proc_address dll name) =
    if eq_text name (codes "refvalue_svchostify_run") then some 8 else some 9
address_of c = some 7

-- Every call succeeds, and the registry keeps what it is given.
abbrev pub hive : Os
hive = record os {
  handle = λ h c. address_of c;
  size = λ h c. length (answer h c);
  buffer = answer;
}

pub stored-hive :
    (h : History) (key : Hkey) (sub name : Text)
    → stored hive h key sub name ≡ stored os h key sub name
stored-hive [] key sub name = refl
stored-hive (c ∷ h) key sub name =
    ap (settle true (effect c key sub name)) (stored-hive h key sub name)

wide_bytes-terminated : (u : Text) → wide_bytes u ++ 0 ∷ 0 ∷ [] ≡ wide_bytes (u ++ 0 ∷ [])
unfolding wide_bytes
wide_bytes-terminated [] = refl
wide_bytes-terminated (c ∷ u) = ap (λ (l : List ℕ). c % 256 ∷ c / 256 ∷ l) (wide_bytes-terminated u)

returned-stored :
    (h : History) (key : Hkey) (sub name u : Text)
    → stored hive h key sub name ≡ some (reg_sz, wide_bytes u)
    → returned (stored os h key sub name) ≡ wide_bytes (u ++ 0 ∷ [])
returned-stored h key sub name u k =
    ap returned (sym (stored-hive h key sub name) ∙ k) ∙ wide_bytes-terminated u

pub hive-ReadsTexts : ReadsTexts hive
hive-ReadsTexts = record {
  answers = λ h key sub name u plain k. record {
    sized = refl;
    size = ap length (returned-stored h key sub name u k);
    read = refl;
    filled = returned-stored h key sub name u k;
  };
}

abbrev misread_path : Text
misread_path = codes "HKEY_LOCAL_MACHINE/SOFTWARE\\Svc\\"

misread_path-Spells : Spells misread_path (codes "HKEY_LOCAL_MACHINE") (codes "SOFTWARE\\Svc")
unfolding codes
misread_path-Spells = record {
  before = [];
  seps = b'\\' ∷ [];
  spelled = refl;
  name_plain = omega arith;
  before_separators = tt;
  sub_begins = refl;
  sub_ends = refl;
  sub_given = λ e. cc;
  sub_plain = omega arith;
  seps_separators = (refl, tt);
}

decompose_registry_path-classes_root_example :
    decompose_registry_path os essence misread_path start
    ≡ (ok (classes_root, codes "SOFTWARE\\Svc"), start)
decompose_registry_path-classes_root_example =
    decompose_registry_path-classes_root os essence trims misread_path (codes "SOFTWARE\\Svc") start
      misread_path-Spells

abbrev pub spelled_path : Text
spelled_path = codes "HKCU//SOFTWARE/Svc"

pub spelled_path-Spells : Spells spelled_path (codes "HKCU") (codes "SOFTWARE\\Svc")
unfolding codes
spelled_path-Spells = record {
  before = b'\\' ∷ [];
  seps = [];
  spelled = refl;
  name_plain = omega arith;
  before_separators = (refl, tt);
  sub_begins = refl;
  sub_ends = refl;
  sub_given = λ e. cc;
  sub_plain = omega arith;
  seps_separators = tt;
}

decompose_registry_path-Spells_example : decompose_registry_path os essence spelled_path start ≡ (
  Decomposed os essence trims spelled_path
      (find (codes "HKCU") predefined_hkeys)
      (codes "SOFTWARE\\Svc"),
  start,
)
decompose_registry_path-Spells_example =
    decompose_registry_path-Spells os essence trims spelled_path (codes "HKCU")
      (codes "SOFTWARE\\Svc") start spelled_path-Spells

hive-ReadsLists : ReadsLists hive
hive-ReadsLists = record {
  answers = λ h key sub name u k.
      let e = ap returned (sym (stored-hive h key sub name) ∙ k) in
      record { sized = refl; size = ap length e; read = refl; filled = e };
}

spelled_path-decomposed :
    (w : World)
    → decompose_registry_path hive essence spelled_path w
      ≡ (ok (current_user, codes "SOFTWARE\\Svc"), w)
unfolding codes eq_text
spelled_path-decomposed w =
    decompose_registry_path-Spells hive essence trims spelled_path (codes "HKCU")
      (codes "SOFTWARE\\Svc") w spelled_path-Spells

abbrev texts : List Text
texts = codes "a" ∷ codes "bc" ∷ []

texts_written :
    (set_registry_multi_string hive essence spelled_path (codes "v") texts start).0 ≡ ok tt
unfolding set_registry_multi_string set_registry store_value check_registry_error
texts_written =
    ap (λ (p : Result (Unit {0}) × World). p.0)
      (>>=-ok (decompose_registry_path hive essence spelled_path)
        (λ r.
          store_value hive essence spelled_path (codes "v") r.0 r.1 reg_multi_sz
            (wide_bytes (join_with 0 texts ++ 0 ∷ 0 ∷ [])))
        start (spelled_path-decomposed start))

get_registry_multi_string-set_example :
    (get_registry_multi_string hive essence spelled_path
      (codes "v")
      (set_registry_multi_string hive essence spelled_path (codes "v") texts start).1).0
    ≡ ok (codes "a" ∷ codes "bc" ∷ [] ∷ [])
unfolding codes
get_registry_multi_string-set_example =
    get_registry_multi_string-set hive essence hive-ReadsLists spelled_path (codes "v") current_user
      (codes "SOFTWARE\\Svc") spelled_path-decomposed (codes "a") (codes "bc" ∷ []) start
      (omega arith) texts_written
