-- ===== src/Registry/Lists.antt =====
-- Several texts that src/registry.cxx writes and reads back.
use svc_hostify.Base.{Text, All, Lacks, ◌≡◌, List, [], ◌∷◌, ◌++◌, map, join_with}
use svc_hostify.Effects.{Os, World, ok, Hkey, reg_multi_sz}
use svc_hostify.Essence.{Essence}
use svc_hostify.Registry.{
  c_str, decompose_registry_path, get_registry_multi_string, set_registry_multi_string,
}
use svc_hostify.Registry.Values.{ReadsLists, get_registry_multi_string-Answers}
use svc_hostify.Registry.Wide.{wide_bytes}
use svc_hostify.Registry.Writes.{set_registry-stored}

-- Texts that are written, where the registry takes them, are read back with one empty text more. No
-- text has a NUL, there is one at least, and the registry returns what is stored with two NULs as
-- it is.
pub get_registry_multi_string-set :
    (os : Os) (essence : Essence)
    → ReadsLists os
    → (path name : Text) (key : Hkey) (sub : Text)
    → ((v : World) → decompose_registry_path os essence path v ≡ (ok (key, sub), v))
    → (x : Text) (values : List Text) (w : World)
    → All (Lacks 0) (map essence.to_native_string (x ∷ values))
    → (set_registry_multi_string os essence path name (x ∷ values) w).0 ≡ ok tt
    → (get_registry_multi_string os essence path name
        (set_registry_multi_string os essence path name (x ∷ values) w).1).0
      ≡ ok (map essence.to_utf8_string (map essence.to_native_string (x ∷ values) ++ [] ∷ []))
unfolding set_registry_multi_string
get_registry_multi_string-set os essence reads path name key sub parsed x values w plain done =
    let natives = map essence.to_native_string (x ∷ values) in
    let u = (set_registry_multi_string os essence path name (x ∷ values) w).1 in
    get_registry_multi_string-Answers os essence path name key sub x values u (parsed u) plain (
      reads.answers u.history key (c_str sub) (c_str (essence.to_native_string name))
        (join_with 0 natives)
        (set_registry-stored os essence path name key sub reg_multi_sz
          (wide_bytes (join_with 0 natives ++ 0 ∷ 0 ∷ [])) w (parsed w) done))
