-- ===== src/Registry/Roots.antt =====
-- The long names of the roots in the table of src/registry.cxx.
use svc_hostify.Base.{Text, codes, eq_text, find, ◌≡◌, refl, ap, ◌∙◌, Option, none, some}
use svc_hostify.Effects.{Os, World, ok, Hkey, classes_root}
use svc_hostify.Essence.{Essence}
use svc_hostify.Registry.{predefined_hkeys, decompose_registry_path}
use svc_hostify.Registry.Paths.{TrimLaws, Spells, Decomposed, decompose_registry_path-Spells}

find_local_machine : find (codes "HKEY_LOCAL_MACHINE") predefined_hkeys ≡ some classes_root
unfolding codes eq_text
find_local_machine = refl

find_classes_root : find (codes "HKEY_CLASSES_ROOT") predefined_hkeys ≡ none
unfolding codes eq_text
find_classes_root = refl

module _ (os : Os) (essence : Essence) (trims : TrimLaws essence) where
  -- A path below `HKEY_LOCAL_MACHINE`, spelled out, is read as the key below `HKEY_CLASSES_ROOT`.
  pub decompose_registry_path-classes_root :
      (path sub : Text) (w : World)
      → Spells path (codes "HKEY_LOCAL_MACHINE") sub
      → decompose_registry_path os essence path w
        ≡ (ok (classes_root, essence.to_native_string sub), w)
  decompose_registry_path-classes_root path sub w spells =
      decompose_registry_path-Spells os essence trims path (codes "HKEY_LOCAL_MACHINE") sub w spells
      ∙ ap (λ (entry : Option Hkey). (Decomposed os essence trims path entry sub, w))
          find_local_machine
