-- ===== src/Manager/Keys.antt =====
-- The keys below HKEY_LOCAL_MACHINE that a shared service has in the registry.
use svc_hostify.Base.{
  Text, codes, ℕ, ◌≤◌, ◌≡◌, ◌≢◌, refl, sym, ap, ◌∙◌, ◌⊎◌, Option, [], ◌∷◌, ◌++◌, Lacks, All, arith,
  append_assoc, append-nil,
}
use svc_hostify.Effects.{Os, World, ok, Hkey, local_machine}
use svc_hostify.Essence.{Essence}
use svc_hostify.Registry.{preferred_separator, decompose_registry_path}
use svc_hostify.Registry.Paths.{
  TrimLaws, BeginsClean, Decomposed, Spells, EndsClean, EndsClean-append, Lacks-append,
  decompose_registry_path-Spells,
}
use svc_hostify.Config.{ServiceConfig}
use svc_hostify.Manager.{svchost_key, new_manager}
use svc_hostify.Manager.Store.{IsPlainName, to_preferred_plain, root-Lacks, find_hklm}

-- The path of a key below `HKLM`.
abbrev pub local_path : Text → Text
local_path sub = codes "HKLM" ++ preferred_separator ∷ sub

-- A key that is not empty, has no `/` and no NUL, and no separator at its ends.
pub record IsSubKey (sub : Text) : Type 0 where
  pub given : sub ≢ []
  pub begins : BeginsClean sub
  pub ends : EndsClean sub
  pub plain : IsPlainName sub

local_path-Spells : (sub : Text) → IsSubKey sub → Spells (local_path sub) (codes "HKLM") sub
local_path-Spells sub k = record {
  before = [];
  seps = [];
  spelled =
      to_preferred_plain _ whole
      ∙ ap (λ (t : Text). codes "HKLM" ++ preferred_separator ∷ t) (sym (append-nil sub));
  name_plain = root-Lacks.1;
  before_separators = tt;
  sub_begins = k.begins;
  sub_ends = k.ends;
  sub_given = k.given;
  sub_plain = k.plain.1;
  seps_separators = tt;
}
  where
    whole : Lacks b'/' (local_path sub)
    whole =
        rw (← append_assoc (codes "HKLM") (preferred_separator ∷ []) sub)
          (Lacks-append b'/' (codes "HKLM" ++ preferred_separator ∷ []) sub root-Lacks.0 k.plain.0)

module _ (os : Os) (essence : Essence) (trims : TrimLaws essence) where
  pub decompose-local_path :
      (sub : Text) (w : World)
      → IsSubKey sub
      → decompose_registry_path os essence (local_path sub) w
        ≡ (ok (local_machine, essence.to_native_string sub), w)
  decompose-local_path sub w k =
      decompose_registry_path-Spells os essence trims (local_path sub) (codes "HKLM") sub w
        (local_path-Spells sub k)
      ∙ ap (λ (entry : Option Hkey). (Decomposed os essence trims (local_path sub) entry sub, w))
          find_hklm

-- A digest is printed in hexadecimal digits.
abbrev pub IsHexDigit : ℕ → Type 0
IsHexDigit c = ((48 ≤ c) × (c ≤ 57)) ⊎ ((97 ≤ c) × (c ≤ 102))

pub record DigestLaws (essence : Essence) : Type 0 where
  pub hex : (s : Text) → All IsHexDigit (essence.sha3_224 s)

hex-Lacks : (c : ℕ) (s : Text) → ((d : ℕ) → IsHexDigit d → d ≢ c) → All IsHexDigit s → Lacks c s
hex-Lacks c [] apart h = tt
hex-Lacks c (d ∷ s) apart h = (apart d h.0, hex-Lacks c s apart h.1)

abbrev pub svchost_sub_key : Text
svchost_sub_key = codes "SOFTWARE\\Microsoft\\Windows NT\\CurrentVersion\\Svchost"

pub svchost_key-local_path : svchost_key ≡ local_path svchost_sub_key
unfolding codes
svchost_key-local_path = refl

pub svchost_sub_key-IsSubKey : IsSubKey svchost_sub_key
unfolding codes
svchost_sub_key-IsSubKey = record {
  given = λ e. cc;
  begins = refl;
  ends = refl;
  plain = (omega arith, omega arith);
}

EndsClean-Lacks : (c : ℕ) (s : Text) → Lacks preferred_separator (c ∷ s) → EndsClean (c ∷ s)
EndsClean-Lacks c [] h = ground arith
EndsClean-Lacks c (d ∷ s) h = EndsClean-Lacks d s h.1

underscore-Lacks : Lacks preferred_separator (codes "_")
unfolding codes
underscore-Lacks = omega arith

module _ (essence : Essence) (digests : DigestLaws essence) where
  abbrev pub group_name_of : Text → Text
  group_name_of name = codes "Broker_" ++ (name ++ (codes "_" ++ essence.sha3_224 name))

  abbrev pub group_sub_key : Text → Text
  group_sub_key name = svchost_sub_key ++ b'\\' ∷ group_name_of name

  tail-Lacks :
      (c : ℕ) (name : Text)
      → ((d : ℕ) → IsHexDigit d → d ≢ c)
      → Lacks c (codes "_")
      → Lacks c (codes "_" ++ essence.sha3_224 name)
  tail-Lacks c name apart h =
      Lacks-append c (codes "_") _ h (hex-Lacks c (essence.sha3_224 name) apart (digests.hex name))

  group_sub_key-Lacks :
      (c : ℕ) (name : Text)
      → ((d : ℕ) → IsHexDigit d → d ≢ c)
      → Lacks c name
      → Lacks c (svchost_sub_key ++ b'\\' ∷ codes "Broker_")
      → Lacks c (codes "_")
      → Lacks c (group_sub_key name)
  group_sub_key-Lacks c name apart h k u =
      rw
        (← append_assoc svchost_sub_key (b'\\' ∷ codes "Broker_")
          (name ++ (codes "_" ++ essence.sha3_224 name)))
        (Lacks-append c (svchost_sub_key ++ b'\\' ∷ codes "Broker_") _ k
          (Lacks-append c name _ h (tail-Lacks c name apart u)))

  tail-EndsClean :
      (xs s : Text)
      → Lacks preferred_separator (codes "_" ++ s)
      → EndsClean (xs ++ (codes "_" ++ s))
  unfolding codes
  tail-EndsClean xs s h = EndsClean-append xs b'_' s (EndsClean-Lacks b'_' s h)

  group_sub_key-EndsClean : (name : Text) → EndsClean (group_sub_key name)
  group_sub_key-EndsClean name =
      let tail = codes "_" ++ essence.sha3_224 name in
      rw
        (
          ← append_assoc (codes "Broker_") name tail,
          ← append_assoc svchost_sub_key (b'\\' ∷ (codes "Broker_" ++ name)) tail,
        )
        (tail-EndsClean (svchost_sub_key ++ b'\\' ∷ (codes "Broker_" ++ name))
          (essence.sha3_224 name)
          (tail-Lacks preferred_separator name (λ d h. omega arith) underscore-Lacks))

  group_sub_key-Plain : (name : Text) → IsPlainName name → IsPlainName (group_sub_key name)
  unfolding codes
  group_sub_key-Plain name plain = (
    group_sub_key-Lacks b'/' name (λ d h. omega arith) plain.0 (omega arith) (omega arith),
    group_sub_key-Lacks 0 name (λ d h. omega arith) plain.1 (omega arith) (omega arith),
  )

  group_sub_key-begins :
      (name : Text) → BeginsClean (group_sub_key name) × (group_sub_key name ≢ [])
  unfolding codes
  group_sub_key-begins name = (refl, λ e. cc)

  pub group_sub_key-IsSubKey : (name : Text) → IsPlainName name → IsSubKey (group_sub_key name)
  group_sub_key-IsSubKey name plain = record {
    given = (group_sub_key-begins name).1;
    begins = (group_sub_key-begins name).0;
    ends = group_sub_key-EndsClean name;
    plain = group_sub_key-Plain name plain;
  }

  group_key-local_path :
      (os : Os) (config : ServiceConfig)
      → (new_manager os essence config).group_key ≡ local_path (group_sub_key config.name)
  unfolding new_manager
  group_key-local_path os config =
      ap (λ (t : Text). t ++ b'\\' ∷ group_name_of config.name) svchost_key-local_path
      ∙ append_assoc (codes "HKLM") (b'\\' ∷ svchost_sub_key) (b'\\' ∷ group_name_of config.name)

  -- Where the groups of svchost.exe and the key of one group lie.
  pub decompose-svchost_key :
      (os : Os) (trims : TrimLaws essence) (w : World)
      → decompose_registry_path os essence svchost_key w
        ≡ (ok (local_machine, essence.to_native_string svchost_sub_key), w)
  decompose-svchost_key os trims w =
      ap (λ (t : Text). decompose_registry_path os essence t w) svchost_key-local_path
      ∙ decompose-local_path os essence trims svchost_sub_key w svchost_sub_key-IsSubKey

  pub decompose-group_key :
      (os : Os) (trims : TrimLaws essence) (config : ServiceConfig) (w : World)
      → IsPlainName config.name
      → decompose_registry_path os essence (new_manager os essence config).group_key w
        ≡ (ok (local_machine, essence.to_native_string (group_sub_key config.name)), w)
  decompose-group_key os trims config w plain =
      ap (λ (t : Text). decompose_registry_path os essence t w) (group_key-local_path os config)
      ∙ decompose-local_path os essence trims (group_sub_key config.name) w
          (group_sub_key-IsSubKey config.name plain)
