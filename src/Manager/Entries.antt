-- ===== src/Manager/Entries.antt =====
-- The registry entries of a shared service, and sequences of calls of `set_registry`.
use svc_hostify.Base.{
  Text, codes, eq_text, ℕ, ◌<◌, ◌≡◌, refl, sym, ap, ◌∙◌, false, List, [], ◌∷◌, ◌++◌, map, All,
  append-nil, join_with,
}
use svc_hostify.Effects.{
  Os, World, Action, ok, ◌>>◌, Hkey, RegType, reg_sz, reg_expand_sz, reg_dword, reg_multi_sz,
}
use svc_hostify.Essence.{Essence}
use svc_hostify.System.{get_executing_path}
use svc_hostify.Registry.{
  c_str, decompose_registry_path, set_registry, set_registry_multi_string, set_registry_dword,
  set_registry_string,
}
use svc_hostify.Registry.Wide.{wide_bytes, little_endian}
use svc_hostify.Registry.Writes.{set_registry-stored}
use svc_hostify.Registry.Frames.{
  Frames, Writes, Frames-bind, Writes-first, Writes-last, Frames-set_registry,
}
use svc_hostify.Manager.{ServiceManager, svchost_key, register_svchost}

-- The arguments of a call of `set_registry`.
pub record RegistryEntry : Type 0 where
  pub path : Text
  pub name : Text
  pub type : RegType
  pub value : List ℕ

module _ (os : Os) (essence : Essence) where
  abbrev pub wide_name : Text → Text
  wide_name name = c_str (essence.to_native_string name)

  abbrev pub write : RegistryEntry → Action World (Unit {0})
  write e = set_registry os essence e.path e.name e.type e.value

  -- The entries in their order, and one behind them.
  abbrev pub write_then : List RegistryEntry → RegistryEntry → Action World (Unit {0})
  write_then [] last = write last
  write_then (e ∷ l) last = write e >> write_then l last

  -- Entries that have other names than this.
  abbrev pub Apart : Text → List RegistryEntry → Type 0
  Apart name = All (λ (e : RegistryEntry). eq_text (wide_name e.name) (wide_name name) ≡ false)

  Frames-write_then :
      (key : Hkey) (sub name : Text) (l : List RegistryEntry) (last : RegistryEntry)
      → Apart name (l ++ last ∷ [])
      → Frames os key sub (wide_name name) (write_then l last)
  Frames-write_then key sub name [] last h =
      Frames-set_registry os key sub (wide_name name) essence last.path last.name last.type
        last.value h.0
  Frames-write_then key sub name (e ∷ l) last h =
      Frames-bind os key sub (wide_name name) (write e) (λ u. write_then l last)
        (Frames-set_registry os key sub (wide_name name) essence e.path e.name e.type e.value h.0)
        λ u. Frames-write_then key sub name l last h.1

  -- Where the path of an entry leads.
  abbrev pub Leads : RegistryEntry → Hkey → Text → Type 0
  Leads e key sub = (w : World) → decompose_registry_path os essence e.path w ≡ (ok (key, sub), w)

  Writes-write :
      (key : Hkey) (sub : Text) (e : RegistryEntry)
      → Leads e key sub
      → Writes os key (c_str sub) (wide_name e.name) (e.type, e.value) (write e)
  Writes-write key sub e leads = record {
    apply =
        λ w h. set_registry-stored os essence e.path e.name key sub e.type e.value w (leads w) h;
  }

  -- The last entry is stored.
  pub Writes-write_then_last :
      (key : Hkey) (sub : Text) (l : List RegistryEntry) (last : RegistryEntry)
      → Leads last key sub
      → Writes os key (c_str sub) (wide_name last.name) (last.type, last.value) (write_then l last)
  Writes-write_then_last key sub [] last leads = Writes-write key sub last leads
  Writes-write_then_last key sub (e ∷ l) last leads =
      Writes-last os key (c_str sub) (wide_name last.name) (write e) (λ u. write_then l last)
        λ u. Writes-write_then_last key sub l last leads

  -- An entry is stored, where no later one has its name.
  pub Writes-write_then :
      (key : Hkey) (sub : Text) (before : List RegistryEntry) (e : RegistryEntry)
      (behind : List RegistryEntry) (last : RegistryEntry)
      → Leads e key sub
      → Apart e.name (behind ++ last ∷ [])
      → Writes os key
          (c_str sub)
          (wide_name e.name)
          (e.type, e.value)
          (write_then (before ++ e ∷ behind) last)
  Writes-write_then key sub [] e behind last leads apart =
      Writes-first os key (c_str sub) (wide_name e.name) (write e) (λ u. write_then behind last)
        (Writes-write key sub e leads)
        λ u. Frames-write_then key (c_str sub) e.name behind last apart
  Writes-write_then key sub (b ∷ before) e behind last leads apart =
      Writes-last os key (c_str sub) (wide_name e.name) (write b)
        (λ u. write_then (before ++ e ∷ behind) last)
        λ u. Writes-write_then key sub before e behind last leads apart

  module _ (m : ServiceManager) where
    abbrev pub group_entry : RegistryEntry
    group_entry = record {
      path = svchost_key;
      name = m.group_name;
      type = reg_multi_sz;
      value =
          wide_bytes
            (join_with 0 (map essence.to_native_string (m.config.name ∷ [])) ++ 0 ∷ 0 ∷ []);
    }

    abbrev pub security_entry : RegistryEntry
    security_entry = record {
      path = m.group_key;
      name = codes "CoInitializeSecurityParam";
      type = reg_dword;
      value = little_endian 4 1;
    }

    abbrev pub dll_entry : RegistryEntry
    dll_entry = record {
      path = m.service_param_key;
      name = codes "ServiceDll";
      type = reg_expand_sz;
      value = wide_bytes (essence.to_native_string (get_executing_path os essence));
    }

    abbrev pub unload_entry : RegistryEntry
    unload_entry = record {
      path = m.service_param_key;
      name = codes "ServiceDllUnloadOnStop";
      type = reg_dword;
      value = little_endian 4 1;
    }

    abbrev pub main_entry : RegistryEntry
    main_entry = record {
      path = m.service_param_key;
      name = codes "ServiceMain";
      type = reg_sz;
      value = wide_bytes (essence.to_native_string (codes "ServiceMain"));
    }

    pub register_svchost_lem :
        register_svchost os essence m
        ≡ write_then (group_entry ∷ security_entry ∷ dll_entry ∷ unload_entry ∷ []) main_entry
    unfolding register_svchost set_registry_multi_string set_registry_dword set_registry_string
    register_svchost_lem = refl

-- The conversion to UTF-16 takes ASCII characters one by one.
pub record NativeLaws (essence : Essence) : Type 0 where
  pub empty : essence.to_native_string [] ≡ []
  pub ascii-append :
      (s t : Text)
      → All (λ c. c < 128) s
      → essence.to_native_string (s ++ t) ≡ s ++ essence.to_native_string t

module _ (essence : Essence) (natives : NativeLaws essence) where
  native-ascii : (s : Text) → All (λ c. c < 128) s → essence.to_native_string s ≡ s
  native-ascii s h =
      ap essence.to_native_string (sym (append-nil s))
      ∙ (natives.ascii-append s [] h ∙ (ap (λ (t : Text). s ++ t) natives.empty ∙ append-nil s))

  -- The names of two literals differ as the literals do.
  pub literals_apart :
      (s t : Text)
      → All (λ c. c < 128) s
      → All (λ c. c < 128) t
      → eq_text (c_str s) (c_str t) ≡ false
      → eq_text (c_str (essence.to_native_string s)) (c_str (essence.to_native_string t)) ≡ false
  literals_apart s t hs ht e =
      ap (λ (u : Text). eq_text (c_str u) (c_str (essence.to_native_string t))) (native-ascii s hs)
      ∙ (ap (λ (u : Text). eq_text (c_str s) (c_str u)) (native-ascii t ht) ∙ e)

  -- A literal differs from the texts with another beginning.
  pub literal_apart :
      (s p r : Text)
      → All (λ c. c < 128) s
      → All (λ c. c < 128) p
      → ((u : Text) → eq_text (c_str s) (c_str (p ++ u)) ≡ false)
      → eq_text (c_str (essence.to_native_string s)) (c_str (essence.to_native_string (p ++ r)))
        ≡ false
  literal_apart s p r hs hp e =
      ap (λ (u : Text). eq_text (c_str u) (c_str (essence.to_native_string (p ++ r))))
        (native-ascii s hs)
      ∙ (ap (λ (u : Text). eq_text (c_str s) (c_str u)) (natives.ascii-append p r hp)
          ∙ e (essence.to_native_string r))
