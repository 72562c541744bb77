-- ===== src/Manager/Store.antt =====
-- Where `install` stores the configuration.
use svc_hostify.Base.{
  Text, codes, ℕ, ◌≡◌, ◌≢◌, refl, sym, ap, ◌∙◌, false, Option, none, some, [], ◌∷◌, ◌++◌, Lacks,
  arith, append_assoc, append-nil, find, eq_text,
}
use svc_hostify.Effects.{
  Os, World, ok, Hkey, local_machine, reg_sz, Action, finally, >>=-eq-ok, EndsIn, EndsIn-bind,
  EndsIn-self,
}
use svc_hostify.Config.{ServiceConfig, Codec, to_msgpack_base64}
use svc_hostify.Essence.{Essence}
use svc_hostify.Registry.{
  c_str, to_preferred, preferred_separator, predefined_hkeys, decompose_registry_path,
  set_registry_string,
}
use svc_hostify.Registry.Wide.{wide_bytes}
use svc_hostify.Registry.Paths.{
  TrimLaws, BeginsClean, Decomposed, Spells, EndsClean, EndsClean-append, Lacks-append,
  decompose_registry_path-Spells,
}
use svc_hostify.Registry.Store.{stored}
use svc_hostify.Registry.Writes.{set_registry-stored}
use svc_hostify.Manager.{
  ServiceManager, new_manager, service_param_key_of, install_created, install, with_scm,
  create_request, close_handle_if,
}

-- The key below the root, for a service's name.
abbrev pub param_sub_key : Text → Text
param_sub_key name = codes "SYSTEM\\CurrentControlSet\\Services\\" ++ (name ++ codes "\\Parameters")

-- A name with no `/` and no NUL.
abbrev pub IsPlainName : Text → Type 0
IsPlainName name = Lacks b'/' name × Lacks 0 name

pub to_preferred_plain : (s : Text) → Lacks b'/' s → to_preferred s ≡ s
to_preferred_plain [] h = refl
to_preferred_plain (c ∷ s) h = ground (arith, to_preferred_plain s)

abbrev services_key : Text
services_key = codes "SYSTEM\\CurrentControlSet\\Services\\"

key_prefix :
    codes "HKLM\\SYSTEM\\CurrentControlSet\\Services\\"
    ≡ codes "HKLM" ++ preferred_separator ∷ services_key
unfolding codes
key_prefix = refl

services_key-Lacks : Lacks b'/' services_key × Lacks 0 services_key
unfolding codes
services_key-Lacks = (omega arith, omega arith)

pub root-Lacks :
    Lacks b'/' (codes "HKLM" ++ preferred_separator ∷ []) × Lacks preferred_separator (codes "HKLM")
unfolding codes
root-Lacks = (omega arith, omega arith)

parameters-Lacks : Lacks b'/' (codes "\\Parameters") × Lacks 0 (codes "\\Parameters")
unfolding codes
parameters-Lacks = (omega arith, omega arith)

param_sub_key-Lacks :
    (name : Text)
    → IsPlainName name
    → Lacks b'/' (param_sub_key name) × Lacks 0 (param_sub_key name)
param_sub_key-Lacks name plain = (
  Lacks-append b'/' services_key _ services_key-Lacks.0
      (Lacks-append b'/' name _ plain.0 parameters-Lacks.0),
  Lacks-append 0 services_key _ services_key-Lacks.1
      (Lacks-append 0 name _ plain.1 parameters-Lacks.1),
)

param_sub_key-ends : (name : Text) → EndsClean (param_sub_key name)
unfolding codes
param_sub_key-ends name =
    rw (← append_assoc services_key name (codes "\\Parameters"))
      (EndsClean-append (services_key ++ name) b'\\' (codes "Parameters") refl)

param_sub_key-begins : (name : Text) → BeginsClean (param_sub_key name) × (param_sub_key name ≢ [])
unfolding codes
param_sub_key-begins name = (refl, λ e. cc)

service_param_key_of-eq :
    (name : Text)
    → service_param_key_of name ≡ codes "HKLM" ++ preferred_separator ∷ param_sub_key name
service_param_key_of-eq name =
    ap (λ (t : Text). t ++ (name ++ codes "\\Parameters")) key_prefix
    ∙ append_assoc (codes "HKLM") (preferred_separator ∷ services_key)
        (name ++ codes "\\Parameters")

-- The key of the parameters spells its sub key below `HKLM`.
pub service_param_key-Spells :
    (name : Text)
    → IsPlainName name
    → Spells (service_param_key_of name) (codes "HKLM") (param_sub_key name)
service_param_key-Spells name plain = record {
  before = [];
  seps = [];
  spelled =
      ap to_preferred (service_param_key_of-eq name)
      ∙ (to_preferred_plain _ whole
          ∙ ap (λ (t : Text). codes "HKLM" ++ preferred_separator ∷ t)
              (sym (append-nil (param_sub_key name))));
  name_plain = root-Lacks.1;
  before_separators = tt;
  sub_begins = (param_sub_key-begins name).0;
  sub_ends = param_sub_key-ends name;
  sub_given = (param_sub_key-begins name).1;
  sub_plain = (param_sub_key-Lacks name plain).1;
  seps_separators = tt;
}
  where
    whole : Lacks b'/' (codes "HKLM" ++ preferred_separator ∷ param_sub_key name)
    whole = rw (← append_assoc (codes "HKLM") (preferred_separator ∷ []) (param_sub_key name)) (
        Lacks-append b'/' (codes "HKLM" ++ preferred_separator ∷ []) (param_sub_key name)
          root-Lacks.0 (param_sub_key-Lacks name plain).0)

pub find_hklm : find (codes "HKLM") predefined_hkeys ≡ some local_machine
unfolding codes eq_text
find_hklm = refl

-- A handle that is closed leaves the registry as it is.
pub stored_closed :
    (os : Os) (h : Option ℕ) (w : World) (key : Hkey) (sub name : Text)
    → stored os (close_handle_if h w).history key sub name ≡ stored os w.history key sub name
stored_closed os none w key sub name = refl
stored_closed os (some h) w key sub name = ground arith

module _ (os : Os) (essence : Essence) (trims : TrimLaws essence) where
  -- Where the parameters of a service lie.
  pub decompose_service_param_key :
      (name : Text) (w : World)
      → IsPlainName name
      → decompose_registry_path os essence (service_param_key_of name) w
        ≡ (ok (local_machine, essence.to_native_string (param_sub_key name)), w)
  decompose_service_param_key name w plain =
      decompose_registry_path-Spells os essence trims (service_param_key_of name) (codes "HKLM")
        (param_sub_key name) w (service_param_key-Spells name plain)
      ∙ ap
          (λ (entry : Option Hkey).
            (Decomposed os essence trims (service_param_key_of name) entry (param_sub_key name), w))
          find_hklm

  module _ (codec : Codec) where
    abbrev store_configuration : ServiceManager → Action World (Unit {0})
    store_configuration m =
        set_registry_string os essence m.service_param_key (codes "StartupConfiguration")
          (to_msgpack_base64 codec m.config) false

    install_created-EndsIn :
        (m : ServiceManager) (h : Option ℕ)
        → EndsIn (store_configuration m) (install_created os essence codec m h)
    unfolding install_created
    install_created-EndsIn m h = search (EndsIn-bind, EndsIn-self)

    -- The configuration of `m` is stored in the registry that `w` leaves.
    abbrev pub Stores : ServiceManager → World → Type 0
    Stores m w =
        stored os w.history local_machine
          (c_str (essence.to_native_string (param_sub_key m.config.name)))
          (c_str (essence.to_native_string (codes "StartupConfiguration")))
        ≡ some (reg_sz, wide_bytes (essence.to_native_string (to_msgpack_base64 codec m.config)))

    module _ (m : ServiceManager) (plain : IsPlainName m.config.name)
        (keyed : m.service_param_key ≡ service_param_key_of m.config.name) where
      store_configuration-Stores :
          (w : World) → (store_configuration m w).0 ≡ ok tt → Stores m (store_configuration m w).1
      unfolding set_registry_string
      store_configuration-Stores w h =
          set_registry-stored os essence m.service_param_key (codes "StartupConfiguration")
            local_machine (essence.to_native_string (param_sub_key m.config.name)) reg_sz
            (wide_bytes (essence.to_native_string (to_msgpack_base64 codec m.config))) w
            (ap (λ (t : Text). decompose_registry_path os essence t w) keyed
              ∙ decompose_service_param_key m.config.name w plain)
            h

      install_created-Stores :
          (handle : Option ℕ) (w : World)
          → (install_created os essence codec m handle w).0 ≡ ok tt
          → Stores m (install_created os essence codec m handle w).1
      install_created-Stores handle w h =
          let (v, e) = (install_created-EndsIn m handle).apply w tt h in
          rw e (store_configuration-Stores v (rw e at h))

      finally-Stores :
          (handle : Option ℕ) (w : World)
          → (install_created os essence codec m handle w).0 ≡ ok tt
          → Stores m
              (finally (install_created os essence codec m handle) (close_handle_if handle) w).1
      finally-Stores handle w h =
          stored_closed os handle (install_created os essence codec m handle w).1 _ _ _
          ∙ install_created-Stores handle w h

      install-Stores :
          (w : World)
          → (install os essence codec m w).0 ≡ ok tt
          → Stores m (install os essence codec m w).1
      unfolding install
      install-Stores w h =
          let (handle, v, e, q) =
            >>=-eq-ok (with_scm os essence m (create_request os essence codec m))
              (λ handle.
                finally (install_created os essence codec m handle) (close_handle_if handle))
              w h in
          rw q (finally-Stores handle v (rw q at h))

    -- An `install` that returns has stored the configuration, encoded as a text, at
    -- `StartupConfiguration` below the service's parameters, for a name with no `/` and no NUL.
    pub install-new_manager-Stores :
        (config : ServiceConfig) (w : World)
        → IsPlainName config.name
        → (install os essence codec (new_manager os essence config) w).0 ≡ ok tt
        → Stores
            (new_manager os essence config)
            (install os essence codec (new_manager os essence config) w).1
    unfolding new_manager
    install-new_manager-Stores config w plain h =
        install-Stores (new_manager os essence config) plain refl w h
