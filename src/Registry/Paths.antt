-- ===== src/Registry/Paths.antt =====
-- Which key a registry path names.
use mathlib.Core.Path.{ap₂}
use svc_hostify.Base.{
  Text, codes, drop, take_while, take-length-append, find, length, Lacks, Passes, StopsAt, ℕ, suc,
  ◌==◌, ◌≡◌, ◌≢◌, refl, ap, ◌∙◌, Bool, true, false, ltb, Option, none, some, [], ◌∷◌, ◌++◌, arith,
  append_assoc, length-append,
}
use svc_hostify.Effects.{Os, World, ok, err, Result, formatted, Hkey}
use svc_hostify.Essence.{Essence}
use svc_hostify.Registry.{
  preferred_separator, preferred_separator_group, predefined_hkeys, c_str, find_first_of, substr,
  to_preferred, decompose_entry, decompose_registry_path,
}

abbrev pub is_separator : ℕ → Bool
is_separator c = c == preferred_separator

-- No separator at the end, or at the beginning.
abbrev pub EndsClean : Text → Type 0
EndsClean [] = Unit
EndsClean (c ∷ []) = is_separator c ≡ false
EndsClean (c ∷ d ∷ s) = EndsClean (d ∷ s)

abbrev pub BeginsClean : Text → Type 0
BeginsClean = StopsAt is_separator

-- `trim_right` and `trim` remove exactly the separators at the ends.
pub record TrimLaws (essence : Essence) : Type 0 where
  pub trim_right-append :
      (s seps : Text)
      → EndsClean s
      → Passes is_separator seps
      → essence.trim_right (s ++ seps) preferred_separator_group ≡ s
  pub trim-append :
      (before s seps : Text)
      → Passes is_separator before
      → BeginsClean s
      → EndsClean s
      → Passes is_separator seps
      → essence.trim (before ++ (s ++ seps)) preferred_separator_group ≡ s

find_first_of-append :
    (sep : ℕ) (s t : Text) → Lacks sep s → find_first_of sep (s ++ sep ∷ t) ≡ some (length s)
unfolding find_first_of
find_first_of-append sep [] t h = ground arith
find_first_of-append sep (c ∷ s) t h = ground (arith, find_first_of-append sep s t)

drop-suc-length-append : (s t : Text) (c : ℕ) → drop (suc (length s)) (s ++ c ∷ t) ≡ t
drop-suc-length-append [] t c = refl
drop-suc-length-append (x ∷ s) t c = drop-suc-length-append s t c

pub EndsClean-append : (xs : Text) (c : ℕ) (s : Text) → EndsClean (c ∷ s) → EndsClean (xs ++ c ∷ s)
EndsClean-append [] c s h = h
EndsClean-append (x ∷ []) c s h = h
EndsClean-append (x ∷ y ∷ xs) c s h = EndsClean-append (y ∷ xs) c s h

c_str_lem : (s : Text) → Lacks 0 s → c_str s ≡ s
unfolding take_while
c_str_lem [] h = refl
c_str_lem (c ∷ s) h = ground (arith, c_str_lem s)

pub Lacks-append : (x : ℕ) (s t : Text) → Lacks x s → Lacks x t → Lacks x (s ++ t)
Lacks-append x [] t hs ht = ht
Lacks-append x (c ∷ s) t hs ht = (hs.0, Lacks-append x s t hs.1 ht)

separators-Lacks : (seps : Text) → Passes is_separator seps → Lacks 0 seps
separators-Lacks [] h = tt
separators-Lacks (c ∷ seps) h = (ground arith, separators-Lacks seps h.1)

-- A path that is a root's name, separators, a sub key and separators, however they are spelled.
pub record Spells (path name sub : Text) : Type 0 where
  pub before : Text
  pub seps : Text
  pub spelled : to_preferred path ≡ name ++ preferred_separator ∷ (before ++ (sub ++ seps))
  pub name_plain : Lacks preferred_separator name
  pub before_separators : Passes is_separator before
  pub sub_begins : BeginsClean sub
  pub sub_ends : EndsClean sub
  pub sub_given : sub ≢ []
  pub sub_plain : Lacks 0 sub
  pub seps_separators : Passes is_separator seps

module _ (os : Os) (essence : Essence) (trims : TrimLaws essence) where
  pure_path_spelled :
      (path name : Text) (c : ℕ) (sub : Text) (spells : Spells path name (c ∷ sub))
      → essence.trim_right (to_preferred path) preferred_separator_group
        ≡ name ++ (preferred_separator ∷ (spells.before ++ c ∷ sub))
  pure_path_spelled path name c sub spells =
      ap (λ (t : Text). essence.trim_right t preferred_separator_group) (spells.spelled ∙ regroup)
      ∙ trims.trim_right-append (name ++ (preferred_separator ∷ (spells.before ++ c ∷ sub)))
          spells.seps ends spells.seps_separators
    where
      regroup :
          name ++ preferred_separator ∷ (spells.before ++ (c ∷ sub ++ spells.seps))
          ≡ name ++ (preferred_separator ∷ (spells.before ++ c ∷ sub)) ++ spells.seps
      regroup = simp append_assoc

      ends : EndsClean (name ++ (preferred_separator ∷ (spells.before ++ c ∷ sub)))
      ends =
          rw (← append_assoc name (preferred_separator ∷ spells.before) (c ∷ sub))
            (EndsClean-append (name ++ preferred_separator ∷ spells.before) c sub spells.sub_ends)

  rest_spelled :
      (path name : Text) (c : ℕ) (sub : Text) (spells : Spells path name (c ∷ sub))
      → essence.trim
          (c_str (drop (suc (length name)) (to_preferred path)))
          preferred_separator_group
        ≡ c ∷ sub
  rest_spelled path name c sub spells =
      ap (λ (t : Text). essence.trim t preferred_separator_group)
        (ap (λ (t : Text). c_str (drop (suc (length name)) t)) spells.spelled
          ∙ ap c_str (drop-suc-length-append name _ preferred_separator)
          ∙ c_str_lem _ plain)
      ∙ trims.trim-append spells.before (c ∷ sub) spells.seps spells.before_separators
          spells.sub_begins spells.sub_ends spells.seps_separators
    where
      plain : Lacks 0 (spells.before ++ (c ∷ sub ++ spells.seps))
      plain =
          Lacks-append 0 spells.before (c ∷ sub ++ spells.seps)
            (separators-Lacks spells.before spells.before_separators)
            (Lacks-append 0 (c ∷ sub) spells.seps spells.sub_plain
              (separators-Lacks spells.seps spells.seps_separators))

  -- What a path with this name and sub key means, by whether the table has the name.
  abbrev pub Decomposed : Text → Option Hkey → Text → Result (Hkey × Text)
  Decomposed path none sub =
      err (formatted (codes "Key" ∷ path ∷ codes "Message" ∷ codes "Illegal registry key." ∷ []))
  Decomposed path (some key) sub = ok (key, essence.to_native_string sub)

  first_component_spelled :
      (path name : Text) (c : ℕ) (sub : Text) (spells : Spells path name (c ∷ sub))
      → substr
          (essence.trim_right (to_preferred path) preferred_separator_group)
          (find_first_of preferred_separator (to_preferred path))
        ≡ name
  first_component_spelled path name c sub spells =
      rw
        (
          pure_path_spelled path name c sub spells,
          ap (find_first_of preferred_separator) spells.spelled,
          find_first_of-append preferred_separator name (spells.before ++ (c ∷ sub ++ spells.seps))
              spells.name_plain,
        )
        (take-length-append name _)

  by_entry :
      (path name : Text) (c : ℕ) (sub : Text) (entry : Option Hkey) (w : World)
      (spells : Spells path name (c ∷ sub))
      → decompose_entry os essence path
          (to_preferred path)
          (name ++ (preferred_separator ∷ (spells.before ++ c ∷ sub)))
          name
          entry
          w
        ≡ (Decomposed path entry (c ∷ sub), w)
  unfolding decompose_entry
  by_entry path name c sub none w spells = refl
  by_entry path name c sub (some key) w spells =
      rw (shorter, rest_spelled path name c sub spells) refl
    where
      shorter :
          ltb (length name) (length (name ++ (preferred_separator ∷ (spells.before ++ c ∷ sub))))
          ≡ true
      shorter = rw length-append (ground arith)

  -- A path that names a root, a separator or more, and a sub key is taken apart into the key that
  -- the table has first for the root's name, which must be spelled as there, and the sub key with
  -- no separator around it; with no such name it is illegal. `/` and `\` serve alike.
  pub decompose_registry_path-Spells :
      (path name sub : Text) (w : World)
      → Spells path name sub
      → decompose_registry_path os essence path w
        ≡ (Decomposed path (find name predefined_hkeys) sub, w)
  unfolding decompose_registry_path
  decompose_registry_path-Spells path name [] w spells = absurd (spells.sub_given refl)
  decompose_registry_path-Spells path name (c ∷ sub) w spells =
      ap₂
        (λ (first pure_path : Text).
          decompose_entry os essence path (to_preferred path) pure_path first
            (find first predefined_hkeys) w)
        (first_component_spelled path name c sub spells) (pure_path_spelled path name c sub spells)
      ∙ by_entry path name c sub (find name predefined_hkeys) w spells
