-- ===== src/Util/CommandLine/Quoting.antt =====
-- The arguments that a program reads from a command line made by `make_command_line` of
-- src/util.cpp.
use mathlib.Core.List.{flat_map}
use mathlib.Core.Path.{ap₂}
use svc_hostify.Base.{
  Text, All, ℕ, ◌==◌, ◌≡◌, ◌≢◌, refl, sym, ap, ◌∙◌, Bool, false, not, List, [], ◌∷◌, ◌++◌, map,
  if◌then◌else◌, join_with, take_while, drop_while, drop, Passes, StopsAt, take_while-append,
  drop_while-append, arith, append_assoc, append-nil, Bool-cases, inl, inr,
}
use svc_hostify.Essence.{Essence}
use svc_hostify.Util.CommandLine.{
  quotation_mark, command_line_separator, escaped_quotation_mark, has_special, escape_char, escape,
  make_command_line,
}
use svc_hostify.Util.CommandLine.Reader.{
  split_arguments, in_quoted_name, in_plain_name, program_name, behind_program_name,
  split_command_line,
}
use svc_hostify.Util.CommandLine.Arguments.{
  Simple, escape-special, escape-plain, read_text-join_with,
}

map-escape :
    (essence : Essence) (args : List Text)
    → All (λ a. essence.to_native_string (escape a) ≡ escape a) args
    → map essence.to_native_string (map escape args) ≡ map escape args
map-escape essence [] k = refl
map-escape essence (a ∷ args) k =
    ap₂ (λ (x : Text) (l : List Text). x ∷ l) k.0 (map-escape essence args k.1)

-- A first argument that is read back: it is not empty, and has no quotation mark and no tab.
pub record IsProgram (a : Text) : Type 0 where
  pub named : a ≢ []
  pub unquoted : All (λ c. (c ≢ quotation_mark) × (c ≢ 9)) a

not_quotation_mark : (c : ℕ) → c ≢ quotation_mark → (c == quotation_mark) ≡ false
not_quotation_mark c k = ground arith

flat_map-unquoted :
    (a : Text) → All (λ c. (c ≢ quotation_mark) × (c ≢ 9)) a → flat_map escape_char a ≡ a
unfolding flat_map
flat_map-unquoted [] k = refl
flat_map-unquoted (c ∷ a) k =
    ap (λ (b : Bool). (if b then escaped_quotation_mark else c ∷ []) ++ flat_map escape_char a)
      (not_quotation_mark c k.0.0)
    ∙ ap (λ (t : Text). c ∷ t) (flat_map-unquoted a k.1)

in_quoted_name-Passes :
    (a : Text) → All (λ c. (c ≢ quotation_mark) × (c ≢ 9)) a → Passes in_quoted_name a
in_quoted_name-Passes [] k = tt
in_quoted_name-Passes (c ∷ a) k = (ap not (not_quotation_mark c k.0.0), in_quoted_name-Passes a k.1)

in_plain_name-Passes :
    (a : Text)
    → All (λ c. (c ≢ quotation_mark) × (c ≢ 9)) a
    → has_special a ≡ false
    → Passes in_plain_name a
unfolding has_special
in_plain_name-Passes [] k e = tt
in_plain_name-Passes (c ∷ a) k e =
    (ground (arith, k.0.1), in_plain_name-Passes a k.1 (ground arith))

-- What follows the first argument: nothing, or a blank.
abbrev Follows : Text → Type 0
Follows = StopsAt in_plain_name

-- The name of the program, with what follows it.
name-special :
    (a t : Text)
    → All (λ c. (c ≢ quotation_mark) × (c ≢ 9)) a
    → split_command_line (quotation_mark ∷ ((a ++ quotation_mark ∷ []) ++ t))
      ≡ a ∷ split_arguments t
unfolding program_name behind_program_name
name-special a t k =
    ap
      (λ (x : Text).
        take_while in_quoted_name x ∷ split_arguments (drop 1 (drop_while in_quoted_name x)))
      (append_assoc a (quotation_mark ∷ []) t)
    ∙ ap₂ (λ (x y : Text). x ∷ split_arguments (drop 1 y))
        (take_while-append in_quoted_name a (quotation_mark ∷ t) (in_quoted_name-Passes a k) refl)
        (drop_while-append in_quoted_name a (quotation_mark ∷ t) (in_quoted_name-Passes a k) refl)

name-plain :
    (c : ℕ) (a t : Text)
    → All (λ c. (c ≢ quotation_mark) × (c ≢ 9)) (c ∷ a)
    → has_special (c ∷ a) ≡ false
    → Follows t
    → split_command_line ((c ∷ a) ++ t) ≡ (c ∷ a) ∷ split_arguments t
unfolding program_name behind_program_name
name-plain c a t k e h =
    ap
      (λ (b : Bool).
        (if b then take_while in_quoted_name (a ++ t) else take_while in_plain_name ((c ∷ a) ++ t))
        ∷ split_arguments (
            if b
            then drop 1 (drop_while in_quoted_name (a ++ t))
            else drop_while in_plain_name ((c ∷ a) ++ t)))
      (not_quotation_mark c k.0.0)
    ∙ ap₂ (λ (x y : Text). x ∷ split_arguments y)
        (take_while-append in_plain_name (c ∷ a) t (in_plain_name-Passes (c ∷ a) k e) h)
        (drop_while-append in_plain_name (c ∷ a) t (in_plain_name-Passes (c ∷ a) k e) h)

split_command_line-escape :
    (a t : Text)
    → IsProgram a
    → Follows t
    → split_command_line (escape a ++ t) ≡ a ∷ split_arguments t
split_command_line-escape [] t k h = absurd (k.named refl)
split_command_line-escape (c ∷ a) t k h = elim (Bool-cases (has_special (c ∷ a))) [
  | inl e ↦
      ap (λ (x : Text). split_command_line (x ++ t))
        (escape-special (c ∷ a) e
          ∙ ap (λ (x : Text). quotation_mark ∷ (x ++ quotation_mark ∷ []))
              (flat_map-unquoted (c ∷ a) k.unquoted))
      ∙ name-special (c ∷ a) t k.unquoted
  | inr e ↦
      ap (λ (x : Text). split_command_line (x ++ t))
        (escape-plain c a e ∙ flat_map-unquoted (c ∷ a) k.unquoted)
      ∙ name-plain c a t k.unquoted e h
]

split_command_line-join_with :
    (a : Text) (args : List Text)
    → IsProgram a
    → All Simple args
    → split_command_line (join_with command_line_separator (map escape (a ∷ args))) ≡ a ∷ args
unfolding join_with
split_command_line-join_with a [] program simple =
    ap split_command_line (sym (append-nil (escape a))) ∙ split_command_line-escape a [] program tt
split_command_line-join_with a (b ∷ args) program simple =
    split_command_line-escape a
      (command_line_separator ∷ join_with command_line_separator (map escape (b ∷ args))) program
      refl
    ∙ ap (λ (l : List Text). a ∷ l) (read_text-join_with [] b args simple)

-- A command line that `make_command_line` makes of at least one argument is read back by the
-- documented rules as the same arguments, with spaces and, behind the first argument, quotation
-- marks, where: the first is not empty and has no quotation mark and no tab; none of the others is
-- empty or has a backslash or a tab; and the conversion keeps the characters of the escaped ones.
pub split_command_line-make_command_line :
    (essence : Essence) (a : Text) (args : List Text)
    → IsProgram a
    → All Simple args
    → All (λ a. essence.to_native_string (escape a) ≡ escape a) (a ∷ args)
    → split_command_line (make_command_line essence (a ∷ args)) ≡ a ∷ args
unfolding make_command_line
split_command_line-make_command_line essence a args program simple kept =
    ap (λ (l : List Text). split_command_line (join_with command_line_separator l))
      (map-escape essence (a ∷ args) kept)
    ∙ split_command_line-join_with a args program simple
