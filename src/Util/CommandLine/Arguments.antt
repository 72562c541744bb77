-- ===== src/Util/CommandLine/Arguments.antt =====
-- How the arguments that `make_command_line` of src/util.cpp escapes are read, one by one.
use mathlib.Core.List.{flat_map}
use mathlib.Core.Path.{subst}
use svc_hostify.Base.{
  Text, All, ℕ, ◌==◌, ◌≡◌, ◌≢◌, refl, sym, ap, ◌∙◌, Bool, true, false, not, ◌&&◌, List, [], ◌∷◌,
  ◌++◌, map, if◌then◌else◌, join_with, arith, append_assoc, append-nil, Bool-cases, ==_iff, inl,
  inr,
}
use svc_hostify.Util.CommandLine.{
  quotation_mark, command_line_separator, escaped_quotation_mark, has_special, escape_char,
  begins_quoted, close_quotes, escape,
}
use svc_hostify.Util.CommandLine.Reader.{
  Reader, idle_reader, is_blank, end_argument, read_quotation_mark, read_char, read_text,
}

-- An argument that is read back: it is not empty, and has no backslash and no tab.
pub record Simple (a : Text) : Type 0 where
  pub given : a ≢ []
  pub plain : All (λ c. (c ≢ b'\\') × (c ≢ 9)) a

read_text-append : (r : Reader) (s t : Text) → read_text r (s ++ t) ≡ read_text (read_text r s) t
read_text-append r [] t = refl
read_text-append r (c ∷ s) t = read_text-append (read_char r c) s t

-- The reader inside an argument.
abbrev reading : List Text → Text → Bool → Bool → Reader
reading finished current started quoted = record {
  finished = finished;
  current = current;
  started = started;
  quoted = quoted;
  backslashes = 0;
}

-- A quotation mark that was escaped.
read_text-quotation_mark :
    (finished : List Text) (current : Text) (started quoted : Bool)
    → read_text (reading finished current started quoted) escaped_quotation_mark
      ≡ reading finished (current ++ quotation_mark ∷ []) true quoted
read_text-quotation_mark finished current started quoted = refl

read_char-plain :
    (finished : List Text) (current : Text) (started quoted : Bool) (c : ℕ)
    → (c == b'\\') ≡ false
    → (c == quotation_mark) ≡ false
    → (is_blank c && not quoted) ≡ false
    → read_char (reading finished current started quoted) c
      ≡ reading finished (current ++ c ∷ []) true quoted
read_char-plain finished current started quoted c nb nq ns =
    ap
      (λ (b : Bool).
        if b
        then record (reading finished current true quoted) { backslashes = 1 }
        else if c == quotation_mark
        then read_quotation_mark (reading finished current started quoted)
        else if is_blank c && not quoted
        then end_argument (reading finished current started quoted)
        else reading finished (current ++ c ∷ []) true quoted)
      nb
    ∙ (ap
          (λ (b : Bool).
            if b
            then read_quotation_mark (reading finished current started quoted)
            else if is_blank c && not quoted
            then end_argument (reading finished current started quoted)
            else reading finished (current ++ c ∷ []) true quoted)
          nq
        ∙ ap
            (λ (b : Bool).
              if b
              then end_argument (reading finished current started quoted)
              else reading finished (current ++ c ∷ []) true quoted)
            ns)

blank_lem :
    (c : ℕ) (quoted : Bool)
    → c ≢ 9
    → (quoted ≡ false → (c == command_line_separator) ≡ false)
    → (is_blank c && not quoted) ≡ false
blank_lem c true nt q = ground arith
blank_lem c false nt q = ground (arith, q refl)

-- A character that was escaped; outside quotes it is no separator.
read_text-escape_char :
    (finished : List Text) (current : Text) (started quoted : Bool) (c : ℕ)
    → (c ≢ b'\\') × (c ≢ 9)
    → (quoted ≡ false → (c == command_line_separator) ≡ false)
    → read_text (reading finished current started quoted) (escape_char c)
      ≡ reading finished (current ++ c ∷ []) true quoted
read_text-escape_char finished current started quoted c plain q =
    elim (Bool-cases (c == quotation_mark)) [
      | inl e ↦
          subst
            (λ (x : ℕ).
              read_text (reading finished current started quoted) (escape_char x)
              ≡ reading finished (current ++ x ∷ []) true quoted)
            (sym ((==_iff c quotation_mark).0 e))
            (read_text-quotation_mark finished current started quoted)
      | inr e ↦
          ap
            (λ (b : Bool).
              read_text (reading finished current started quoted)
                (if b then escaped_quotation_mark else c ∷ []))
            e
          ∙ read_char-plain finished current started quoted c (ground arith) e
              (blank_lem c quoted plain.1 q)
    ]

-- The characters of an argument, escaped.
read_text-flat_map :
    (finished : List Text) (current : Text) (started quoted : Bool) (c : ℕ) (a : Text)
    → All (λ c. (c ≢ b'\\') × (c ≢ 9)) (c ∷ a)
    → (quoted ≡ false → has_special (c ∷ a) ≡ false)
    → read_text (reading finished current started quoted) (flat_map escape_char (c ∷ a))
      ≡ reading finished (current ++ c ∷ a) true quoted
unfolding has_special flat_map
read_text-flat_map finished current started quoted c [] plain q =
    read_text-append (reading finished current started quoted) (escape_char c) []
    ∙ read_text-escape_char finished current started quoted c plain.0 (λ h. ground (arith, q h))
read_text-flat_map finished current started quoted c (d ∷ a) plain q =
    read_text-append (reading finished current started quoted) (escape_char c)
      (flat_map escape_char (d ∷ a))
    ∙ (ap (λ (r : Reader). read_text r (flat_map escape_char (d ∷ a)))
          (read_text-escape_char finished current started quoted c plain.0
            (λ h. ground (arith, q h)))
        ∙ (read_text-flat_map finished (current ++ c ∷ []) true quoted d a plain.1
              (λ h. ground (arith, q h))
            ∙ ap (λ (t : Text). reading finished t true quoted)
                (append_assoc current (c ∷ []) (d ∷ a))))

pub escape-special :
    (a : Text)
    → has_special a ≡ true
    → escape a ≡ quotation_mark ∷ (flat_map escape_char a ++ quotation_mark ∷ [])
unfolding escape close_quotes
escape-special a e =
    ap
      (λ (b : Bool).
        close_quotes ((if b then quotation_mark ∷ [] else []) ++ flat_map escape_char a))
      e

begins_quoted-flat_map :
    (c : ℕ) (a : Text)
    → (c == quotation_mark) ≡ false
    → begins_quoted (flat_map escape_char (c ∷ a)) ≡ false
unfolding flat_map
begins_quoted-flat_map c a e =
    ap
      (λ (b : Bool).
        begins_quoted ((if b then escaped_quotation_mark else c ∷ []) ++ flat_map escape_char a))
      e
    ∙ e

pub escape-plain :
    (c : ℕ) (a : Text) → has_special (c ∷ a) ≡ false → escape (c ∷ a) ≡ flat_map escape_char (c ∷ a)
unfolding escape close_quotes has_special
escape-plain c a e =
    ap
      (λ (b : Bool).
        close_quotes ((if b then quotation_mark ∷ [] else []) ++ flat_map escape_char (c ∷ a)))
      e
    ∙ ap
        (λ (b : Bool).
          if b
          then flat_map escape_char (c ∷ a) ++ quotation_mark ∷ []
          else flat_map escape_char (c ∷ a))
        (begins_quoted-flat_map c a (ground (arith, e)))

-- One argument.
read_text-escape :
    (finished : List Text) (a : Text)
    → Simple a
    → read_text (idle_reader finished) (escape a) ≡ reading finished a true false
read_text-escape finished [] k = absurd (k.given refl)
read_text-escape finished (c ∷ a) k = elim (Bool-cases (has_special (c ∷ a))) [
  | inl e ↦
      ap (read_text (idle_reader finished)) (escape-special (c ∷ a) e)
      ∙ (read_text-append (reading finished [] true true) (flat_map escape_char (c ∷ a))
            (quotation_mark ∷ [])
          ∙ (ap (λ (r : Reader). read_text r (quotation_mark ∷ []))
                (read_text-flat_map finished [] true true c a k.plain (λ h. ground arith))
              ∙ ap (λ (t : Text). reading finished t true false) (append-nil (c ∷ a))))
  | inr e ↦
      ap (read_text (idle_reader finished)) (escape-plain c a e)
      ∙ read_text-flat_map finished [] false false c a k.plain (λ h. e)
]

-- The arguments behind those that are finished.
pub read_text-join_with :
    (finished : List Text) (a : Text) (args : List Text)
    → All Simple (a ∷ args)
    → (end_argument (
        read_text
          (idle_reader finished)
          (join_with command_line_separator (map escape (a ∷ args))))).finished
      ≡ finished ++ a ∷ args
unfolding join_with
read_text-join_with finished a [] k =
    ap (λ (r : Reader). (end_argument r).finished) (read_text-escape finished a k.0)
    ∙ ap (λ (t : Text). finished ++ t ∷ []) (append-nil a)
read_text-join_with finished a (b ∷ args) k =
    ap (λ (r : Reader). (end_argument r).finished)
      (read_text-append (idle_reader finished) (escape a)
          (command_line_separator ∷ join_with command_line_separator (map escape (b ∷ args)))
        ∙ ap
            (λ (r : Reader).
              read_text r
                (command_line_separator ∷ join_with command_line_separator (map escape (b ∷ args))))
            (read_text-escape finished a k.0)
        ∙ ap
            (λ (t : Text).
              read_text (idle_reader (finished ++ t ∷ []))
                (join_with command_line_separator (map escape (b ∷ args))))
            (append-nil a))
    ∙ (read_text-join_with (finished ++ a ∷ []) b args k.1
        ∙ append_assoc finished (a ∷ []) (b ∷ args))
