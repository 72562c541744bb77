-- ===== src/FileSize/Parse.antt =====
-- What `parse_file_size` accepts, and the number that it returns.
use mathlib.Core.List.{foldl}
use svc_hostify.Base.{
  Text, codes, drop_while-append, Passes, eq_text, Fails, StopsAt, ℕ, ◌+◌, ◌-◌, ◌*◌, ◌^◌, ◌<◌, ◌≡◌,
  ◌≢◌, ◌⊎◌, inl, inr, true, false, Option, none, some, [], ◌∷◌, ◌++◌, refl, ap, arith, map, ◌∙◌,
}
use svc_hostify.FileSize.{
  u64, is_digit, is_space, to_lower, match_unit, unit_size_pattern, unit_ratio_mapping,
  regex_search, starts_with_icase, defined, scale, parse_matches, parse_file_size,
}
use svc_hostify.FileSize.Scan.{regex_search_at, regex_search_cases, Found}

-- The number that decimal digits spell.
abbrev pub value : Text → ℕ
value = foldl (λ n c. n * 10 + (c - b'0')) 0

-- `from_string<std::uint64_t>` reads digits whose number fits into 64 bits.
abbrev pub ReadsDecimal : (Text → Option ℕ) → Type 0
ReadsDecimal from_string =
    (ds : Text)
    → Passes is_digit ds
    → ds ≢ []
    → value ds < 2 ^ 64
    → from_string ds ≡ some (value ds)

-- The names of the units.
pub data SizeUnit : Type 0 where
  kib mib gib tib : SizeUnit

abbrev pub unit_name : SizeUnit → Text
unit_name kib = codes "KiB"
unit_name mib = codes "MiB"
unit_name gib = codes "GiB"
unit_name tib = codes "TiB"

abbrev pub unit_size : SizeUnit → ℕ
unit_size kib = 2 ^ 10
unit_size mib = 2 ^ 20
unit_size gib = 2 ^ 30
unit_size tib = 2 ^ 40

match_unit_name :
    (u : SizeUnit) (rest : Text) → match_unit unit_size_pattern (unit_name u ++ rest) ≡ unit_name u
unfolding match_unit starts_with_icase codes
match_unit_name kib rest = refl
match_unit_name mib rest = refl
match_unit_name gib rest = refl
match_unit_name tib rest = refl

unit_ratio_mapping_name : (u : SizeUnit) → unit_ratio_mapping (unit_name u) ≡ some (unit_size u)
unfolding eq_text codes
unit_ratio_mapping_name kib = refl
unit_ratio_mapping_name mib = refl
unit_ratio_mapping_name gib = refl
unit_ratio_mapping_name tib = refl

unit_name-StopsAt :
    (u : SizeUnit) (rest : Text)
    → StopsAt is_space (unit_name u ++ rest) × StopsAt is_digit (unit_name u ++ rest)
unfolding codes
unit_name-StopsAt kib rest = (refl, refl)
unit_name-StopsAt mib rest = (refl, refl)
unit_name-StopsAt gib rest = (refl, refl)
unit_name-StopsAt tib rest = (refl, refl)

space-not-digit : (c : ℕ) → is_space c ≡ true → is_digit c ≡ false
space-not-digit c h = ground arith

spaces-StopsAt :
    (ws t : Text) → Passes is_space ws → StopsAt is_digit t → StopsAt is_digit (ws ++ t)
spaces-StopsAt [] t h k = k
spaces-StopsAt (c ∷ ws) t h k = space-not-digit c h.0

-- A size in a text: no digit before it, digits, white space, and what follows.
module _ (pre ds ws t : Text) (hp : Fails is_digit pre) (hd : Passes is_digit ds) (ne : ds ≢ [])
    (hw : Passes is_space ws) (hs : StopsAt is_space t) (ht : StopsAt is_digit t) where
  -- The second group is matched behind the white space.
  pub regex_search_sized :
      regex_search (pre ++ (ds ++ (ws ++ t))) ≡ some (ds, match_unit unit_size_pattern t)
  regex_search_sized =
      regex_search_at pre ds (ws ++ t) hp hd ne (spaces-StopsAt ws t hw ht)
      ∙ rw (drop_while-append is_space ws t hw hs)

module _ (from_string : Text → Option ℕ) (reads : ReadsDecimal from_string) where
  scale-value :
      (ds : Text) (ratio : ℕ)
      → Passes is_digit ds
      → ds ≢ []
      → value ds < 2 ^ 64
      → scale from_string ds ratio ≡ defined (some (u64 (value ds * ratio)))
  unfolding scale
  scale-value ds ratio hd ne fits = rw (scale, reads ds hd ne fits) refl

  -- A number with a unit, spelled as in the table, is read from any place of a text that has no
  -- digit before it: the result is the number times the unit's size, reduced modulo 2^64.
  pub parse_file_size-unit :
      (u : SizeUnit) (pre ds ws rest : Text)
      → Fails is_digit pre
      → Passes is_digit ds
      → ds ≢ []
      → Passes is_space ws
      → value ds < 2 ^ 64
      → parse_file_size from_string (pre ++ (ds ++ (ws ++ (unit_name u ++ rest))))
        ≡ defined (some (u64 (value ds * unit_size u)))
  unfolding parse_file_size parse_matches
  parse_file_size-unit u pre ds ws rest hp hd ne hw fits =
      let (hs, ht) = unit_name-StopsAt u rest in
      rw
        (
          regex_search_sized pre ds ws (unit_name u ++ rest) hp hd ne hw hs ht,
          match_unit_name u rest,
          parse_matches,
          unit_ratio_mapping_name u,
        )
        (scale-value ds (unit_size u) hd ne fits)

  -- The same for a number with no unit, at the end of the text: a size in bytes.
  pub parse_file_size-bytes :
      (pre ds ws : Text)
      → Fails is_digit pre
      → Passes is_digit ds
      → ds ≢ []
      → Passes is_space ws
      → value ds < 2 ^ 64
      → parse_file_size from_string (pre ++ (ds ++ (ws ++ []))) ≡ defined (some (value ds))
  unfolding parse_file_size parse_matches match_unit starts_with_icase eq_text codes
  parse_file_size-bytes pre ds ws hp hd ne hw fits =
      rw (regex_search_sized pre ds ws [] hp hd ne hw tt tt)
        (scale-value ds 1 hd ne fits ∙ ap (λ (n : ℕ). defined (some n)) (omega arith))

-- A unit in other letters' case than the table's.
abbrev pub OtherCase : SizeUnit → Text → Type 0
OtherCase u w = (map to_lower w ≡ map to_lower (unit_name u)) × (w ≢ unit_name u)

OtherCase-match :
    (u : SizeUnit) (a b c : ℕ) (rest : Text)
    → OtherCase u (a ∷ b ∷ c ∷ [])
    → match_unit unit_size_pattern (a ∷ b ∷ c ∷ rest) ≡ a ∷ b ∷ c ∷ []
unfolding match_unit starts_with_icase codes
OtherCase-match kib a b c rest other = ground arith
OtherCase-match mib a b c rest other = ground arith
OtherCase-match gib a b c rest other = ground arith
OtherCase-match tib a b c rest other = ground arith

OtherCase-unmapped :
    (u : SizeUnit) (a b c : ℕ)
    → OtherCase u (a ∷ b ∷ c ∷ [])
    → unit_ratio_mapping (a ∷ b ∷ c ∷ []) ≡ none
unfolding eq_text codes
OtherCase-unmapped kib a b c other = ground arith
OtherCase-unmapped mib a b c other = ground arith
OtherCase-unmapped gib a b c other = ground arith
OtherCase-unmapped tib a b c other = ground arith

OtherCase-StopsAt :
    (u : SizeUnit) (a b c : ℕ)
    → OtherCase u (a ∷ b ∷ c ∷ [])
    → (is_space a ≡ false) × (is_digit a ≡ false)
unfolding codes
OtherCase-StopsAt kib a b c other = ground arith
OtherCase-StopsAt mib a b c other = ground arith
OtherCase-StopsAt gib a b c other = ground arith
OtherCase-StopsAt tib a b c other = ground arith

module _ (from_string : Text → Option ℕ) where
  -- The pattern ignores case and the table does not: a unit that is spelled with another case
  -- (`mib`, `KIB`) makes the whole size invalid.
  pub parse_file_size-OtherCase :
      (u : SizeUnit) (pre ds ws : Text) (a b c : ℕ) (rest : Text)
      → Fails is_digit pre
      → Passes is_digit ds
      → ds ≢ []
      → Passes is_space ws
      → OtherCase u (a ∷ b ∷ c ∷ [])
      → parse_file_size from_string (pre ++ (ds ++ (ws ++ a ∷ b ∷ c ∷ rest))) ≡ defined none
  unfolding parse_file_size parse_matches
  parse_file_size-OtherCase u pre ds ws a b c rest hp hd ne hw other =
      let (hs, ht) = OtherCase-StopsAt u a b c other in
      rw
        (
          regex_search_sized pre ds ws (a ∷ b ∷ c ∷ rest) hp hd ne hw hs ht,
          OtherCase-match u a b c rest other,
          parse_matches,
          OtherCase-unmapped u a b c other,
        )
        refl

  -- A text with no digit is invalid, and one that is accepted has the form of a match: digits
  -- after no digit, whose number is scaled by the unit of the text behind them.
  pub parse_file_size_cases :
      (s : Text)
      → ((parse_file_size from_string s ≡ defined none) × Fails is_digit s)
        ⊎ ((ds : Text) × (unit : Text) × Found s ds unit
            × (parse_file_size from_string s ≡ parse_matches from_string (some (ds, unit))))
  unfolding parse_file_size parse_matches
  parse_file_size_cases s = elim (regex_search_cases s) [
    | inl (q, f) ↦ inl (rw q refl, f)
    | inr (ds, unit, q, f) ↦ inr (ds, unit, f, rw q refl)
  ]
