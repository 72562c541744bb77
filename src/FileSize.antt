-- ===== src/FileSize.antt =====
-- src/file_size_unit.cxx: reading a size such as `10 MiB`, and printing one.
-- `std::regex` is modelled for the one pattern of the file, `(\d+)\s*(KiB|MiB|GiB|TiB)?`, which is
-- searched with `icase`. `from_string` and `to_string` are functions of the essence library, and
-- parameters here.
pub mod Scan
pub mod Parse
pub mod Print
use svc_hostify.Base.{
  Text, codes, length, take, drop, take_while, drop_while, find, eq_text, ℕ, ◌+◌, ◌*◌, ◌/◌, ◌%◌,
  ◌^◌, ◌≡◌, Bool, true, false, ◌&&◌, ◌||◌, not, Option, none, some, List, [], ◌∷◌, ◌++◌, map, leb,
  ◌==◌, if◌then◌else◌,
}
use mathlib.Core.List.{reverse}

-- A value of `unsigned long long`.
abbrev pub u64 : ℕ → ℕ
u64 n = n % 2 ^ 64

abbrev pub unit_ratios : List (Text × ℕ)
unit_ratios =
    (codes "", 1)
    ∷ (codes "KiB", 1024)
    ∷ (codes "MiB", 1024 * 1024)
    ∷ (codes "GiB", 1024 * 1024 * 1024)
    ∷ (codes "TiB", 1024 * 1024 * 1024 * 1024)
    ∷ []

-- The hash ignores case, but `std::equal_to<>` compares the keys as they are.
abbrev pub unit_ratio_mapping : Text → Option ℕ
unit_ratio_mapping key = find key unit_ratios

-- `\d`
abbrev pub is_digit : ℕ → Bool
is_digit c = leb b'0' c && leb c b'9'

-- `\s`: tab, line feed, vertical tab, form feed, carriage return, space
abbrev pub is_space : ℕ → Bool
is_space c = leb 9 c && leb c 13 || c == b' '

abbrev pub to_lower : ℕ → ℕ
to_lower c = if leb b'A' c && leb c b'Z' then c + 32 else c

-- `s` begins with `u`, by `regex_constants::icase`.
unfoldable pub starts_with_icase : Text → Text → Bool
starts_with_icase [] s = true
starts_with_icase (x ∷ u) [] = false
starts_with_icase (x ∷ u) (c ∷ s) = to_lower x == to_lower c && starts_with_icase u s

-- The alternatives of the second group: the names behind the first entry, joined by `|`.
abbrev pub unit_size_pattern : List Text
unit_size_pattern = map (λ r. r.0) (drop 1 unit_ratios)

-- The text of the optional group `(…)?`: the first alternative that fits, or nothing.
unfoldable pub match_unit : List Text → Text → Text
match_unit [] s = []
match_unit (u ∷ us) s = if starts_with_icase u s then take (length u) s else match_unit us s

-- `matches[1]` and `matches[2]` where the match begins at a digit.
unfoldable pub match_at : Text → Text × Text
match_at s = (
  take_while is_digit s,
  match_unit unit_size_pattern (drop_while is_space (drop_while is_digit s)),
)

-- `std::regex_search`: the leftmost place where the pattern fits, that is the first digit.
unfoldable pub regex_search : Text → Option (Text × Text)
regex_search [] = none
regex_search (c ∷ s) = if is_digit c then some (match_at (c ∷ s)) else regex_search s

-- A result that is undefined where the code reads an empty `std::optional` by `*`.
pub data Defined (A : Type 0) : Type 0 where
  defined : A → Defined A
  undefined : Defined A

module _ (from_string : Text → Option ℕ) where
  -- `*from_string<std::uint64_t>(digits) * ratio`
  unfoldable pub scale : Text → ℕ → Defined (Option ℕ)
  scale digits ratio = elim (from_string digits) [
    | none ↦ undefined
    | some n ↦ defined (some (u64 (n * ratio)))
  ]

  unfoldable pub parse_matches : Option (Text × Text) → Defined (Option ℕ)
  unfolding scale
  parse_matches none = defined none
  parse_matches (some (digits, unit)) = elim (unit_ratio_mapping unit) [
    | none ↦ defined none
    | some ratio ↦ scale digits ratio
  ]

  unfoldable pub parse_file_size : Text → Defined (Option ℕ)
  unfolding regex_search match_at match_unit parse_matches
  parse_file_size size = parse_matches (regex_search size)

-- `std::views::drop_while([](…) { return inner.second != 0; })`
unfoldable pub drop_while_nonzero : List (Text × ℕ) → List (Text × ℕ)
drop_while_nonzero [] = []
drop_while_nonzero ((unit, n) ∷ l) = if not (n == 0) then drop_while_nonzero l else (unit, n) ∷ l

unfoldable pub best_match : ℕ → List (Text × ℕ)
unfolding drop_while_nonzero
best_match size = drop_while_nonzero (map (λ r. (r.0, size / r.1)) (reverse unit_ratios))

module _ (to_string : ℕ → Text) where
  unfoldable pub truncate_with : ℕ → List (Text × ℕ) → Text
  truncate_with size [] = to_string size
  truncate_with size ((unit, n) ∷ l) = to_string n ++ b' ' ∷ unit

  unfoldable pub truncate_file_size_string : ℕ → Text
  unfolding best_match truncate_with
  truncate_file_size_string size = truncate_with size (best_match size)
