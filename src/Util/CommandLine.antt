-- ===== src/Util/CommandLine.antt =====
-- `make_command_line` of src/util.cpp.
pub mod Reader
pub mod Arguments
pub mod Quoting
use mathlib.Core.List.{flat_map}
use svc_hostify.Base.{
  Text, ℕ, ◌==◌, Bool, false, ◌||◌, List, [], ◌∷◌, ◌++◌, map, if◌then◌else◌, join_with,
}
use svc_hostify.Essence.{Essence}

abbrev pub quotation_mark : ℕ
quotation_mark = b'"'

abbrev pub command_line_separator : ℕ
command_line_separator = b' '

abbrev pub escaped_quotation_mark : Text
escaped_quotation_mark = b'\\' ∷ b'"' ∷ []

-- `find_first_of(command_line_special_group) != npos`
unfoldable pub has_special : Text → Bool
has_special [] = false
has_special (c ∷ s) = c == command_line_separator || c == quotation_mark || has_special s

abbrev pub escape_char : ℕ → Text
escape_char ch = if ch == quotation_mark then escaped_quotation_mark else ch ∷ []

-- `!result.empty() && result.front() == quotation_mark`
abbrev pub begins_quoted : Text → Bool
begins_quoted [] = false
begins_quoted (c ∷ s) = c == quotation_mark

unfoldable pub close_quotes : Text → Text
close_quotes result = if begins_quoted result then result ++ quotation_mark ∷ [] else result

unfoldable pub escape : Text → Text
unfolding close_quotes
escape arg =
    close_quotes ((if has_special arg then quotation_mark ∷ [] else []) ++ flat_map escape_char arg)

unfoldable pub make_command_line : Essence → List Text → Text
make_command_line essence args =
    join_with command_line_separator (map essence.to_native_string (map escape args))
