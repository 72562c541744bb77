-- ===== src/Util/CommandLine/Reader.antt =====
-- How a program reads its arguments from a command line, by the documented rules of
-- `CommandLineToArgvW`: the first argument ends at the next quotation mark where it begins with one,
-- else at the next blank, and backslashes mean nothing in it; in the others, `2n` backslashes and a
-- quotation mark are `n` backslashes and a delimiter, `2n + 1` are `n` and a quotation mark. This
-- stands beside `make_command_line` of src/util.cpp.
use svc_hostify.Base.{
  Text, ℕ, zero, suc, ◌/◌, ◌%◌, ◌==◌, Bool, true, false, not, ◌&&◌, ◌||◌, List, [], ◌∷◌, ◌++◌,
  if◌then◌else◌, take_while, drop_while, drop,
}
use svc_hostify.Util.CommandLine.{quotation_mark, command_line_separator}

-- A reader of a command line: the arguments that are complete, and the one that is being read.
pub record Reader : Type 0 where
  pub finished : List Text
  pub current : Text
  pub started : Bool
  pub quoted : Bool
  pub backslashes : ℕ

abbrev pub idle_reader : List Text → Reader
idle_reader finished = record {
  finished = finished;
  current = [];
  started = false;
  quoted = false;
  backslashes = 0;
}

abbrev pub slashes : ℕ → Text
slashes zero = []
slashes (suc n) = b'\\' ∷ slashes n

abbrev pub is_blank : ℕ → Bool
is_blank c = c == command_line_separator || c == 9

abbrev pub end_argument : Reader → Reader
end_argument r =
    if r.started then idle_reader (r.finished ++ (r.current ++ slashes r.backslashes) ∷ []) else r

abbrev pub read_quotation_mark : Reader → Reader
read_quotation_mark r =
    if r.backslashes % 2 == 0
    then record r {
      current = r.current ++ slashes (r.backslashes / 2);
      started = true;
      quoted = not r.quoted;
      backslashes = 0;
    }
    else record r {
      current = r.current ++ (slashes (r.backslashes / 2) ++ quotation_mark ∷ []);
      started = true;
      backslashes = 0;
    }

abbrev pub read_char : Reader → ℕ → Reader
read_char r c =
    if c == b'\\'
    then record r { started = true; backslashes = suc r.backslashes }
    else if c == quotation_mark
    then read_quotation_mark r
    else if is_blank c && not r.quoted
    then end_argument r
    else record r {
      current = r.current ++ (slashes r.backslashes ++ c ∷ []);
      started = true;
      backslashes = 0;
    }

abbrev pub read_text : Reader → Text → Reader
read_text r [] = r
read_text r (c ∷ s) = read_text (read_char r c) s

abbrev pub split_arguments : Text → List Text
split_arguments s = (end_argument (read_text (idle_reader []) s)).finished

abbrev pub in_quoted_name : ℕ → Bool
in_quoted_name c = not (c == quotation_mark)

abbrev pub in_plain_name : ℕ → Bool
in_plain_name c = not (is_blank c)

-- The first argument, the name of the program.
unfoldable pub program_name : Text → Text
program_name [] = []
program_name (c ∷ s) =
    if c == quotation_mark then take_while in_quoted_name s else take_while in_plain_name (c ∷ s)

unfoldable pub behind_program_name : Text → Text
behind_program_name [] = []
behind_program_name (c ∷ s) =
    if c == quotation_mark
    then drop 1 (drop_while in_quoted_name s)
    else drop_while in_plain_name (c ∷ s)

-- All arguments of a command line that is not empty.
abbrev pub split_command_line : Text → List Text
split_command_line s = program_name s ∷ split_arguments (behind_program_name s)
