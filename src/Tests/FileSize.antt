-- ===== src/Tests/FileSize.antt =====
-- Sizes read and printed.
use svc_hostify.Base.{
  codes, eq_text, ◌*◌, ◌^◌, ◌≡◌, refl, none, some, [], ◌∷◌, ◌++◌, arith, take_while, drop_while,
  if◌then◌else◌, ltb,
}
use svc_hostify.FileSize.{
  parse_file_size, truncate_file_size_string, defined, u64, starts_with_icase,
}
use svc_hostify.FileSize.Parse.{
  mib, unit_name, unit_size, value, parse_file_size-unit, parse_file_size-bytes,
  parse_file_size-OtherCase,
}
use svc_hostify.FileSize.Print.{truncate_file_size_string_lem}
use svc_hostify.Tests.Platform.{from_string, from_string-ReadsDecimal, to_string}

ten_mib : parse_file_size from_string (codes "10 MiB") ≡ defined (some 10485760)
unfolding parse_file_size eq_text codes starts_with_icase take_while drop_while
ten_mib = refl

lower_case : parse_file_size from_string (codes "10 mib") ≡ defined none
unfolding parse_file_size eq_text codes starts_with_icase take_while drop_while
lower_case = refl

-- The search finds the digits anywhere, and ignores what follows a unit.
negative : parse_file_size from_string (codes "-5 KiBs") ≡ defined (some 5120)
unfolding parse_file_size eq_text codes starts_with_icase take_while drop_while
negative = refl

ten_mib_printed : truncate_file_size_string to_string (10 * 2 ^ 20) ≡ codes "0 TiB"
unfolding truncate_file_size_string codes
ten_mib_printed = refl

parse_file_size-unit_example :
    parse_file_size from_string
      (codes "about " ++ (codes "12" ++ (codes " " ++ (unit_name mib ++ codes "/s"))))
    ≡ defined (some (u64 (value (codes "12") * unit_size mib)))
unfolding codes
parse_file_size-unit_example =
    parse_file_size-unit from_string from_string-ReadsDecimal mib (codes "about ") (codes "12")
      (codes " ") (codes "/s") (ground arith) (ground arith) (cc) (ground arith) (omega arith)

parse_file_size-bytes_example :
    parse_file_size from_string ([] ++ (codes "2048" ++ (codes " " ++ [])))
    ≡ defined (some (value (codes "2048")))
unfolding codes
parse_file_size-bytes_example =
    parse_file_size-bytes from_string from_string-ReadsDecimal [] (codes "2048") (codes " ") tt
      (ground arith) (cc) (ground arith) (omega arith)

parse_file_size-OtherCase_example :
    parse_file_size from_string ([] ++ (codes "10" ++ (codes " " ++ codes "mib"))) ≡ defined none
unfolding codes
parse_file_size-OtherCase_example =
    parse_file_size-OtherCase from_string mib [] (codes "10") (codes " ") b'm' b'i' b'b' [] tt
      (ground arith) (cc) (ground arith) (refl, λ e. ground arith)

truncate_file_size_string_lem_example :
    truncate_file_size_string to_string 2048
    ≡ (if ltb 2048 (2 ^ 40) then to_string 0 ++ b' ' ∷ codes "TiB" else to_string 2048)
truncate_file_size_string_lem_example = truncate_file_size_string_lem to_string 2048
