-- ===== src/FileSize/Print.antt =====
-- What `truncate_file_size_string` prints.
use svc_hostify.Base.{Text, codes, ℕ, ◌^◌, ◌≡◌, ◌∷◌, ◌++◌, arith, ltb, if◌then◌else◌}
use svc_hostify.FileSize.{truncate_file_size_string, best_match, drop_while_nonzero, truncate_with}

-- Sizes below 1 TiB all print as zero TiB, and the others as the plain number of bytes: the names
-- of the smaller units are never printed.
pub truncate_file_size_string_lem :
    (to_string : ℕ → Text) (size : ℕ)
    → truncate_file_size_string to_string size
      ≡ (if ltb size (2 ^ 40) then to_string 0 ++ b' ' ∷ codes "TiB" else to_string size)
unfolding truncate_file_size_string best_match drop_while_nonzero truncate_with
truncate_file_size_string_lem to_string size = ground arith
