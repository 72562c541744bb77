-- ===== src/Essence.antt =====
-- The essence library and what the standard library leaves to the platform, as parameters; the
-- laws of a function are named hypotheses of the theorems that rest on them.
use svc_hostify.Base.{Text, ℕ, Option}
use svc_hostify.Effects.{Error}

pub record Essence : Type 0 where
  -- decimal numbers
  pub from_string : Text → Option ℕ
  pub to_string : ℕ → Text
  -- UTF-8 and UTF-16
  pub to_native_string : Text → Text
  pub to_utf8_string : Text → Text
  -- `trim` and `trim_right`, of the characters in the second argument
  pub trim : Text → Text → Text
  pub trim_right : Text → Text → Text
  -- `make_digest(digest_mode::sha3_224, …)`
  pub sha3_224 : Text → Text
  -- `std::filesystem::path::parent_path` on the platform's paths
  pub parent_path : Text → Text
  -- `generic_u8string`, with `/` between the components
  pub generic : Text → Text
  -- `what()` of an exception, and the printed settings of the logger
  pub what : Error → Text
  pub dump_logger : Text → ℕ → ℕ → Option Text
