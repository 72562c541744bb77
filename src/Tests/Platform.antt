-- ===== src/Tests/Platform.antt =====
-- A concrete platform: decimal numbers are read exactly, texts are not converted, and every call
-- succeeds.
use Prim.Native.Nat.{◌^◌}
use svc_hostify.Base.{
  Text, codes, ℕ, ◌/◌, ◌%◌, ◌+◌, ltb, Bool, true, Option, none, some, [], ◌∷◌, if◌then◌else◌, arith,
  drop_while, length, ◌++◌, ◌==◌, ◌&&◌, is_empty,
}
use svc_hostify.FileSize.Parse.{value, ReadsDecimal}
use svc_hostify.Effects.{Os}
use svc_hostify.System.{zeros}
use svc_hostify.Config.{ServiceConfig, Codec, executable, local_service}
use svc_hostify.Essence.{Essence}

abbrev pub from_string : Text → Option ℕ
from_string s = if ltb (value s) (2 ^ 64) then some (value s) else none

pub from_string-ReadsDecimal : ReadsDecimal from_string
from_string-ReadsDecimal ds hd ne fits = ground arith

abbrev pub to_string : ℕ → Text
to_string n = if ltb n 10 then (b'0' + n) ∷ [] else (b'0' + n / 10 % 10) ∷ (b'0' + n % 10) ∷ []

abbrev pub is_backslash : ℕ → Bool
is_backslash c = c == b'\\'

abbrev pub trim_right : Text → Text → Text
trim_right [] group = []
trim_right (c ∷ s) group =
    let rest = trim_right s group in if is_backslash c && is_empty rest then [] else c ∷ rest

abbrev pub essence : Essence
essence = record {
  from_string = from_string;
  to_string = to_string;
  to_native_string = λ s. s;
  to_utf8_string = λ s. s;
  trim = λ s group. drop_while is_backslash (trim_right s group);
  trim_right = trim_right;
  sha3_224 = λ s. s;
  parent_path = λ s. [];
  generic = λ s. s;
  what = λ e. [];
  dump_logger = λ s n m. some s;
}

abbrev pub process_file : Text
process_file = codes "C:\\svchost.exe"

-- What is left of 260 elements.
abbrev pub name_rest : Text
name_rest = zeros 245

abbrev pub os : Os
os = record {
  flag = λ h c. true;
  handle = λ h c. some 7;
  number = λ h c. 0;
  size = λ h c. 0;
  buffer = λ h c. [];
  module_handle = λ m. some 7;
  module_file_name =
      λ h n. record { buffer = process_file ++ 0 ∷ name_rest; count = length process_file };
  system_directory_name = λ n. record { buffer = codes "C:\\Windows\\System32"; count = 19 };
  format_message = λ n. [];
  error_code_message = λ n. [];
  com_error_message = λ n. [];
  command_line_arguments = λ s. none;
}

abbrev pub sample : ServiceConfig
sample = record {
  worker_type = executable;
  name = codes "Svc";
  display_name = codes "Sample Service";
  context = codes "C:\\svc.exe";
  account_type = local_service;
  standalone = none;
  post_quit_message = none;
  description = none;
  jdk_directory = none;
  working_directory = none;
  arguments = none;
  dll_directories = none;
  logger = none;
}

-- A codec that knows one configuration.
abbrev pub codec : Codec
codec = record {
  to_msgpack = λ c. c.name;
  from_msgpack = λ b. some (record sample { name = b });
  base64_encode = λ b. b;
  base64_decode = λ s. some s;
  from_json = λ b. some sample;
  dump = λ c. some c.name;
}
