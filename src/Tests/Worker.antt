-- ===== src/Tests/Worker.antt =====
-- Workers and command lines.
use svc_hostify.Base.{Text, codes, All, ◌≡◌, refl, none, some, List, [], ◌∷◌, ◌++◌, arith}
use svc_hostify.Effects.{Os, start, ok, err, Error, formatted, ◌>>=◌}
use svc_hostify.Util.{add_dll_directories}
use svc_hostify.Util.CommandLine.{make_command_line}
use svc_hostify.Util.CommandLine.Reader.{split_command_line}
use svc_hostify.Util.CommandLine.Arguments.{Simple}
use svc_hostify.Util.CommandLine.Quoting.{IsProgram, split_command_line-make_command_line}
use svc_hostify.Worker.PureC as PureC
use svc_hostify.Worker.Jvm.{ensure_jvm, initialize_jvm, load_jvm}
use svc_hostify.Worker.Modules.{
  Released, make-destroy-Released, ensure_jvm-Released, ensure_jvm-again,
}
use svc_hostify.Tests.Platform.{essence, os, sample}

make-destroy-Released_example :
    Released os 7 start ((PureC.make os essence sample >>= PureC.destroy) start).1
make-destroy-Released_example = make-destroy-Released os essence 7 sample start

-- The virtual machine's module is loaded and AWT's is not.
abbrev no_awt : Os
no_awt = record os {
  handle = λ h c. elim h [
    | [] ↦ none
    | d ∷ k ↦ elim k [ [] ↦ none | e ∷ l ↦ elim l [ [] ↦ some 7 | _ ∷ _ ↦ none ] ]
  ];
}

abbrev jdk : Text
jdk = codes "C:\\jdk"

abbrev classes : Text
classes = codes "svc.jar"

abbrev awt_path_text : Text
awt_path_text = (jdk ++ codes "\\bin") ++ codes "\\awt.dll"

abbrev awt_missing : Error
awt_missing =
    formatted
      (codes "AWT Runtime" ∷ awt_path_text ∷ codes "Message" ∷ codes "Failed to load AWT." ∷ [])

jvm_refused : (ensure_jvm no_awt essence jdk classes start).0 ≡ err awt_missing
unfolding ensure_jvm initialize_jvm load_jvm add_dll_directories
jvm_refused = refl

ensure_jvm-Released_example :
    Released no_awt 7 start (ensure_jvm no_awt essence jdk classes start).1
    × ((ensure_jvm no_awt essence jdk classes start).1.jvm_init ≡ none)
ensure_jvm-Released_example =
    ensure_jvm-Released no_awt essence 7 jdk classes start awt_missing jvm_refused

jvm_created : (ensure_jvm os essence jdk classes start).0 ≡ ok tt
unfolding ensure_jvm initialize_jvm load_jvm add_dll_directories
jvm_created = refl

ensure_jvm-again_example :
    ensure_jvm os essence (codes "D:\\other") [] (ensure_jvm os essence jdk classes start).1
    ≡ (ok tt, (ensure_jvm os essence jdk classes start).1)
ensure_jvm-again_example =
    ensure_jvm-again os essence 7 jdk classes (codes "D:\\other") [] start jvm_created

-- A program with a backslash and a space in its path.
abbrev program : Text
program = codes "C:\\two words.exe"

-- An argument with a space and one with quotation marks.
abbrev arguments : List Text
arguments = codes "two words" ∷ codes "a\"b\"" ∷ codes "-v" ∷ []

program-IsProgram : IsProgram program
unfolding codes
program-IsProgram = record { named = λ e. cc; unquoted = ground arith }

arguments-Simple : All Simple arguments
unfolding codes
arguments-Simple = (
  record { given = λ e. cc; plain = ground arith },
  (
    record { given = λ e. cc; plain = ground arith },
    (record { given = λ e. cc; plain = ground arith }, tt),
  ),
)

split_command_line-make_command_line_example :
    split_command_line (make_command_line essence (program ∷ arguments)) ≡ program ∷ arguments
split_command_line-make_command_line_example =
    split_command_line-make_command_line essence program arguments program-IsProgram
      arguments-Simple (refl, (refl, (refl, (refl, tt))))
