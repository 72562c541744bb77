-- ===== src/Tests/TestService.antt =====
-- Schedules of the sample service.
use svc_hostify.Base.{Text, codes, ◌≡◌, ◌≢◌, refl, true, some, List, [], ◌∷◌, ◌++◌, arith}
use svc_hostify.TestService.{run_turn, stop_turn, looping, returned, fresh, follow, banner, text}
use svc_hostify.TestService.Stop.{follow-ne-returned}
use svc_hostify.TestService.Output.{turns, counter_lines, follow-turns-fresh}
use svc_hostify.Tests.Platform.{to_string}

abbrev one_arg : List Text
one_arg = codes "-v" ∷ []

follow-ne-returned_example :
    (follow to_string (run_turn ∷ stop_turn ∷ run_turn ∷ run_turn ∷ []) (fresh one_arg)).point
    ≢ returned
follow-ne-returned_example =
    follow-ne-returned to_string one_arg (run_turn ∷ []) (run_turn ∷ run_turn ∷ []) (omega arith)
      refl

follow-turns-fresh_example : follow to_string (turns 4) (fresh one_arg) ≡ record {
  point = looping 2;
  running = true;
  args = one_arg;
  output = (banner ++ one_arg) ++ counter_lines to_string 0 2;
  file = some text;
}
follow-turns-fresh_example = follow-turns-fresh to_string 2 one_arg (omega arith)
