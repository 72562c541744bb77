-- ===== src/TestService.antt =====
-- samples/cpp/test-service/src/entry.cpp: a DLL that SvcHostify can host. `run` and `on_stop` are
-- called on two threads that share the flag `running_`; a schedule says which of them is next.
pub mod Stop
pub mod Output
use svc_hostify.Base.{
  Text, codes, ℕ, suc, ◌+◌, ◌%◌, ◌^◌, Bool, true, false, Option, none, some, List, [], ◌∷◌, ◌++◌,
  map,
}

-- Where `run` is. A turn prints, writes the file, or sets or reads the flag.
pub data Point : Type 0 where
  entered : Point
  greeted : Point
  looping : ℕ → Point
  returned : Point

-- `test_service`, with its output (the newest last) and the file that it writes.
pub record TestService : Type 0 where
  pub point : Point
  pub running : Bool
  pub args : List Text
  pub output : List Text
  pub file : Option Text

-- Whose turn it is: that of `run`, or of a call of `on_stop`.
pub data Turn : Type 0 where
  run_turn stop_turn : Turn

abbrev pub fresh : List Text → TestService
fresh args = record { point = entered; running = false; args = args; output = []; file = none }

abbrev pub banner : List Text
banner =
    codes "A Svchost run from Cplusplus."
    ∷ codes "All outputs to stdout will be redirected to the logging file that you configured."
    ∷ codes "Input arguments:"
    ∷ []

abbrev pub text : Text
text = codes "It's good to write text to your own file for logging."

-- The parts of `run` before the loop.
unfoldable pub greet : TestService → TestService
greet s = record s { point = greeted; output = s.output ++ (banner ++ s.args); file = some text }

unfoldable pub set_running : TestService → TestService
set_running s = record s { point = looping 0; running = true }

module _ (to_string : ℕ → Text) where
  -- One round of the loop; the counter is a 64-bit `std::size_t`.
  unfoldable pub round : ℕ → TestService → TestService
  round i s = elim s.running [
    | true ↦ record s {
      point = looping ((i + 1) % 2 ^ 64);
      output = s.output ++ (codes "Hello service counter: " ++ to_string i) ∷ [];
    }
    | false ↦ record s { point = returned }
  ]

  -- The next turn of the thread that is at some point of `run`.
  unfoldable pub advance : Point → TestService → TestService
  unfolding greet set_running round
  advance entered s = greet s
  advance greeted s = set_running s
  advance (looping i) s = round i s
  advance returned s = s

  unfoldable pub on_stop : TestService → TestService
  on_stop s = record s {
    running = false;
    output = s.output ++ codes "A stop signal received." ∷ codes "Requesting a stop." ∷ [];
  }

  unfoldable pub take_turn : Turn → TestService → TestService
  unfolding advance on_stop
  take_turn run_turn s = advance s.point s
  take_turn stop_turn s = on_stop s

  unfoldable pub follow : List Turn → TestService → TestService
  follow [] s = s
  follow (t ∷ l) s = follow l (take_turn t s)
