-- ===== src/TestService/Output.antt =====
-- What `run` of samples/cpp/test-service/src/entry.cpp prints.
use mathlib.Core.Path.{ap₂}
use svc_hostify.Base.{
  Text, codes, ℕ, zero, suc, ◌+◌, ◌%◌, ◌^◌, ◌<◌, ◌≡◌, sym, ap, ◌∙◌, true, some, List, [], ◌∷◌, ◌++◌,
  append_assoc, append-nil, arith,
}
use svc_hostify.TestService.{
  looping, TestService, Turn, run_turn, fresh, banner, text, greet, set_running, round, advance,
  take_turn, follow,
}

-- `n` turns of `run`.
abbrev pub turns : ℕ → List Turn
turns zero = []
turns (suc n) = run_turn ∷ turns n

module _ (to_string : ℕ → Text) where
  -- The lines of `n` rounds from the counter `i` on.
  abbrev pub counter_lines : ℕ → ℕ → List Text
  counter_lines i zero = []
  counter_lines i (suc n) =
      (codes "Hello service counter: " ++ to_string i) ∷ counter_lines (suc i) n

  abbrev at_round : ℕ → List Text → List Text → TestService
  at_round i args output = record {
    point = looping i;
    running = true;
    args = args;
    output = output;
    file = some text;
  }

  next_counter : (i : ℕ) → suc i < 2 ^ 64 → (i + 1) % 2 ^ 64 ≡ suc i
  next_counter i h = omega arith

  follow-turns :
      (n i : ℕ) (args output : List Text)
      → i + n < 2 ^ 64
      → follow to_string (turns n) (at_round i args output)
        ≡ at_round (i + n) args (output ++ counter_lines i n)
  unfolding follow take_turn advance round
  follow-turns zero i args output h =
      ap₂ (λ (j : ℕ) (l : List Text). at_round j args l) (omega arith) (sym (append-nil output))
  follow-turns (suc n) i args output h =
      ap
        (λ (j : ℕ).
          follow to_string (turns n)
            (at_round j args (output ++ (codes "Hello service counter: " ++ to_string i) ∷ [])))
        (next_counter i (omega arith))
      ∙ (follow-turns n (suc i) args _ (omega arith)
          ∙ ap₂ (λ (j : ℕ) (l : List Text). at_round j args l) (omega arith)
              (append_assoc output _ _))

  -- Without a stop, `run` prints its banner and its arguments, writes its file, and then counts its
  -- rounds from 0 on, one line in each, as long as the counter fits into 64 bits.
  pub follow-turns-fresh :
      (n : ℕ) (args : List Text)
      → n < 2 ^ 64
      → follow to_string (turns (suc (suc n))) (fresh args) ≡ record {
        point = looping n;
        running = true;
        args = args;
        output = (banner ++ args) ++ counter_lines 0 n;
        file = some text;
      }
  unfolding follow take_turn advance greet set_running
  follow-turns-fresh n args h =
      follow-turns n 0 args (banner ++ args) (omega arith)
      ∙ ap (λ (j : ℕ). at_round j args ((banner ++ args) ++ counter_lines 0 n)) (omega arith)
