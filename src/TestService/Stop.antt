-- ===== src/TestService/Stop.antt =====
-- When `run` of samples/cpp/test-service/src/entry.cpp returns.
use svc_hostify.Base.{
  Text, ℕ, suc, ◌+◌, ◌≤◌, ◌≡◌, ◌≢◌, refl, sym, ap, ◌∙◌, Bool, true, false, List, [], ◌∷◌, ◌++◌,
  arith,
}
use svc_hostify.TestService.{
  Point, entered, greeted, looping, returned, TestService, Turn, run_turn, stop_turn, fresh, greet,
  set_running, round, advance, on_stop, take_turn, follow,
}

-- How many turns of each thread a schedule has.
abbrev pub run_turns : List Turn → ℕ
run_turns [] = 0
run_turns (run_turn ∷ l) = suc (run_turns l)
run_turns (stop_turn ∷ l) = run_turns l

abbrev pub stop_turns : List Turn → ℕ
stop_turns [] = 0
stop_turns (run_turn ∷ l) = stop_turns l
stop_turns (stop_turn ∷ l) = suc (stop_turns l)

-- How far `run` has come before its loop: two turns.
abbrev rank : Point → ℕ
rank entered = 0
rank greeted = 1
rank (looping i) = 2
rank returned = 2

-- A point where the flag does not end `run`.
abbrev Going : Point → Bool → Type 0
Going entered running = Unit
Going greeted running = Unit
Going (looping i) running = running ≡ true
Going returned running = ⊥

module _ (to_string : ℕ → Text) where
  follow-append :
      (k l : List Turn) (s : TestService)
      → follow to_string (k ++ l) s ≡ follow to_string l (follow to_string k s)
  unfolding follow
  follow-append [] l s = refl
  follow-append (t ∷ k) l s = follow-append k l (take_turn to_string t s)

  -- A turn of `run` comes nearer to the loop, and stays in it or behind it.
  rank-advance :
      (p : Point) (s : TestService)
      → s.point ≡ p
      → (rank p ≡ 2 → rank (advance to_string p s).point ≡ 2)
        × (rank p ≤ 1 → rank (advance to_string p s).point ≡ rank p + 1)
  unfolding advance greet set_running round
  rank-advance entered s e = (λ h. omega arith, λ h. omega arith)
  rank-advance greeted s e = (λ h. omega arith, λ h. omega arith)
  rank-advance (looping i) s e = (λ h. ground arith, λ h. omega arith)
  rank-advance returned s e = (λ h. rw e refl, λ h. omega arith)

  rank-follow :
      (l : List Turn) (s : TestService)
      → (2 ≤ rank s.point + run_turns l → rank s.point ≤ 2 → rank (follow to_string l s).point ≡ 2)
        × (rank s.point + run_turns l ≤ 1
            → rank (follow to_string l s).point ≡ rank s.point + run_turns l)
  unfolding follow take_turn on_stop
  rank-follow [] s = (λ h k. omega arith, λ h. omega arith)
  rank-follow (run_turn ∷ l) s =
      let (a, b) = rank-advance s.point s refl in
      let (c, d) = rank-follow l (advance to_string s.point s) in
      (λ h k. ground (arith, a, b, c), λ h. ground (arith, b, d))
  rank-follow (stop_turn ∷ l) s = rank-follow l (on_stop to_string s)

  -- Once the flag is down in the loop, the next turn of `run` returns, and it stays so.
  returned-advance :
      (p : Point) (s : TestService)
      → s.point ≡ p
      → rank p ≡ 2
      → s.running ≡ false
      → ((advance to_string p s).point ≡ returned) × ((advance to_string p s).running ≡ false)
  unfolding advance round
  returned-advance entered s e h k = absurd (omega arith)
  returned-advance greeted s e h k = absurd (omega arith)
  returned-advance (looping i) s e h k = (ground arith, ground arith)
  returned-advance returned s e h k = (e, k)

  follow-stays_returned :
      (l : List Turn) (s : TestService)
      → s.point ≡ returned
      → s.running ≡ false
      → (follow to_string l s).point ≡ returned
  unfolding follow take_turn on_stop
  follow-stays_returned [] s h k = h
  follow-stays_returned (run_turn ∷ l) s h k =
      let (a, b) = returned-advance s.point s refl (ap rank h) k in
      follow-stays_returned l (advance to_string s.point s) a b
  follow-stays_returned (stop_turn ∷ l) s h k = follow-stays_returned l (on_stop to_string s) h refl

  follow-stopped :
      (l : List Turn) (s : TestService)
      → rank s.point ≡ 2
      → s.running ≡ false
      → 1 ≤ run_turns l
      → (follow to_string l s).point ≡ returned
  unfolding follow take_turn on_stop
  follow-stopped [] s h k few = absurd (omega arith)
  follow-stopped (run_turn ∷ l) s h k few =
      let (a, b) = returned-advance s.point s refl h k in
      follow-stays_returned l (advance to_string s.point s) a b
  follow-stopped (stop_turn ∷ l) s h k few = follow-stopped l (on_stop to_string s) h refl few

  -- `run` returns: where `on_stop` is called after the two turns in which `run` has set its flag,
  -- one more turn of `run` is enough, whatever the other calls of `on_stop` and however the
  -- threads are interleaved.
  pub follow-returned :
      (args : List Text) (before after : List Turn)
      → 2 ≤ run_turns before
      → 1 ≤ run_turns after
      → (follow to_string (before ++ stop_turn ∷ after) (fresh args)).point ≡ returned
  unfolding follow take_turn on_stop
  follow-returned args before after set more =
      ap (λ (s : TestService). s.point) (follow-append before (stop_turn ∷ after) (fresh args))
      ∙ follow-stopped after (on_stop to_string (follow to_string before (fresh args)))
          ((rank-follow before (fresh args)).0 (omega arith) (omega arith)) refl more

  Going-advance :
      (p : Point) (s : TestService)
      → s.point ≡ p
      → Going p s.running
      → Going (advance to_string p s).point (advance to_string p s).running
  unfolding advance greet set_running round
  Going-advance entered s e h = tt
  Going-advance greeted s e h = refl
  Going-advance (looping i) s e h = rw h refl
  Going-advance returned s e h = absurd h

  -- With no call of `on_stop` behind it, `run` goes on.
  Going-follow :
      (l : List Turn) (s : TestService)
      → stop_turns l ≡ 0
      → Going s.point s.running
      → Going (follow to_string l s).point (follow to_string l s).running
  unfolding follow take_turn
  Going-follow [] s h g = g
  Going-follow (run_turn ∷ l) s h g =
      Going-follow l (advance to_string s.point s) h (Going-advance s.point s refl g)
  Going-follow (stop_turn ∷ l) s h g = absurd (omega arith)

  Going-early : (p : Point) (running : Bool) → rank p ≤ 1 → Going p running
  Going-early entered running h = tt
  Going-early greeted running h = tt
  Going-early (looping i) running h = absurd (omega arith)
  Going-early returned running h = absurd (omega arith)

  Going-ne-returned : (p : Point) (running : Bool) → Going p running → p ≢ returned
  Going-ne-returned entered running g = λ e. cc
  Going-ne-returned greeted running g = λ e. cc
  Going-ne-returned (looping i) running g = λ e. cc
  Going-ne-returned returned running g = absurd g

  -- A call of `on_stop` before `run` has set its flag is lost: `run` sets the flag behind it, and
  -- does not return until `on_stop` is called again.
  pub follow-ne-returned :
      (args : List Text) (before after : List Turn)
      → run_turns before ≤ 1
      → stop_turns after ≡ 0
      → (follow to_string (before ++ stop_turn ∷ after) (fresh args)).point ≢ returned
  unfolding follow take_turn on_stop
  follow-ne-returned args before after early none_more =
      let s = on_stop to_string (follow to_string before (fresh args)) in
      let early_rank =
        Going-early s.point s.running
          (omega (arith, (rank-follow before (fresh args)).1 (omega arith))) in
      λ e.
        Going-ne-returned (follow to_string after s).point (follow to_string after s).running
          (Going-follow after s none_more early_rank)
          (sym (
              ap (λ (t : TestService). t.point)
                (follow-append before (stop_turn ∷ after) (fresh args)))
            ∙ e)
