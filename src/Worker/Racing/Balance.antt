-- ===== src/Worker/Racing/Balance.antt =====
-- Which handles the two threads of src/workers/executable_service_worker.cpp close.
use svc_hostify.Base.{
  ℕ, ◌+◌, ◌≡◌, refl, ◌∙◌, Bool, true, false, Option, none, some, List, [], ◌∷◌, arith,
}
use svc_hostify.Effects.{History}
use svc_hostify.Worker.Kernel.{owned, closed}
use svc_hostify.Worker.Racing.{
  RunPoint, waiting, resetting_thread, resetting_process, run_done, StopPoint, not_called, tested,
  read, Race, Racer, run_racer, stop_racer, run_turn, posts, stop_call, stop_turn, race_turn, race,
}

-- Both threads close as much as they give up.
abbrev pub Balanced : ℕ → Race → Race → Type 0
Balanced x r s =
    closed x s.world.history + owned x s.worker ≡ closed x r.world.history + owned x r.worker

module _ (x : ℕ) where
  run_turn-Balanced : (g : RunPoint) (r : Race) → Balanced x r (run_turn g r)
  unfolding run_turn
  run_turn-Balanced waiting r = ground arith
  run_turn-Balanced resetting_thread r = ground arith
  run_turn-Balanced resetting_process r = ground arith
  run_turn-Balanced run_done r = refl

  closed-stop_call :
      (b : Bool) (o : Option ℕ) (h : History) → closed x (stop_call b o ∷ h) ≡ closed x h
  closed-stop_call true o h = omega arith
  closed-stop_call false none h = omega arith
  closed-stop_call false (some y) h = omega arith

  stop_turn-Balanced : (s : StopPoint) (r : Race) → Balanced x r (stop_turn s r)
  unfolding stop_turn
  stop_turn-Balanced not_called r = ground arith
  stop_turn-Balanced tested r = refl
  stop_turn-Balanced (read o) r = omega (arith, closed-stop_call (posts r.worker) o r.world.history)

  pub race-Balanced : (l : List Racer) (r : Race) → Balanced x r (race l r)
  unfolding race race_turn
  race-Balanced [] r = refl
  race-Balanced (run_racer ∷ l) r =
      race-Balanced l (run_turn r.run_point r) ∙ run_turn-Balanced r.run_point r
  race-Balanced (stop_racer ∷ l) r =
      race-Balanced l (stop_turn r.stop_point r) ∙ stop_turn-Balanced r.stop_point r
