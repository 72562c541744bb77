-- ===== src/Worker/Racing/Atomic.antt =====
-- The methods of src/workers/executable_service_worker.cpp, where one thread is not interrupted.
use svc_hostify.Base.{◌≡◌, [], ◌∷◌, arith}
use svc_hostify.Effects.{World, ok}
use svc_hostify.Worker.Executable.{ExecutableServiceWorker, run, on_stop}
use svc_hostify.Worker.Racing.{
  run_done, not_called, run_racer, stop_racer, racing, run_turn, stop_turn, race_turn, race,
}

-- Three turns of `run`, or of a call of `on_stop`, that nothing interrupts leave the worker and the
-- world as the method does.
pub race-methods :
    (worker : ExecutableServiceWorker) (world : World)
    → let r = race (run_racer ∷ run_racer ∷ run_racer ∷ []) (racing worker world) in
      let s = race (stop_racer ∷ stop_racer ∷ stop_racer ∷ []) (racing worker world) in
      (r.run_point ≡ run_done)
      × (run worker world ≡ (ok r.worker, r.world))
      × (s.stop_point ≡ not_called)
      × (s.worker ≡ worker)
      × (on_stop worker world ≡ (ok tt, s.world))
unfolding race race_turn run_turn stop_turn run on_stop
race-methods worker world = ground arith
