-- ===== src/Worker/Racing/Handles.antt =====
-- The handles of the two threads of src/workers/executable_service_worker.cpp.
use svc_hostify.Base.{
  ℕ, ◌⊎◌, inl, inr, ◌+◌, ◌==◌, ◌≤◌, ◌≡◌, refl, Bool, true, false, Option, none, some, List, [], ◌∷◌,
  if◌then◌else◌, arith,
}
use svc_hostify.Effects.{close_handle, wait_for_process, World, History}
use svc_hostify.Worker.Executable.{ExecutableServiceWorker}
use svc_hostify.Worker.Kernel.{is_close, owned, closed}
use svc_hostify.Worker.Racing.Balance.{race-Balanced}
use svc_hostify.Worker.Racing.{
  RunPoint, waiting, resetting_thread, resetting_process, run_done, StopPoint, not_called, tested,
  read, Race, Racer, run_racer, stop_racer, racing, run_turn, posts, stop_call, stop_turn,
  race_turn, race, was_closed, is_late, late_calls,
}

at_most_one : (n m : ℕ) (b : Bool) → n + m ≤ (if b then 1 else 0) → n ≤ 1
at_most_one n m true h = omega arith
at_most_one n m false h = omega arith

module _ (t p : ℕ) where
  -- What `run` has closed, and so what the worker owns.
  abbrev Owns : RunPoint → ExecutableServiceWorker → History → Type 0
  Owns waiting k h =
      (k.wrapped_thread ≡ some t)
      × (k.wrapped_process ≡ some p)
      × (was_closed t h ≡ false)
      × (was_closed p h ≡ false)
  Owns resetting_thread k h =
      (k.wrapped_thread ≡ some t)
      × (k.wrapped_process ≡ some p)
      × (was_closed t h ≡ false)
      × (was_closed p h ≡ false)
  Owns resetting_process k h =
      (k.wrapped_thread ≡ none)
      × (k.wrapped_process ≡ some p)
      × (was_closed t h ≡ true)
      × (was_closed p h ≡ false)
  Owns run_done k h =
      (k.wrapped_thread ≡ none)
      × (k.wrapped_process ≡ none)
      × (was_closed t h ≡ true)
      × (was_closed p h ≡ true)

  abbrev handle_of : Bool → ℕ
  handle_of b = if b then t else p

  -- What `on_stop` has read.
  abbrev Reads : Bool → StopPoint → Type 0
  Reads b not_called = Unit
  Reads b tested = Unit
  Reads b (read none) = Unit
  Reads b (read (some x)) = x ≡ handle_of b

  -- 1 where the call that `on_stop` will make is late by now.
  abbrev pending : Bool → StopPoint → History → ℕ
  pending b not_called h = 0
  pending b tested h = 0
  pending b (read x) h = if is_late (stop_call b x) h then 1 else 0

  record Fair (r : Race) : Type 0 where
    owns : Owns r.run_point r.worker r.world.history
    reads : Reads (posts r.worker) r.stop_point
    late :
        late_calls r.world.history + pending (posts r.worker) r.stop_point r.world.history
        ≤ (if was_closed (handle_of (posts r.worker)) r.world.history then 1 else 0)

  abbrev racing_at : RunPoint → StopPoint → ExecutableServiceWorker → World → Race
  racing_at g s k w = record { run_point = g; stop_point = s; worker = k; world = w }

  module _ (apart : (t == p) ≡ false) where
    -- A handle that is closed makes at most the call late that `on_stop` has it for.
    late-close :
        (b : Bool) (s : StopPoint) (x : ℕ) (h : History)
        → Reads b s
        → (x ≡ t) ⊎ (x ≡ p)
        → late_calls h + pending b s h ≤ (if was_closed (handle_of b) h then 1 else 0)
        → was_closed x h ≡ false
        → late_calls (close_handle x ∷ h) + pending b s (close_handle x ∷ h)
          ≤ (if was_closed (handle_of b) (close_handle x ∷ h) then 1 else 0)
    late-close true not_called x h r q k o = ground arith
    late-close false not_called x h r q k o = ground arith
    late-close true tested x h r q k o = ground arith
    late-close false tested x h r q k o = ground arith
    late-close true (read none) x h r q k o = ground arith
    late-close false (read none) x h r q k o = ground arith
    late-close true (read (some y)) x h r q k o = ground arith
    late-close false (read (some y)) x h r q k o = ground arith

    late-wait :
        (b : Bool) (s : StopPoint) (x : ℕ) (h : History)
        → late_calls (wait_for_process x ∷ h) + pending b s (wait_for_process x ∷ h)
          ≡ late_calls h + pending b s h
    late-wait true not_called x h = omega arith
    late-wait false not_called x h = omega arith
    late-wait true tested x h = omega arith
    late-wait false tested x h = omega arith
    late-wait true (read none) x h = omega arith
    late-wait false (read none) x h = omega arith
    late-wait true (read (some y)) x h = omega arith
    late-wait false (read (some y)) x h = omega arith

    run_turn-Fair :
        (g : RunPoint) (s : StopPoint) (k : ExecutableServiceWorker) (w : World)
        → Fair (racing_at g s k w)
        → Fair (run_turn g (racing_at g s k w))
    unfolding run_turn
    run_turn-Fair waiting s k w f =
        let (a, b, c, d) = f.owns in
        rw b (record {
          owns = (a, refl, c, d);
          reads = f.reads;
          late = omega (arith, late-wait (posts k) s p w.history, f.late);
        })
    run_turn-Fair resetting_thread s k w f =
        let (a, b, c, d) = f.owns in
        rw a (record {
          owns = (refl, b, ground arith, ground (arith, apart));
          reads = f.reads;
          late = late-close (posts k) s t w.history f.reads (inl refl) f.late c;
        })
    run_turn-Fair resetting_process s k w f =
        let (a, b, c, d) = f.owns in
        rw b (record {
          owns = (a, refl, ground (arith, apart), ground arith);
          reads = f.reads;
          late = late-close (posts k) s p w.history f.reads (inr refl) f.late d;
        })
    run_turn-Fair run_done s k w f = f

    is_close-stop_call : (x : ℕ) (b : Bool) (o : Option ℕ) → is_close x (stop_call b o) ≡ false
    is_close-stop_call x true o = refl
    is_close-stop_call x false none = refl
    is_close-stop_call x false (some y) = refl

    Owns-stop_call :
        (g : RunPoint) (k : ExecutableServiceWorker) (b : Bool) (o : Option ℕ) (h : History)
        → Owns g k h
        → Owns g k (stop_call b o ∷ h)
    Owns-stop_call waiting k b o h q = rw (is_close-stop_call t b o, is_close-stop_call p b o) q
    Owns-stop_call resetting_thread k b o h q =
        rw (is_close-stop_call t b o, is_close-stop_call p b o) q
    Owns-stop_call resetting_process k b o h q =
        rw (is_close-stop_call t b o, is_close-stop_call p b o) q
    Owns-stop_call run_done k b o h q = rw (is_close-stop_call t b o, is_close-stop_call p b o) q

    abbrev target_of : Bool → ExecutableServiceWorker → Option ℕ
    target_of b k = if b then k.wrapped_thread else k.wrapped_process

    -- What `on_stop` reads is null, or a handle that is open.
    target_of-Reads :
        (g : RunPoint) (b : Bool) (k : ExecutableServiceWorker) (h : History)
        → Owns g k h
        → Reads b (read (target_of b k)) × (is_late (stop_call b (target_of b k)) h ≡ false)
    target_of-Reads waiting true k h (a, b, c, d) = rw a (refl, c)
    target_of-Reads waiting false k h (a, b, c, d) = rw b (refl, ground arith)
    target_of-Reads resetting_thread true k h (a, b, c, d) = rw a (refl, c)
    target_of-Reads resetting_thread false k h (a, b, c, d) = rw b (refl, ground arith)
    target_of-Reads resetting_process true k h (a, b, c, d) = rw a (tt, refl)
    target_of-Reads resetting_process false k h (a, b, c, d) = rw b (refl, ground arith)
    target_of-Reads run_done true k h (a, b, c, d) = rw a (tt, refl)
    target_of-Reads run_done false k h (a, b, c, d) = rw b (tt, refl)

    stop_turn-Fair :
        (g : RunPoint) (s : StopPoint) (k : ExecutableServiceWorker) (w : World)
        → Fair (racing_at g s k w)
        → Fair (stop_turn s (racing_at g s k w))
    unfolding stop_turn
    stop_turn-Fair g not_called k w f = by_process k.wrapped_process
      where
        by_process :
            (o : Option ℕ)
            → Fair (elim o [ none ↦ racing_at g not_called k w | some q ↦ racing_at g tested k w ])
        by_process none = f
        by_process (some q) = record { owns = f.owns; reads = tt; late = f.late }
    stop_turn-Fair g tested k w f =
        let (r, l) = target_of-Reads g (posts k) k w.history f.owns in
        record { owns = f.owns; reads = r; late = rw l f.late }
    stop_turn-Fair g (read h) k w f = record {
      owns = Owns-stop_call g k (posts k) h w.history f.owns;
      reads = tt;
      late = rw (is_close-stop_call (handle_of (posts k)) (posts k) h) (omega (arith, f.late));
    }

    race_turn-Fair : (c : Racer) (r : Race) → Fair r → Fair (race_turn c r)
    unfolding race_turn
    race_turn-Fair run_racer r f = run_turn-Fair r.run_point r.stop_point r.worker r.world f
    race_turn-Fair stop_racer r f = stop_turn-Fair r.run_point r.stop_point r.worker r.world f

    race-Fair : (l : List Racer) (r : Race) → Fair r → Fair (race l r)
    unfolding race
    race-Fair [] r f = f
    race-Fair (c ∷ l) r f = race-Fair l (race_turn c r) (race_turn-Fair c r f)

-- However the turns of `run` and of the calls of `on_stop` are interleaved, each handle is closed
-- as often as the worker gives it up, and at most one call of `on_stop` uses a handle that was
-- closed, for a worker that owns an open process and its open thread.
pub race-late_calls :
    (t p : ℕ)
    → (t == p) ≡ false
    → (worker : ExecutableServiceWorker) (world : World) → worker.wrapped_thread ≡ some t
    → worker.wrapped_process ≡ some p
    → was_closed t world.history ≡ false
    → was_closed p world.history ≡ false
    → late_calls world.history ≡ 0
    → (x : ℕ) (l : List Racer)
    → let r = race l (racing worker world) in
      (late_calls r.world.history ≤ 1)
      × (closed x r.world.history + owned x r.worker ≡ closed x world.history + owned x worker)
race-late_calls t p apart worker world a b c d none_late x l =
    let start : Fair t p (racing worker world) = record {
      owns = (a, b, c, d);
      reads = tt;
      late = omega arith;
    } in
    (
      at_most_one _ _ _ (race-Fair t p apart l (racing worker world) start).late,
      race-Balanced x l (racing worker world),
    )
