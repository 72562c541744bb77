-- ===== src/Worker/Kernel.antt =====
-- The handles of processes and threads that src/workers/executable_service_worker.cpp owns.
use svc_hostify.Base.{
  ℕ, ◌+◌, ◌==◌, ◌≡◌, Bool, true, false, ◌&&◌, Option, none, some, List, [], ◌∷◌, if◌then◌else◌,
  arith,
}
use svc_hostify.Effects.{
  Os, World, Action, Result, ok, err, undefined, ◌>>=◌, continue, Call, History, create_process,
  close_handle,
}
use svc_hostify.Config.{ServiceConfig}
use svc_hostify.Essence.{Essence}
use svc_hostify.Worker.Executable.{
  ExecutableServiceWorker, make, on_start, on_stop, run, destroy, process_of, thread_of,
}

abbrev pub is_create : Call → Bool
is_create (create_process path arguments) = true
is_create _ = false

abbrev pub is_close : ℕ → Call → Bool
is_close x (close_handle h) = h == x
is_close x _ = false

-- 1 for a handle that is `x`.
abbrev pub one_if : ℕ → Option ℕ → ℕ
one_if x none = 0
one_if x (some h) = if h == x then 1 else 0

-- How often a history has opened, and closed, the handle `x`.
abbrev pub opened : Os → ℕ → History → ℕ
opened os x [] = 0
opened os x (c ∷ h) =
    (if is_create c && os.flag h c
      then one_if x (thread_of (os.buffer h c)) + one_if x (process_of (os.buffer h c))
      else 0)
    + opened os x h

abbrev pub closed : ℕ → History → ℕ
closed x [] = 0
closed x (c ∷ h) = (if is_close x c then 1 else 0) + closed x h

-- How often the worker owns `x`.
abbrev pub owned : ℕ → ExecutableServiceWorker → ℕ
owned x worker = one_if x worker.wrapped_thread + one_if x worker.wrapped_process

-- A method that Windows or the service process calls.
pub data Method : Type 0 where
  starts runs stops : Method

-- The worker and the world behind a method; one that throws leaves the worker as it was.
abbrev pub behind :
    ExecutableServiceWorker
    → Result ExecutableServiceWorker × World
    → ExecutableServiceWorker × World
behind worker (ok changed, w) = (changed, w)
behind worker (err e, w) = (worker, w)
behind worker (undefined, w) = (worker, w)

module _ (os : Os) (essence : Essence) where
  abbrev pub call_method :
      Method → ExecutableServiceWorker × World → ExecutableServiceWorker × World
  call_method starts (worker, w) = behind worker (on_start os essence worker w)
  call_method runs (worker, w) = behind worker (run worker w)
  call_method stops (worker, w) = (worker, (on_stop worker w).1)

  abbrev pub call_methods :
      List Method → ExecutableServiceWorker × World → ExecutableServiceWorker × World
  call_methods [] p = p
  call_methods (c ∷ l) p = call_methods l (call_method c p)

  abbrev pub destroy_last : ExecutableServiceWorker × World → Result (Unit {0}) × World
  destroy_last (worker, w) = destroy worker w

  -- A worker that is made, called and destroyed.
  abbrev pub lifetime : ServiceConfig → List Method → Action World (Unit {0})
  lifetime config l =
      make os essence config >>= λ worker w. destroy_last (call_methods l (worker, w))

  module _ (x : ℕ) where
    -- What is owned and was closed is what was opened, counted from `v` on.
    abbrev pub Accounted : World → ExecutableServiceWorker × World → Type 0
    Accounted v p =
        owned x p.0 + (closed x p.1.history + opened os x v.history)
        ≡ opened os x p.1.history + closed x v.history

    Accounted-call_method :
        (v w : World) (c : Method) (worker : ExecutableServiceWorker)
        → Accounted v (worker, w)
        → Accounted v (call_method c (worker, w))
    unfolding on_start run on_stop
    Accounted-call_method v w starts worker h = ground arith
    Accounted-call_method v w runs worker h = ground arith
    Accounted-call_method v w stops worker h = ground arith

    Accounted-call_methods :
        (v w : World) (l : List Method) (worker : ExecutableServiceWorker)
        → Accounted v (worker, w)
        → Accounted v (call_methods l (worker, w))
    Accounted-call_methods v w [] worker h = h
    Accounted-call_methods v w (c ∷ l) worker h =
        let p = call_method c (worker, w) in
        Accounted-call_methods v p.1 l p.0 (Accounted-call_method v w c worker h)

    -- Nothing is owned any more, and what was opened is closed.
    abbrev pub AllClosed : World → World → Type 0
    AllClosed v w =
        closed x w.history + opened os x v.history ≡ opened os x w.history + closed x v.history

    destroy-AllClosed :
        (v : World) (worker : ExecutableServiceWorker) (w : World)
        → Accounted v (worker, w)
        → AllClosed v (destroy worker w).1
    unfolding destroy on_stop
    destroy-AllClosed v worker w h = ground arith

    -- After the constructor.
    unfoldable Constructed : World → Result ExecutableServiceWorker × World → Type 0
    Constructed v (ok worker, w) = Accounted v (worker, w)
    Constructed v (err e, w) = AllClosed v w
    Constructed v (undefined, w) = AllClosed v w

    make-Constructed :
        (config : ServiceConfig) (v : World) → Constructed v (make os essence config v)
    unfolding make Constructed
    make-Constructed config v = ground arith

    continue-AllClosed :
        (v : World) (l : List Method) (p : Result ExecutableServiceWorker × World)
        → Constructed v p
        → AllClosed v (continue (λ worker w. destroy_last (call_methods l (worker, w))) p).1
    unfolding Constructed
    continue-AllClosed v l (ok worker, w) h =
        let p = call_methods l (worker, w) in
        destroy-AllClosed v p.0 p.1 (Accounted-call_methods v w l worker h)
    continue-AllClosed v l (err e, w) h = h
    continue-AllClosed v l (undefined, w) h = h

    -- From its construction to its destruction, and for every sequence of calls of `on_start`, `run`
    -- and `on_stop`, a worker of a process closes a handle of a process or thread as often as it
    -- opens it, also where a call or the constructor throws.
    pub lifetime-AllClosed :
        (config : ServiceConfig) (l : List Method) (v : World) → AllClosed v (lifetime config l v).1
    lifetime-AllClosed config l v =
        continue-AllClosed v l (make os essence config v) (make-Constructed config v)
