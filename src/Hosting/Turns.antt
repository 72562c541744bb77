-- ===== src/Hosting/Turns.antt =====
-- The turns of a hosted service that bring it to its end, and what holds between them.
use mathlib.Core.Option.{some-injective}
use svc_hostify.Base.{
  Text, ◌≡◌, ◌≢◌, refl, Bool, true, false, some, List, [], ◌∷◌, if◌then◌else◌, arith,
}
use svc_hostify.Effects.{ok, stopped, ServiceStatus}
use svc_hostify.Worker.{pure_c_worker}
use svc_hostify.Worker.PureC.{PureCServiceWorker}
use svc_hostify.Process.{Hosted}
use svc_hostify.Process.Reports.{reports}
use svc_hostify.Process.Threads.{accepts_stop, state_of_last}
use svc_hostify.TestService.{Point, entered, greeted, looping, returned, TestService}
use svc_hostify.Hosting.{
  Phase, idle, starting, started, serving, inside, served, failed, finished, Hosting, Party,
  starter, hosted_run, stop_request, host_callback,
}
use svc_hostify.Hosting.Calls.{argv_of}

-- Whether two turns are those of the same party.
abbrev pub is_turn_of : Party → Party → Bool
is_turn_of starter starter = true
is_turn_of hosted_run hosted_run = true
is_turn_of stop_request stop_request = true
is_turn_of host_callback host_callback = true
is_turn_of _ _ = false

-- Whether a schedule has these turns in this order, with any others between them.
abbrev pub has_in_order : List Party → List Party → Bool
has_in_order [] l = true
has_in_order (p ∷ k) [] = false
has_in_order (p ∷ k) (q ∷ l) =
    let with_it = has_in_order k l in
    let without_it = has_in_order (p ∷ k) l in if is_turn_of p q then with_it else without_it

abbrev pub is_finished : Phase → Bool
is_finished finished = true
is_finished _ = false

-- The starter prepares the service, starts its worker, reports that it runs and calls its `run`; the
-- hosted `run` prints its banner and sets its flag; a stop is sent; the hosted `run` sees it; and the
-- starter leaves `run_business` and reports the end.
abbrev pub whole_life : List Party
whole_life =
    starter ∷ starter ∷ starter ∷ starter ∷ hosted_run ∷ hosted_run ∷ stop_request ∷ hosted_run
    ∷ starter ∷ starter ∷ []

-- How a service stands: it has ended, with the report that it has stopped, and was run with these
-- arguments; or it has not ended.
abbrev pub EndsAs : List Text → Bool → Hosting → Type 0
EndsAs argv true h =
    (h.phase ≡ finished)
    × (state_of_last (reports h.hosted.world.history) ≡ some stopped)
    × (h.service.args ≡ argv)
EndsAs argv false h = h.phase ≢ finished

-- The turns that are left.
abbrev pub left_inside : Point → Bool → List Party
left_inside entered r = hosted_run ∷ hosted_run ∷ stop_request ∷ hosted_run ∷ starter ∷ starter ∷ []
left_inside greeted r = hosted_run ∷ stop_request ∷ hosted_run ∷ starter ∷ starter ∷ []
left_inside (looping i) true = stop_request ∷ hosted_run ∷ starter ∷ starter ∷ []
left_inside (looping i) false = hosted_run ∷ starter ∷ starter ∷ []
left_inside returned r = starter ∷ starter ∷ []

abbrev pub left_at : Phase → TestService → List Party
left_at idle s = starter ∷ starter ∷ starter ∷ starter ∷ left_inside entered false
left_at starting s = starter ∷ starter ∷ starter ∷ left_inside entered false
left_at started s = starter ∷ starter ∷ left_inside entered false
left_at serving s = starter ∷ left_inside entered false
left_at (inside r) s = left_inside s.point s.running
left_at served s = starter ∷ []
left_at failed s = starter ∷ []
left_at finished s = []

abbrev pub left : Hosting → List Party
left h = left_at h.phase h.service

-- `p` takes away the first of the turns that are left, where it is that of `p`.
abbrev pub drop_turn : Party → List Party → List Party
drop_turn p [] = []
drop_turn p (q ∷ k) = if is_turn_of q p then k else q ∷ k

-- What holds in a phase: the hosted `run` is called inside `run_business` and not before, a stop can
-- be sent while it runs, and the end is reported.
abbrev pub StandsInside : Point → List ServiceStatus → Type 0
StandsInside returned l = Unit
StandsInside _ l = accepts_stop l ≡ true

abbrev pub StandsAt : Phase → Point → Bool → List ServiceStatus → Type 0
StandsAt idle p c l = (p ≡ entered) × (c ≡ false)
StandsAt starting p c l = (p ≡ entered) × (c ≡ false)
StandsAt started p c l = (p ≡ entered) × (c ≡ false)
StandsAt serving p c l = (p ≡ entered) × (c ≡ false) × (accepts_stop l ≡ true)
StandsAt (inside r) p c l = (r ≡ ok tt) × (c ≡ true) × StandsInside p l
StandsAt served p c l = c ≡ true
StandsAt failed p c l = ⊥
StandsAt finished p c l = (c ≡ true) × (state_of_last l ≡ some stopped)

-- The hosted `run` was called with the arguments of the worker.
abbrev pub RunWith : List Text → Bool → List Text → Type 0
RunWith argv true args = args ≡ argv
RunWith argv false args = Unit

pub record Stands (w : PureCServiceWorker) (h : Hosting) : Type 0 where
  pub behind_worker : h.hosted.process.worker ≡ some (pure_c_worker w)
  pub at_phase : StandsAt h.phase h.service.point h.called (reports h.hosted.world.history)
  pub run_with : RunWith (argv_of w) h.called h.service.args

-- A stop is not accepted behind the end.
pub accepts_stop-stopped :
    (l : List ServiceStatus) → state_of_last l ≡ some stopped → accepts_stop l ≡ false
accepts_stop-stopped [] h = refl
accepts_stop-stopped (s ∷ l) h = rw (some-injective _ _ h) refl

-- The first turn of a schedule only takes away the first of the turns that are left.
pub has_in_order-drop_turn :
    (k : List Party) (p : Party) (l : List Party)
    → has_in_order k (p ∷ l) ≡ has_in_order (drop_turn p k) l
has_in_order-drop_turn [] p l = refl
has_in_order-drop_turn (q ∷ k) p l = ground arith

abbrev pub hosting : Phase → Hosted → TestService → Bool → Bool → Hosting
hosting g s t c b = record { phase = g; hosted = s; service = t; called = c; called_back = b }

abbrev pub at_point : Point → Bool → TestService → TestService
at_point p r t = record t { point = p; running = r }

ended_inside : (p : Point) (r : Bool) → has_in_order (left_inside p r) [] ≡ false
ended_inside entered r = refl
ended_inside greeted r = refl
ended_inside (looping i) true = refl
ended_inside (looping i) false = refl
ended_inside returned r = refl

-- Nothing is left at the end, and only there.
pub left-is_finished :
    (w : PureCServiceWorker) (g : Phase) (s : Hosted) (t : TestService) (c b : Bool)
    → Stands w (hosting g s t c b)
    → has_in_order (left (hosting g s t c b)) [] ≡ is_finished g
left-is_finished w idle s t c b k = refl
left-is_finished w starting s t c b k = refl
left-is_finished w started s t c b k = refl
left-is_finished w serving s t c b k = refl
left-is_finished w (inside r) s t c b k = ended_inside t.point t.running
left-is_finished w served s t c b k = refl
left-is_finished w failed s t c b k = absurd k.at_phase
left-is_finished w finished s t c b k = refl
