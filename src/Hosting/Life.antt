-- ===== src/Hosting/Life.antt =====
-- When a hosted service ends.
use svc_hostify.Base.{
  Text, ℕ, ◌≡◌, refl, sym, ap, ◌∙◌, Bool, true, false, some, List, [], ◌∷◌, arith,
}
use svc_hostify.Effects.{Os, stopped}
use svc_hostify.Essence.{Essence}
use svc_hostify.Worker.{pure_c_worker}
use svc_hostify.Worker.PureC.{PureCServiceWorker}
use svc_hostify.Process.{Hosted}
use svc_hostify.Process.Reports.{reports}
use svc_hostify.Process.Threads.{state_of_last}
use svc_hostify.TestService.{TestService}
use svc_hostify.Hosting.{
  Phase, idle, starting, started, serving, inside, served, failed, finished, Hosting, Party,
  starter, hosted_run, stop_request, host_callback, hosting_of, take_steps,
}
use svc_hostify.Hosting.Turns.{
  has_in_order, is_finished, whole_life, EndsAs, left, Stands, has_in_order-drop_turn, hosting,
  left-is_finished,
}
use svc_hostify.Hosting.Calls.{argv_of}
use svc_hostify.Hosting.Steps.{Goes, Goes-starter, Goes-hosted_run, Goes-host_callback}
use svc_hostify.Hosting.Stops.{Goes-stop_request}

finished_lem : (g : Phase) → is_finished g ≡ true → g ≡ finished
finished_lem g h = ground arith

module _ (w : PureCServiceWorker) where
  ended :
      (g : Phase) (s : Hosted) (t : TestService) (c b : Bool)
      → Stands w (hosting g s t c b)
      → g ≡ finished
      → (state_of_last (reports s.world.history) ≡ some stopped) × (t.args ≡ argv_of w)
  ended idle s t c b k e = absurd (cc)
  ended starting s t c b k e = absurd (cc)
  ended started s t c b k e = absurd (cc)
  ended serving s t c b k e = absurd (cc)
  ended (inside r) s t c b k e = absurd (cc)
  ended served s t c b k e = absurd (cc)
  ended failed s t c b k e = absurd (cc)
  ended finished s t true b k e = (k.at_phase.1, k.run_with)
  ended finished s t false b k e = absurd (cc (k.at_phase.0))

  EndsAs-is_finished :
      (b : Bool) (h : Hosting) → Stands w h → is_finished h.phase ≡ b → EndsAs (argv_of w) b h
  EndsAs-is_finished true h k e =
      let f = finished_lem h.phase e in
      let (a, b) = ended h.phase h.hosted h.service h.called h.called_back k f in (f, a, b)
  EndsAs-is_finished false h k e = λ f. cc (ap is_finished f, e)

module _ (os : Os) (essence : Essence) (to_string : ℕ → Text) (w : PureCServiceWorker) where
  take_step-Goes : (p : Party) (h : Hosting) → Stands w h → Goes os essence to_string w p h
  take_step-Goes starter h k =
      Goes-starter os essence to_string w h.phase h.hosted h.service h.called h.called_back k
  take_step-Goes hosted_run h k =
      Goes-hosted_run os essence to_string w h.phase h.hosted h.service h.called h.called_back k
  take_step-Goes stop_request h k = Goes-stop_request os essence to_string w h k
  take_step-Goes host_callback h k =
      Goes-host_callback os essence to_string w h.phase h.hosted h.service h.called h.called_back k

  abbrev steps : List Party → Hosting → Hosting
  steps = take_steps os essence to_string w.run_function w.on_stop_function

  take_steps-Stands : (l : List Party) (h : Hosting) → Stands w h → Stands w (steps l h)
  unfolding take_steps
  take_steps-Stands [] h k = k
  take_steps-Stands (p ∷ l) h k = take_steps-Stands l _ (take_step-Goes p h k).stands

  take_steps-left :
      (l : List Party) (h : Hosting)
      → Stands w h
      → is_finished (steps l h).phase ≡ has_in_order (left h) l
  unfolding take_steps
  take_steps-left [] h k =
      sym (left-is_finished w h.phase h.hosted h.service h.called h.called_back k)
  take_steps-left (p ∷ l) h k =
      let goes = take_step-Goes p h k in
      take_steps-left l _ goes.stands
      ∙ (ap (λ k. has_in_order k l) goes.drops ∙ sym (has_in_order-drop_turn (left h) p l))

  -- The sample service behind a pure C worker that calls its two functions ends just where its
  -- schedule has, in this order, the turns in which it is started and its `run` is called, `run` sets
  -- its flag, a stop is sent, `run` returns and the end is reported, whatever the other turns between
  -- them, so a stop that comes before the flag is set ends nothing. Where it has ended, the last
  -- report is that the service has stopped, and `run` was called with the arguments of the
  -- configuration. A stop is handled as soon as it is sent.
  pub take_steps-EndsAs :
      (run_address stop_address : ℕ)
      → w.run_function ≡ run_address
      → w.on_stop_function ≡ stop_address
      → (l : List Party) (s : Hosted) → s.process.worker ≡ some (pure_c_worker w)
      → EndsAs
          (argv_of w)
          (has_in_order whole_life l)
          (take_steps os essence to_string run_address stop_address l (hosting_of s))
  take_steps-EndsAs run_address stop_address runs stops l s e =
      let k : Stands w (hosting_of s) = record {
        behind_worker = e;
        at_phase = (refl, refl);
        run_with = tt;
      } in
      rw⁻¹ (runs, stops)
        (EndsAs-is_finished w _ _ (take_steps-Stands l _ k) (take_steps-left l (hosting_of s) k))
