-- ===== src/Hosting/Stops.antt =====
-- The stops that a hosted service is sent.
use mathlib.Core.Path.{subst}
use svc_hostify.Base.{
  Text, ℕ, ==_refl, ◌≡◌, refl, sym, ap, ◌∙◌, Bool, true, false, some, if◌then◌else◌,
}
use svc_hostify.Effects.{Os, ok, err, undefined}
use svc_hostify.Essence.{Essence}
use svc_hostify.Worker.{pure_c_worker}
use svc_hostify.Worker.PureC.{PureCServiceWorker}
use svc_hostify.Process.{Hosted, set_status, report_status}
use svc_hostify.Process.Reports.{reports}
use svc_hostify.Process.Threads.{accepts_stop}
use svc_hostify.TestService.{Point, entered, greeted, looping, returned, TestService, on_stop}
use svc_hostify.Hosting.{
  Phase, idle, starting, started, serving, inside, served, failed, finished, Hosting, stop_request,
  hear, stop_step, take_step,
}
use svc_hostify.Hosting.Turns.{left, drop_turn, Stands, accepts_stop-stopped, hosting, at_point}
use svc_hostify.Hosting.Calls.{stop_asked, service_ctrl_handler-pure_c}
use svc_hostify.Hosting.Steps.{step, Goes}

module _ (os : Os) (essence : Essence) (to_string : ℕ → Text) (w : PureCServiceWorker) where
  -- The call of `on_stop` is heard.
  unfoldable stop_if : Bool → Hosting → Hosting
  stop_if a h =
      if a
      then record h {
        hosted = stop_asked os essence w h.hosted;
        service = on_stop to_string h.service;
      }
      else h

  step-stop_request :
      (h : Hosting)
      → h.hosted.process.worker ≡ some (pure_c_worker w)
      → step os essence to_string w stop_request h
        ≡ stop_if (accepts_stop (reports h.hosted.world.history)) h
  unfolding take_step stop_step stop_if hear report_status set_status
  step-stop_request h e =
      rw (service_ctrl_handler-pure_c os essence w h.hosted e, ==_refl w.on_stop_function) refl

  record StopGoes (a : Bool) (h : Hosting) : Type 0 where
    drops : left (stop_if a h) ≡ drop_turn stop_request (left h)
    stands : Stands w (stop_if a h)

  StopGoes-inside :
      (p : Point) (r : Bool) (s : Hosted) (t : TestService) (b a : Bool)
      → accepts_stop (reports s.world.history) ≡ a
      → Stands w (hosting (inside (ok tt)) s (at_point p r t) true b)
      → StopGoes a (hosting (inside (ok tt)) s (at_point p r t) true b)
  unfolding stop_if report_status set_status on_stop
  StopGoes-inside entered r s t b true e k = record {
    drops = refl;
    stands = record {
      behind_worker = k.behind_worker;
      at_phase = (refl, refl, refl);
      run_with = k.run_with;
    };
  }
  StopGoes-inside greeted r s t b true e k = record {
    drops = refl;
    stands = record {
      behind_worker = k.behind_worker;
      at_phase = (refl, refl, refl);
      run_with = k.run_with;
    };
  }
  StopGoes-inside (looping i) true s t b true e k = record {
    drops = refl;
    stands = record {
      behind_worker = k.behind_worker;
      at_phase = (refl, refl, refl);
      run_with = k.run_with;
    };
  }
  StopGoes-inside (looping i) false s t b true e k = record {
    drops = refl;
    stands = record {
      behind_worker = k.behind_worker;
      at_phase = (refl, refl, refl);
      run_with = k.run_with;
    };
  }
  StopGoes-inside returned r s t b true e k = record {
    drops = refl;
    stands = record {
      behind_worker = k.behind_worker;
      at_phase = (refl, refl, tt);
      run_with = k.run_with;
    };
  }
  StopGoes-inside entered r s t b false e k = record { drops = refl; stands = k }
  StopGoes-inside greeted r s t b false e k = record { drops = refl; stands = k }
  StopGoes-inside (looping i) true s t b false e k = absurd (cc (e, k.at_phase.2))
  StopGoes-inside (looping i) false s t b false e k = record { drops = refl; stands = k }
  StopGoes-inside returned r s t b false e k = record { drops = refl; stands = k }

  StopGoes-phase :
      (g : Phase) (s : Hosted) (t : TestService) (c b a : Bool)
      → accepts_stop (reports s.world.history) ≡ a
      → Stands w (hosting g s t c b)
      → StopGoes a (hosting g s t c b)
  unfolding stop_if report_status set_status on_stop
  StopGoes-phase idle s t c b true e k = record {
    drops = refl;
    stands = record {
      behind_worker = k.behind_worker;
      at_phase = k.at_phase;
      run_with = k.run_with;
    };
  }
  StopGoes-phase starting s t c b true e k = record {
    drops = refl;
    stands = record {
      behind_worker = k.behind_worker;
      at_phase = k.at_phase;
      run_with = k.run_with;
    };
  }
  StopGoes-phase started s t c b true e k = record {
    drops = refl;
    stands = record {
      behind_worker = k.behind_worker;
      at_phase = k.at_phase;
      run_with = k.run_with;
    };
  }
  StopGoes-phase serving s t c b true e k =
      let (p, q, d) = k.at_phase in
      record {
        drops = refl;
        stands = record {
          behind_worker = k.behind_worker;
          at_phase = (p, q, refl);
          run_with = k.run_with;
        };
      }
  StopGoes-phase served s t c b true e k = record {
    drops = refl;
    stands = record {
      behind_worker = k.behind_worker;
      at_phase = k.at_phase;
      run_with = k.run_with;
    };
  }
  StopGoes-phase finished s t c b true e k = absurd (cc (accepts_stop-stopped _ k.at_phase.1, e))
  StopGoes-phase idle s t c b false e k = record { drops = refl; stands = k }
  StopGoes-phase starting s t c b false e k = record { drops = refl; stands = k }
  StopGoes-phase started s t c b false e k = record { drops = refl; stands = k }
  StopGoes-phase serving s t c b false e k = record { drops = refl; stands = k }
  StopGoes-phase served s t c b false e k = record { drops = refl; stands = k }
  StopGoes-phase finished s t c b false e k = record { drops = refl; stands = k }
  StopGoes-phase (inside (ok u)) s t true b a e k = StopGoes-inside t.point t.running s t b a e k
  StopGoes-phase (inside (ok u)) s t false b a e k = absurd (cc (k.at_phase.1))
  StopGoes-phase (inside (err x)) s t c b a e k = absurd (cc (k.at_phase.0))
  StopGoes-phase (inside undefined) s t c b a e k = absurd (cc (k.at_phase.0))
  StopGoes-phase failed s t c b a e k = absurd k.at_phase

  pub Goes-stop_request : (h : Hosting) → Stands w h → Goes os essence to_string w stop_request h
  Goes-stop_request h k =
      let e = step-stop_request h k.behind_worker in
      let goes = StopGoes-phase h.phase h.hosted h.service h.called h.called_back _ refl k in
      record { drops = ap left e ∙ goes.drops; stands = subst (Stands w) (sym e) goes.stands }
