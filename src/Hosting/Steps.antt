-- ===== src/Hosting/Steps.antt =====
-- The steps of the thread that starts a hosted service, of its `run`, and of the host.
use mathlib.Core.Path.{subst}
use svc_hostify.Base.{
  Text, ℕ, ==_refl, ◌≡◌, refl, sym, ap, ◌∙◌, Bool, true, false, not, ◌&&◌, some, [], ◌∷◌,
  if◌then◌else◌, arith,
}
use svc_hostify.Effects.{Os, ok, err, undefined}
use svc_hostify.Essence.{Essence}
use svc_hostify.Worker.{pure_c_worker}
use svc_hostify.Worker.PureC.{PureCServiceWorker}
use svc_hostify.Process.{
  stop_callback_of, Hosted, set_status, report_status, register_control_handler, begin_start,
  report_running, report_stopped,
}
use svc_hostify.Process.Reports.{reports, view}
use svc_hostify.Process.Views.{Quiet-run_business}
use svc_hostify.Process.Threads.{accepts_stop}
use svc_hostify.TestService.{
  Point, entered, greeted, looping, returned, TestService, greet, set_running, round, advance,
}
use svc_hostify.Hosting.{
  Phase, idle, starting, started, serving, inside, served, failed, finished, Hosting, Party,
  starter, hosted_run, host_callback, hear, start_step, run_step, callback_step, take_step,
}
use svc_hostify.Hosting.Turns.{left_inside, left, drop_turn, Stands, hosting, at_point}
use svc_hostify.Hosting.Calls.{argv_of, start_worker-pure_c, run_called, run_business-pure_c}

module _ (os : Os) (essence : Essence) (to_string : ℕ → Text) (w : PureCServiceWorker) where
  -- A step of a service whose two functions are those that the worker has.
  abbrev pub step : Party → Hosting → Hosting
  step = take_step os essence to_string w.run_function w.on_stop_function

  -- What a step does.
  pub record Goes (p : Party) (h : Hosting) : Type 0 where
    pub drops : left (step p h) ≡ drop_turn p (left h)
    pub stands : Stands w (step p h)

  Goes-starter-inside :
      (p : Point) (r : Bool) (s : Hosted) (t : TestService) (b : Bool)
      → Stands w (hosting (inside (ok tt)) s (at_point p r t) true b)
      → Goes starter (hosting (inside (ok tt)) s (at_point p r t) true b)
  unfolding take_step start_step
  Goes-starter-inside entered r s t b k = record { drops = refl; stands = k }
  Goes-starter-inside greeted r s t b k = record { drops = refl; stands = k }
  Goes-starter-inside (looping i) true s t b k = record { drops = refl; stands = k }
  Goes-starter-inside (looping i) false s t b k = record { drops = refl; stands = k }
  Goes-starter-inside returned r s t b k = record {
    drops = refl;
    stands = record { behind_worker = k.behind_worker; at_phase = refl; run_with = k.run_with };
  }

  -- The call of `run` is heard.
  step-serving :
      (s : Hosted) (t : TestService) (c b : Bool)
      → s.process.worker ≡ some (pure_c_worker w)
      → step starter (hosting serving s t c b)
        ≡ hosting
            (inside (ok tt))
            (run_called os essence w s)
            (record t { args = argv_of w })
            true
            b
  unfolding take_step start_step hear
  step-serving s t c b e = rw (run_business-pure_c os essence w s e, ==_refl w.run_function) refl

  accepts_stop-run_called :
      (s : Hosted)
      → s.process.worker ≡ some (pure_c_worker w)
      → accepts_stop (reports (run_called os essence w s).world.history)
        ≡ accepts_stop (reports s.world.history)
  accepts_stop-run_called s e =
      ap (λ v. accepts_stop v.made)
        (ap (λ p. view p.1) (sym (run_business-pure_c os essence w s e))
          ∙ (Quiet-run_business os essence).apply s)

  Goes-starter-serving :
      (s : Hosted) (t : TestService) (c b : Bool)
      → Stands w (hosting serving s t c b)
      → Goes starter (hosting serving s t c b)
  Goes-starter-serving s t c b k =
      let (p, q, a) = k.at_phase in
      let e = step-serving s t c b k.behind_worker in
      let accepted = accepts_stop-run_called s k.behind_worker ∙ a in
      record {
        drops = ap left e ∙ ap (λ (x : Point). left_inside x t.running) p;
        stands = subst (Stands w) (sym e) (record {
          behind_worker = refl;
          at_phase = (refl, refl, rw p accepted);
          run_with = refl;
        });
      }

  pub Goes-starter :
      (g : Phase) (s : Hosted) (t : TestService) (c b : Bool)
      → Stands w (hosting g s t c b)
      → Goes starter (hosting g s t c b)
  unfolding take_step start_step begin_start report_running report_stopped register_control_handler
      report_status set_status
  Goes-starter idle s t c b k = record {
    drops = refl;
    stands = record {
      behind_worker = k.behind_worker;
      at_phase = k.at_phase;
      run_with = k.run_with;
    };
  }
  Goes-starter starting s t c b k =
      let (e, f) = start_worker-pure_c os essence w s k.behind_worker in
      record {
        drops = rw e refl;
        stands = record { behind_worker = f; at_phase = rw e k.at_phase; run_with = k.run_with };
      }
  Goes-starter started s t c b k =
      let (p, q) = k.at_phase in
      record {
        drops = refl;
        stands = record {
          behind_worker = k.behind_worker;
          at_phase = (p, q, refl);
          run_with = k.run_with;
        };
      }
  Goes-starter serving s t c b k = Goes-starter-serving s t c b k
  Goes-starter (inside (ok u)) s t true b k = Goes-starter-inside t.point t.running s t b k
  Goes-starter (inside (ok u)) s t false b k = absurd (cc (k.at_phase.1))
  Goes-starter (inside (err e)) s t c b k = absurd (cc (k.at_phase.0))
  Goes-starter (inside undefined) s t c b k = absurd (cc (k.at_phase.0))
  Goes-starter served s t c b k = record {
    drops = refl;
    stands = record {
      behind_worker = k.behind_worker;
      at_phase = (k.at_phase, refl);
      run_with = k.run_with;
    };
  }
  Goes-starter failed s t c b k = absurd k.at_phase
  Goes-starter finished s t c b k = record { drops = refl; stands = k }

  Goes-hosted_run-inside :
      (p : Point) (r : Bool) (s : Hosted) (t : TestService) (b : Bool)
      → Stands w (hosting (inside (ok tt)) s (at_point p r t) true b)
      → Goes hosted_run (hosting (inside (ok tt)) s (at_point p r t) true b)
  unfolding take_step run_step advance greet set_running round
  Goes-hosted_run-inside entered r s t b k = record {
    drops = refl;
    stands = record {
      behind_worker = k.behind_worker;
      at_phase = k.at_phase;
      run_with = k.run_with;
    };
  }
  Goes-hosted_run-inside greeted r s t b k = record {
    drops = refl;
    stands = record {
      behind_worker = k.behind_worker;
      at_phase = k.at_phase;
      run_with = k.run_with;
    };
  }
  Goes-hosted_run-inside (looping i) true s t b k = record {
    drops = refl;
    stands = record {
      behind_worker = k.behind_worker;
      at_phase = k.at_phase;
      run_with = k.run_with;
    };
  }
  Goes-hosted_run-inside (looping i) false s t b k = record {
    drops = refl;
    stands = record {
      behind_worker = k.behind_worker;
      at_phase = (refl, refl, tt);
      run_with = k.run_with;
    };
  }
  Goes-hosted_run-inside returned r s t b k = record {
    drops = refl;
    stands = record {
      behind_worker = k.behind_worker;
      at_phase = k.at_phase;
      run_with = k.run_with;
    };
  }

  args-advance : (p : Point) (t : TestService) → (advance to_string p t).args ≡ t.args
  unfolding advance greet set_running round
  args-advance entered t = refl
  args-advance greeted t = refl
  args-advance (looping i) t = ground arith
  args-advance returned t = refl

  pub Goes-hosted_run :
      (g : Phase) (s : Hosted) (t : TestService) (c b : Bool)
      → Stands w (hosting g s t c b)
      → Goes hosted_run (hosting g s t c b)
  unfolding take_step run_step
  Goes-hosted_run idle s t true b k = absurd (cc (k.at_phase.1))
  Goes-hosted_run starting s t true b k = absurd (cc (k.at_phase.1))
  Goes-hosted_run started s t true b k = absurd (cc (k.at_phase.1))
  Goes-hosted_run serving s t true b k = absurd (cc (k.at_phase.1))
  Goes-hosted_run (inside (ok u)) s t true b k = Goes-hosted_run-inside t.point t.running s t b k
  Goes-hosted_run (inside (err e)) s t true b k = absurd (cc (k.at_phase.0))
  Goes-hosted_run (inside undefined) s t true b k = absurd (cc (k.at_phase.0))
  Goes-hosted_run served s t true b k = record {
    drops = refl;
    stands = record {
      behind_worker = k.behind_worker;
      at_phase = refl;
      run_with = args-advance t.point t ∙ k.run_with;
    };
  }
  Goes-hosted_run failed s t true b k = absurd k.at_phase
  Goes-hosted_run finished s t true b k = record {
    drops = refl;
    stands = record {
      behind_worker = k.behind_worker;
      at_phase = k.at_phase;
      run_with = args-advance t.point t ∙ k.run_with;
    };
  }
  Goes-hosted_run idle s t false b k = record { drops = refl; stands = k }
  Goes-hosted_run starting s t false b k = record { drops = refl; stands = k }
  Goes-hosted_run started s t false b k = record { drops = refl; stands = k }
  Goes-hosted_run serving s t false b k = record { drops = refl; stands = k }
  Goes-hosted_run (inside r) s t false b k = absurd (cc (k.at_phase.1))
  Goes-hosted_run served s t false b k = absurd (cc (k.at_phase))
  Goes-hosted_run failed s t false b k = absurd k.at_phase
  Goes-hosted_run finished s t false b k = absurd (cc (k.at_phase.0))

  -- The host's report leaves what holds.
  Goes-host_callback-inside :
      (p : Point) (r : Bool) (s : Hosted) (t : TestService) (b : Bool)
      → Stands w (hosting (inside (ok tt)) s (at_point p r t) true b)
      → Goes host_callback (hosting (inside (ok tt)) s (at_point p r t) true b)
  unfolding take_step callback_step report_stopped report_status set_status
  Goes-host_callback-inside entered r s t b k = record { drops = refl; stands = k }
  Goes-host_callback-inside greeted r s t b k = record { drops = refl; stands = k }
  Goes-host_callback-inside (looping i) true s t b k = record { drops = refl; stands = k }
  Goes-host_callback-inside (looping i) false s t b k = record { drops = refl; stands = k }
  Goes-host_callback-inside returned r s t b k = record {
    drops = ground arith;
    stands = record {
      behind_worker = ground arith;
      at_phase = ground arith;
      run_with = ground arith;
    };
  }

  pub Goes-host_callback :
      (g : Phase) (s : Hosted) (t : TestService) (c b : Bool)
      → Stands w (hosting g s t c b)
      → Goes host_callback (hosting g s t c b)
  unfolding take_step callback_step report_stopped report_status set_status
  Goes-host_callback idle s t c b k = record { drops = refl; stands = k }
  Goes-host_callback starting s t c b k = record { drops = refl; stands = k }
  Goes-host_callback started s t c b k = record { drops = refl; stands = k }
  Goes-host_callback serving s t c b k = record { drops = refl; stands = k }
  Goes-host_callback (inside (ok u)) s t true b k =
      Goes-host_callback-inside t.point t.running s t b k
  Goes-host_callback (inside (ok u)) s t false b k = absurd (cc (k.at_phase.1))
  Goes-host_callback (inside (err e)) s t c b k = absurd (cc (k.at_phase.0))
  Goes-host_callback (inside undefined) s t c b k = absurd (cc (k.at_phase.0))
  Goes-host_callback served s t c b k =
      let (d, e) = reported_by (stop_callback_of s.process.global_data && not b) in
      record { drops = d; stands = e }
    where
      reported_by :
          (a : Bool)
          → let h =
              if a then hosting served (report_stopped s).1 t c true else hosting served s t c b in
            (left h ≡ starter ∷ []) × Stands w h
      reported_by true = (
        refl,
        record { behind_worker = k.behind_worker; at_phase = k.at_phase; run_with = k.run_with },
      )
      reported_by false = (refl, k)
  Goes-host_callback failed s t c b k = absurd k.at_phase
  Goes-host_callback finished s t c b k =
      let (d, e) = reported_by (stop_callback_of s.process.global_data && not b) in
      record { drops = d; stands = e }
    where
      reported_by :
          (a : Bool)
          → let h =
              if a
              then hosting finished (report_stopped s).1 t c true
              else hosting finished s t c b in
            (left h ≡ []) × Stands w h
      reported_by true = (
        refl,
        record {
          behind_worker = k.behind_worker;
          at_phase = (k.at_phase.0, refl);
          run_with = k.run_with;
        },
      )
      reported_by false = (refl, k)
