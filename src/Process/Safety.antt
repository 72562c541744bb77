-- ===== src/Process/Safety.antt =====
-- What holds of the reports of src/service_process.cpp in every order of its threads' steps.
use mathlib.Core.Path.{subst}
use svc_hostify.Base.{
  ℕ, zero, suc, ◌%◌, ◌^◌, ◌≡◌, refl, sym, ap, ◌∙◌, Bool, true, false, ◌||◌, List, [], ◌∷◌,
  if◌then◌else◌, arith, length, All,
}
use svc_hostify.Effects.{
  Os, ServiceState, stopped, start_pending, stop_pending, running, ServiceType, ServiceStatus,
}
use svc_hostify.Essence.{Essence}
use svc_hostify.Process.{Hosted, pending_wait_hint, counts, increment}
use svc_hostify.Process.Reports.{Reporter, view, announce}
use svc_hostify.Process.Views.{
  view-report_stopped, view-report_running, view-begin_start, view-service_ctrl_handler,
  service_ctrl_handler-other, Quiet-start_worker, Quiet-run_business,
}
use svc_hostify.Process.Threads.{
  Stage, idle, starting, started, serving, served, failed, finished, Machine, accepts_stop, Step,
  begins, starts, refuses, announces, serves, breaks, finishes, abandons, sends, stops, ignores,
  calls_back, Reachable, fresh, next,
}

abbrev pub hint_of : ServiceState → ℕ
hint_of state = if counts state then pending_wait_hint else 0

-- The check points of the reports that are counted.
abbrev pub points : List ServiceStatus → List ℕ
points [] = []
points (s ∷ l) = if counts s.current_state then s.check_point ∷ points l else points l

-- `n`, …, 2, 1 as 32-bit numbers.
abbrev pub countdown : ℕ → List ℕ
countdown zero = []
countdown (suc n) = suc n % 2 ^ 32 ∷ countdown n

-- The reports that the documentation of `SERVICE_STATUS` allows: a pending state has a check point
-- and a hint, and a service that is being started accepts no control.
pub data Legal : ServiceStatus → Type 0 where
  legal_start_pending :
      (type : ServiceType) (n : ℕ)
      → Legal (record {
        service_type = type;
        current_state = start_pending;
        controls_accepted = 0;
        check_point = n;
        wait_hint = 10000;
      })
  legal_stop_pending :
      (type : ServiceType) (n : ℕ)
      → Legal (record {
        service_type = type;
        current_state = stop_pending;
        controls_accepted = 1;
        check_point = n;
        wait_hint = 10000;
      })
  legal_running :
      (type : ServiceType)
      → Legal (record {
        service_type = type;
        current_state = running;
        controls_accepted = 1;
        check_point = 0;
        wait_hint = 0;
      })
  legal_stopped :
      (type : ServiceType)
      → Legal (record {
        service_type = type;
        current_state = stopped;
        controls_accepted = 1;
        check_point = 0;
        wait_hint = 0;
      })

-- Every report is legal, and the check points count the pending ones.
pub record Sound (r : Reporter) : Type 0 where
  pub numbered : points r.made ≡ countdown (length (points r.made))
  pub counted : r.count ≡ length (points r.made) % 2 ^ 32
  pub legal : All Legal r.made

increment_lem : (c n : ℕ) → c ≡ n % 2 ^ 32 → increment c ≡ suc n % 2 ^ 32
increment_lem c n h = omega arith

Sound-announce :
    (state : ServiceState) (r : Reporter) → Sound r → Sound (announce state (hint_of state) r)
Sound-announce start_pending r k =
    let e = increment_lem r.count (length (points r.made)) k.counted in
    record {
      numbered =
          ap (λ x. x ∷ points r.made) e
          ∙ ap (λ l. suc (length (points r.made)) % 2 ^ 32 ∷ l) k.numbered;
      counted = e;
      legal = (legal_start_pending _ _, k.legal);
    }
Sound-announce stop_pending r k =
    let e = increment_lem r.count (length (points r.made)) k.counted in
    record {
      numbered =
          ap (λ x. x ∷ points r.made) e
          ∙ ap (λ l. suc (length (points r.made)) % 2 ^ 32 ∷ l) k.numbered;
      counted = e;
      legal = (legal_stop_pending _ _, k.legal);
    }
Sound-announce running r k = record {
  numbered = k.numbered;
  counted = k.counted;
  legal = (legal_running _, k.legal);
}
Sound-announce stopped r k = record {
  numbered = k.numbered;
  counted = k.counted;
  legal = (legal_stopped _, k.legal);
}

abbrev pub is_running : ServiceState → Bool
is_running running = true
is_running _ = false

-- Whether `SERVICE_RUNNING` was ever reported.
abbrev pub has_run : List ServiceStatus → Bool
has_run [] = false
has_run (s ∷ l) = is_running s.current_state || has_run l

abbrev pub in_service : Stage → Bool
in_service serving = true
in_service served = true
in_service _ = false

-- A stop is only accepted, and only sent, once the service has run.
pub record Guarded (g : Stage) (q : Bool) (r : Reporter) : Type 0 where
  pub accepted : accepts_stop r.made ≡ true → has_run r.made ≡ true
  pub served_by : in_service g ≡ true → has_run r.made ≡ true
  pub sent_by : q ≡ true → has_run r.made ≡ true

pub record Holds (m : Machine) : Type 0 where
  pub sound : Sound (view m.hosted)
  pub guarded : Guarded m.stage m.sent (view m.hosted)

abbrev at : Stage → Hosted → Bool → Machine
at g s q = record { stage = g; hosted = s; sent = q }

-- The view of the next state, for a step that reports nothing.
Holds-quiet :
    (g h : Stage) (q : Bool) (s t : Hosted)
    → view t ≡ view s
    → (in_service h ≡ true → in_service g ≡ true)
    → Holds (at g s q)
    → Holds (at h t q)
Holds-quiet g h q s t e later k = record {
  sound = subst Sound (sym e) k.sound;
  guarded = subst (Guarded h q) (sym e) (record {
    accepted = k.guarded.accepted;
    served_by = λ d. k.guarded.served_by (later d);
    sent_by = k.guarded.sent_by;
  });
}

-- A report, that keeps the stop guarded.
Holds-report :
    (g h : Stage) (p q : Bool) (s t : Hosted) (state : ServiceState)
    → view t ≡ announce state (hint_of state) (view s)
    → Guarded h q (announce state (hint_of state) (view s))
    → Holds (at g s p)
    → Holds (at h t q)
Holds-report g h p q s t state e guard k = record {
  sound = subst Sound (sym e) (Sound-announce state (view s) k.sound);
  guarded = subst (Guarded h q) (sym e) guard;
}

module _ (os : Os) (essence : Essence) where
  Holds-Step : (m n : Machine) → Step os essence m n → Holds m → Holds n
  Holds-Step _ _ (begins q s) k =
      Holds-report idle starting q q s _ start_pending (view-begin_start os essence s)
        (record {
          accepted = λ h. ground arith;
          served_by = λ h. ground arith;
          sent_by = k.guarded.sent_by;
        })
        k
  Holds-Step _ _ (starts q s t e) k =
      Holds-quiet starting started q s t
        (ap (λ p. view p.1) (sym e) ∙ (Quiet-start_worker os essence).apply s) (λ h. ground arith) k
  Holds-Step _ _ (refuses q s t x e) k =
      Holds-quiet starting failed q s t
        (ap (λ p. view p.1) (sym e) ∙ (Quiet-start_worker os essence).apply s) (λ h. ground arith) k
  Holds-Step _ _ (announces q s) k =
      Holds-report started serving q q s _ running (view-report_running os essence s)
        (record { accepted = λ h. refl; served_by = λ h. refl; sent_by = λ h. refl }) k
  Holds-Step _ _ (serves q s t e) k =
      Holds-quiet serving served q s t
        (ap (λ p. view p.1) (sym e) ∙ (Quiet-run_business os essence).apply s) (λ h. refl) k
  Holds-Step _ _ (breaks q s t x e) k =
      Holds-quiet serving failed q s t
        (ap (λ p. view p.1) (sym e) ∙ (Quiet-run_business os essence).apply s) (λ h. refl) k
  Holds-Step _ _ (finishes q s) k =
      Holds-report served finished q q s _ stopped (view-report_stopped s)
        (record {
          accepted = λ h. ground arith;
          served_by = λ h. ground arith;
          sent_by = k.guarded.sent_by;
        })
        k
  Holds-Step _ _ (abandons q s) k =
      Holds-report failed finished q q s _ stopped (view-report_stopped s)
        (record {
          accepted = λ h. ground arith;
          served_by = λ h. ground arith;
          sent_by = k.guarded.sent_by;
        })
        k
  Holds-Step _ _ (sends g s a) k = record {
    sound = k.sound;
    guarded = record {
      accepted = k.guarded.accepted;
      served_by = k.guarded.served_by;
      sent_by = λ h. k.guarded.accepted a;
    };
  }
  Holds-Step _ _ (stops g s) k =
      Holds-report g g true false s _ stop_pending (view-service_ctrl_handler os essence s)
        (record {
          accepted = λ h. k.guarded.sent_by refl;
          served_by = k.guarded.served_by;
          sent_by = λ h. k.guarded.sent_by refl;
        })
        k
  Holds-Step _ _ (ignores q g s c ne) k =
      Holds-quiet g g q s _ (ap (λ p. view p.1) (service_ctrl_handler-other os essence c s ne))
        (λ h. h) k
  Holds-Step _ _ (calls_back q g s e) k =
      Holds-report g g q q s _ stopped (view-report_stopped s)
        (record {
          accepted = λ h. ground arith;
          served_by = k.guarded.served_by;
          sent_by = k.guarded.sent_by;
        })
        k

  Reachable-Holds : (m : Machine) → Reachable os essence m → Holds m
  Reachable-Holds _ (fresh s none_made none_counted) = record {
    sound = record {
      numbered = rw none_made refl;
      counted = rw (none_made, none_counted) refl;
      legal = rw none_made tt;
    };
    guarded = record {
      accepted = λ h. ground arith;
      served_by = λ h. ground arith;
      sent_by = λ h. cc;
    };
  }
  Reachable-Holds _ (next m n r step) = Holds-Step m n step (Reachable-Holds m r)

  -- In every order of the threads' steps, each report is one that the documentation of
  -- `SERVICE_STATUS` allows for its state, and the check points of the pending reports are 1, 2, …
  -- in the order of the reports, as 32-bit numbers.
  pub Reachable-Sound : (m : Machine) → Reachable os essence m → Sound (view m.hosted)
  Reachable-Sound m r = (Reachable-Holds m r).sound
