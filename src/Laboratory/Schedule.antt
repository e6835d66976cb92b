-- ===== src/Laboratory/Schedule.antt =====
-- What the route does with a request: the fault that it starts is due for a reset.
use aiops_control_lab.Base.{
  ◌≡◌, ℕ, String, true, ◌==◌, Option, none, some, ◌∷◌, Has, here, ok, err, Exec, pure, ◌>>=◌,
  http_bad_gateway,
}
use aiops_control_lab.App.{utc_now}
use aiops_control_lab.RateLimit.{allow}
use aiops_control_lab.Signals.{evaluate_signal}
use aiops_control_lab.Laboratory.{FaultScenario, LabObservation, get_fault_scenario}
use aiops_control_lab.Laboratory.Probe.{Probe}
use aiops_control_lab.Laboratory.Injector.{Lab, Injector, in_app, inject}
use aiops_control_lab.Laboratory.Keeping.{
  IsStable, Keeps, bind-Keeps, if-Keeps, pure-Keeps, raise-Keeps, in_app-Keeps, reset-Keeps,
}
use aiops_control_lab.Laboratory.Route.{
  LabRoute, LabResponse, check_limit, schedule, observe, undo, accept, confirm, start, fixture_of,
  signal_of, run_scenario, inject_lab_fault,
}

-- The state once the limiter has counted the request.
abbrev counted : String → ℕ → Lab → Lab
counted key now s = record s { limiter = (allow key now s.limiter).1 }

-- The reset of a target is scheduled.
abbrev pub Due : String → Lab → Type 0
Due target s = Has target s.scheduled

Due-IsStable : (i : Injector) (target : String) → IsStable i (Due target)
Due-IsStable i target = record { on_app = λ s app h. h; on_sent = λ s request r h. h }

module _ (i : Injector) (due : String) where
  undo-Keeps : (target : Option String) → Keeps (Due due) (undo i target)
  undo-Keeps none = pure-Keeps i (Due due) (Due-IsStable i due) tt
  undo-Keeps (some target) = reset-Keeps i (Due due) (Due-IsStable i due) target

  observe-Keeps : (p : Probe) → Keeps (Due due) (observe p)
  unfolding observe
  observe-Keeps p = record { keeps = λ s h. h }

  accept-Keeps : (target : Option String) (o : LabObservation) → Keeps (Due due) (accept i target o)
  accept-Keeps target o =
      if-Keeps i (Due due) stable o.healthy _ _
        (bind-Keeps i (Due due) stable (undo i target) _ (undo-Keeps target)
          (λ u. raise-Keeps i (Due due) stable (err http_bad_gateway)))
        (pure-Keeps i (Due due) stable o)
    where
      stable : IsStable i (Due due)
      stable = Due-IsStable i due

  confirm-Keeps :
      (probe : Option Probe) (name : String) (target : Option String) (fixture : LabObservation)
      → Keeps (Due due) (confirm probe i name target fixture)
  confirm-Keeps none name target fixture = pure-Keeps i (Due due) (Due-IsStable i due) fixture
  confirm-Keeps (some p) name target fixture =
      if-Keeps i (Due due) stable (name == "dependency_unavailable") _ _
        (bind-Keeps i (Due due) stable (observe p) (accept i target) (observe-Keeps p)
          (accept-Keeps target))
        (pure-Keeps i (Due due) stable fixture)
    where
      stable : IsStable i (Due due)
      stable = Due-IsStable i due

-- The state in which the route asks the injector: the limiter has counted and the clock was read.
abbrev pub at_injection : LabRoute → String → ℕ → Lab → Lab
at_injection r key now s = (in_app (utc_now r.signals.platform) (counted key now s)).1

-- what the route does after the injection
abbrev after : LabRoute → Injector → String → FaultScenario → LabObservation → Exec Lab LabResponse
after r i name scenario observation =
    in_app (evaluate_signal r.signals (signal_of r.signals scenario observation) scenario.baseline)
    >>= λ outcome.
        pure (record { outcome = outcome; ground_truth = scenario; observation = observation })

after-Keeps :
    (r : LabRoute) (i : Injector) (name due : String) (scenario : FaultScenario)
    (observation : LabObservation)
    → Keeps (Due due) (after r i name scenario observation)
after-Keeps r i name due scenario observation =
    bind-Keeps i (Due due) (Due-IsStable i due)
      (in_app
        (evaluate_signal r.signals (signal_of r.signals scenario observation) scenario.baseline))
      _ (in_app-Keeps i (Due due) (Due-IsStable i due) _)
      (λ outcome. pure-Keeps i (Due due) (Due-IsStable i due) _)

-- When an admitted request starts a fault of the catalogue, the reset of the fault's target is
-- scheduled when the route ends, whether it returns or raises.
pub inject_lab_fault-Due :
    (r : LabRoute) (i : Injector) (key : String) (now : ℕ) (name : String)
    (scenario : FaultScenario) (target : String) (s t : Lab)
    → r.fault_injector ≡ some i
    → (allow key now s.limiter).0 ≡ true
    → get_fault_scenario name ≡ some scenario
    → inject i name (at_injection r key now s) ≡ (ok (some target), t)
    → Due target (inject_lab_fault r key now name s).1
unfolding inject_lab_fault run_scenario check_limit start schedule utc_now
inject_lab_fault-Due r i key now name scenario target s t has admitted known started =
    rw (admitted, known, has, start)
      (rw started (
        (bind-Keeps i (Due target) (Due-IsStable i target)
            (confirm r.lab_health_probe i name (some target)
              (fixture_of scenario (r.signals.platform.clock s.app.ticks)))
            (after r i name scenario)
            (confirm-Keeps i target r.lab_health_probe name (some target) _)
            (after-Keeps r i name target scenario)).keeps
          (record t { scheduled = target ∷ t.scheduled }) here))
