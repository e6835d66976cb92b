-- ===== src/Laboratory/Route.antt =====
-- api/routers/lab.py and api/client_identity.py: a visitor asks for a fault. Other requests in between
-- are not modelled: the route runs alone.
use aiops_control_lab.Base.{
  ℕ, String, Bool, not, ◌&&◌, ◌==◌, Option, none, some, [], ◌∷◌, Exec, ok, err, pure, raise, ◌>>=◌,
  ◌>>◌, Float, float_lt, http_limited, http_unprocessable, http_bad_gateway, if◌then◌else◌,
}
use aiops_control_lab.Domain.Models.{Time, Signal}
use aiops_control_lab.App.{utc_now}
use aiops_control_lab.RateLimit.{allow}
use aiops_control_lab.Signals.{Signals, EvaluationOutcome, evaluate_signal}
use aiops_control_lab.Laboratory.{FaultScenario, LabObservation, get_fault_scenario}
use aiops_control_lab.Laboratory.Probe.{Probe, observe_failure}
use aiops_control_lab.Laboratory.Injector.{Lab, Injector, in_app, inject, reset}

-- The container, as far as the route uses it: the incident service, the injector and the probe.
pub record LabRoute : Type 0 where
  pub signals : Signals
  pub fault_injector : Option Injector
  pub lab_health_probe : Option Probe

-- `_, EvaluationOutcome` with the entries that the route adds
pub record LabResponse : Type 0 where
  pub outcome : EvaluationOutcome
  pub ground_truth : FaultScenario
  pub observation : LabObservation

abbrev pub host_or_unknown : Option String → String
host_or_unknown none = "unknown"
host_or_unknown (some host) = host

abbrev pub address_or : Option String → String → String
address_or none host = host
address_or (some address) host = address

-- `visitor_identity`, with the stripped `X-Real-IP` header, empty where there is none, the peer's
-- host, and `str(ip_address(candidate))`, `none` for an invalid one
unfoldable pub visitor_identity : (String → Option String) → String → Option String → Bool → String
visitor_identity ip_address candidate client trust_real_ip_header =
    if trust_real_ip_header && not (candidate == "")
    then address_or (ip_address candidate) (host_or_unknown client)
    else host_or_unknown client

-- `container.lab_rate_limiter.allow(visitor_key)`, at a reading of the monotonic clock
unfoldable pub check_limit : String → ℕ → Exec Lab (Unit {0})
check_limit visitor_key now s =
    let (allowed, limiter) = allow visitor_key now s.limiter in
    (if allowed then ok tt else err http_limited, record s { limiter = limiter })

-- `_schedule_reset`, for a target that is not `None`
unfoldable pub schedule : Option String → Exec Lab (Unit {0})
schedule none s = (ok tt, s)
schedule (some target) s = (ok tt, record s { scheduled = target ∷ s.scheduled })

-- `reset_after_timeout` once two minutes are over: an exception is logged and dropped.
unfoldable pub reset_after_timeout : Injector → String → Exec Lab (Unit {0})
unfolding reset
reset_after_timeout i target s = (ok tt, (reset i target s).1)

unfoldable pub observe : Probe → Exec Lab LabObservation
observe p s =
    let (observation, next) = observe_failure p s.probes in
    (ok observation, record s { probes = next })

abbrev pub undo : Injector → Option String → Exec Lab (Unit {0})
undo i none = pure tt
undo i (some target) = reset i target

-- Redis is down, but the API's probe is well: the fault is taken back.
abbrev pub accept : Injector → Option String → LabObservation → Exec Lab LabObservation
accept i target observation =
    if observation.healthy then undo i target >> raise http_bad_gateway else pure observation

abbrev pub confirm :
    Option Probe → Injector → String → Option String → LabObservation → Exec Lab LabObservation
confirm none i scenario target fixture = pure fixture
confirm (some p) i scenario target fixture =
    if scenario == "dependency_unavailable" then observe p >>= accept i target else pure fixture

-- the block under `if container.fault_injector is not None`
unfoldable pub start :
    LabRoute → Option Injector → String → LabObservation → Exec Lab LabObservation
start r none scenario fixture = pure fixture
start r (some i) scenario fixture = do
  target ← inject i scenario
  schedule target
  confirm r.lab_health_probe i scenario target fixture

-- `observation.latency_ms / 1_000`
abbrev pub in_seconds : Signals → Float → Float
in_seconds v latency_ms = v.platform.floats.div latency_ms 0x408f_4000_0000_0000

unfoldable pub observed_value : Signals → String → Float → LabObservation → Float
observed_value v metric_name fallback observation =
    if observation.source == "scenario-fixture"
    then fallback
    else if metric_name == "service_health"
    then if observation.healthy then 0x3ff0_0000_0000_0000 else 0
    else if metric_name == "http_5xx_rate"
    then if observation.healthy then 0 else 0x3ff0_0000_0000_0000
    else if metric_name == "http_request_duration_seconds"
    then in_seconds v observation.latency_ms
    else fallback

abbrev pub fixture_of : FaultScenario → Time → LabObservation
fixture_of scenario now = record {
  source = "scenario-fixture";
  target = scenario.asset_id;
  healthy = float_lt 0 scenario.current_value;
  status_code = 0;
  latency_ms = 0;
  observed_at = now;
}

abbrev pub signal_of : Signals → FaultScenario → LabObservation → Signal
signal_of v scenario observation = record {
  asset_id = scenario.asset_id;
  name = scenario.metric_name;
  value = observed_value v scenario.metric_name scenario.current_value observation;
  occurred_at = observation.observed_at;
  labels = [];
}

-- the route once the scenario is found
unfoldable pub run_scenario : LabRoute → String → Option FaultScenario → Exec Lab LabResponse
unfolding start observed_value
run_scenario r name none = raise http_unprocessable
run_scenario r name (some scenario) = do
  now ← in_app (utc_now r.signals.platform)
  observation ← start r r.fault_injector name (fixture_of scenario now)
  outcome ←
      in_app
        (evaluate_signal r.signals (signal_of r.signals scenario observation) scenario.baseline)
  pure (record { outcome = outcome; ground_truth = scenario; observation = observation })

-- `POST /labs/inject`
unfoldable pub inject_lab_fault : LabRoute → String → ℕ → String → Exec Lab LabResponse
unfolding check_limit run_scenario get_fault_scenario
inject_lab_fault r visitor_key now name =
    check_limit visitor_key now >> run_scenario r name (get_fault_scenario name)
