-- ===== src/Laboratory/Probe.antt =====
-- adapters/lab_health_probe.py: requests to the health endpoint of the laboratory, repeated until the
-- answer is the expected one.
use Prim.Native.String.{◌++◌}
use aiops_control_lab.Base.{
  ℕ, zero, suc, ◌-◌, String, Bool, true, false, not, ◌&&◌, ◌==◌, leb, ltb, Result, ok, err,
  value_error, Float, if◌then◌else◌,
}
use aiops_control_lab.Domain.Models.{Time, Verification}
use aiops_control_lab.Laboratory.{LabObservation}

-- What the n-th request gives: the status, 0 where no answer came, the rounded latency, and the time
-- after it.
pub record Answer : Type 0 where
  pub status_code : ℕ
  pub latency_ms : Float
  pub observed_at : Time

-- `HttpLabHealthProbe`, without the interval and the timeout
pub record Probe : Type 0 where
  pub endpoint : String
  pub attempts : ℕ
  pub answer : ℕ → Answer

-- `HttpLabHealthProbe(lab_api_url, attempts)`, with what `rstrip("/")` makes of the address
unfoldable pub new_probe : (String → String) → (ℕ → Answer) → String → ℕ → Result Probe
new_probe strip_slashes answer lab_api_url attempts =
    if lab_api_url == ""
    then err value_error
    else ok (record {
      endpoint = strip_slashes lab_api_url ++ "/healthz";
      attempts = attempts;
      answer = answer;
    })

abbrev pub is_success : ℕ → Bool
is_success status_code = leb 200 status_code && ltb status_code 400

-- `a is b`
abbrev pub same : Bool → Bool → Bool
same true b = b
same false b = not b

module _ (p : Probe) where
  -- `_probe_once`, as the n-th request
  unfoldable pub probe_once : ℕ → LabObservation
  probe_once n =
      let a = p.answer n in
      record {
        source = "http-health-probe";
        target = p.endpoint;
        healthy = is_success a.status_code;
        status_code = a.status_code;
        latency_ms = a.latency_ms;
        observed_at = a.observed_at;
      }

  -- the loop of `_wait_for`, with the rounds left, the last observation and the next request
  unfoldable pub poll : ℕ → Bool → LabObservation → ℕ → LabObservation × ℕ
  unfolding probe_once
  poll zero expected_healthy last n = (last, n)
  poll (suc rounds) expected_healthy last n = elim (same last.healthy expected_healthy) [
    | true ↦ (last, n)
    | false ↦ poll rounds expected_healthy (probe_once n) (suc n)
  ]

  -- `_wait_for`, from the n-th request on; the number of the next request comes back too.
  unfoldable pub wait_for : Bool → ℕ → LabObservation × ℕ
  unfolding poll
  wait_for expected_healthy n = poll (p.attempts - 1) expected_healthy (probe_once n) (suc n)

  unfoldable pub observe_failure : ℕ → LabObservation × ℕ
  unfolding wait_for
  observe_failure n = wait_for false n

  -- `verify`, with the time in place of its text
  unfoldable pub verify : String → ℕ → Verification × ℕ
  unfolding wait_for
  verify target n =
      let (observation, next) = wait_for true n in
      (
        record {
          source = observation.source;
          target = target;
          probe_target = observation.target;
          healthy = observation.healthy;
          status_code = observation.status_code;
          latency_ms = observation.latency_ms;
          observed_at = observation.observed_at;
        },
        next,
      )
