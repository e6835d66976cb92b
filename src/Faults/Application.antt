-- ===== src/Faults/Application.antt =====
-- lab/app/main.py: the service of the laboratory that the faults are injected into. Every reading of
-- the monotonic clock is an argument of the handler that takes it.
use aiops_control_lab.Base.{
  ℕ, suc, ◌+◌, String, Bool, true, false, not, ◌==◌, Option, none, some, [], ◌∷◌, Dict, Exec,
  Result, ok, err, pure, raise, raise_if, ◌>>=◌, ◌>>◌, http_unavailable, http_unauthorized,
  http_unprocessable, http_not_found, if◌then◌else◌,
}
use aiops_control_lab.App.{seconds}
use aiops_control_lab.Faults.{FaultState, is_supported, out_of_range, activate, clear, active}

-- What `ping` in the pool gives: an answer, no answer in time, or a `RedisError`.
pub data Ping : Type 0 where
  answered timed_out redis_error : Ping

-- The token of the environment, `hmac.compare_digest`, and what Redis gives for the n-th request of
-- this process: to `ping`, and to `incr`, where `none` is a `RedisError`.
pub record LabService : Type 0 where
  pub control_token : String
  pub compare_digest : String → String → Result Bool
  pub ping : ℕ → Ping
  pub incr : ℕ → Option ℕ

-- The process: the faults, how often Redis was asked, and for how long requests have slept.
pub record Process : Type 0 where
  pub faults : FaultState
  pub asked : ℕ
  pub slept : ℕ

unfoldable pub fault_active : String → ℕ → Exec Process Bool
fault_active scenario now s =
    let (on, faults) = active scenario now s.faults in (ok on, record s { faults = faults })

-- `sleep(2.0)` where the fault is active
abbrev pub delay : Bool → Exec Process (Unit {0})
delay true s = (ok tt, record s { slept = s.slept + seconds 2 })
delay false s = (ok tt, s)

-- `_apply_request_faults`, with the readings of the clock at the two tests
unfoldable pub apply_request_faults : ℕ → ℕ → Exec Process (Unit {0})
unfolding fault_active
apply_request_faults first later = do
  late ← fault_active "request_latency" first
  delay late
  broken ← fault_active "http_5xx" later
  raise_if broken http_unavailable

abbrev pub ask_redis : {A : Type 0} → (ℕ → Result A) → Exec Process A
ask_redis answer s = (answer s.asked, record s { asked = suc s.asked })

abbrev pub read_ping : Ping → Result (Dict String)
read_ping answered =
    ok (("status", "ok") ∷ ("service", "lab-api") ∷ ("dependency", "lab-redis") ∷ [])
read_ping timed_out = err http_unavailable
read_ping redis_error = err http_unavailable

abbrev pub read_count : Option ℕ → Result ℕ
read_count (some value) = ok value
read_count none = err http_unavailable

-- `fault_state.activate`, at a reading of the clock
unfoldable pub run_activate : String → ℕ → ℕ → Exec Process ℕ
run_activate scenario duration_seconds now s =
    let (deadline, faults) = activate scenario duration_seconds now s.faults in
    (deadline, record s { faults = faults })

unfoldable pub run_clear : String → Exec Process (Unit {0})
run_clear scenario s = (ok tt, record s { faults = clear scenario s.faults })

abbrev pub check_equal : Result Bool → Exec Process (Unit {0})
check_equal (ok true) = pure tt
check_equal (ok false) = raise http_unauthorized
check_equal (err e) = raise e

module _ (v : LabService) where
  -- `_require_control_token`
  unfoldable pub require_control_token : String → Exec Process (Unit {0})
  require_control_token provided_token s =
      if v.control_token == ""
      then (err http_unavailable, s)
      else check_equal (v.compare_digest provided_token v.control_token) s

  -- `GET /healthz`
  unfoldable pub healthz : ℕ → ℕ → Exec Process (Dict String)
  unfolding apply_request_faults
  healthz first later = apply_request_faults first later >> ask_redis (λ n. read_ping (v.ping n))

  -- `GET /work`
  unfoldable pub work : ℕ → ℕ → Exec Process ℕ
  unfolding apply_request_faults
  work first later = apply_request_faults first later >> ask_redis (λ n. read_count (v.incr n))

  -- `PUT /__control/faults/{scenario}`, which returns the scenario and the duration
  unfoldable pub activate_fault : String → String → ℕ → ℕ → Exec Process (String × ℕ)
  unfolding require_control_token run_activate
  activate_fault token scenario duration_seconds now = do
    raise_if (out_of_range duration_seconds) http_unprocessable
    require_control_token token
    raise_if (not (is_supported scenario)) http_not_found
    run_activate scenario duration_seconds now
    pure (scenario, duration_seconds)

  -- `DELETE /__control/faults/{scenario}`, which returns the scenario
  unfoldable pub clear_fault : String → String → Exec Process String
  unfolding require_control_token run_clear
  clear_fault token scenario = do
    require_control_token token
    raise_if (not (is_supported scenario)) http_not_found
    run_clear scenario
    pure scenario
