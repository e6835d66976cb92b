-- ===== src/Laboratory/Injector.antt =====
-- adapters/http_lab_fault_injector.py: the requests by which faults start and end. What the agent and
-- the laboratory answer is a parameter.
use Prim.Native.String.{◌++◌, slice, len}
use aiops_control_lab.Base.{
  ℕ, ◌*◌, ◌/◌, String, Bool, not, ◌||◌, ◌==◌, starts_with, Option, none, some, List, [], ◌∷◌, Dict,
  lookup, contains, values, Exec, Result, ok, err, pure, raise, lift, ◌>>=◌, ◌>>◌, runtime_error,
  value_error, if◌then◌else◌,
}
use aiops_control_lab.Domain.Models.{Time}
use aiops_control_lab.App.{App, Platform, new_id, utc_now, later, seconds}
use aiops_control_lab.RateLimit.{Limiter}
use aiops_control_lab.Signing.{Payload, Hmac, text, mapping, sign_task_payload}

-- A request that was sent: a signed task to the agent, or a fault of the application to set for a
-- number of seconds or to clear.
pub data Request : Type 0 where
  task : Payload → Request
  set_fault : String → ℕ → Request
  clear_fault : String → Request

-- The state of the process and, in the laboratory, the limit on visitors, the requests so far, the
-- last one first, the targets whose reset is scheduled, and how many requests the health probe sent.
pub record Lab : Type 0 where
  pub app : App
  pub limiter : Limiter
  pub sent : List Request
  pub scheduled : List String
  pub probes : ℕ

-- `HttpLabFaultInjector`. `token_hex` is the random text that is drawn after as many identifiers,
-- `iso_seconds` prints a time of whole seconds with the suffix Z, and `answer` says whether a request
-- succeeded, or which exception it raised, given the requests before it.
pub record Injector : Type 0 where
  pub platform : Platform
  pub shared_secret : String
  pub hmac : Hmac
  pub token_hex : ℕ → String
  pub iso_seconds : Time → String
  pub answer : List Request → Request → Result Bool

-- the checks of `HttpLabFaultInjector.__init__`
unfoldable pub check_settings : String → String → String → Result (Unit {0})
check_settings shared_secret lab_api_url lab_control_token =
    if shared_secret == ""
    then err value_error
    else if lab_api_url == "" || lab_control_token == ""
    then err value_error
    else ok tt

abbrev pub container_scenarios : Dict String
container_scenarios =
    ("dependency_unavailable", "lab-redis") ∷ ("api_container_exit", "lab-api") ∷ []

abbrev pub application_scenarios : List String
application_scenarios = "container_cpu_spike" ∷ "request_latency" ∷ "http_5xx" ∷ []

-- A call of a service that the laboratory shares with the rest of the process.
abbrev pub in_app : {A : Type 0} → Exec App A → Exec Lab A
in_app m s = let (r, app) = m s.app in (r, record s { app = app })

-- `target.removeprefix(prefix)`, where the text starts with the prefix
abbrev pub without : String → String → String
without prefix target = slice target (len prefix) (len target)

-- `30 if scenario == "container_cpu_spike" else 120`
abbrev pub duration_of : String → ℕ
duration_of scenario = if scenario == "container_cpu_spike" then 30 else 120

module _ (i : Injector) where
  -- `urlopen(request)`
  unfoldable pub ask : Request → Exec Lab Bool
  ask request s = (i.answer s.sent request, record s { sent = request ∷ s.sent })

  abbrev pub unsigned_payload : String → String → String → String → Time → Payload
  unsigned_payload id action_type target idempotency_key expires_at =
      ("id", text id)
      ∷ ("idempotency_key", text idempotency_key)
      ∷ (
        "approved_hash",
        text (i.platform.digest.sha256_hex ("lab-fault:" ++ (action_type ++ (":" ++ target)))),
      )
      ∷ ("action_type", text action_type)
      ∷ ("target", text target)
      ∷ ("arguments", mapping (("grace_seconds", "2") ∷ []))
      ∷ ("expires_at", text (i.iso_seconds (expires_at / 1_000_000 * 1_000_000)))
      ∷ []

  -- `sign_task_payload(unsigned_payload, self._shared_secret)`
  unfoldable pub sign : Payload → Exec Lab Payload
  sign unsigned s = (
    sign_task_payload i.platform.digest i.hmac (i.token_hex s.app.drawn) unsigned i.shared_secret,
    s,
  )

  -- `_send`
  unfoldable pub send : String → String → String → Exec Lab Bool
  unfolding sign ask
  send action_type target idempotency_key = do
    now ← in_app (utc_now i.platform)
    expires_at ← lift (later now (seconds 60))
    id ← in_app (new_id i.platform "fault_job")
    payload ← sign (unsigned_payload id action_type target idempotency_key expires_at)
    ask (task payload)

  -- `_set_application_fault` and `_clear_application_fault`
  unfoldable pub set_application_fault : String → ℕ → Exec Lab Bool
  unfolding ask
  set_application_fault scenario duration_seconds = ask (set_fault scenario duration_seconds)

  unfoldable pub clear_application_fault : String → Exec Lab Bool
  unfolding ask
  clear_application_fault scenario = ask (clear_fault scenario)

  unfoldable pub stop_container : String → Exec Lab (Option String)
  unfolding send
  stop_container target = do
    fault ← in_app (new_id i.platform "fault")
    succeeded ← send "stop_container" target ("inject:" ++ fault)
    if not succeeded then raise runtime_error else pure (some ("container:" ++ target))

  unfoldable pub start_fault : String → Exec Lab (Option String)
  unfolding set_application_fault
  start_fault scenario =
      set_application_fault scenario (duration_of scenario)
      >> pure (some ("application:" ++ scenario))

  unfoldable pub inject : String → Exec Lab (Option String)
  unfolding stop_container start_fault
  inject scenario = elim (lookup scenario container_scenarios) [
    | some target ↦ stop_container target
    | none ↦ if contains scenario application_scenarios then start_fault scenario else pure none
  ]

  -- the end of `reset`, where the name of the container is registered
  unfoldable pub recover_container : String → Exec Lab (Unit {0})
  unfolding send
  recover_container target = do
    check ← in_app (new_id i.platform "fault")
    healthy ← send "health_check" target ("reset-check:" ++ check)
    if healthy
        then pure tt
        else in_app (new_id i.platform "fault") >>= λ fault.
            send "restart_container" target ("reset:" ++ fault) >> pure tt

  unfoldable pub reset : String → Exec Lab (Unit {0})
  unfolding recover_container clear_application_fault
  reset target =
      if starts_with target "application:"
      then if not (contains (without "application:" target) application_scenarios)
        then raise value_error
        else clear_application_fault (without "application:" target) >> pure tt
      else if not (starts_with target "container:")
      then raise value_error
      else if not (contains (without "container:" target) (values container_scenarios))
      then raise value_error
      else recover_container (without "container:" target)
