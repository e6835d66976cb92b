-- ===== src/Tests/Laboratory.antt =====
-- Signed tasks, and visitors who start faults.
use aiops_control_lab.Base.{
  ◌≡◌, refl, arith, ◌≤◌, ◌+◌, suc, ltb, ◌⊎◌, String, true, false, some, [], ◌∷◌, lookup, All, ok,
  err, value_error, if◌then◌else◌,
}
use Prim.Native.String.{◌++◌}
use aiops_control_lab.Domain.Json.{dict_fields, sort_keys}
use aiops_control_lab.Signing.{
  Payload, Hmac, text, mapping, sign_task_payload, canonical_message, arguments_json,
  required_string_fields,
}
use aiops_control_lab.Signing.Verified.{is_ready, IsSigned, sign_task_payload_cases}
use aiops_control_lab.Signing.Binding.{
  IsDistinct, field_text, name_text, arguments_of, canonical_message_binding,
}
use aiops_control_lab.RateLimit.{allow}
use aiops_control_lab.Signals.{Signals}
use aiops_control_lab.Laboratory.{get_fault_scenario, http_5xx}
use aiops_control_lab.Laboratory.Probe.{Probe, probe_once, wait_for}
use aiops_control_lab.Laboratory.Patience.{wait_for_finds}
use aiops_control_lab.Laboratory.Injector.{Lab, Injector, set_fault, inject}
use aiops_control_lab.Laboratory.Keeping.{Registered}
use aiops_control_lab.Laboratory.Registered.{injects, resets, serve, serve-Registered}
use aiops_control_lab.Laboratory.Route.{LabRoute, inject_lab_fault}
use aiops_control_lab.Laboratory.Schedule.{Due, at_injection, inject_lab_fault-Due}
use aiops_control_lab.Tests.{digest, digits, platform, app}

abbrev hmac : Hmac
hmac secret message = secret ++ ("|" ++ message)

abbrev payload : Payload
payload =
    ("id", text "agent_job_1")
    ∷ ("idempotency_key", text "h:restart_container:lab-api")
    ∷ ("approved_hash", text "h")
    ∷ ("action_type", text "restart_container")
    ∷ ("target", text "lab-api")
    ∷ ("arguments", mapping (("a", "1") ∷ ("b", "2") ∷ []))
    ∷ ("expires_at", text "2026-01-01T00:00:00Z")
    ∷ []

sign_task_payload_cases_example :
    ((is_ready "secret" "n1" payload ≡ true)
      × (signed : Payload) × (sign_task_payload digest hmac "n1" payload "secret" ≡ ok signed)
      × IsSigned digest hmac "n1" payload "secret" signed)
    ⊎ ((is_ready "secret" "n1" payload ≡ false)
        × (sign_task_payload digest hmac "n1" payload "secret" ≡ err value_error))
sign_task_payload_cases_example = sign_task_payload_cases digest hmac "n1" payload "secret"

-- The same task with a nonce, its arguments in either order.
abbrev task_a : Payload
task_a = ("nonce", text "n1") ∷ payload

abbrev task_b : Payload
task_b = ("nonce", text "n1") ∷ ("arguments", mapping (("b", "2") ∷ ("a", "1") ∷ [])) ∷ payload

IsDistinct-text : (t : String) → IsDistinct digest t t
IsDistinct-text t = record { same_length = refl; no_collision = λ h. refl }

abbrev message : String
message = elim (canonical_message digest task_a) [ ok m ↦ m | err e ↦ "" ]

arguments-IsDistinct :
    IsDistinct digest
      (arguments_json digest (arguments_of (lookup "arguments" task_a)))
      (arguments_json digest (arguments_of (lookup "arguments" task_b)))
unfolding lookup arguments_of dict_fields sort_keys
arguments-IsDistinct = IsDistinct-text (arguments_json digest (("a", "1") ∷ ("b", "2") ∷ []))

one_message :
    (canonical_message digest task_a ≡ ok message) × (canonical_message digest task_b ≡ ok message)
unfolding canonical_message lookup dict_fields sort_keys
one_message = (refl, refl)

All-IsDistinct :
    All
      (λ name. IsDistinct digest (name_text task_a name) (name_text task_b name))
      required_string_fields
unfolding lookup field_text
All-IsDistinct = (
  IsDistinct-text "agent_job_1",
  (
    IsDistinct-text "h:restart_container:lab-api",
    (
      IsDistinct-text "h",
      (
        IsDistinct-text "restart_container",
        (
          IsDistinct-text "lab-api",
          (IsDistinct-text "2026-01-01T00:00:00Z", (IsDistinct-text "n1", tt)),
        ),
      ),
    ),
  ),
)

canonical_message_binding_example :
    All (λ name. lookup name task_a ≡ lookup name task_b) required_string_fields
    × (arguments_json digest (arguments_of (lookup "arguments" task_a))
        ≡ arguments_json digest (arguments_of (lookup "arguments" task_b)))
canonical_message_binding_example =
    canonical_message_binding digest task_a task_b message one_message.0 one_message.1
      All-IsDistinct arguments-IsDistinct

abbrev injector : Injector
injector = record {
  platform = platform;
  shared_secret = "secret";
  hmac = hmac;
  token_hex = digits;
  iso_seconds = digits;
  answer = λ sent request. ok true;
}

abbrev lab : Lab
lab = record {
  app = app;
  limiter = record { limit = 3; window = 60; requests = [] };
  sent = [];
  scheduled = [];
  probes = 0;
}

serve-Registered_example :
    All
      (Registered injector)
      (serve injector
        (injects "dependency_unavailable"
          ∷ resets "container:lab-redis"
          ∷ injects "http_5xx"
          ∷ resets "container:host"
          ∷ [])
        lab).sent
serve-Registered_example =
    serve-Registered injector
      (injects "dependency_unavailable"
        ∷ resets "container:lab-redis"
        ∷ injects "http_5xx"
        ∷ resets "container:host"
        ∷ [])
      lab tt

-- The API answers with 503 from the third request on.
abbrev probe : Probe
probe = record {
  endpoint = "http://lab-api:8080/healthz";
  attempts = 10;
  answer =
      λ n. record { status_code = if ltb n 2 then 200 else 503; latency_ms = 0; observed_at = n };
}

third_fails : (probe_once probe (0 + 2)).healthy ≡ false
unfolding probe_once
third_fails = refl

wait_for_finds_example :
    ((wait_for probe false 0).0.healthy ≡ false) × ((wait_for probe false 0).1 ≤ suc (0 + 2))
wait_for_finds_example = wait_for_finds probe false 0 2 (omega arith) third_fails

abbrev signals : Signals
signals = record {
  platform = platform;
  detect =
      λ history value. ok (record { anomalous = true; score = 0x4020_0000_0000_0000; reason = "" });
  correlates = true;
  knows_changes = true;
  topology_edges = [];
  real_actions_mode = "observe_only";
}

abbrev route : LabRoute
route = record { signals = signals; fault_injector = some injector; lab_health_probe = some probe }

admitted : (allow "10.0.0.1" 7 lab.limiter).0 ≡ true
unfolding allow lookup
admitted = refl

registered : get_fault_scenario "http_5xx" ≡ some http_5xx
unfolding get_fault_scenario
registered = refl

abbrev failing : Lab
failing = record (at_injection route "10.0.0.1" 7 lab) { sent = set_fault "http_5xx" 120 ∷ [] }

errors_start :
    inject injector "http_5xx" (at_injection route "10.0.0.1" 7 lab)
    ≡ (ok (some "application:http_5xx"), failing)
unfolding inject lookup
errors_start = refl

inject_lab_fault-Due_example :
    Due "application:http_5xx" (inject_lab_fault route "10.0.0.1" 7 "http_5xx" lab).1
inject_lab_fault-Due_example =
    inject_lab_fault-Due route injector "10.0.0.1" 7 "http_5xx" http_5xx "application:http_5xx" lab
      failing refl admitted registered errors_start
