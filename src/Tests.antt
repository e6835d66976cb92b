-- ===== src/Tests.antt =====
-- The data of the examples: a platform, a service, and a laboratory plan that waits for its approval.
pub mod Approval
pub mod Execution
pub mod Monitoring
pub mod Agents
pub mod Tooling
pub mod Services
pub mod Laboratory
pub mod RootCause
use Prim.Native.String.{◌++◌}
use aiops_control_lab.Base.{
  ℕ, zero, suc, ◌+◌, ◌-◌, ◌*◌, ◌/◌, String, Bool, true, false, not, ◌||◌, ◌==◌, none, some, List,
  [], ◌∷◌, FloatOps, ok,
}
use aiops_control_lab.Domain.Enums.{IncidentStatus, PlanStatus, RiskLevel}
use aiops_control_lab.Domain.Models.{Incident, RemediationStep, RemediationPlan}
use aiops_control_lab.Domain.Json.{Json, Items, Fields, null, text, arr, obj, nil, cons, end, field}
use aiops_control_lab.Domain.Hash.{Digest, content_hash}
use aiops_control_lab.Repository.{Repository, empty}
use aiops_control_lab.App.{App, Platform}
use aiops_control_lab.Remediation.{Service}

unfoldable mutual
  pub print : Json → String
  print null = "null"
  print (text t) = "\"" ++ t ++ "\""
  print (arr xs) = "[" ++ print_items xs ++ "]"
  print (obj fs) = "{" ++ print_fields fs ++ "}"

  pub print_items : Items → String
  print_items nil = ""
  print_items (cons x xs) = print x ++ "," ++ print_items xs

  pub print_fields : Fields → String
  print_fields end = ""
  print_fields (field k v fs) = "\"" ++ k ++ "\":" ++ print v ++ "," ++ print_fields fs

abbrev pub digest : Digest
digest = record { print_json = print; sha256_hex = λ t. "sha256:" ++ t }

abbrev pub digits : ℕ → String
digits zero = "0"
digits (suc n) = "1" ++ digits n

abbrev pub floats : FloatOps
floats = record {
  add = λ x y. x + y;
  sub = λ x y. x - y;
  mul = λ x y. x * y;
  div = λ x y. x / y;
  of_int = λ n. n;
  quotient = λ m n. m / n;
  sum = λ xs. 0;
  two_places = λ x. "0.00";
}

abbrev pub platform : Platform
platform = record {
  uuid = digits;
  clock = λ n. 1_000_000_000 + n;
  digest = digest;
  floats = floats;
}

-- A dispatcher that restarts and checks, and fails at everything else.
abbrev pub service : Service
service = record {
  platform = platform;
  dispatcher = λ log step hash. ok (record {
    succeeded = step.action_type == "restart_container" || step.action_type == "health_check";
    message = "";
  });
  recovery_verifier = none;
  real_actions_mode = "observe_only";
}

abbrev pub restart : RemediationStep
restart = record {
  action_type = "restart_container";
  target = "lab-web";
  arguments = ("grace_seconds", "10") ∷ [];
  expected_result = "running";
  rollback_action = some "start_container";
  rollback_arguments = [];
}

abbrev pub unknown_step : RemediationStep
unknown_step = record restart { action_type = "format_disk"; rollback_action = none }

abbrev pub plan : RemediationPlan
plan = record {
  id = "plan_1";
  incident_id = "inc_1";
  summary = "restart";
  risk = RiskLevel.medium;
  steps = restart ∷ unknown_step ∷ [];
  created_at = 900_000_000;
  expires_at = 2_000_000_000;
  status = PlanStatus.pending_approval;
}

abbrev pub incident : Incident
incident = record {
  id = "inc_1";
  title = "slow";
  asset_id = "lab-web";
  severity = "high";
  status = IncidentStatus.waiting_approval;
  created_at = 900_000_000;
  updated_at = 900_000_000;
  evidence = [];
  hypotheses = [];
}

abbrev pub app : App
app = record {
  repository = record empty { incidents = ("inc_1", incident) ∷ []; plans = ("plan_1", plan) ∷ [] };
  metric_store = record { metrics = []; sequences = [] };
  rule_states = [];
  history = [];
  drawn = 0;
  ticks = 0;
  dispatched = [];
}

abbrev pub plan_hash : String
plan_hash = content_hash digest plan
