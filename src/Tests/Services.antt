-- ===== src/Tests/Services.antt =====
-- Evidence for an incident, an agent's connection, a diagnosis, a task for an agent and the console.
use aiops_control_lab.Base.{
  ◌≡◌, refl, ◌==◌, true, some, none, List, [], ◌∷◌, map, ok, err, external_source, lookup, insert,
}
use Prim.Native.String.{◌++◌}
use aiops_control_lab.Domain.Json.{dict_fields, sort_keys}
use aiops_control_lab.App.{later}
use aiops_control_lab.Signing.{Payload, sign_task_payload}
use aiops_control_lab.Evidence.{Moment, Evidence, attach_metric_evidence, attach_log_evidence}
use aiops_control_lab.Evidence.Complete.{Whole, attach_evidence-Whole}
use aiops_control_lab.Stream.{Frame, hello, telemetry, blank, Peer, serve_frames}
use aiops_control_lab.Stream.Bound.{Bound, serve_frames-Bound}
use aiops_control_lab.Texts.{joined_by}
use aiops_control_lab.Diagnosis.Retrieval.{RetrievalHit}
use aiops_control_lab.Diagnosis.{
  GeneratedDiagnosis, DiagnosticAnswer, Assistant, diagnose_by_rules, diagnose,
}
use aiops_control_lab.Diagnosis.Fallback.{Answers, diagnose-Answers}
use aiops_control_lab.Dispatch.{Link, Draw, answered, signed_task}
use aiops_control_lab.Dispatch.Tasks.{IsTask, signed_task-IsTask}
use aiops_control_lab.Tests.{digest, digits, platform, restart, app}

abbrev evidence : Evidence
evidence = record {
  platform = platform;
  metric_query =
      some (λ query from to step. ok (0x3ff0_0000_0000_0000 ∷ 0x4024_0000_0000_0000 ∷ []));
  log_query = none;
  is_blank = λ t. t == "";
  decimal = digits;
  four_digits = digits;
}

abbrev from_ten : Moment
from_ten = record { time = 10_000_000; aware = true }

abbrev to_twenty : Moment
to_twenty = record { time = 20_000_000; aware = true }

attach_evidence-Whole_example :
    Whole evidence "inc_1" "up" from_ten to_twenty app
      (attach_metric_evidence evidence "inc_1" "up" from_ten to_twenty 15 app)
    × Whole evidence "inc_1" "up" from_ten to_twenty app
        (attach_log_evidence evidence "inc_1" "up" from_ten to_twenty 15 app)
attach_evidence-Whole_example =
    attach_evidence-Whole evidence "inc_1" "up" from_ten to_twenty 15 app

abbrev peer : Peer
peer = record {
  platform = platform;
  allowed_identities = ("web", "agent-web") ∷ [];
  certificate_identity = "agent-web";
  from_unix_ms = λ t. ok t;
}

abbrev frames : List Frame
frames =
    hello "web" "1.0" "boot_1"
    ∷ telemetry (record {
      sequence = 1;
      collected_unix_ms = 5;
      metrics =
          record {
            name = "aiops_host_load1";
            value = 0x3ff0_0000_0000_0000;
            labels = [];
            collected_unix_ms = 5;
          }
          ∷ [];
      assets = [];
      topology = [];
    })
    ∷ blank
    ∷ hello "db" "1.0" "boot_2"
    ∷ []

serve_frames-Bound_example :
    Bound peer app
      (serve_frames peer frames (record { app = app; node = none; acknowledged = [] })).1
serve_frames-Bound_example = serve_frames-Bound peer frames app

-- The language model is on and fails.
abbrev assistant : Assistant
assistant = record {
  search = λ question. ok [];
  primary_model = λ question context. err external_source;
  fallback_model =
      λ question context. ok (diagnose_by_rules (λ word t. word == "cpu") question context);
  primary_enabled = true;
  first_2000 = λ t. t;
}

abbrev by_rules : GeneratedDiagnosis
by_rules = diagnose_by_rules (λ word t. word == "cpu") "why" (joined_by "\n" ("cpu 98" ∷ []))

diagnose-Answers_example :
    (out : DiagnosticAnswer) × (diagnose assistant "why" ("cpu 98" ∷ []) ≡ ok out)
    × (out.citations ≡ map (λ (hit : RetrievalHit). hit.citation) [])
    × Answers assistant "why" ("cpu 98" ∷ []) [] out
diagnose-Answers_example = diagnose-Answers assistant "why" ("cpu 98" ∷ []) [] by_rules refl refl

abbrev link : Link
link = record {
  shared_secret = "secret";
  digest = digest;
  hmac = λ secret message. secret ++ ("|" ++ message);
  iso_seconds = λ t. "soon";
  post = λ payload. ok (answered true "");
}

abbrev draw : Draw
draw = record { now = 1_000_500_000; id = "agent_job_1"; token = "n1" }

abbrev sent : Payload
sent = elim (signed_task link draw restart "h") [ ok task ↦ task | err e ↦ [] ]

is_sent : signed_task link draw restart "h" ≡ ok sent
unfolding signed_task later sign_task_payload lookup insert dict_fields sort_keys
is_sent = refl

signed_task-IsTask_example : IsTask link draw restart "h" sent
signed_task-IsTask_example = signed_task-IsTask link draw restart "h" sent is_sent
