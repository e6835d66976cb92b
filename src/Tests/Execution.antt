-- ===== src/Tests/Execution.antt =====
-- The loops over the dispatcher, the gap in the gate, and the life of an incident.
use aiops_control_lab.Base.{
  ◌≡◌, ◌≢◌, refl, inl, arith, eq_iff, String, true, false, none, some, [], ◌∷◌, ok,
}
use aiops_control_lab.Domain.Enums.{IncidentStatus, ActionStatus}
use aiops_control_lab.Domain.Models.{RemediationStep, Incident}
use aiops_control_lab.Domain.Lifecycle.Diagram.{
  Event, Follows, attempt-Follows, after, after-IsClosed,
}
use aiops_control_lab.Policy.{is_real_asset, is_read_only, validate}
use aiops_control_lab.Policy.Gate.{Passes}
use aiops_control_lab.Remediation.{
  Service, Authorized, Progress, run_steps, rollback, carry_out, compensation,
}
use aiops_control_lab.Remediation.Execution.{Ends, run_steps-Ends, RollsBack, rollback-RollsBack}
use aiops_control_lab.Remediation.Gap.{call, compensation_escapes_gate}
use aiops_control_lab.Tests.{service, restart, plan, incident, app, plan_hash}

abbrev start : Progress
start = record { step_outputs = []; completed_steps = []; succeeded = true }

run_steps-Ends_example :
    Ends service plan_hash plan.steps start app (run_steps service plan_hash plan.steps start app)
run_steps-Ends_example = run_steps-Ends service plan_hash plan.steps start app refl

rollback-RollsBack_example :
    RollsBack service plan_hash
      (restart ∷ restart ∷ [])
      app
      (rollback service (restart ∷ restart ∷ []) plan_hash app)
rollback-RollsBack_example = rollback-RollsBack service plan_hash (restart ∷ restart ∷ []) app

-- Two read-only steps on a real host; the first names a compensation that restarts a container.
abbrev inspect : RemediationStep
inspect = record restart {
  action_type = "health_check";
  target = "host/web";
  rollback_action = some "restart_container";
}

abbrev collect : RemediationStep
collect = record restart {
  action_type = "collect_logs";
  target = "host/web";
  rollback_action = none;
}

abbrev gated_service : Service
gated_service = record service { real_actions_mode = "approval_only" }

abbrev authorized : Authorized
authorized = record {
  plan = record plan { steps = inspect ∷ collect ∷ [] };
  incident = record incident { status = IncidentStatus.remediating };
  action_run = record {
    id = "run_1";
    plan_id = "plan_1";
    incident_id = "inc_1";
    idempotency_key = "key";
    approved_hash = plan_hash;
    status = ActionStatus.running;
    created_at = 0;
    started_at = some 0;
    finished_at = none;
    output = none;
  };
}

abbrev gated_mode : String
gated_mode = "approval_only"

not_observing : gated_mode ≢ "observe_only"
not_observing h = ground (arith, eq_iff gated_mode "observe_only", h)

inspect-Passes : Passes "approval_only" inspect
unfolding is_read_only
inspect-Passes r = (not_observing, refl)

collect-Passes : Passes "approval_only" collect
unfolding is_read_only
collect-Passes r = (not_observing, refl)

is_real : is_real_asset "host/web" ≡ true
unfolding is_real_asset
is_real = refl

is_write : is_read_only "restart_container" ≡ false
unfolding is_read_only
is_write = refl

compensation_escapes_gate_example :
    (validate "approval_only" authorized.plan ≡ ok tt)
    × ((carry_out gated_service authorized app).1.dispatched
        ≡ call gated_service plan_hash (compensation inspect)
          ∷ call gated_service plan_hash collect
          ∷ call gated_service plan_hash inspect
          ∷ [])
    × ¬ Passes "approval_only" (compensation inspect)
compensation_escapes_gate_example =
    compensation_escapes_gate gated_service authorized app inspect collect
      (record { succeeded = true; message = "" }) (record { succeeded = false; message = "" }) refl
      inspect-Passes collect-Passes is_real refl is_write refl refl refl refl

attempt-Follows_example : Follows Event.start 1_000 incident
attempt-Follows_example = attempt-Follows Event.start 1_000 incident

abbrev resolved_incident : Incident
resolved_incident = record incident { status = IncidentStatus.resolved }

after-IsClosed_example :
    after resolved_incident ((Event.wait, 5) ∷ (Event.end false, 6) ∷ []) ≡ resolved_incident
after-IsClosed_example =
    after-IsClosed resolved_incident ((Event.wait, 5) ∷ (Event.end false, 6) ∷ []) (inl refl)
