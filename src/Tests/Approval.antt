-- ===== src/Tests/Approval.antt =====
-- Approvals of the laboratory plan.
use aiops_control_lab.Base.{
  ◌≡◌, refl, subst, arith, false, none, some, All, Result, ok, err, ◌↔◌, lookup, insert, ◌==◌,
}
use aiops_control_lab.Domain.Enums.{PlanStatus, ActionStatus, value}
use aiops_control_lab.Domain.Lifecycle.{start_remediation, finish}
use aiops_control_lab.Domain.Json.{dict_fields, optional_text, sort_keys, sort_items, sort_fields}
use aiops_control_lab.Domain.Models.{RemediationPlan, ActionRun, Incident}
use aiops_control_lab.Domain.Hash.{canonical, content_hash, plan_json, steps_json, step_json}
use aiops_control_lab.Domain.Hash.Binding.{SameContent, content_hash_binding}
use aiops_control_lab.Repository.{
  get_plan, get_incident, get_action_run_by_key, save_action_run, save_plan, save_incident,
  save_approval,
}
use aiops_control_lab.App.{App, new_id, utc_now}
use aiops_control_lab.Policy.{is_real_asset, is_read_only, validate}
use aiops_control_lab.Policy.Gate.{Passes, validate_iff_Passes}
use aiops_control_lab.Remediation.{
  authorize, carry_out, approve_and_execute, transition, run_steps, verify_recovery, settle,
  rollback, compensate, conclude, expire, admit,
}
use aiops_control_lab.Remediation.Checks.{IsAdmissible, Returns, authorize_iff_IsAdmissible}
use aiops_control_lab.Remediation.Log.{Covers, Logged}
use aiops_control_lab.Remediation.Retry.{
  Approves, approve_and_execute-Approves, approve_and_execute_retry,
}
use aiops_control_lab.Remediation.Safety.{approve_and_execute-Logged, observe_only_calls}
use aiops_control_lab.Gateway.{Gateway, is_admin, approve_plan}
use aiops_control_lab.Gateway.Visitors.{IsInside, approve_plan_visitor}
use aiops_control_lab.Tests.{
  service, digest, plan, app, plan_hash, print, print_items, print_fields,
}

no_run : get_action_run_by_key "key" app.repository ≡ none
unfolding get_action_run_by_key lookup
no_run = refl

approve_and_execute-Approves_example :
    Approves service "plan_1" plan_hash "key" app
      (approve_and_execute service "plan_1" "ann" plan_hash "key" app)
approve_and_execute-Approves_example =
    approve_and_execute-Approves service "plan_1" plan_hash "key" "ann" app no_run

abbrev no_such_run : ActionRun
no_such_run = record {
  id = "";
  plan_id = "";
  incident_id = "";
  idempotency_key = "";
  approved_hash = "";
  status = ActionStatus.queued;
  created_at = 0;
  started_at = none;
  finished_at = none;
  output = none;
}

abbrev first_call : Result ActionRun × App
first_call = approve_and_execute service "plan_1" "ann" plan_hash "key" app

-- The run that a call returns. Here the restart succeeds, and the second step and the compensation
-- fail.
abbrev run_of : Result ActionRun → ActionRun
run_of (ok run) = run
run_of (err e) = no_such_run

abbrev first_run : ActionRun
first_run = run_of first_call.0

first_call_returns : first_call ≡ (ok first_run, first_call.1)
unfolding approve_and_execute get_action_run_by_key lookup insert authorize get_plan get_incident
    save_plan save_incident save_approval save_action_run new_id utc_now validate is_real_asset
    is_read_only content_hash canonical plan_json steps_json step_json dict_fields optional_text
    sort_keys sort_items sort_fields print print_items print_fields value transition
    start_remediation carry_out run_steps verify_recovery settle rollback compensate conclude finish
    expire admit
first_call_returns = refl

approve_and_execute_retry_example :
    approve_and_execute service "plan_2" "bob" "another" "key" first_call.1
    ≡ (ok first_run, first_call.1)
approve_and_execute_retry_example =
    approve_and_execute_retry service "plan_1" "ann" plan_hash "key" app first_call.1 first_run
      service "plan_2" "bob" "another" first_call_returns

observe_only_calls_example : Logged (λ x. is_real_asset x.target ≡ false) plan_hash app first_call.1
observe_only_calls_example = observe_only_calls service "plan_1" "ann" plan_hash "key" app refl

plan_is : (p : RemediationPlan) → get_plan "plan_1" app.repository ≡ some p → plan ≡ p
unfolding get_plan lookup
plan_is p h = ground (arith, h)

-- The steps of the plan that is stored stand for a laboratory asset.
any_plan-IsInside :
    (p : RemediationPlan) (i : Incident)
    → IsAdmissible service "plan_1" plan_hash app p i
    → All (Covers IsInside) p.steps
any_plan-IsInside p i a =
    subst (λ (q : RemediationPlan). All (Covers IsInside) q.steps) (plan_is p a.plan)
      ((refl, λ _. refl), ((refl, λ _. refl), tt))

approve_and_execute-Logged_example : Logged IsInside plan_hash app first_call.1
approve_and_execute-Logged_example =
    approve_and_execute-Logged service "plan_1" "ann" plan_hash "key" IsInside app any_plan-IsInside

authorize_iff_IsAdmissible_example :
    Returns (authorize service "plan_1" "ann" plan_hash "key" app)
    ↔ ((p : RemediationPlan) × (i : Incident) × IsAdmissible service "plan_1" plan_hash app p i)
authorize_iff_IsAdmissible_example =
    authorize_iff_IsAdmissible service "plan_1" "ann" plan_hash "key" app

-- A gateway without a token: everybody is a visitor.
abbrev gateway : Gateway
gateway = record { service = service; admin_token = none; compare_digest = λ a b. ok (a == b) }

no_admin : is_admin gateway none ≡ ok false
unfolding is_admin
no_admin = refl

approve_plan_visitor_example :
    Logged IsInside plan_hash app (approve_plan gateway none "plan_1" "ann" plan_hash "key" app).1
approve_plan_visitor_example =
    approve_plan_visitor gateway none "plan_1" "ann" plan_hash "key" app no_admin

-- The same content with another status.
abbrev executing_plan : RemediationPlan
executing_plan = record plan { status = PlanStatus.executing }

same_text :
    content_hash digest plan ≡ content_hash digest executing_plan
    → canonical digest plan ≡ canonical digest executing_plan
unfolding canonical plan_json
same_text h = refl

same_json :
    canonical digest plan ≡ canonical digest executing_plan
    → sort_keys (plan_json plan) ≡ sort_keys (plan_json executing_plan)
unfolding plan_json
same_json h = refl

content_hash_binding_example :
    (content_hash digest plan ≡ content_hash digest executing_plan)
    ↔ SameContent plan executing_plan
content_hash_binding_example = content_hash_binding digest plan executing_plan same_json same_text

validate_iff_Passes_example :
    (validate "observe_only" plan ≡ ok tt) ↔ All (Passes "observe_only") plan.steps
validate_iff_Passes_example = validate_iff_Passes "observe_only" plan
