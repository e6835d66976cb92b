-- ===== src/Remediation.antt =====
-- application/remediation_service.py: the approval of a plan, its execution and the compensation.
-- The dispatcher, the recovery verifier and the platform are the service's parameters: what they
-- answer may depend on every call that the dispatcher has had before.
pub mod Calls
pub mod Execution
pub mod Checks
pub mod Outcome
pub mod Retry
pub mod Log
pub mod Safety
pub mod Gap
use aiops_control_lab.Base.{
  suc, Bool, true, false, not, ◌&&◌, ◌==◌, starts_with, String, Option, none, some, List, [], ◌∷◌,
  ◌++◌, reverse, keep, is_empty, ltb, Exec, Result, ok, err, pure, raise, lift, gets, raise_if,
  continue, ◌>>=◌, ◌>>◌, entity_not_found, invalid_state_transition, approval_expired,
  integrity_violation, if◌then◌else◌,
}
use aiops_control_lab.Domain.Enums.{PlanStatus, ActionStatus}
use aiops_control_lab.Domain.Models.{
  Time, Incident, RemediationStep, RemediationPlan, StepOutput, Verification, Output, ActionRun,
  Approval,
}
use aiops_control_lab.Domain.Lifecycle.{start_remediation, finish}
use aiops_control_lab.Domain.Hash.{content_hash}
use aiops_control_lab.Repository.{
  save_incident, get_incident, save_plan, get_plan, save_approval, save_action_run,
  get_action_run_by_key,
}
use aiops_control_lab.App.{App, Platform, Dispatched, new_id, utc_now, store}
use aiops_control_lab.Policy.{validate}

-- ports/execution.py
pub record StepExecutionResult : Type 0 where
  pub succeeded : Bool
  pub message : String

-- What `RemediationApplicationService` is constructed with, the repositories aside.
pub record Service : Type 0 where
  pub platform : Platform
  pub dispatcher : List Dispatched → RemediationStep → String → Result StepExecutionResult
  pub recovery_verifier : Option (List Dispatched → String → Result Verification)
  pub real_actions_mode : String

-- What the loop over the steps has gathered.
pub record Progress : Type 0 where
  pub step_outputs : List StepOutput
  pub completed_steps : List RemediationStep
  pub succeeded : Bool

-- What the checks of an approval hand on to the execution.
pub record Authorized : Type 0 where
  pub plan : RemediationPlan
  pub incident : Incident
  pub action_run : ActionRun

abbrev pub found : {A : Type 0} → Option A → Exec App A
found none = raise entity_not_found
found (some a) = pure a

-- A method of an incident that reads the clock when its check has passed.
unfoldable pub transition :
    Platform → (Time → Incident → Result Incident) → Incident → Exec App Incident
transition p method incident s = elim (method (p.clock s.ticks) incident) [
  | ok changed ↦ (ok changed, record s { ticks = suc s.ticks })
  | err e ↦ (err e, s)
]

abbrev pub is_pending : PlanStatus → Bool
is_pending PlanStatus.pending_approval = true
is_pending _ = false

abbrev pub output_of : RemediationStep → StepExecutionResult → StepOutput
output_of step result = record {
  action_type = step.action_type;
  target = step.target;
  succeeded = result.succeeded;
  message = result.message;
}

-- `bool` of an optional text: neither `None` nor empty
abbrev pub has_rollback : RemediationStep → Bool
has_rollback step = elim step.rollback_action [ none ↦ false | some action ↦ not (action == "") ]

abbrev pub rollback_action_or : Option String → String
rollback_action_or none = ""
rollback_action_or (some action) = action

-- the `RemediationStep` that compensates for a completed one
abbrev pub compensation : RemediationStep → RemediationStep
compensation step = record {
  action_type = rollback_action_or step.rollback_action;
  target = step.target;
  arguments = step.rollback_arguments;
  expected_result = "回滚动作执行成功";
  rollback_action = none;
  rollback_arguments = [];
}

abbrev pub final_status : Bool → Bool → ActionStatus
final_status true rolled_back = ActionStatus.succeeded
final_status false true = ActionStatus.rolled_back
final_status false false = ActionStatus.failed

-- The health check after the steps: only if they went well, a verifier is configured, and the asset
-- is one of the laboratory.
unfoldable pub verify_with :
    Option (List Dispatched → String → Result Verification)
    → Incident
    → Bool
    → Exec App (Option Verification × Bool)
verify_with none incident succeeded s = (ok (none, succeeded), s)
verify_with (some verify) incident succeeded s =
    let answer = verify s.dispatched incident.asset_id in
    if succeeded && starts_with incident.asset_id "lab-"
    then continue answer (λ w. pure (some w, w.healthy)) s
    else (ok (none, succeeded), s)

module _ (v : Service) where
  -- `self._dispatcher.execute(step, approved_hash)`
  unfoldable pub execute : RemediationStep → String → Exec App StepExecutionResult
  execute step approved_hash s = (
    v.dispatcher s.dispatched step approved_hash,
    record s {
      dispatched = (record { step = step; approved_hash = approved_hash }) ∷ s.dispatched;
    },
  )

  -- `for step in plan.steps`, up to the first failure
  unfoldable pub run_steps : String → List RemediationStep → Progress → Exec App Progress
  unfolding execute
  run_steps actual_hash [] progress = pure progress
  run_steps actual_hash (step ∷ steps) progress = execute step actual_hash >>= λ result.
      let outputs = progress.step_outputs ++ output_of step result ∷ [] in
      if result.succeeded
      then run_steps actual_hash steps (record {
        step_outputs = outputs;
        completed_steps = progress.completed_steps ++ step ∷ [];
        succeeded = true;
      })
      else pure (record progress { step_outputs = outputs; succeeded = false })

  -- `for original_step in rollback_steps`: a failed compensation does not stop the others
  unfoldable pub compensate :
      String → List RemediationStep → List StepOutput → Bool → Exec App (List StepOutput × Bool)
  unfolding execute
  compensate approved_hash [] outputs all_succeeded = pure (outputs, all_succeeded)
  compensate approved_hash (step ∷ steps) outputs all_succeeded =
      execute (compensation step) approved_hash >>= λ result.
      compensate approved_hash steps (outputs ++ output_of (compensation step) result ∷ [])
        (all_succeeded && result.succeeded)

  -- `_rollback`
  unfoldable pub rollback : List RemediationStep → String → Exec App (List StepOutput × Bool)
  unfolding compensate
  rollback completed_steps approved_hash =
      let rollback_steps = keep has_rollback (reverse completed_steps) in
      let run = compensate approved_hash rollback_steps [] true in
      if is_empty rollback_steps then pure ([], false) else run

  -- the health check of the business after the steps
  unfoldable pub verify_recovery : Incident → Bool → Exec App (Option Verification × Bool)
  unfolding verify_with
  verify_recovery = verify_with v.recovery_verifier

  -- an approval that comes too late
  unfoldable pub expire : RemediationPlan → Exec App Authorized
  expire plan =
      store (save_plan (record plan { status = PlanStatus.expired })) >> raise approval_expired

  -- from the comparison of the hashes to the first call of the dispatcher; `plan.status = APPROVED`
  -- is seen in the repository before the incident's check
  unfoldable pub admit :
      RemediationPlan → Incident → Time → String → String → String → Exec App Authorized
  admit plan incident now approver approved_hash idempotency_key = do
    let actual_hash = content_hash v.platform.digest plan
    raise_if (not (approved_hash == actual_hash)) integrity_violation
    approval_id ← new_id v.platform "approval"
    store (
        save_approval (record {
          id = approval_id;
          plan_id = plan.id;
          approver = approver;
          approved_hash = actual_hash;
          approved_at = now;
        }))
    store (save_plan (record plan { status = PlanStatus.approved }))
    remediating ← transition v.platform start_remediation incident
    store (save_incident remediating)
    run_id ← new_id v.platform "run"
    let action_run : ActionRun = record {
      id = run_id;
      plan_id = plan.id;
      incident_id = incident.id;
      idempotency_key = idempotency_key;
      approved_hash = actual_hash;
      status = ActionStatus.running;
      created_at = now;
      started_at = some now;
      finished_at = none;
      output = none;
    }
    store (save_action_run action_run)
    store (save_plan (record plan { status = PlanStatus.executing }))
    pure (record {
      plan = record plan { status = PlanStatus.executing };
      incident = remediating;
      action_run = action_run;
    })

  -- everything up to the first call of the dispatcher
  unfoldable pub authorize : String → String → String → String → Exec App Authorized
  unfolding expire admit
  authorize plan_id approver approved_hash idempotency_key = do
    plan ← (gets (λ s. get_plan plan_id s.repository) >>= found)
    incident ← (gets (λ s. get_incident plan.incident_id s.repository) >>= found)
    lift (validate v.real_actions_mode plan)
    raise_if (not (is_pending plan.status)) invalid_state_transition
    now ← utc_now v.platform
    if ltb plan.expires_at now
        then expire plan
        else admit plan incident now approver approved_hash idempotency_key

  -- the end of the method: the objects are written as they are assigned to
  unfoldable pub conclude : Authorized → Output → Bool → Bool → Exec App ActionRun
  conclude a output succeeded rollback_succeeded = do
    finished_at ← utc_now v.platform
    let action_run : ActionRun = record (a.action_run) {
      output = some output;
      finished_at = some finished_at;
      status = final_status succeeded rollback_succeeded;
    }
    store (save_action_run action_run)
    store (
        save_plan (record (a.plan) {
          status = if succeeded then PlanStatus.succeeded else PlanStatus.failed;
        }))
    finished ← transition v.platform (finish succeeded) a.incident
    store (save_incident finished)
    pure action_run

  -- after the health check: the compensation of what was done, if it is needed, and the end
  unfoldable pub settle : Authorized → Progress → Option Verification → Bool → Exec App ActionRun
  unfolding rollback conclude
  settle a progress verification succeeded = do
    let undo = rollback progress.completed_steps a.action_run.approved_hash
    undone ← (if succeeded then pure ([], false) else undo)
    conclude a
        (record { steps = progress.step_outputs; rollback = undone.0; verification = verification })
        succeeded undone.1

  -- from the first call of the dispatcher on
  unfoldable pub carry_out : Authorized → Exec App ActionRun
  unfolding run_steps verify_recovery settle
  carry_out a = do
    progress ←
        run_steps a.action_run.approved_hash a.plan.steps
          (record { step_outputs = []; completed_steps = []; succeeded = true })
    (verification, succeeded) ← verify_recovery a.incident progress.succeeded
    settle a progress verification succeeded

  unfoldable pub approve_and_execute : String → String → String → String → Exec App ActionRun
  unfolding authorize carry_out
  approve_and_execute plan_id approver approved_hash idempotency_key = do
    existing ← gets (λ s. get_action_run_by_key idempotency_key s.repository)
    let fresh = authorize plan_id approver approved_hash idempotency_key >>= carry_out
    elim existing [ none ↦ fresh | some run ↦ pure run ]
