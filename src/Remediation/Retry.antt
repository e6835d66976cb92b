-- ===== src/Remediation/Retry.antt =====
-- The method as a whole: what a fresh approval ends with, and that a repeated one changes nothing.
use aiops_control_lab.Base.{
  ◌≡◌, ap, ◌∙◌, subst, Bool, true, ◌==◌, String, inl, inr, none, some, Option-cases, Result, ok,
  err, bind_rule, continue, if◌then◌else◌,
}
use mathlib.Core.Path.{subst₂}
use aiops_control_lab.Domain.Enums.{IncidentStatus, PlanStatus}
use aiops_control_lab.Domain.Models.{Incident, RemediationPlan, ActionRun, Output}
use aiops_control_lab.Domain.Lifecycle.{is_remediating}
use aiops_control_lab.Repository.{get_plan, get_incident, get_action_run_by_key}
use aiops_control_lab.App.{App}
use aiops_control_lab.Remediation.{
  Service, Authorized, authorize, carry_out, approve_and_execute, final_status,
}
use aiops_control_lab.Remediation.Calls.{calls}
use aiops_control_lab.Remediation.Checks.{IsAdmissible, Authorizes, authorize-Authorizes}
use aiops_control_lab.Remediation.Outcome.{IsHealthy, Performed, Concludes, carry_out-Concludes}

-- What a fresh approval has done when it returns a run.
pub record Approved (v : Service) (plan_id approved_hash key : String) (s : App) (run : ActionRun)
    (t : App) : Type 0 where
  pub plan : RemediationPlan
  pub incident : Incident
  pub admissible : IsAdmissible v plan_id approved_hash s plan incident
  pub succeeded : Bool
  pub rolled_back : Bool
  pub output : Output
  pub finished : Incident
  pub same_key : run.idempotency_key ≡ key
  pub run_output : run.output ≡ some output
  pub run_status : run.status ≡ final_status succeeded rolled_back
  pub stored_run : get_action_run_by_key run.idempotency_key t.repository ≡ some run
  pub stored_plan :
      get_plan plan.id t.repository
      ≡ some
          (record plan { status = if succeeded then PlanStatus.succeeded else PlanStatus.failed })
  pub stored_incident : get_incident incident.id t.repository ≡ some finished
  pub incident_status :
      finished.status ≡ (if succeeded then IncidentStatus.resolved else IncidentStatus.failed)
  pub all_called : succeeded ≡ true → t.dispatched ≡ calls approved_hash plan.steps s.dispatched
  pub performed : succeeded ≡ true → Performed v approved_hash plan.steps output.steps s.dispatched
  pub healthy :
      succeeded ≡ true
      → IsHealthy v.recovery_verifier t.dispatched incident.asset_id output.verification

abbrev pub Approves : Service → String → String → String → App → Result ActionRun × App → Type 0
Approves v plan_id hash key s (ok run, t) = Approved v plan_id hash key s run t
Approves v plan_id hash key s (err e, t) = Unit

module _ (v : Service) (plan_id approved_hash key : String) where
  Approves-of_Concludes :
      (s s1 : App) (a : Authorized)
      → Authorizes v plan_id approved_hash key s (ok a, s1)
      → (out : Result ActionRun × App) → Concludes v a s1 out
      → Approves v plan_id approved_hash key s out
  Approves-of_Concludes s s1 a h (ok run, t) c =
      let (p, i, admissible, plan, incident, hash, same_key, has_id, log) = h in
      record {
        plan = p;
        incident = i;
        admissible = admissible;
        succeeded = c.succeeded;
        rolled_back = c.rolled_back;
        output = c.output;
        finished = c.finished;
        same_key = c.same_key ∙ same_key;
        run_output = c.run_output;
        run_status = c.run_status;
        stored_run = c.stored_run ∙ cc (ap (λ x. x == "") c.same_id ∙ has_id);
        stored_plan =
            subst
              (λ (z : RemediationPlan).
                get_plan z.id t.repository
                ≡ some (record z {
                  status = if c.succeeded then PlanStatus.succeeded else PlanStatus.failed;
                }))
              plan c.stored_plan;
        stored_incident =
            subst (λ (z : Incident). get_incident z.id t.repository ≡ some c.finished) incident
              c.stored_incident;
        incident_status = c.incident_status;
        all_called =
            λ well. c.all_called well ∙ cc (hash, ap (λ (z : RemediationPlan). z.steps) plan, log);
        performed = λ well. subst (Performed v approved_hash p.steps c.output.steps) log (
            subst₂ (λ k (z : RemediationPlan). Performed v k z.steps c.output.steps s1.dispatched)
              hash plan (c.performed well));
        healthy = λ well.
            subst
              (λ (z : Incident).
                IsHealthy v.recovery_verifier t.dispatched z.asset_id c.output.verification)
              incident (c.healthy well);
      }
  Approves-of_Concludes s s1 a h (err e, t) c = tt

  authorize_then_carry_out :
      (approver : String) (s : App)
      → Approves v plan_id approved_hash key s (
          continue
            (authorize v plan_id approver approved_hash key s).0
            (carry_out v)
            (authorize v plan_id approver approved_hash key s).1)
  authorize_then_carry_out approver s =
      bind_rule (Authorizes v plan_id approved_hash key s) (Approves v plan_id approved_hash key s)
        (carry_out v) (authorize v plan_id approver approved_hash key s)
        (authorize-Authorizes v plan_id approver approved_hash key s)
        (λ a s1 h.
          Approves-of_Concludes s s1 a h (carry_out v a s1)
            (carry_out-Concludes v a s1 (ap (λ (z : Incident). is_remediating z.status) h.4)))
        (λ e t h. tt)

  -- A fresh approval that returns a run was admissible, and the run, the plan and the incident are
  -- stored with matching states: the run is found under its key; it succeeded, the plan succeeded
  -- and the incident is resolved; or the run failed or was rolled back, the plan failed and the
  -- incident failed. Success means that the dispatcher was called exactly for the plan's steps, in
  -- order, with the approved hash, and answered for each that it succeeded, which the run records;
  -- and for an asset of the laboratory that the configured verifier, asked after these calls, answered
  -- that it is healthy.
  pub approve_and_execute-Approves :
      (approver : String) (s : App)
      → get_action_run_by_key key s.repository ≡ none
      → Approves v plan_id approved_hash key s
          (approve_and_execute v plan_id approver approved_hash key s)
  unfolding approve_and_execute
  approve_and_execute-Approves approver s fresh = rw fresh (authorize_then_carry_out approver s)

-- A call with a key under which a run is stored returns that run and changes nothing.
replay :
    (v : Service) (plan_id approver approved_hash key : String) (s : App) (run : ActionRun)
    → get_action_run_by_key key s.repository ≡ some run
    → approve_and_execute v plan_id approver approved_hash key s ≡ (ok run, s)
unfolding approve_and_execute
replay v plan_id approver approved_hash key s run stored = rw stored

-- The state after a call that returned a run has the run under the call's key.
abbrev Keeps : String → Result ActionRun × App → Type 0
Keeps key (ok run, t) = get_action_run_by_key key t.repository ≡ some run
Keeps key (err e, t) = Unit

Keeps-of_Approves :
    (v : Service) (plan_id approved_hash key : String) (s : App) (out : Result ActionRun × App)
    → Approves v plan_id approved_hash key s out
    → Keeps key out
Keeps-of_Approves v plan_id approved_hash key s (ok run, t) a =
    subst (λ k. get_action_run_by_key k t.repository ≡ some run) a.same_key a.stored_run
Keeps-of_Approves v plan_id approved_hash key s (err e, t) a = tt

approve_and_execute-Keeps :
    (v : Service) (plan_id approver approved_hash key : String) (s : App)
    → Keeps key (approve_and_execute v plan_id approver approved_hash key s)
approve_and_execute-Keeps v plan_id approver approved_hash key s =
    elim (Option-cases (get_action_run_by_key key s.repository)) [
      | inl fresh ↦
          Keeps-of_Approves v plan_id approved_hash key s _
            (approve_and_execute-Approves v plan_id approved_hash key approver s fresh)
      | inr (run, stored) ↦ rw (replay v plan_id approver approved_hash key s run stored) stored
    ]

-- When a call has returned a run, a later call with the same idempotency key returns the same run,
-- changes no state and calls no dispatcher, whatever plan, approver and hash it names and whatever
-- its dispatcher, verifier and mode are.
pub approve_and_execute_retry :
    (v : Service) (plan_id approver approved_hash key : String) (s t : App) (run : ActionRun)
    (v' : Service) (plan_id' approver' approved_hash' : String)
    → approve_and_execute v plan_id approver approved_hash key s ≡ (ok run, t)
    → approve_and_execute v' plan_id' approver' approved_hash' key t ≡ (ok run, t)
approve_and_execute_retry v plan_id approver approved_hash key s t run v' plan_id' approver'
      approved_hash' first =
    replay v' plan_id' approver' approved_hash' key t run
      (subst (Keeps key) first (approve_and_execute-Keeps v plan_id approver approved_hash key s))
