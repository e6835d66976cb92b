-- ===== src/Remediation/Outcome.antt =====
-- How an execution ends: what is stored about the plan, its incident and the run.
use aiops_control_lab.Base.{
  ◌≡◌, refl, sym, ap, map, ◌∙◌, Bool, Bool-cases, true, false, ◌==◌, starts_with, String, inl, inr,
  Option, none, some, List, [], lookup-insert_self, is_empty-nil, take, Result, ok, err,
  Result-cases, bind_rule, if◌then◌else◌, ◌+◌, ◌++◌, suc,
}
use mathlib.Core.Path.{subst₂}
use mathlib.Core.List.{append-nil}
use aiops_control_lab.Domain.Enums.{IncidentStatus, PlanStatus}
use aiops_control_lab.Domain.Models.{
  Incident, StepOutput, RemediationStep, ActionRun, Verification, Output,
}
use aiops_control_lab.Domain.Lifecycle.{finish, moved, is_remediating}
use aiops_control_lab.Repository.{
  get_plan, get_incident, get_action_run_by_key, save_plan, save_incident, save_action_run,
}
use aiops_control_lab.Repository.Laws.{get_action_run_by_key-save_action_run}
use aiops_control_lab.App.{App, Platform, Dispatched, utc_now}
use aiops_control_lab.Remediation.{
  Service, Authorized, Progress, run_steps, rollback, verify_with, conclude, settle, carry_out,
  transition, final_status,
}
use aiops_control_lab.Remediation.Calls.{calls, Answered, successes}
use aiops_control_lab.Remediation.Execution.{
  Went, Ends, run_steps-Ends, RollsBack, rollback-RollsBack,
}

abbrev pub Verifier : Type 0
Verifier = List Dispatched → String → Result Verification

-- Where a verifier is configured and the asset is one of the laboratory, the verifier has answered
-- after the calls of the log that the asset is healthy, and this answer is on record.
abbrev pub IsHealthy : Option Verifier → List Dispatched → String → Option Verification → Type 0
IsHealthy none log asset_id recorded = Unit
IsHealthy (some verify) log asset_id recorded =
    starts_with asset_id "lab-" ≡ true
    → (w : Verification) × (verify log asset_id ≡ ok w) × (recorded ≡ some w) × (w.healthy ≡ true)

-- The outputs are the dispatcher's answers to calls for all steps, and all are successes.
abbrev pub Performed :
    Service → String → List RemediationStep → List StepOutput → List Dispatched → Type 0
Performed v hash steps outputs log =
    Answered v hash steps outputs log × (successes outputs ≡ map (λ _. true) steps)

abbrev Verifies :
    Option Verifier → Incident → Bool → App → Result (Option Verification × Bool) × App → Type 0
Verifies verifier i before s (ok (answer, succeeded), t) =
    (t ≡ s)
    × (succeeded ≡ true → (before ≡ true) × IsHealthy verifier s.dispatched i.asset_id answer)
Verifies verifier i before s (err e, t) = Unit

verify_with-Verifies :
    (verifier : Option Verifier) (i : Incident) (before : Bool) (s : App)
    → Verifies verifier i before s (verify_with verifier i before s)
unfolding verify_with
verify_with-Verifies none i before s = (refl, λ h. (h, tt))
verify_with-Verifies (some verify) i false s = (refl, λ h. absurd (cc h))
verify_with-Verifies (some verify) i true s = elim (Bool-cases (starts_with i.asset_id "lab-")) [
  | inr elsewhere ↦ rw elsewhere (refl, λ h. (refl, λ lab. absurd (cc (lab, elsewhere))))
  | inl lab ↦ rw lab (elim (Result-cases (verify s.dispatched i.asset_id)) [
    | inl (w, answered) ↦ rw answered (refl, λ h. (refl, λ _. (w, answered, refl, h)))
    | inr (e, raised) ↦ rw raised tt
  ])
]

-- What is stored when an execution has returned a run.
pub record Concluded (v : Service) (a : Authorized) (s : App) (run : ActionRun) (t : App)
    : Type 0 where
  pub succeeded : Bool
  pub rolled_back : Bool
  pub output : Output
  pub finished : Incident
  -- the run, under its key
  pub same_id : run.id ≡ a.action_run.id
  pub same_key : run.idempotency_key ≡ a.action_run.idempotency_key
  pub run_output : run.output ≡ some output
  pub run_status : run.status ≡ final_status succeeded rolled_back
  pub stored_run :
      get_action_run_by_key run.idempotency_key t.repository
      ≡ (if run.id == "" then none else some run)
  -- the plan and the incident
  pub stored_plan :
      get_plan a.plan.id t.repository
      ≡ some (record (a.plan) {
        status = if succeeded then PlanStatus.succeeded else PlanStatus.failed;
      })
  pub stored_incident : get_incident a.incident.id t.repository ≡ some finished
  pub incident_status :
      finished.status ≡ (if succeeded then IncidentStatus.resolved else IncidentStatus.failed)
  -- success means that the dispatcher was called for each step and answered that it succeeded,
  -- nothing was undone, and the verifier answered that the asset is healthy
  pub all_called :
      succeeded ≡ true → t.dispatched ≡ calls a.action_run.approved_hash a.plan.steps s.dispatched
  pub performed :
      succeeded ≡ true
      → Performed v a.action_run.approved_hash a.plan.steps output.steps s.dispatched
  pub healthy :
      succeeded ≡ true
      → IsHealthy v.recovery_verifier t.dispatched a.incident.asset_id output.verification

abbrev pub Concludes : Service → Authorized → App → Result ActionRun × App → Type 0
Concludes v a s (ok run, t) = Concluded v a s run t
Concludes v a s (err e, t) = Unit

finish-remediating :
    (p : Platform) (i : Incident) (b : Bool) (s : App)
    → is_remediating i.status ≡ true
    → transition p (finish b) i s ≡ (
      ok (moved (if b then IncidentStatus.resolved else IncidentStatus.failed) (p.clock s.ticks) i),
      record s { ticks = suc s.ticks },
    )
unfolding transition finish
finish-remediating p i b s h = rw (h, transition)

module _ (v : Service) where
  conclude-Concludes :
      (a : Authorized) (s s' : App) (o : Output) (succeeded rolled_back : Bool)
      → is_remediating a.incident.status ≡ true
      → (succeeded ≡ true
          → s'.dispatched ≡ calls a.action_run.approved_hash a.plan.steps s.dispatched)
      → (succeeded ≡ true
          → Performed v a.action_run.approved_hash a.plan.steps o.steps s.dispatched)
      → (succeeded ≡ true
          → IsHealthy v.recovery_verifier s'.dispatched a.incident.asset_id o.verification)
      → Concludes v a s (conclude v a o succeeded rolled_back s')
  unfolding conclude utc_now get_plan get_incident get_action_run_by_key save_plan save_incident
      save_action_run
  conclude-Concludes a s s' o succeeded rolled_back busy called performed healthy =
      let run : ActionRun = record (a.action_run) {
        output = some o;
        finished_at = some (v.platform.clock s'.ticks);
        status = final_status succeeded rolled_back;
      } in
      rw (finish-remediating v.platform a.incident succeeded _ busy) (record {
        succeeded = succeeded;
        rolled_back = rolled_back;
        output = o;
        finished =
            moved (if succeeded then IncidentStatus.resolved else IncidentStatus.failed)
              (v.platform.clock (s'.ticks + 1)) a.incident;
        same_id = refl;
        same_key = refl;
        run_output = refl;
        run_status = refl;
        stored_run = get_action_run_by_key-save_action_run run s'.repository;
        stored_plan = lookup-insert_self _ _ _;
        stored_incident = lookup-insert_self _ _ _;
        incident_status = refl;
        all_called = called;
        performed = performed;
        healthy = healthy;
      })

  -- If the loop reports success, the steps that it has called are all of them.
  whole :
      (hash : String) (steps : List RemediationStep) (p q : Progress) (s t : App)
      (w : Went v hash steps p q s t)
      → q.succeeded ≡ true
      → w.made.done ++ take 1 w.made.rest ≡ steps
  whole hash steps p q s t w well =
      let none_left : w.made.rest ≡ [] = is_empty-nil w.made.rest (sym w.succeeded ∙ well) in
      ap (λ r. w.made.done ++ take 1 r) none_left
      ∙ ap (λ r. w.made.done ++ r) (sym none_left)
      ∙ sym w.made.parts

  -- If all steps succeeded, each of them has been called.
  all_calls :
      (hash : String) (steps : List RemediationStep) (p q : Progress) (s t : App)
      → Went v hash steps p q s t
      → q.succeeded ≡ true
      → t.dispatched ≡ calls hash steps s.dispatched
  all_calls hash steps p q s t w well =
      w.made.log ∙ ap (λ l. calls hash l s.dispatched) (whole hash steps p q s t w well)

  -- If all steps succeeded, the outputs are the dispatcher's answers for all of them.
  all_answers :
      (hash : String) (steps : List RemediationStep) (p q : Progress) (s t : App)
      → p.step_outputs ≡ []
      → Went v hash steps p q s t
      → q.succeeded ≡ true
      → Performed v hash steps q.step_outputs s.dispatched
  all_answers hash steps p q s t none_yet w well =
      let outputs : q.step_outputs ≡ w.outputs = w.recorded ∙ ap (λ l. l ++ w.outputs) none_yet in
      let none_left = is_empty-nil w.made.rest (sym w.succeeded ∙ well) in
      let all_done : w.made.done ≡ steps =
        sym (append-nil w.made.done)
        ∙ ap (λ r. w.made.done ++ r) (sym none_left)
        ∙ sym w.made.parts in
      (
        subst₂ (λ l o. Answered v hash l o s.dispatched) (whole hash steps p q s t w well)
            (sym outputs) w.heard,
        ap successes outputs
            ∙ w.judged
            ∙ ap (λ r. map (λ _. true) w.made.done ++ map (λ _. false) (take 1 r)) none_left
            ∙ append-nil (map (λ _. true) w.made.done)
            ∙ ap (map (λ _. true)) all_done,
      )

  after_check :
      (a : Authorized) (s s1 s2 : App) (p q : Progress) (answer : Option Verification)
      (succeeded : Bool)
      → is_remediating a.incident.status ≡ true
      → p.step_outputs ≡ []
      → Went v a.action_run.approved_hash a.plan.steps p q s s1
      → Verifies v.recovery_verifier a.incident q.succeeded s1 (ok (answer, succeeded), s2)
      → Concludes v a s (settle v a q answer succeeded s2)
  unfolding settle
  after_check a s s1 s2 p q answer true busy none_yet ends verified =
      conclude-Concludes a s s2 _ true false busy
        (λ _.
          rw verified.0
            (all_calls a.action_run.approved_hash a.plan.steps p q s s1 ends (verified.1 refl).0))
        (λ _.
          all_answers a.action_run.approved_hash a.plan.steps p q s s1 none_yet ends
            (verified.1 refl).0)
        (λ _. rw verified.0 (verified.1 refl).1)
  after_check a s s1 s2 p q answer false busy none_yet ends verified =
      let hash = a.action_run.approved_hash in
      bind_rule (RollsBack v hash q.completed_steps s2) (Concludes v a s) _
        (rollback v q.completed_steps hash s2) (rollback-RollsBack v hash q.completed_steps s2)
        (λ undone s3 _.
          conclude-Concludes a s s3 _ false undone.1 busy (λ h. cc h) (λ h. cc h) (λ h. cc h))
        (λ e t h. tt)

  -- For an incident under remediation, an execution that returns stores matching states of the run,
  -- the plan and the incident.
  pub carry_out-Concludes :
      (a : Authorized) (s : App)
      → is_remediating a.incident.status ≡ true
      → Concludes v a s (carry_out v a s)
  unfolding carry_out
  carry_out-Concludes a s busy =
      let hash = a.action_run.approved_hash in
      let p : Progress = record { step_outputs = []; completed_steps = []; succeeded = true } in
      bind_rule (Ends v hash a.plan.steps p s) (Concludes v a s) _
        (run_steps v hash a.plan.steps p s) (run_steps-Ends v hash a.plan.steps p s refl)
        (λ q s1 ends.
          bind_rule (Verifies v.recovery_verifier a.incident q.succeeded s1) (Concludes v a s) _
            (verify_with v.recovery_verifier a.incident q.succeeded s1)
            (verify_with-Verifies v.recovery_verifier a.incident q.succeeded s1)
            (λ checked s2 verified.
              after_check a s s1 s2 p q checked.0 checked.1 busy refl ends verified)
            (λ e t h. tt))
        (λ e t h. tt)
