-- ===== src/Remediation/Gap.antt =====
-- A gap in the gate: it does not look at the compensations.
use aiops_control_lab.Base.{
  ◌≡◌, refl, sym, ◌∙◌, subst, Bool, true, false, String, inl, inr, Option, none, some, List, [],
  ◌∷◌, Result-cases, Result, ok, bind_rule,
}
use aiops_control_lab.Domain.Models.{RemediationStep, Incident, Verification, StepOutput}
use aiops_control_lab.App.{App, Dispatched}
use aiops_control_lab.Policy.{is_real_asset, is_read_only, validate}
use aiops_control_lab.Policy.Gate.{Passes, validate_iff_Passes}
use aiops_control_lab.Remediation.{
  Service, StepExecutionResult, Authorized, Progress, output_of, run_steps, verify_with, rollback,
  settle, conclude, has_rollback, compensation, carry_out,
}
use aiops_control_lab.Remediation.Log.{conclude-dispatched}

verify_with-failed :
    (verifier : Option (List Dispatched → String → Result Verification)) (i : Incident) (s : App)
    → verify_with verifier i false s ≡ (ok (none, false), s)
unfolding verify_with
verify_with-failed none i s = refl
verify_with-failed (some verify) i s = refl

-- The progress after a step that succeeded and one that did not.
abbrev half :
    RemediationStep → RemediationStep → StepExecutionResult → StepExecutionResult → Progress
half x y r r' = record {
  step_outputs =
      output_of x (record r { succeeded = true })
      ∷ output_of y (record r' { succeeded = false })
      ∷ [];
  completed_steps = x ∷ [];
  succeeded = false;
}

module _ (v : Service) (hash : String) where
  abbrev pub call : RemediationStep → Dispatched
  call z = record { step = z; approved_hash = hash }

  abbrev called : RemediationStep → App → App
  called z s = record s { dispatched = call z ∷ s.dispatched }

  -- The loop over two steps of which the first succeeds and the second does not.
  run_steps-two :
      (steps : List RemediationStep) (s : App) (x y : RemediationStep) (r r' : StepExecutionResult)
      → steps ≡ x ∷ y ∷ []
      → v.dispatcher s.dispatched x hash ≡ ok r
      → r.succeeded ≡ true
      → v.dispatcher (call x ∷ s.dispatched) y hash ≡ ok r'
      → r'.succeeded ≡ false
      → run_steps v hash steps
          (record { step_outputs = []; completed_steps = []; succeeded = true })
          s
        ≡ (ok (half x y r r'), called y (called x s))
  unfolding run_steps
  run_steps-two steps s x y r r' two first good second bad = rw two (rw (first, good, second, bad))

  rollback-one :
      (x : RemediationStep) (s : App)
      → has_rollback x ≡ true
      → (rollback v (x ∷ []) hash s).1.dispatched ≡ call (compensation x) ∷ s.dispatched
  unfolding rollback
  rollback-one x s undo =
      rw undo (elim (Result-cases (v.dispatcher s.dispatched (compensation x) hash)) [
        | inl (r, e) ↦ rw e refl
        | inr (e, f) ↦ rw f refl
      ])

settle-one :
    (v : Service) (a : Authorized) (q : Progress) (x : RemediationStep) (s : App)
    → q.completed_steps ≡ x ∷ []
    → has_rollback x ≡ true
    → (settle v a q none false s).1.dispatched
      ≡ call v a.action_run.approved_hash (compensation x) ∷ s.dispatched
unfolding settle
settle-one v a q x s one undo =
    let hash = a.action_run.approved_hash in
    let after = call v hash (compensation x) ∷ s.dispatched in
    bind_rule {A = List StepOutput × Bool} (λ out. out.1.dispatched ≡ after)
      (λ out. out.1.dispatched ≡ after)
      (λ undone.
        conclude v a (record { steps = q.step_outputs; rollback = undone.0; verification = none })
          false undone.1)
      (rollback v q.completed_steps hash s)
      (subst (λ c. (rollback v c hash s).1.dispatched ≡ after) (sym one)
        (rollback-one v hash x s undo))
      (λ undone t e. conclude-dispatched v a _ false undone.1 t ∙ e) (λ e t h. h)

-- The gate is about the steps of a plan and not about their compensations. Take a plan of two steps
-- that both pass the gate, of which the first is for a real asset and names a compensation that is
-- no read-only action. The policy accepts the plan; and if the first step succeeds and the second
-- does not, the third call of the dispatcher is that compensation, which does not pass the gate.
pub compensation_escapes_gate :
    (v : Service) (a : Authorized) (s : App) (x y : RemediationStep) (r r' : StepExecutionResult)
    → a.plan.steps ≡ x ∷ y ∷ []
    → Passes v.real_actions_mode x
    → Passes v.real_actions_mode y
    → is_real_asset x.target ≡ true
    → has_rollback x ≡ true
    → is_read_only (compensation x).action_type ≡ false
    → v.dispatcher s.dispatched x a.action_run.approved_hash ≡ ok r
    → r.succeeded ≡ true
    → v.dispatcher (call v a.action_run.approved_hash x ∷ s.dispatched) y a.action_run.approved_hash
      ≡ ok r'
    → r'.succeeded ≡ false
    → (validate v.real_actions_mode a.plan ≡ ok tt)
      × ((carry_out v a s).1.dispatched
          ≡ call v a.action_run.approved_hash (compensation x)
            ∷ call v a.action_run.approved_hash y
            ∷ call v a.action_run.approved_hash x
            ∷ s.dispatched)
      × ¬ Passes v.real_actions_mode (compensation x)
unfolding carry_out
compensation_escapes_gate v a s x y r r' two px py real undo write first good second bad = (
  (validate_iff_Passes v.real_actions_mode a.plan).1 (rw two (px, (py, tt))),
  rw (run_steps-two v a.action_run.approved_hash a.plan.steps s x y r r' two first good second bad)
      (rw (verify_with-failed v.recovery_verifier a.incident _)
        (settle-one v a (half x y r r') x _ refl undo)),
  λ h. cc (write, (h real).1),
)
