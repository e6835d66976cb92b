-- ===== src/Remediation/Safety.antt =====
-- What the gate, the checks and the loops give together: which calls reach the dispatcher, and what
-- a refused approval leaves.
use aiops_control_lab.Base.{
  ◌≡◌, refl, sym, ap, ◌∙◌, subst, Bool-cases, false, String, inl, inr, Option-cases, List, [], ◌∷◌,
  ◌++◌, All, ok, bind_rule,
}
use aiops_control_lab.Domain.Models.{RemediationStep, RemediationPlan, Incident}
use aiops_control_lab.Repository.{get_action_run_by_key}
use aiops_control_lab.App.{App}
use aiops_control_lab.Policy.{is_real_asset}
use aiops_control_lab.Policy.Gate.{Passes, validate-Passes}
use aiops_control_lab.Remediation.{Service, Authorized, authorize, carry_out, approve_and_execute}
use aiops_control_lab.Remediation.Checks.{IsAdmissible, Authorizes, authorize-Authorizes}
use aiops_control_lab.Remediation.Log.{Covers, Logged, Logged-same, carry_out-Logged}

module _ (v : Service) (plan_id approver approved_hash key : String) where
  from_authorized :
      (Q : RemediationStep → Type 0) (s t : App) (a : Authorized)
      → (c : Authorizes v plan_id approved_hash key s (ok a, t)) → All (Covers Q) c.0.steps
      → Logged Q approved_hash s (carry_out v a t).1
  from_authorized Q s t a c h =
      let steps : All (Covers Q) a.plan.steps =
        subst (All (Covers Q)) (sym (ap (λ (z : RemediationPlan). z.steps) c.3)) h in
      let l : Logged Q a.action_run.approved_hash t (carry_out v a t).1 =
        carry_out-Logged Q v a t steps in
      subst (λ hash. Logged Q hash s (carry_out v a t).1) c.5
        (record { more = l.more; log = l.log ∙ ap (λ d. l.more ++ d) c.8; sound = l.sound })

  -- Whatever the dispatcher answers, and also if it raises, an approval calls it only with the hash
  -- that was approved, and only for steps that satisfy `Q`, if `Q` holds of every step of each plan
  -- that the approval is admissible for and of each compensation that such a step names.
  pub approve_and_execute-Logged :
      (Q : RemediationStep → Type 0) (s : App)
      → ((p : RemediationPlan) (i : Incident)
          → IsAdmissible v plan_id approved_hash s p i
          → All (Covers Q) p.steps)
      → Logged Q approved_hash s (approve_and_execute v plan_id approver approved_hash key s).1
  unfolding approve_and_execute
  approve_and_execute-Logged Q s h = elim (Option-cases (get_action_run_by_key key s.repository)) [
    | inr (run, stored) ↦ rw stored (Logged-same Q approved_hash s s refl)
    | inl fresh ↦ rw fresh (
        bind_rule (Authorizes v plan_id approved_hash key s) (λ out. Logged Q approved_hash s out.1)
          (carry_out v) (authorize v plan_id approver approved_hash key s)
          (authorize-Authorizes v plan_id approver approved_hash key s)
          (λ a t c. from_authorized Q s t a c (h c.0 c.1 c.2))
          (λ e t c. Logged-same Q approved_hash s t c.0))
  ]

  -- In `observe_only` an approval makes no call for a real asset, not even a compensation.
  pub observe_only_calls :
      (s : App)
      → v.real_actions_mode ≡ "observe_only"
      → Logged
          (λ x. is_real_asset x.target ≡ false)
          approved_hash
          s
          (approve_and_execute v plan_id approver approved_hash key s).1
  observe_only_calls s observing =
      approve_and_execute-Logged (λ x. is_real_asset x.target ≡ false) s
        (λ p i a. untouched p.steps (validate-Passes v.real_actions_mode p a.gated))
    where
      clear : (x : RemediationStep) → Passes v.real_actions_mode x → is_real_asset x.target ≡ false
      clear x h = elim (Bool-cases (is_real_asset x.target)) [
        | inl r ↦ absurd ((h r).0 observing)
        | inr other ↦ other
      ]

      untouched :
          (steps : List RemediationStep)
          → All (Passes v.real_actions_mode) steps
          → All (Covers (λ x. is_real_asset x.target ≡ false)) steps
      untouched [] h = tt
      untouched (x ∷ xs) h = ((clear x h.0, λ _. clear x h.0), untouched xs h.1)
