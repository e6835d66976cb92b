-- ===== src/Gateway/Visitors.antt =====
-- What a visitor without the administrator's token can set off.
use aiops_control_lab.Base.{
  ◌≡◌, refl, subst, String, Bool-cases, true, false, ◌&&◌, ◌==◌, starts_with, inl, inr, Option,
  Option-cases, List, [], ◌∷◌, any, All, ok, arith,
}
use aiops_control_lab.Domain.Models.{RemediationStep, RemediationPlan}
use aiops_control_lab.Repository.{get_plan}
use aiops_control_lab.App.{App}
use aiops_control_lab.Policy.{is_real_asset}
use aiops_control_lab.Remediation.Log.{Covers, Logged, Logged-same}
use aiops_control_lab.Remediation.Safety.{approve_and_execute-Logged}
use aiops_control_lab.Gateway.{Gateway, is_admin, is_outside, must_be_admin, approve_plan}

-- A step about the laboratory.
abbrev pub IsInside : RemediationStep → Type 0
IsInside x = starts_with x.target "lab-" ≡ true

steps-IsInside :
    (steps : List RemediationStep) → any is_outside steps ≡ false → All (Covers IsInside) steps
steps-IsInside [] h = tt
steps-IsInside (x ∷ xs) h =
    ((ground (arith, h), λ _. ground (arith, h)), steps-IsInside xs (ground (arith, h)))

module _ (g : Gateway) (header : Option String) (plan_id approver approved_hash key : String) where
  -- A visitor's approval calls the dispatcher only for steps whose target begins with `lab-` and with
  -- the hash that was approved, whatever the answers are and also if the call raises.
  pub approve_plan_visitor :
      (s : App)
      → is_admin g header ≡ ok false
      → Logged IsInside approved_hash s
          (approve_plan g header plan_id approver approved_hash key s).1
  unfolding approve_plan must_be_admin
  approve_plan_visitor s visitor = elim (Option-cases (get_plan plan_id s.repository)) [
    | inl missing ↦ rw missing (Logged-same IsInside approved_hash s s refl)
    | inr (plan, known) ↦
        elim (Bool-cases (
          any (λ step. is_real_asset step.target) plan.steps
          && g.service.real_actions_mode == "observe_only")) [
            | inl observing ↦ rw (known, observing) (Logged-same IsInside approved_hash s s refl)
            | inr allowed ↦ elim (Bool-cases (any is_outside plan.steps)) [
              | inl outside ↦
                  rw (known, allowed, outside, visitor)
                    (Logged-same IsInside approved_hash s s refl)
              | inr inside ↦
                  rw (known, allowed, inside)
                    (approve_and_execute-Logged g.service plan_id approver approved_hash key
                      IsInside s
                      (λ p i a.
                        let same : plan ≡ p = ground (arith, known, a.plan) in
                        subst (λ (q : RemediationPlan). All (Covers IsInside) q.steps) same
                          (steps-IsInside plan.steps inside)))
            ]
          ]
  ]
