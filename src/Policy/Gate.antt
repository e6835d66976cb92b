-- ===== src/Policy/Gate.antt =====
-- What the policy lets through.
use aiops_control_lab.Base.{
  ◌≡◌, ◌≢◌, refl, ◌↔◌, ◌==◌, eq_iff, inl, inr, String, Bool-cases, true, not, List, [], ◌∷◌, keep,
  is_empty, All, ok,
}
use aiops_control_lab.Domain.Models.{RemediationStep, RemediationPlan}
use aiops_control_lab.Policy.{is_real_asset, is_read_only, validate}

-- A step that the gate of the mode lets pass: on a real asset nothing passes in `observe_only`, and
-- in every other mode only a read-only action does.
abbrev pub Passes : String → RemediationStep → Type 0
Passes mode step =
    is_real_asset step.target ≡ true
    → (mode ≢ "observe_only") × (is_read_only step.action_type ≡ true)

abbrev real : List RemediationStep → List RemediationStep
real = keep (λ step. is_real_asset step.target)

abbrev writes : List RemediationStep → List RemediationStep
writes = keep (λ step. not (is_read_only step.action_type))

Passes-of_kept :
    (mode : String) (steps : List RemediationStep)
    → mode ≢ "observe_only"
    → is_empty (writes (real steps)) ≡ true
    → All (Passes mode) steps
Passes-of_kept mode [] gated h = tt
Passes-of_kept mode (x ∷ xs) gated h = elim (Bool-cases (is_real_asset x.target)) [
  | inl real ↦ elim (Bool-cases (is_read_only x.action_type)) [
    | inl ro ↦ ((λ _. (gated, ro)), Passes-of_kept mode xs gated (rw (real, ro) at h))
    | inr write ↦ absurd (cc (rw (real, write) at h))
  ]
  | inr other ↦ ((λ e. absurd (cc (other, e))), Passes-of_kept mode xs gated (rw other at h))
]

Passes-of_none :
    (mode : String) (steps : List RemediationStep)
    → is_empty (real steps) ≡ true
    → All (Passes mode) steps
Passes-of_none mode [] h = tt
Passes-of_none mode (x ∷ xs) h = elim (Bool-cases (is_real_asset x.target)) [
  | inl real ↦ absurd (cc (rw real at h))
  | inr other ↦ ((λ e. absurd (cc (other, e))), Passes-of_none mode xs (rw other at h))
]

-- A validated plan has only steps that pass the gate of the mode.
pub validate-Passes :
    (mode : String) (plan : RemediationPlan)
    → validate mode plan ≡ ok tt
    → All (Passes mode) plan.steps
unfolding validate
validate-Passes mode plan h = elim (Bool-cases (is_empty (real plan.steps))) [
  | inl free ↦ Passes-of_none mode plan.steps free
  | inr some_real ↦ elim (Bool-cases (mode == "observe_only")) [
    | inl observing ↦ absurd (cc (rw (some_real, observing) at h))
    | inr gated ↦ elim (Bool-cases (is_empty (writes (real plan.steps)))) [
      | inl clean ↦
          Passes-of_kept mode plan.steps (λ e. cc (gated, (eq_iff mode "observe_only").1 e)) clean
      | inr denied ↦ absurd (cc (rw (some_real, gated, denied) at h))
    ]
  ]
]

writes_of_Passes :
    (mode : String) (steps : List RemediationStep)
    → All (Passes mode) steps
    → is_empty (writes (real steps)) ≡ true
writes_of_Passes mode [] h = refl
writes_of_Passes mode (x ∷ xs) h = elim (Bool-cases (is_real_asset x.target)) [
  | inl r ↦ rw (r, (h.0 r).1) (writes_of_Passes mode xs h.1)
  | inr other ↦ rw other (writes_of_Passes mode xs h.1)
]

observed_of_Passes :
    (mode : String) (steps : List RemediationStep)
    → All (Passes mode) steps
    → (mode == "observe_only") ≡ true
    → is_empty (real steps) ≡ true
observed_of_Passes mode [] h observing = refl
observed_of_Passes mode (x ∷ xs) h observing = elim (Bool-cases (is_real_asset x.target)) [
  | inl r ↦ absurd ((h.0 r).0 ((eq_iff mode "observe_only").0 observing))
  | inr other ↦ rw other (observed_of_Passes mode xs h.1 observing)
]

-- The policy accepts a plan exactly if every step passes the gate of the mode: no step on a real
-- asset in `observe_only`, and only read-only actions on real assets in every other mode.
pub validate_iff_Passes :
    (mode : String) (plan : RemediationPlan)
    → (validate mode plan ≡ ok tt) ↔ All (Passes mode) plan.steps
unfolding validate
validate_iff_Passes mode plan = (
  validate-Passes mode plan,
  λ h. elim (Bool-cases (is_empty (real plan.steps))) [
    | inl free ↦ rw free
    | inr some_real ↦ elim (Bool-cases (mode == "observe_only")) [
      | inl observing ↦ absurd (cc (some_real, observed_of_Passes mode plan.steps h observing))
      | inr gated ↦ rw (some_real, gated, writes_of_Passes mode plan.steps h)
    ]
  ],
)
