-- ===== src/Domain/Hash/Binding.antt =====
-- What the content hash of a plan covers: exactly the fields that an approval is about.
use aiops_control_lab.Base.{
  ◌≡◌, refl, sym, ap, ap₂, ◌∙◌, ◌↔◌, ◌==◌, if◌then◌else◌, String, Option, none, some, List, [], ◌∷◌,
  Dict, arith,
}
use aiops_control_lab.Domain.Enums.{RiskLevel, read_only, low, medium, high, value}
use aiops_control_lab.Domain.Models.{RemediationStep, RemediationPlan}
use aiops_control_lab.Domain.Json.{
  Json, text, arr, obj, cons, Fields, end, field, sort_keys, sort_items, sort_fields, dict_fields,
  optional_text,
}
use aiops_control_lab.Domain.Hash.{
  Digest, step_json, steps_json, plan_json, canonical, content_hash,
}

-- The JSON of the arguments, with the keys in order: what is left when insertion order is forgotten.
abbrev pub arguments_of : Dict String → Fields
arguments_of d = sort_fields (dict_fields d)

-- Two steps that differ at most in the order in which their arguments were inserted.
pub record SameStep (a b : RemediationStep) : Type 0 where
  pub action_type : a.action_type ≡ b.action_type
  pub target : a.target ≡ b.target
  pub arguments : arguments_of a.arguments ≡ arguments_of b.arguments
  pub expected_result : a.expected_result ≡ b.expected_result
  pub rollback_action : a.rollback_action ≡ b.rollback_action
  pub rollback_arguments : arguments_of a.rollback_arguments ≡ arguments_of b.rollback_arguments

abbrev pub SameSteps : List RemediationStep → List RemediationStep → Type 0
SameSteps [] [] = Unit
SameSteps (a ∷ more_a) (b ∷ more_b) = SameStep a b × SameSteps more_a more_b
SameSteps _ _ = ⊥

pub record SameContent (p q : RemediationPlan) : Type 0 where
  pub incident_id : p.incident_id ≡ q.incident_id
  pub summary : p.summary ≡ q.summary
  pub risk : p.risk ≡ q.risk
  pub steps : SameSteps p.steps q.steps

sorted_plan :
    (p : RemediationPlan)
    → sort_keys (plan_json p)
      ≡ obj (
          field "incident_id" (text p.incident_id) (
            field "risk" (text (value p.risk)) (
              field "steps"
                (arr (sort_items (steps_json p.steps)))
                (field "summary" (text p.summary) end))))
unfolding sort_keys plan_json
sorted_plan p = refl

abbrev sorted_form : RemediationStep → Json
sorted_form s = obj (
    field "action_type" (text s.action_type) (
      field "arguments" (obj (arguments_of s.arguments)) (
        field "expected_result" (text s.expected_result) (
          field "rollback_action" (optional_text s.rollback_action) (
            field "rollback_arguments" (obj (arguments_of s.rollback_arguments))
              (field "target" (text s.target) end))))))

sorted_step : (s : RemediationStep) → sort_keys (step_json s) ≡ sorted_form s
unfolding sort_keys step_json optional_text
sorted_step s =
    elim s.rollback_action
      as (λ r.
        sort_keys (step_json (record s { rollback_action = r }))
        ≡ sorted_form (record s { rollback_action = r })) [ none ↦ refl | some t ↦ refl ]

-- `RiskLevel(text)`, to read a level back from its text.
abbrev risk_of : String → RiskLevel
risk_of t =
    if t == "read_only"
    then read_only
    else if t == "low"
    then low
    else if t == "medium"
    then medium
    else high

risk_of-value : (r : RiskLevel) → risk_of (value r) ≡ r
unfolding value
risk_of-value read_only = refl
risk_of-value _ = refl

value_injective : (r s : RiskLevel) → value r ≡ value s → r ≡ s
value_injective r s h = sym (risk_of-value r) ∙ ap risk_of h ∙ risk_of-value s

optional_text_injective : (a b : Option String) → optional_text a ≡ optional_text b → a ≡ b
unfolding optional_text
optional_text_injective none b h = ground arith
optional_text_injective (some t) b h = ground arith

SameStep-of_json :
    (a b : RemediationStep) → sort_keys (step_json a) ≡ sort_keys (step_json b) → SameStep a b
SameStep-of_json a b h =
    let e : sorted_form a ≡ sorted_form b = sym (sorted_step a) ∙ h ∙ sorted_step b in
    record {
      action_type = cc e;
      target = cc e;
      arguments = cc e;
      expected_result = cc e;
      rollback_action = optional_text_injective a.rollback_action b.rollback_action (cc e);
      rollback_arguments = cc e;
    }

json_of_SameStep :
    (a b : RemediationStep) → SameStep a b → sort_keys (step_json a) ≡ sort_keys (step_json b)
json_of_SameStep a b h =
    sorted_step a
    ∙ cc (
      h.action_type, h.target, h.arguments, h.expected_result, h.rollback_action,
      h.rollback_arguments,
    )
    ∙ sym (sorted_step b)

SameSteps-of_json :
    (a b : List RemediationStep)
    → sort_items (steps_json a) ≡ sort_items (steps_json b)
    → SameSteps a b
unfolding steps_json sort_keys
SameSteps-of_json [] [] h = tt
SameSteps-of_json [] (y ∷ b) h = cc
SameSteps-of_json (x ∷ a) [] h = cc
SameSteps-of_json (x ∷ a) (y ∷ b) h = (SameStep-of_json x y (cc h), SameSteps-of_json a b (cc h))

json_of_SameSteps :
    (a b : List RemediationStep)
    → SameSteps a b
    → sort_items (steps_json a) ≡ sort_items (steps_json b)
unfolding steps_json sort_keys
json_of_SameSteps [] [] h = refl
json_of_SameSteps [] (y ∷ b) h = absurd h
json_of_SameSteps (x ∷ a) [] h = absurd h
json_of_SameSteps (x ∷ a) (y ∷ b) h =
    ap₂ cons (json_of_SameStep x y h.0) (json_of_SameSteps a b h.1)

SameContent-of_json :
    (p q : RemediationPlan) → sort_keys (plan_json p) ≡ sort_keys (plan_json q) → SameContent p q
SameContent-of_json p q h =
    let e = sym (sorted_plan p) ∙ h ∙ sorted_plan q in
    record {
      incident_id = cc e;
      summary = cc e;
      risk = value_injective p.risk q.risk (cc e);
      steps = SameSteps-of_json p.steps q.steps (cc e);
    }

json_of_SameContent :
    (p q : RemediationPlan) → SameContent p q → sort_keys (plan_json p) ≡ sort_keys (plan_json q)
json_of_SameContent p q h =
    sorted_plan p
    ∙ cc (h.incident_id, h.summary, h.risk, json_of_SameSteps p.steps q.steps h.steps)
    ∙ sym (sorted_plan q)

-- The content hashes of two plans are equal exactly when the plans have the same incident, summary,
-- risk and steps, the arguments of a step compared without the order of their insertion. It is
-- assumed that `json.dumps` prints the two plans differently if they differ as JSON with sorted keys,
-- and that the two printed texts are no collision of SHA-256. So neither the status nor the times of a plan enter its hash, and no
-- covered field can be exchanged after the approval.
pub content_hash_binding :
    (d : Digest) (p q : RemediationPlan)
    → (canonical d p ≡ canonical d q → sort_keys (plan_json p) ≡ sort_keys (plan_json q))
    → (content_hash d p ≡ content_hash d q → canonical d p ≡ canonical d q)
    → (content_hash d p ≡ content_hash d q) ↔ SameContent p q
unfolding content_hash canonical
content_hash_binding d p q printing no_collision = (
  λ h. SameContent-of_json p q (printing (no_collision h)),
  λ h. ap d.sha256_hex (ap d.print_json (json_of_SameContent p q h)),
)
